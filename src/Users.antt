-- ===== src/Users.antt =====
-- heimdall2-master/apps/backend/src/users/users.service.ts and users.controller.ts: reading, updating
-- and deleting accounts. The state is that of the database; every handler takes it and gives the
-- next one back, beside a result or an exception. What was written before an exception stays.
pub mod Clear
pub mod Table
pub mod Update
pub mod Remove
pub mod Success
use security_scan.Prelude.Outcome.{
  Outcome, ok, throw, Exception, bad_request, forbidden, not_found, internal_error,
}
use security_scan.Prelude.{
  ℕ, ◌+◌, String, Bool, true, false, ◌&&◌, ◌||◌, not, Option, none, some, List, [], ◌∷◌, str_eq,
  ltb, if◌then◌else◌,
}
use security_scan.Authz.{
  User, Action, read, read_all, read_slim, update, delete, update_no_password, delete_no_password,
  skip_force_password_change, update_role, force_registration, Subject, class, a_user, user_type,
  is_admin, create_for_anonymous,
}
use security_scan.Authz.Casl.{Casl}
use security_scan.Authz.Permissions.{allows}
use security_scan.Users.Table.{UserTable, NewUser}

-- bcryptjs: `compare` and `hash` may reject, which is `none`.
pub record Bcrypt : Type 0 where
  pub compare : String → String → Option Bool
  pub hash : String → Option String

pub record UpdateUserDto : Type 0 where
  pub email : Option String
  pub first_name : Option String
  pub last_name : Option String
  pub organization : Option String
  pub title : Option String
  pub role : Option String
  pub password : Option String
  pub force_password_change : Option Bool
  pub current_password : Option String

pub record CreateUserDto : Type 0 where
  pub email : String
  pub password : String
  pub first_name : Option String
  pub last_name : Option String
  pub organization : Option String
  pub title : Option String
  pub role : String
  pub creation_method : String

-- `x || y` on strings that may be missing
abbrev pub or_else : Option String → Option String → Option String
or_else none d = d
or_else (some s) d = if str_eq s "" then d else some s

abbrev pub or_string : Option String → String → String
or_string none d = d
or_string (some s) d = if str_eq s "" then d else s

-- `x || false` on a Boolean that may be missing
abbrev pub or_bool : Option Bool → Bool → Bool
or_bool none d = d
or_bool (some b) d = b || d

-- the test of a string as a condition
abbrev pub truthy : Option String → Bool
truthy none = false
truthy (some s) = not (str_eq s "")

abbrev pub is_missing : Option String → Bool
is_missing none = true
is_missing (some s) = false

-- What a failing or rejecting comparison amounts to in both of its uses.
abbrev pub accepted : Option Bool → Bool
accepted none = false
accepted (some b) = b

module _ (casl : Casl) (bcrypt : Bcrypt) (table : UserTable) where
  open table use {State, find_by_pk, find_all, count_where, insert, save, destroy}

  -- A handler: the next state, and a result or an exception.
  abbrev pub Handler : Type 0 → Type 0
  Handler A = State → State × Outcome A

  -- findByPkBang
  unfoldable pub find_by_pk_bang : String → Handler User
  find_by_pk_bang id s = elim (find_by_pk s id) [
    | none ↦ (s, throw not_found)
    | some user ↦ (s, ok user)
  ]

  -- testPassword: whether it returns, or throws `forbidden`
  unfoldable pub test_password : UpdateUserDto → User → Bool
  test_password dto user =
      accepted (bcrypt.compare (or_string dto.current_password "") user.encrypted_password)

  -- The part of `update` that writes the password: `none` if the hash rejects.
  unfoldable pub with_password : ℕ → UpdateUserDto → User → Option User
  with_password now dto user =
      if truthy dto.password
      then elim (bcrypt.hash (or_string dto.password "")) [
        | none ↦ none
        | some h ↦ some (record user {
          encrypted_password = h;
          password_changed_at = some now;
          force_password_change = false;
        })
      ]
      else some user

  -- The parts of `update` that write the other columns. `may` tells whether roles may be changed.
  unfoldable pub with_names : UpdateUserDto → User → User
  with_names dto user = record user {
    email = or_string dto.email user.email;
    first_name = or_else dto.first_name user.first_name;
    last_name = or_else dto.last_name user.last_name;
    title = or_else dto.title user.title;
    organization = or_else dto.organization user.organization;
  }

  unfoldable pub with_role : Bool → UpdateUserDto → User → User
  with_role may dto user = record user {
    role = if may then or_string dto.role user.role else user.role;
    force_password_change = or_bool dto.force_password_change user.force_password_change;
  }

  unfoldable pub with_columns : User → UpdateUserDto → User → User
  unfolding with_names with_role
  with_columns actor dto user =
      let named = with_names dto user in
      with_role (allows casl actor update_role (a_user named)) dto named

  abbrev pub saved : State → User → Outcome State → State × Outcome User
  saved s user (ok s') = (s', ok user)
  saved s user (throw e) = (s, throw e)

  -- the rest of `update`, once the user is known to be allowed to make it
  unfoldable pub write_update : ℕ → User → UpdateUserDto → User → Handler User
  write_update now actor dto user s = elim (with_password now dto user) [
    | none ↦ (s, throw internal_error)
    | some user' ↦ (let user'' = with_columns actor dto user' in saved s user'' (save s user''))
  ]

  -- UsersService.update; the ability is that of `actor`
  unfoldable pub update_user : ℕ → User → User → UpdateUserDto → Handler User
  update_user now actor user dto s =
      if not (allows casl actor update_no_password (a_user user)) && not (test_password dto user)
      then (s, throw forbidden)
      else if is_missing dto.password
          && (user.force_password_change
              && not (allows casl actor skip_force_password_change (a_user user)))
      then (s, throw bad_request)
      else write_update now actor dto user s

  -- UsersService.remove
  unfoldable pub remove_user : User → User → Option String → Handler User
  remove_user actor user password s =
      if not (allows casl actor delete_no_password (a_user user))
        && not (accepted (bcrypt.compare (or_string password "") user.encrypted_password))
      then (s, throw forbidden)
      else if is_admin user && ltb (count_where s is_admin) 2
      then (s, throw forbidden)
      else (destroy s user, ok user)

  -- UsersService.create
  unfoldable pub create_user : CreateUserDto → Handler User
  create_user dto s = elim (bcrypt.hash dto.password) [
    | none ↦ (s, throw bad_request)
    | some h ↦ insert s (record {
      email = dto.email;
      first_name = or_else dto.first_name none;
      last_name = or_else dto.last_name none;
      title = or_else dto.title none;
      organization = or_else dto.organization none;
      role = dto.role;
      creation_method = dto.creation_method;
      encrypted_password = h;
    })
  ]

  -- UsersService.updateLoginMetadata
  unfoldable pub update_login_metadata : ℕ → User → Handler User
  update_login_metadata now user s =
      let user' = record user { last_login = some now; login_count = user.login_count + 1 } in
      saved s user' (save s user')

  -- The controller. `actor` is the user of the request; the pipes on the body are modelled in Pipes.

  abbrev pub throw_unless : {A : Type 0} → Bool → Handler A → Handler A
  throw_unless allowed rest s = if allowed then rest s else (s, throw forbidden)

  -- GET :id
  unfoldable pub get_user : User → String → Handler User
  get_user actor id s = elim (find_by_pk s id) [
    | none ↦ (s, throw not_found)
    | some user ↦ throw_unless (allows casl actor read (a_user user)) (λ t. (t, ok user)) s
  ]

  -- GET /user-find-all, before each user is cut down to the slim form
  unfoldable pub get_all_users : User → Handler (List User)
  get_all_users actor s =
      throw_unless (allows casl actor read_slim (class user_type)) (λ t. (t, ok (find_all t))) s

  -- GET /
  unfoldable pub get_all_users_as_admin : User → Handler (List User)
  get_all_users_as_admin actor s =
      throw_unless (allows casl actor read_all (class user_type)) (λ t. (t, ok (find_all t))) s

  abbrev may_register : Option User → Bool
  may_register none = casl.can create_for_anonymous force_registration (class user_type)
  may_register (some actor) = allows casl actor force_registration (class user_type)

  -- POST /
  unfoldable pub post_user : Bool → Option User → CreateUserDto → Handler User
  post_user registration_allowed actor dto s =
      throw_unless (registration_allowed || may_register actor) (create_user dto) s

  -- PUT :id
  unfoldable pub put_user : ℕ → User → String → UpdateUserDto → Handler User
  put_user now actor id dto s = elim (find_by_pk s id) [
    | none ↦ (s, throw not_found)
    | some user ↦
        throw_unless (allows casl actor update (a_user user)) (update_user now actor user dto) s
  ]

  -- DELETE :id
  unfoldable pub delete_user : User → String → Option String → Handler User
  delete_user actor id password s = elim (find_by_pk s id) [
    | none ↦ (s, throw not_found)
    | some user ↦
        throw_unless (allows casl actor delete (a_user user)) (remove_user actor user password) s
  ]
