-- ===== src/Authn.antt =====
-- heimdall2-master/apps/backend/src/authn: authn.service.ts and the `validate` functions of the
-- strategies, which passport calls with what a provider says of a user. A password of random bytes
-- and the time are arguments. `save` and updateLoginMetadata are not waited for: if one fails, the
-- table stays and the user is returned all the same.
pub mod Names
pub mod Login
pub mod Providers
use Prim.Native.Char.{code}
use Prim.Native.String.{◌++◌ as text_append}
use security_scan.Prelude.Outcome.{Outcome, ok, throw, unauthorized, not_found, internal_error}
use security_scan.Prelude.Handler.{Handler}
use security_scan.Prelude.{
  ℕ, ◌+◌, String, Bool, true, false, ◌&&◌, ◌||◌, not, Option, none, some, List, [], ◌∷◌, str_eq,
  if◌then◌else◌, ◌==◌,
}
use security_scan.Authz.{User}
use security_scan.Authz.Casl.{Casl}
use security_scan.Users.Table.{UserTable}
use security_scan.Users.{Bcrypt, CreateUserDto, create_user}

-- The first word of a split grows by a character.
abbrev pub push_char : Prim.Native.Char.Char → List String → List String
push_char c [] = String.◌∷◌ c String.[] ∷ []
push_char c (w ∷ ws) = String.◌∷◌ c w ∷ ws

-- `split(' ')`
unfoldable pub split_spaces : String → List String
split_spaces String.[] = "" ∷ []
split_spaces (String.◌∷◌ c s) =
    let rest = split_spaces s in if code c == b' ' then "" ∷ rest else push_char c rest

-- `join(' ')`
abbrev pub join_spaces : List String → String
join_spaces [] = ""
join_spaces (w ∷ []) = w
join_spaces (w ∷ v ∷ ws) = text_append w (text_append " " (join_spaces (v ∷ ws)))

-- `slice(0, -1)`, and the last element
abbrev pub all_but_last : List String → List String
all_but_last [] = []
all_but_last (w ∷ []) = []
all_but_last (w ∷ v ∷ ws) = w ∷ all_but_last (v ∷ ws)

abbrev pub last_word : List String → String
last_word [] = ""
last_word (w ∷ []) = w
last_word (w ∷ v ∷ ws) = last_word (v ∷ ws)

pub record FullName : Type 0 where
  pub first_name : String
  pub last_name : String

unfoldable pub split_name : String → FullName
unfolding split_spaces
split_name full = record {
  first_name = join_spaces (all_but_last (split_spaces full));
  last_name = last_word (split_spaces full);
}

-- What the token holds.
pub record Payload : Type 0 where
  pub email : String
  pub sub : String
  pub role : String
  pub force_password_change : Bool

pub record Session : Type 0 where
  pub user_id : String
  pub access_token : String

-- login; `sign` is that of @nestjs/jwt, with the time of expiry in seconds if it is given
unfoldable pub login : (Payload → Option ℕ → String) → User → Session
login sign user =
    let payload : Payload = record {
      email = user.email;
      sub = user.id;
      role = user.role;
      force_password_change = user.force_password_change;
    } in
    record {
      user_id = user.id;
      access_token = sign payload (if user.force_password_change then some 600 else none);
    }

abbrev pub same_name : Option String → String → Bool
same_name none s = false
same_name (some t) s = str_eq t s

pub record Email : Type 0 where
  pub value : String
  pub verified : Bool

module _ (casl : Casl) (bcrypt : Bcrypt) (table : UserTable) where
  open table use {State, find_by_email, save}

  abbrev pub kept : State → Outcome State → State
  kept s (ok t) = t
  kept s (throw e) = s

  abbrev pub logged_in : ℕ → User → User
  logged_in now user = record user { last_login = some now; login_count = user.login_count + 1 }

  -- `this.usersService.updateLoginMetadata(user)`, and the user that it changes
  unfoldable pub sign_in : ℕ → User → Handler State User
  sign_in now user s = (kept s (save s (logged_in now user)), ok (logged_in now user))

  abbrev pub checked : ℕ → User → Option Bool → Handler State (Option User)
  checked now user none s = (s, throw internal_error)
  checked now user (some false) s = (s, ok none)
  checked now user (some true) s =
      (kept s (save s (logged_in now user)), ok (some (logged_in now user)))

  -- validateUser
  unfoldable pub validate_user : ℕ → String → String → Handler State (Option User)
  validate_user now email password s = elim (find_by_email s email) [
    | none ↦ (s, throw unauthorized)
    | some user ↦ checked now user (bcrypt.compare password user.encrypted_password) s
  ]

  abbrev pub or_unauthorized : State × Outcome (Option User) → State × Outcome User
  or_unauthorized (s, throw e) = (s, throw e)
  or_unauthorized (s, ok none) = (s, throw unauthorized)
  or_unauthorized (s, ok (some user)) = (s, ok user)

  -- LocalStrategy.validate
  unfoldable pub validate_local : ℕ → String → String → Handler State User
  validate_local now email password s = or_unauthorized (validate_user now email password s)

  -- The part of validateOrCreateUser after the user is there.
  unfoldable pub refresh : ℕ → String → String → User → Handler State User
  unfolding sign_in
  refresh now first last user s =
      if not (same_name user.first_name first) || not (same_name user.last_name last)
      then (let renamed : User = record user { first_name = some first; last_name = some last } in
          sign_in now renamed (kept s (save s renamed)))
      else sign_in now user s

  abbrev pub new_user : String → String → String → String → String → CreateUserDto
  new_user random_pass email first last method = record {
    email = email;
    password = random_pass;
    first_name = some first;
    last_name = some last;
    organization = some "";
    title = some "";
    role = "user";
    creation_method = method;
  }

  abbrev pub find_again : ℕ → String → String → String → State × Outcome User → State × Outcome User
  find_again now email first last (s, throw e) = (s, throw e)
  find_again now email first last (s, ok created) = elim (find_by_email s email) [
    | none ↦ (s, throw not_found)
    | some user ↦ refresh now first last user s
  ]

  -- validateOrCreateUser
  unfoldable pub validate_or_create_user :
      ℕ → String → String → String → String → String → Handler State User
  validate_or_create_user now random_pass email first last method s = elim (find_by_email s email) [
    | some user ↦ refresh now first last user s
    | none ↦
        find_again now email first last
          (create_user casl bcrypt table (new_user random_pass email first last method) s)
  ]

  abbrev pub with_verified : Email → (String → Handler State User) → Handler State User
  with_verified email rest s =
      if email.verified then rest email.value s else (s, throw unauthorized)

  abbrev pub with_first : {A : Type 0} → List A → (A → Handler State User) → Handler State User
  with_first [] rest s = (s, throw internal_error)
  with_first (x ∷ xs) rest s = rest x s

  -- `validate` of the strategies: an empty list of emails makes `emails[0]` undefined
  unfoldable pub validate_github : ℕ → String → String → List Email → Handler State User
  unfolding split_name
  validate_github now random_pass name emails = with_first emails λ email.
      with_verified email λ address.
        validate_or_create_user now random_pass address (split_name name).first_name
          (split_name name).last_name "github"

  unfoldable pub validate_gitlab : ℕ → String → String → List String → Handler State User
  unfolding split_name
  validate_gitlab now random_pass display_name emails = with_first emails λ address.
      validate_or_create_user now random_pass address (split_name display_name).first_name
        (split_name display_name).last_name "gitlab"

  unfoldable pub validate_google : ℕ → String → String → String → List Email → Handler State User
  validate_google now random_pass given_name family_name emails = with_first emails λ email.
      with_verified email
        λ address. validate_or_create_user now random_pass address given_name family_name "google"

  unfoldable pub validate_okta : ℕ → String → String → String → Email → Handler State User
  validate_okta now random_pass given_name family_name email =
      with_verified email
        λ address. validate_or_create_user now random_pass address given_name family_name "okta"

  unfoldable pub validate_oidc : ℕ → String → String → String → Email → Handler State User
  validate_oidc now random_pass given_name family_name email =
      with_verified email
        λ address. validate_or_create_user now random_pass address given_name family_name "oidc"

  -- the name and the address under the keys that are configured
  unfoldable pub validate_ldap : ℕ → String → String → String → Handler State User
  unfolding split_name
  validate_ldap now random_pass name address =
      validate_or_create_user now random_pass address (split_name name).first_name
        (split_name name).last_name "ldap"
