-- ===== src/Users/Success.antt =====
-- When PUT users/:id succeeds: users.service.ts and users.controller.ts.
use security_scan.Prelude.Outcome.{ok}
use security_scan.Prelude.{
  ℕ, String, ◌≡◌, refl, ◌⊎◌, inl, inr, Bool, true, false, ◌&&◌, not, some, arith, str_eq,
}
use security_scan.Authz.{User, update, update_no_password, a_user}
use security_scan.Authz.Casl.{Casl}
use security_scan.Authz.Permissions.{allows, allows-a_user}
use security_scan.Users.Table.{UserTable}
use security_scan.Users.{
  Bcrypt, UpdateUserDto, is_missing, test_password, with_password, with_columns, write_update,
  update_user, put_user,
}
use security_scan.Users.Update.{Oversees, OwnsWithPassword}

module _ (casl : Casl) (bcrypt : Bcrypt) (table : UserTable) where
  open table use {State, find_by_pk, save}

  -- The user with a new password, as `update` leaves it before the other columns.
  abbrev pub with_hash : ℕ → String → User → User
  with_hash now hashed user = record user {
    encrypted_password = hashed;
    password_changed_at = some now;
    force_password_change = false;
  }

  permitted :
      (actor user : User) (dto : UpdateUserDto)
      → Oversees casl bcrypt table actor user ⊎ OwnsWithPassword casl bcrypt table actor user dto
      → (allows casl actor update (a_user user) ≡ true)
        × ((not (allows casl actor update_no_password (a_user user))
              && not (test_password casl bcrypt table dto user))
            ≡ false)
  unfolding test_password
  permitted actor user dto (inl (admin, other)) = (
    ground (arith, allows-a_user casl actor user update),
    ground (arith, allows-a_user casl actor user update_no_password),
  )
  permitted actor user dto (inr (own, knows)) =
      (ground (arith, allows-a_user casl actor user update), rw knows (and_false _))
    where
      and_false : (b : Bool) → (not b && not true) ≡ false
      and_false true = refl
      and_false false = refl

  hashed_password :
      (now : ℕ) (dto : UpdateUserDto) (user : User) (password hashed : String)
      → dto.password ≡ some password
      → str_eq password "" ≡ false
      → bcrypt.hash password ≡ some hashed
      → (with_password casl bcrypt table now dto user ≡ some (with_hash now hashed user))
        × (is_missing dto.password ≡ false)
  unfolding with_password
  hashed_password now dto user password hashed given filled h = rw (given, filled, h) (refl, refl)

  -- A PUT users/:id with a new password that is not empty succeeds and writes the hash of that
  -- password and the other columns, if the account is found, the actor is an administrator and the
  -- account another's, or it is the actor's own and the current password was given, and neither the
  -- hash nor the table fails.
  pub put_user_succeeds :
      (now : ℕ) (actor user : User) (id : String) (dto : UpdateUserDto) (password hashed : String)
      (s t : State)
      → find_by_pk s id ≡ some user
      → Oversees casl bcrypt table actor user ⊎ OwnsWithPassword casl bcrypt table actor user dto
      → dto.password ≡ some password
      → str_eq password "" ≡ false
      → bcrypt.hash password ≡ some hashed
      → save s (with_columns casl bcrypt table actor dto (with_hash now hashed user)) ≡ ok t
      → put_user casl bcrypt table now actor id dto s
        ≡ (t, ok (with_columns casl bcrypt table actor dto (with_hash now hashed user)))
  unfolding put_user update_user write_update
  put_user_succeeds now actor user id dto password hashed s t found may given filled h wrote =
      let (allowed, checked) = permitted actor user dto may in
      let (written, present) = hashed_password now dto user password hashed given filled h in
      rw (found, put_user, allowed, update_user, checked, present, write_update, written, wrote)
        refl
