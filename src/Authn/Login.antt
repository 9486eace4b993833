-- ===== src/Authn/Login.antt =====
-- Signing in with a password: validateUser of authn.service.ts and the local strategy.
use security_scan.Prelude.Outcome.{ok}
use security_scan.Prelude.{
  ℕ, String, ◌≡◌, refl, sym, ap, ◌∙◌, ◌↔◌, Bool, true, false, Option, none, some, arith,
  Option-cases, inl, inr,
}
use security_scan.Authz.{User}
use security_scan.Authz.Casl.{Casl}
use security_scan.Users.Table.{UserTable}
use security_scan.Users.{Bcrypt}
use security_scan.Authn.{checked, logged_in, validate_user, or_unauthorized, validate_local}

module _ (casl : Casl) (bcrypt : Bcrypt) (table : UserTable) where
  open table use {State, find_by_email}

  -- The account of the address has that password.
  abbrev pub Knows : State → String → String → User → Type 0
  Knows s email password user =
      (find_by_email s email ≡ some user)
      × (bcrypt.compare password user.encrypted_password ≡ some true)

  checked_inv :
      (now : ℕ) (user u : User) (o : Option Bool) (s : State)
      → (or_unauthorized casl bcrypt table (checked casl bcrypt table now user o s)).1 ≡ ok u
      → (o ≡ some true) × (u ≡ logged_in casl bcrypt table now user)
  checked_inv now user u none s h = absurd (ground (arith, h))
  checked_inv now user u (some false) s h = absurd (ground (arith, h))
  checked_inv now user u (some true) s h = (refl, ground (arith, h))

  signed_in :
      (now : ℕ) (email password : String) (s : State) (u : User)
      → (validate_local casl bcrypt table now email password s).1 ≡ ok u
      → (user : User) × Knows s email password user × (u ≡ logged_in casl bcrypt table now user)
  unfolding validate_local validate_user
  signed_in now email password s u h = elim (Option-cases (find_by_email s email)) [
    | inl e ↦ absurd (ground (arith, rw (e, validate_local, validate_user) at h))
    | inr (user, e) ↦
        (let (right, made) =
            checked_inv now user u (bcrypt.compare password user.encrypted_password) s
              (rw (e, validate_local, validate_user) at h) in
          (user, (e, right), made))
  ]

  signs_in :
      (now : ℕ) (email password : String) (s : State) (user : User)
      → Knows s email password user
      → (validate_local casl bcrypt table now email password s).1
        ≡ ok (logged_in casl bcrypt table now user)
  unfolding validate_local validate_user
  signs_in now email password s user (found, right) =
      rw (found, validate_local, validate_user, right) refl

  -- A sign-in with an address and a password succeeds exactly for the account of that address if the
  -- password is its own, and gives this account with one more login at this time.
  pub validate_local_iff :
      (now : ℕ) (email password : String) (s : State) (u : User)
      → ((validate_local casl bcrypt table now email password s).1 ≡ ok u)
        ↔ ((user : User) × Knows s email password user × (u ≡ logged_in casl bcrypt table now user))
  validate_local_iff now email password s u = (
    signed_in now email password s u,
    λ (user, knows, made). signs_in now email password s user knows ∙ ap ok (sym made),
  )
