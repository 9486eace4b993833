-- ===== src/Authn/Providers.antt =====
-- Signing in through a provider: validateOrCreateUser of authn.service.ts and the strategies.
use security_scan.Prelude.Outcome.{Outcome, ok, throw}
use security_scan.Prelude.{
  ℕ, String, ◌≡◌, refl, ap, ◌∙◌, ◌⊎◌, inl, inr, ◌||◌, not, none, some, arith, Bool-cases,
  Option-cases,
}
use security_scan.Authz.{User}
use security_scan.Authz.Casl.{Casl}
use security_scan.Users.Table.{UserTable}
use security_scan.Users.{Bcrypt, create_user}
use security_scan.Authn.{same_name, refresh, new_user, find_again, validate_or_create_user}

module _ (casl : Casl) (bcrypt : Bcrypt) (table : UserTable) where
  open table use {State, find_by_email, insert, insert_lem}

  -- Signing in leaves the identity, the role and the password as they were.
  abbrev pub SameAccount : User → User → Type 0
  SameAccount u user =
      (u.id ≡ user.id)
      × (u.email ≡ user.email)
      × (u.role ≡ user.role)
      × (u.encrypted_password ≡ user.encrypted_password)

  refresh-SameAccount :
      (now : ℕ) (first last : String) (user u : User) (s t : State)
      → refresh casl bcrypt table now first last user s ≡ (t, ok u)
      → SameAccount u user
  unfolding refresh
  refresh-SameAccount now first last user u s t h =
      elim (Bool-cases
        (not (same_name user.first_name first) || not (same_name user.last_name last))) [
          | inl e ↦ ground (arith, rw (e, refresh) at h)
          | inr e ↦ ground (arith, rw (e, refresh) at h)
        ]

  created_role :
      (random_pass email first last method : String) (s t : State) (u : User)
      → create_user casl bcrypt table
          (new_user casl bcrypt table random_pass email first last method)
          s
        ≡ (t, ok u)
      → (u.role ≡ "user") × (find_by_email t email ≡ some u)
  unfolding create_user
  created_role random_pass email first last method s t u h =
      elim (Option-cases (bcrypt.hash random_pass)) [
        | inl e ↦ absurd (ground (arith, rw (e, create_user) at h))
        | inr (hashed, e) ↦
            (let ((id, made), found) = insert_lem s t _ u (rw (e, create_user) at h) in
              (ap (λ v. v.role) made, found))
      ]

  find_again_inv :
      (now : ℕ) (email first last : String) (r : State × Outcome User) (t : State) (u : User)
      → find_again casl bcrypt table now email first last r ≡ (t, ok u)
      → (mid : State) × (created : User) × (user : User) × (r ≡ (mid, ok created))
        × (find_by_email mid email ≡ some user)
        × (refresh casl bcrypt table now first last user mid ≡ (t, ok u))
  find_again_inv now email first last (mid, throw e) t u h = absurd (ground (arith, h))
  find_again_inv now email first last (mid, ok created) t u h =
      elim (Option-cases (find_by_email mid email)) [
        | inl e ↦ absurd (ground (arith, rw (e, find_again) at h))
        | inr (user, e) ↦ (mid, created, user, refl, e, rw (e, find_again) at h)
      ]

  -- A sign-in through a provider that succeeds gives the account that the address had, with its
  -- identity, role and password, or, if it had none, a new one with the role user.
  pub validate_or_create_user-role :
      (now : ℕ) (random_pass email first last method : String) (s t : State) (u : User)
      → validate_or_create_user casl bcrypt table now random_pass email first last method s
        ≡ (t, ok u)
      → ((user : User) × (find_by_email s email ≡ some user) × SameAccount u user)
        ⊎ ((find_by_email s email ≡ none) × (u.role ≡ "user"))
  unfolding validate_or_create_user
  validate_or_create_user-role now random_pass email first last method s t u h =
      elim (Option-cases (find_by_email s email)) [
        | inr (user, e) ↦ inl (
          user,
          e,
          refresh-SameAccount now first last user u s t (rw (e, validate_or_create_user) at h),
        )
        | inl e ↦
            (let (mid, created, user, made, found, done) =
                find_again_inv now email first last _ t u (rw (e, validate_or_create_user) at h) in
              let (role, same) =
                created_role random_pass email first last method s mid created made in
              let one : user ≡ created = ground (arith, found, same) in
              inr (
                e,
                (refresh-SameAccount now first last user u mid t done).2
                    ∙ ap (λ v. v.role) one
                    ∙ role,
              ))
      ]
