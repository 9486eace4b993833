-- ===== src/Users/Update.antt =====
-- UsersService.update and PUT users/:id of users.service.ts and users.controller.ts.
use security_scan.Prelude.Outcome.{Outcome, ok, throw, Exception, bad_request, forbidden}
use security_scan.Prelude.{
  ℕ, String, ◌≡◌, refl, ap, ◌∙◌, ◌⊎◌, inl, inr, Bool, true, false, ◌&&◌, ◌||◌, not, Option, none,
  some, arith, str_eq, Bool-cases, Option-cases,
}
use security_scan.Authz.{
  User, update, update_no_password, skip_force_password_change, update_role, a_user, is_admin,
}
use security_scan.Authz.Casl.{Casl}
use security_scan.Authz.Permissions.{allows, allows-a_user}
use security_scan.Users.Table.{UserTable, replace}
use security_scan.Users.{
  Bcrypt, UpdateUserDto, or_string, is_missing, accepted, test_password, with_password,
  with_columns, write_update, update_user, put_user, saved, with_names,
}

module _ (casl : Casl) (bcrypt : Bcrypt) (table : UserTable) where
  open table use {State, rows, find_by_pk, save, save_lem}

  -- The account is another's and the actor is an administrator.
  abbrev pub Oversees : User → User → Type 0
  Oversees actor user = (is_admin actor ≡ true) × (str_eq user.id actor.id ≡ false)

  -- The account is the actor's own and the current password was given.
  abbrev pub OwnsWithPassword : User → User → UpdateUserDto → Type 0
  OwnsWithPassword actor user dto =
      (str_eq user.id actor.id ≡ true)
      × (bcrypt.compare (or_string dto.current_password "") user.encrypted_password ≡ some true)

  -- What a successful `write_update` has done.
  abbrev pub Written : ℕ → User → UpdateUserDto → User → State → State → User → Type 0
  Written now actor dto user s t u =
      (mid : User) × (with_password casl bcrypt table now dto user ≡ some mid)
      × (u ≡ with_columns casl bcrypt table actor dto mid)
      × (save s u ≡ ok t)

  saved_inv :
      (s t : State) (user u : User) (o : Outcome State)
      → saved casl bcrypt table s user o ≡ (t, ok u)
      → (u ≡ user) × (o ≡ ok t)
  saved_inv s t user u (ok s') h = ground arith
  saved_inv s t user u (throw e) h = ground arith

  write_update-Written :
      (now : ℕ) (actor user : User) (dto : UpdateUserDto) (s t : State) (u : User)
      → write_update casl bcrypt table now actor dto user s ≡ (t, ok u)
      → Written now actor dto user s t u
  unfolding write_update
  write_update-Written now actor user dto s t u h =
      elim (Option-cases (with_password casl bcrypt table now dto user)) [
        | inl e ↦ absurd (ground (arith, rw (e, write_update) at h))
        | inr (mid, e) ↦
            (let made = with_columns casl bcrypt table actor dto mid in
              let (same, wrote) = saved_inv s t made u (save s made) (rw (e, write_update) at h) in
              (mid, e, same, ap (save s) same ∙ wrote))
      ]

  -- What a successful `update` has passed and done.
  update_user_inv :
      (now : ℕ) (actor user : User) (dto : UpdateUserDto) (s t : State) (u : User)
      → update_user casl bcrypt table now actor user dto s ≡ (t, ok u)
      → ((allows casl actor update_no_password (a_user user)
            || test_password casl bcrypt table dto user)
          ≡ true)
        × ((is_missing dto.password
              && (user.force_password_change
                  && not (allows casl actor skip_force_password_change (a_user user))))
            ≡ false)
        × Written now actor dto user s t u
  unfolding update_user
  update_user_inv now actor user dto s t u h =
      (ground arith, ground arith, write_update-Written now actor user dto s t u (ground arith))

  put_user_inv :
      (now : ℕ) (actor : User) (id : String) (dto : UpdateUserDto) (s t : State) (u : User)
      → put_user casl bcrypt table now actor id dto s ≡ (t, ok u)
      → (user : User) × (find_by_pk s id ≡ some user)
        × (allows casl actor update (a_user user) ≡ true)
        × (update_user casl bcrypt table now actor user dto s ≡ (t, ok u))
  unfolding put_user
  put_user_inv now actor id dto s t u h = elim (Option-cases (find_by_pk s id)) [
    | inl e ↦ absurd (ground (arith, rw (e, put_user) at h))
    | inr (user, e) ↦
        (user, e, ground (arith, rw (e, put_user) at h), ground (arith, rw (e, put_user) at h))
  ]

  accepted-true : (o : Option Bool) → accepted o ≡ true → o ≡ some true
  accepted-true none h = cc
  accepted-true (some b) h = ap some h

  -- The permission to update and the check of the password leave two cases.
  update_cases :
      (actor user : User) (dto : UpdateUserDto)
      → allows casl actor update (a_user user) ≡ true
      → (allows casl actor update_no_password (a_user user)
          || test_password casl bcrypt table dto user)
        ≡ true
      → Oversees actor user ⊎ OwnsWithPassword actor user dto
  unfolding test_password
  update_cases actor user dto h k = elim (Bool-cases (str_eq user.id actor.id)) [
    | inl own ↦ inr (
      own,
      accepted-true _ (ground (arith, own, h, k, allows-a_user casl actor user update_no_password)),
    )
    | inr other ↦ inl (ground (arith, other, allows-a_user casl actor user update), other)
  ]

  id-with_password :
      (now : ℕ) (dto : UpdateUserDto) (user mid : User)
      → with_password casl bcrypt table now dto user ≡ some mid
      → (mid.id ≡ user.id) × (mid.role ≡ user.role)
  unfolding with_password
  id-with_password now dto user mid h = ground arith

  role-with_columns :
      (actor : User) (dto : UpdateUserDto) (mid : User)
      → ((with_columns casl bcrypt table actor dto mid).id ≡ mid.id)
        × ((is_admin actor && not (str_eq mid.id actor.id)) ≡ false
            → (with_columns casl bcrypt table actor dto mid).role ≡ mid.role)
  unfolding with_columns
  role-with_columns actor dto mid = (
    refl,
    λ h.
        ground (arith, allows-a_user casl actor (with_names casl bcrypt table dto mid) update_role),
  )

  -- A successful PUT users/:id found the account, was made by an administrator on another's account
  -- or by its owner with the current password, and changed in the table the row of that account
  -- only; the id stays, and the role stays unless an administrator changed another's account.
  pub put_user_authorised :
      (now : ℕ) (actor : User) (id : String) (dto : UpdateUserDto) (s t : State) (u : User)
      → put_user casl bcrypt table now actor id dto s ≡ (t, ok u)
      → (user : User) × (find_by_pk s id ≡ some user)
        × (Oversees actor user ⊎ OwnsWithPassword actor user dto)
        × (rows t ≡ replace u (rows s))
        × (u.id ≡ user.id)
        × ((u.role ≡ user.role) ⊎ Oversees actor user)
  put_user_authorised now actor id dto s t u h =
      let (user, found, may, done) = put_user_inv now actor id dto s t u h in
      let (passed, unforced, (mid, e, made, wrote)) =
        update_user_inv now actor user dto s t u done in
      let (same_id, same_role) = id-with_password now dto user mid e in
      let (kept_id, kept_role) = role-with_columns actor dto mid in
      let u_id : u.id ≡ user.id = ap (λ v. v.id) made ∙ kept_id ∙ same_id in
      (
        user,
        found,
        update_cases actor user dto may passed,
        save_lem s t u wrote,
        u_id,
        role_cases actor user u (λ k. ap (λ v. v.role) made ∙ kept_role (rw same_id k) ∙ same_role),
      )
    where
      role_cases :
          (actor user u : User)
          → ((is_admin actor && not (str_eq user.id actor.id)) ≡ false → u.role ≡ user.role)
          → (u.role ≡ user.role) ⊎ Oversees actor user
      role_cases actor user u f =
          elim (Bool-cases (is_admin actor && not (str_eq user.id actor.id))) [
            | inl e ↦ inr (ground arith, ground arith)
            | inr e ↦ inl (f e)
          ]

  saved_throw :
      (s t : State) (user : User) (o : Outcome State) (e : Exception)
      → saved casl bcrypt table s user o ≡ (t, throw e)
      → t ≡ s
  saved_throw s t user (ok s') e h = cc
  saved_throw s t user (throw f) e h = ground arith

  write_update_throw :
      (now : ℕ) (actor user : User) (dto : UpdateUserDto) (s t : State) (e : Exception)
      → write_update casl bcrypt table now actor dto user s ≡ (t, throw e)
      → t ≡ s
  unfolding write_update
  write_update_throw now actor user dto s t e h =
      elim (Option-cases (with_password casl bcrypt table now dto user)) [
        | inl p ↦ ground (arith, rw (p, write_update) at h)
        | inr (mid, p) ↦
            saved_throw s t (with_columns casl bcrypt table actor dto mid)
              (save s (with_columns casl bcrypt table actor dto mid)) e (rw (p, write_update) at h)
      ]

  update_user_throw :
      (now : ℕ) (actor user : User) (dto : UpdateUserDto) (s t : State) (e : Exception)
      → update_user casl bcrypt table now actor user dto s ≡ (t, throw e)
      → t ≡ s
  unfolding update_user
  update_user_throw now actor user dto s t e h =
      ground (arith, write_update_throw now actor user dto s t e)

  -- A PUT users/:id that throws, whatever the reason, has changed nothing in the table.
  pub put_user_atomic :
      (now : ℕ) (actor : User) (id : String) (dto : UpdateUserDto) (s t : State) (e : Exception)
      → put_user casl bcrypt table now actor id dto s ≡ (t, throw e)
      → t ≡ s
  unfolding put_user
  put_user_atomic now actor id dto s t e h = elim (Option-cases (find_by_pk s id)) [
    | inl p ↦ ground (arith, rw (p, put_user) at h)
    | inr (user, p) ↦
        ground (arith, rw (p, put_user) at h, update_user_throw now actor user dto s t e)
  ]

  -- An account that must change its password cannot be updated by its owner with no password at all.
  pub forced_change_needs_password :
      (now : ℕ) (actor user : User) (dto : UpdateUserDto) (s : State)
      → user.force_password_change ≡ true
      → str_eq user.id actor.id ≡ true
      → dto.password ≡ none
      → (update_user casl bcrypt table now actor user dto s ≡ (s, throw forbidden))
        ⊎ (update_user casl bcrypt table now actor user dto s ≡ (s, throw bad_request))
  unfolding update_user
  forced_change_needs_password now actor user dto s force own missing = ground (
    arith,
    allows-a_user casl actor user skip_force_password_change,
    allows-a_user casl actor user update_no_password,
  )

  empty_password :
      (now : ℕ) (dto : UpdateUserDto) (user : User)
      → dto.password ≡ some ""
      → (with_password casl bcrypt table now dto user ≡ some user)
        × (is_missing dto.password ≡ false)
  unfolding with_password
  empty_password now dto user h = rw h (refl, refl)

  write_update_ok :
      (now : ℕ) (actor user mid : User) (dto : UpdateUserDto) (s t : State)
      → with_password casl bcrypt table now dto user ≡ some mid
      → save s (with_columns casl bcrypt table actor dto mid) ≡ ok t
      → write_update casl bcrypt table now actor dto user s
        ≡ (t, ok (with_columns casl bcrypt table actor dto mid))
  unfolding write_update
  write_update_ok now actor user mid dto s t e wrote = rw (e, write_update, wrote) refl

  update_user_ok :
      (now : ℕ) (actor user : User) (dto : UpdateUserDto) (s : State)
      → test_password casl bcrypt table dto user ≡ true
      → is_missing dto.password ≡ false
      → update_user casl bcrypt table now actor user dto s
        ≡ write_update casl bcrypt table now actor dto user s
  unfolding update_user
  update_user_ok now actor user dto s knows present = ground arith

  -- An empty text in place of the new password passes the test for a forced change: the update goes
  -- through, the stored password stays, and so does the mark that it must be changed.
  pub forced_change_gap :
      (now : ℕ) (actor user : User) (dto : UpdateUserDto) (s t : State)
      → user.force_password_change ≡ true
      → dto.password ≡ some ""
      → test_password casl bcrypt table dto user ≡ true
      → save s (with_columns casl bcrypt table actor dto user) ≡ ok t
      → (u : User) × (update_user casl bcrypt table now actor user dto s ≡ (t, ok u))
        × (u.encrypted_password ≡ user.encrypted_password)
        × (u.force_password_change ≡ true)
  unfolding with_columns
  forced_change_gap now actor user dto s t force empty knows wrote =
      let (unchanged, present) = empty_password now dto user empty in
      (
        with_columns casl bcrypt table actor dto user,
        update_user_ok now actor user dto s knows present
            ∙ write_update_ok now actor user user dto s t unchanged wrote,
        refl,
        ground arith,
      )
