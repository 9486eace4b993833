-- ===== src/Users/Remove.antt =====
-- UsersService.remove and DELETE users/:id of users.service.ts and users.controller.ts.
use security_scan.Prelude.Outcome.{ok}
use security_scan.Prelude.{
  ◌+◌, ◌<◌, String, ◌≡◌, refl, sym, ap, ◌∙◌, ◌⊎◌, inl, inr, Bool, true, false, ◌&&◌, ◌||◌, not,
  Option, some, List, [], ◌∷◌, arith, str_eq, eq_iff, ltb, if◌then◌else◌, Bool-cases, Option-cases,
  any, find, filter, count_p,
}
use security_scan.Authz.{User, delete, delete_no_password, a_user, is_admin}
use security_scan.Authz.Casl.{Casl}
use security_scan.Authz.Permissions.{allows, allows-a_user}
use security_scan.Users.Table.{UserTable, has_id}
use security_scan.Users.{Bcrypt, or_string, accepted, remove_user, delete_user}

-- The primary key: no two rows have one id.
abbrev pub UniqueIds : List User → Type 0
UniqueIds [] = Unit
UniqueIds (u ∷ us) = (any (has_id u.id) us ≡ false) × UniqueIds us

abbrev pub without : String → List User → List User
without id = filter (λ u. not (has_id id u))

any_congr :
    (i j : String) (us : List User) → str_eq i j ≡ true → any (has_id i) us ≡ any (has_id j) us
any_congr i j us e = ap (λ k. any (has_id k) us) ((eq_iff i j).0 e)

without_absent : (id : String) (us : List User) → any (has_id id) us ≡ false → without id us ≡ us
without_absent id [] h = refl
without_absent id (u ∷ us) h = ground (arith, without_absent id us)

-- Deleting the row that was found takes one from the count, if the row counts.
count_p-without :
    (p : User → Bool) (id : String) (us : List User) (user : User)
    → UniqueIds us
    → find (has_id id) us ≡ some user
    → count_p p us ≡ count_p p (without id us) + (if p user then 1 else 0)
count_p-without p id [] user h e = cc
count_p-without p id (u ∷ us) user (n, h) e =
    ground (arith, count_p-without p id us user h, any_congr u.id id us, without_absent id us)

find-has_id :
    (id : String) (us : List User) (user : User) → find (has_id id) us ≡ some user → user.id ≡ id
find-has_id id [] user e = cc
find-has_id id (u ∷ us) user e = ground (arith, eq_iff u.id id, find-has_id id us user)

any-without :
    (i id : String) (us : List User)
    → any (has_id i) us ≡ false
    → any (has_id i) (without id us) ≡ false
any-without i id [] h = refl
any-without i id (u ∷ us) h = ground (arith, any-without i id us)

UniqueIds-without : (id : String) (us : List User) → UniqueIds us → UniqueIds (without id us)
UniqueIds-without id [] h = tt
UniqueIds-without id (u ∷ us) (n, h) = elim (Bool-cases (has_id id u)) [
  | inl e ↦ rw e (UniqueIds-without id us h)
  | inr e ↦ rw e (any-without u.id id us n, UniqueIds-without id us h)
]

module _ (casl : Casl) (bcrypt : Bcrypt) (table : UserTable) where
  open table use {
    State, rows, find_by_pk, count_where, destroy, find_by_pk_lem, count_where_lem, destroy_lem,
  }

  remove_user_inv :
      (actor user : User) (password : Option String) (s t : State) (u : User)
      → remove_user casl bcrypt table actor user password s ≡ (t, ok u)
      → ((allows casl actor delete_no_password (a_user user)
            || accepted (bcrypt.compare (or_string password "") user.encrypted_password))
          ≡ true)
        × ((is_admin user && ltb (count_where s is_admin) 2) ≡ false)
        × (t ≡ destroy s user)
        × (u ≡ user)
  unfolding remove_user
  remove_user_inv actor user password s t u h =
      (ground arith, ground arith, ground arith, ground arith)

  delete_user_inv :
      (actor : User) (id : String) (password : Option String) (s t : State) (u : User)
      → delete_user casl bcrypt table actor id password s ≡ (t, ok u)
      → (user : User) × (find_by_pk s id ≡ some user)
        × (allows casl actor delete (a_user user) ≡ true)
        × (remove_user casl bcrypt table actor user password s ≡ (t, ok u))
  unfolding delete_user
  delete_user_inv actor id password s t u h = elim (Option-cases (find_by_pk s id)) [
    | inl e ↦ absurd (ground (arith, rw (e, delete_user) at h))
    | inr (user, e) ↦ (
      user,
      e,
      ground (arith, rw (e, delete_user) at h),
      ground (arith, rw (e, delete_user) at h),
    )
  ]

  -- The account is another's and the actor is an administrator, or it is the actor's own and the
  -- password was given.
  abbrev pub MayDelete : User → User → Option String → Type 0
  MayDelete actor user password =
      ((is_admin actor ≡ true) × (str_eq user.id actor.id ≡ false))
      ⊎ ((str_eq user.id actor.id ≡ true)
          × (accepted (bcrypt.compare (or_string password "") user.encrypted_password) ≡ true))

  delete_cases :
      (actor user : User) (password : Option String)
      → allows casl actor delete (a_user user) ≡ true
      → (allows casl actor delete_no_password (a_user user)
          || accepted (bcrypt.compare (or_string password "") user.encrypted_password))
        ≡ true
      → MayDelete actor user password
  delete_cases actor user password h k = elim (Bool-cases (str_eq user.id actor.id)) [
    | inl own ↦
        inr (own, ground (arith, own, h, k, allows-a_user casl actor user delete_no_password))
    | inr other ↦ inl (ground (arith, other, allows-a_user casl actor user delete), other)
  ]

  -- A successful DELETE users/:id was permitted and removed the row with that id and no other; ids
  -- stay unique, and there still is an administrator, unless there was none before.
  pub delete_user_keeps_admin :
      (actor : User) (id : String) (password : Option String) (s t : State) (u : User)
      → UniqueIds (rows s)
      → delete_user casl bcrypt table actor id password s ≡ (t, ok u)
      → (MayDelete actor u password)
        × (rows t ≡ without id (rows s))
        × UniqueIds (rows t)
        × ((count_p is_admin (rows s) ≡ 0) ⊎ (0 < count_p is_admin (rows t)))
  delete_user_keeps_admin actor id password s t u unique h =
      let (user, found, may, done) = delete_user_inv actor id password s t u h in
      let (passed, guarded, same_t, same_u) = remove_user_inv actor user password s t u done in
      let in_rows : find (has_id id) (rows s) ≡ some user = sym (find_by_pk_lem s id) ∙ found in
      let gone : rows t ≡ without id (rows s) =
        ap rows same_t
        ∙ destroy_lem s user
        ∙ ap (λ i. without i (rows s)) (find-has_id id (rows s) user in_rows) in
      (
        rw same_u (delete_cases actor user password may passed),
        gone,
        rw gone (UniqueIds-without id (rows s) unique),
        rw gone (
            ground (
              arith,
              guarded,
              count_where_lem s is_admin,
              count_p-without is_admin id (rows s) user unique in_rows,
            )),
      )

  remove_user_ok :
      (actor user : User) (password : Option String) (s : State)
      → MayDelete actor user password
      → (is_admin user && ltb (count_where s is_admin) 2) ≡ false
      → remove_user casl bcrypt table actor user password s ≡ (destroy s user, ok user)
  unfolding remove_user
  remove_user_ok actor user password s (inl (admin, other)) guarded =
      ground (arith, allows-a_user casl actor user delete_no_password)
  remove_user_ok actor user password s (inr (own, knows)) guarded =
      ground (arith, allows-a_user casl actor user delete_no_password)

  allows-delete :
      (actor user : User) (password : Option String)
      → MayDelete actor user password
      → allows casl actor delete (a_user user) ≡ true
  allows-delete actor user password (inl (admin, other)) =
      ground (arith, allows-a_user casl actor user delete)
  allows-delete actor user password (inr (own, knows)) =
      ground (arith, allows-a_user casl actor user delete)

  -- A DELETE users/:id of an account that is found succeeds and removes its row, if the actor is an
  -- administrator and the account another's, or it is the actor's own and the password was given,
  -- and the account is not that of the only administrator.
  pub delete_user_succeeds :
      (actor user : User) (id : String) (password : Option String) (s : State)
      → find_by_pk s id ≡ some user
      → MayDelete actor user password
      → (is_admin user && ltb (count_where s is_admin) 2) ≡ false
      → delete_user casl bcrypt table actor id password s ≡ (destroy s user, ok user)
  unfolding delete_user
  delete_user_succeeds actor user id password s found may guarded =
      rw (found, delete_user, allows-delete actor user password may)
        (remove_user_ok actor user password s may guarded)
