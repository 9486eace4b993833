-- ===== src/Groups/Owners.antt =====
-- A group never loses its last owner by DELETE /:id/user: removeUserFromGroup of groups.service.ts.
use security_scan.Prelude.Outcome.{ok}
use security_scan.Prelude.{
  ◌+◌, ◌≤◌, ◌<◌, String, ◌≡◌, refl, ap, ◌∙◌, ◌⊎◌, Bool, true, false, ◌||◌, some, List, [], ◌∷◌,
  arith, str_eq, eq_iff, if◌then◌else◌, any, filter, count_p, length-filter,
}
use security_scan.Authz.{User, Member, Group, update, a_group, is_admin}
use security_scan.Authz.Casl.{Casl, has_member}
use security_scan.Authz.Permissions.{allows, allows-a_group}
use security_scan.Groups.Table.{GroupTable, other_than}
use security_scan.Groups.Steps.{with_group_inv, with_user_inv, throw_unless_inv}
use security_scan.Groups.{is_owner, remove_user_from_group, delete_group_user}

-- No user is a member twice.
abbrev pub UniqueMembers : List Member → Type 0
UniqueMembers [] = Unit
UniqueMembers (m ∷ ms) = (any (λ n. str_eq n.user_id m.user_id) ms ≡ false) × UniqueMembers ms

abbrev owner_of : String → Member → Bool
owner_of id m = str_eq m.user_id id

any_owner_congr :
    (i j : String) (ms : List Member)
    → str_eq i j ≡ true
    → any (owner_of i) ms ≡ any (owner_of j) ms
any_owner_congr i j ms e = ap (λ k. any (owner_of k) ms) ((eq_iff i j).0 e)

count_absent :
    (id : String) (ms : List Member)
    → any (owner_of id) ms ≡ false
    → count_p is_owner (filter (other_than id) ms) ≡ count_p is_owner ms
count_absent id [] h = refl
count_absent id (m ∷ ms) h = ground (arith, count_absent id ms)

-- Removing a member takes at most one from the owners, and none if the member is no owner.
count-remove :
    (id : String) (ms : List Member)
    → UniqueMembers ms
    → count_p is_owner ms
      ≤ count_p is_owner (filter (other_than id) ms)
        + (if any (owner_of id) (filter is_owner ms) then 1 else 0)
count-remove id [] h = omega arith
count-remove id (m ∷ ms) (n, h) =
    ground (arith, count-remove id ms h, count_absent id ms, any_owner_congr m.user_id id ms)

module _ (casl : Casl) (table : GroupTable) where
  open table use {State, find_by_pk, members, remove_user, find_user_lem, remove_user_lem}

  remove_keeps_owner :
      (group : Group) (user : User) (s t : State) (g : Group)
      → UniqueMembers (members s group)
      → remove_user_from_group casl table group user s ≡ (t, ok g)
      → (members t group ≡ filter (other_than user.id) (members s group))
        × ((count_p is_owner (members s group) ≡ 0) ⊎ (0 < count_p is_owner (members t group)))
  unfolding remove_user_from_group
  remove_keeps_owner group user s t g unique h =
      let same : t ≡ remove_user s group user.id = ground arith in
      let gone : members t group ≡ filter (other_than user.id) (members s group) =
        ap (λ r. members r group) same ∙ remove_user_lem s group user.id in
      (
        gone,
        rw gone (
            ground (
              arith,
              h,
              length-filter is_owner (members s group),
              count-remove user.id (members s group) unique,
            )),
      )

  delete_group_user_inv :
      (actor : User) (id user_id : String) (s t : State) (g : Group)
      → delete_group_user casl table actor id user_id s ≡ (t, ok g)
      → (group : Group) × (user : User) × (find_by_pk s id ≡ some group)
        × (table.find_user s user_id ≡ some user)
        × (allows casl actor update (a_group group) ≡ true)
        × (remove_user_from_group casl table group user s ≡ (t, ok g))
  unfolding delete_group_user
  delete_group_user_inv actor id user_id s t g h =
      let (group, found, e) = with_group_inv casl table id _ s t g h in
      let (may, f) =
        throw_unless_inv casl table (allows casl actor update (a_group group)) _ s t g e in
      let (user, known, done) = with_user_inv casl table user_id _ s t g f in
      (group, user, found, known, may, done)

  -- Where no user is a member twice, a successful DELETE /:id/user was made by an administrator or an
  -- owner of the group, found the user of the request, removed from the members the one with that
  -- identifier and no other, and left an owner, unless there was none before.
  pub delete_group_user_keeps_owner :
      (actor : User) (id user_id : String) (s t : State) (g : Group)
      → ((group : Group) → UniqueMembers (members s group))
      → delete_group_user casl table actor id user_id s ≡ (t, ok g)
      → (group : Group) × (user : User) × (find_by_pk s id ≡ some group)
        × ((is_admin actor || has_member actor.id "owner" group.users) ≡ true)
        × (table.find_user s user_id ≡ some user)
        × (members t group ≡ filter (other_than user_id) (members s group))
        × ((count_p is_owner (members s group) ≡ 0) ⊎ (0 < count_p is_owner (members t group)))
  delete_group_user_keeps_owner actor id user_id s t g unique h =
      let (group, user, found, known, may, done) = delete_group_user_inv actor id user_id s t g h in
      let (gone, kept) = remove_keeps_owner group user s t g (unique group) done in
      (
        group,
        user,
        found,
        ground (arith, may, allows-a_group casl actor group update),
        known,
        gone
            ∙ ap (λ i. filter (other_than i) (members s group))
                (find_user_lem s user_id user known),
        kept,
      )
