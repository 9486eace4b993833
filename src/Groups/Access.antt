-- ===== src/Groups/Access.antt =====
-- Who may read groups and share evaluations: groups.controller.ts.
use security_scan.Prelude.Outcome.{ok}
use security_scan.Prelude.{
  String, str_eq, [], ◌∷◌, ◌≡◌, refl, ◌↔◌, true, ◌&&◌, ◌||◌, some, List, In, In-filter,
  In-filter_inv, arith, filter, any,
}
use security_scan.Authz.{
  User, Group, Evaluation, read, add_evaluation, a_group, an_evaluation, is_admin,
}
use security_scan.Authz.Casl.{Casl, has_user, has_member}
use security_scan.Authz.Permissions.{
  has_user_of-has_member, allows, allows-a_group, allows-an_evaluation,
}
use security_scan.Groups.Table.{GroupTable}
use security_scan.Groups.Steps.{with_group_inv, with_evaluation_inv, throw_unless_inv}
use security_scan.Groups.{get_groups, post_group_evaluation}

module _ (casl : Casl) (table : GroupTable) where
  open table use {State, find_all, find_by_pk, find_evaluation, add_evaluation as put_evaluation}

  -- An administrator, a member, or anyone if the group is public.
  abbrev pub MayRead : User → Group → Type 0
  MayRead actor g = (is_admin actor || (g.is_public || has_user actor.id g.users)) ≡ true

  allows-read_group :
      (actor : User) (g : Group) → (allows casl actor read (a_group g) ≡ true) ↔ MayRead actor g
  allows-read_group actor g =
      ground
        (arith, allows-a_group casl actor g read, has_user_of-has_member actor.id "owner" g.users)

  -- GET / lists exactly the groups of the table that the user may read, and changes nothing.
  pub get_groups_iff :
      (actor : User) (s : State) (g : Group)
      → ((get_groups casl table actor s).0 ≡ s)
        × ((listed : List Group) × ((get_groups casl table actor s).1 ≡ ok listed)
            × (In g listed ↔ (In g (find_all s) × MayRead actor g)))
  unfolding get_groups
  get_groups_iff actor s g = (
    refl,
    (
      filter (λ x. allows casl actor read (a_group x)) (find_all s),
      refl,
      (
        (λ m.
            (let (inside, may) =
                In-filter_inv (λ x. allows casl actor read (a_group x)) (find_all s) m in
              (inside, (allows-read_group actor g).0 may))),
        (λ (inside, may).
            In-filter (λ x. allows casl actor read (a_group x)) (find_all s) inside
              ((allows-read_group actor g).1 may)),
      ),
    ),
  )

  any_owner_any_user :
      (id : String) (gs : List Group)
      → any (λ x. has_member id "owner" x.users) gs ≡ true
      → any (λ x. has_user id x.users) gs ≡ true
  any_owner_any_user id [] h = cc
  any_owner_any_user id (x ∷ gs) h =
      ground (arith, has_user_of-has_member id "owner" x.users, any_owner_any_user id gs)

  -- A successful POST /:id/evaluation adds that evaluation to that group and nothing else, and the
  -- user is an administrator or a member of the group who may read the evaluation: its uploader,
  -- a member of one of its groups, or anyone if it is public.
  pub post_group_evaluation_authorised :
      (actor : User) (id evaluation_id : String) (s t : State) (g : Group)
      → post_group_evaluation casl table actor id evaluation_id s ≡ (t, ok g)
      → (group : Group) × (e : Evaluation) × (find_by_pk s id ≡ some group)
        × (find_evaluation s evaluation_id ≡ some e)
        × ((is_admin actor
              || (has_user actor.id group.users
                  && (str_eq e.user_id actor.id
                      || (e.is_public || any (λ x. has_user actor.id x.users) e.groups))))
            ≡ true)
        × (t ≡ put_evaluation s group e.id)
  unfolding post_group_evaluation
  post_group_evaluation_authorised actor id evaluation_id s t g h =
      let (group, found, p) = with_group_inv casl table id _ s t g h in
      let (may, q) =
        throw_unless_inv casl table (allows casl actor add_evaluation (a_group group)) _ s t g p in
      let (e, known, r) = with_evaluation_inv casl table evaluation_id _ s t g q in
      let (may_read, done) =
        throw_unless_inv casl table (allows casl actor read (an_evaluation e)) _ s t g r in
      (
        group,
        e,
        found,
        known,
        ground (
          arith,
          may,
          may_read,
          allows-a_group casl actor group add_evaluation,
          allows-an_evaluation casl actor e read,
          has_user_of-has_member actor.id "owner" group.users,
          any_owner_any_user actor.id e.groups,
        ),
        ground arith,
      )
