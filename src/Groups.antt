-- ===== src/Groups.antt =====
-- heimdall2-master/apps/backend/src/groups/groups.service.ts and groups.controller.ts: groups, their
-- members and their evaluations. `actor` is the user of the request. As in Users, a handler takes
-- the state of the database and gives the next one beside its result.
pub mod Table
mod Steps
pub mod Owners
pub mod Access
use security_scan.Prelude.Outcome.{Outcome, ok, throw, Exception, forbidden, not_found}
use security_scan.Prelude.{
  ℕ, String, Bool, true, false, ◌&&◌, not, Option, none, some, List, str_eq, ltb, if◌then◌else◌,
  filter, any, length,
}
use security_scan.Authz.{
  User, Member, Group, Evaluation, Action, read, update, delete, add_evaluation, remove_evaluation,
  a_group, an_evaluation,
}
use security_scan.Authz.Casl.{Casl}
use security_scan.Authz.Permissions.{allows}
use security_scan.Groups.Table.{GroupTable, CreateGroupDto}

abbrev pub is_owner : Member → Bool
is_owner m = str_eq m.group_role "owner"

module _ (casl : Casl) (table : GroupTable) where
  open table use {
    State, find_user, find_evaluation, find_by_pk, find_all, groups_of, members, insert, save,
    destroy, add_user, remove_user, add_evaluation as put_evaluation,
    remove_evaluation as take_evaluation,
  }

  abbrev pub Handler : Type 0 → Type 0
  Handler A = State → State × Outcome A

  -- findByPkBang, and then the rest of a handler
  unfoldable pub with_group : {A : Type 0} → String → (Group → Handler A) → Handler A
  with_group id rest s = elim (find_by_pk s id) [
    | none ↦ (s, throw not_found)
    | some group ↦ rest group s
  ]

  -- usersService.findById
  unfoldable pub with_user : {A : Type 0} → String → (User → Handler A) → Handler A
  with_user id rest s = elim (find_user s id) [
    | none ↦ (s, throw not_found)
    | some user ↦ rest user s
  ]

  -- evaluationsService.findById
  unfoldable pub with_evaluation : {A : Type 0} → String → (Evaluation → Handler A) → Handler A
  with_evaluation id rest s = elim (find_evaluation s id) [
    | none ↦ (s, throw not_found)
    | some evaluation ↦ rest evaluation s
  ]

  -- ForbiddenError.from(abac).throwUnlessCan
  unfoldable pub throw_unless : {A : Type 0} → Bool → Handler A → Handler A
  throw_unless allowed rest s = if allowed then rest s else (s, throw forbidden)

  -- GroupsService.removeUserFromGroup
  unfoldable pub remove_user_from_group : Group → User → Handler Group
  remove_user_from_group group user s =
      let owners = filter is_owner (members s group) in
      if ltb (length owners) 2 && any (λ owner. str_eq owner.user_id user.id) owners
      then (s, throw forbidden)
      else (remove_user s group user.id, ok group)

  -- GET /
  unfoldable pub get_groups : User → Handler (List Group)
  get_groups actor s = (s, ok (filter (λ g. allows casl actor read (a_group g)) (find_all s)))

  -- GET /my
  unfoldable pub get_my_groups : User → Handler (List Group)
  get_my_groups actor s = (s, ok (groups_of s actor))

  abbrev add_creator : User → State × Outcome Group → State × Outcome Group
  add_creator actor (s, throw e) = (s, throw e)
  add_creator actor (s, ok group) = (add_user s group actor.id "owner", ok group)

  -- POST /
  unfoldable pub post_group : User → CreateGroupDto → Handler Group
  post_group actor dto s = add_creator actor (insert s dto)

  -- POST /:id/user
  unfoldable pub post_group_user : User → String → String → String → Handler Group
  post_group_user actor id user_id group_role = with_group id λ group.
      throw_unless (allows casl actor update (a_group group))
        (with_user user_id λ user s. (add_user s group user.id group_role, ok group))

  -- DELETE /:id/user
  unfoldable pub delete_group_user : User → String → String → Handler Group
  delete_group_user actor id user_id = with_group id λ group.
      throw_unless (allows casl actor update (a_group group))
        (with_user user_id λ user. remove_user_from_group group user)

  -- POST /:id/evaluation
  unfoldable pub post_group_evaluation : User → String → String → Handler Group
  post_group_evaluation actor id evaluation_id = with_group id λ group.
      throw_unless (allows casl actor add_evaluation (a_group group)) (
        with_evaluation evaluation_id λ evaluation.
          throw_unless (allows casl actor read (an_evaluation evaluation))
            (λ s. (put_evaluation s group evaluation.id, ok group)))

  -- DELETE /:id/evaluation
  unfoldable pub delete_group_evaluation : User → String → String → Handler Group
  delete_group_evaluation actor id evaluation_id = with_group id λ group.
      throw_unless (allows casl actor remove_evaluation (a_group group)) (
        with_evaluation evaluation_id
          λ evaluation s. (take_evaluation s group evaluation.id, ok group))

  -- GET /:id
  unfoldable pub get_group : User → String → Handler Group
  get_group actor id =
      with_group id
        λ group. throw_unless (allows casl actor read (a_group group)) (λ s. (s, ok group))

  -- GroupsService.update: `update` saves the group without being waited for, and `save` saves it again.
  unfoldable pub save_twice : Group → Handler Group
  save_twice group s = save ((save s group).0) group

  -- PUT /:id
  unfoldable pub put_group : User → String → CreateGroupDto → Handler Group
  put_group actor id dto = with_group id λ group.
      throw_unless (allows casl actor update (a_group group))
        (save_twice (record group { name = dto.name; is_public = dto.is_public }))

  -- DELETE /:id
  unfoldable pub delete_group : User → String → Handler Group
  delete_group actor id = with_group id λ group.
      throw_unless (allows casl actor delete (a_group group)) (λ s. (destroy s group, ok group))
