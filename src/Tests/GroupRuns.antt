-- ===== src/Tests/GroupRuns.antt =====
-- Runs of groups.service.ts and groups.controller.ts on a table of one group.
use security_scan.Prelude.Outcome.{ok, throw, forbidden}
use security_scan.Prelude.{
  ◌≡◌, ◌<◌, refl, ◌⊎◌, true, ◌&&◌, ◌||◌, some, [], ◌∷◌, str_eq, count_p, filter, any,
}
use security_scan.Authz.{User, Group, Evaluation, create_for_user, is_admin}
use security_scan.Authz.Casl.{has_user, has_member}
use security_scan.Authz.Permissions.{allows}
use security_scan.Groups.Table.{other_than}
use security_scan.Groups.{
  is_owner, delete_group_user, remove_user_from_group, post_group_evaluation, with_group, with_user,
  with_evaluation, throw_unless,
}
use security_scan.Groups.Owners.{UniqueMembers, delete_group_user_keeps_owner}
use security_scan.Groups.Access.{post_group_evaluation_authorised}
use security_scan.Tests.Instances.{casl, group_table, OneGroup}
use security_scan.Tests.AuthzRuns.{alice, bob, alice_owns, group, evaluation}

abbrev state : OneGroup
state = record { group = group; members = alice_owns; user = bob; evaluation = evaluation }

abbrev without_bob : OneGroup
without_bob = record state { members = record { user_id = "1"; group_role = "owner" } ∷ [] }

remove_run : delete_group_user casl group_table alice "7" "3" state ≡ (without_bob, ok group)
unfolding delete_group_user remove_user_from_group with_group with_user throw_unless allows
    create_for_user
remove_run = refl

-- The last owner stays.
remove_last_run :
    delete_group_user casl group_table alice "7" "1" (record without_bob { user = alice })
    ≡ (record without_bob { user = alice }, throw forbidden)
unfolding delete_group_user remove_user_from_group with_group with_user throw_unless allows
    create_for_user
remove_last_run = refl

members-UniqueMembers : UniqueMembers alice_owns
members-UniqueMembers = (refl, (refl, tt))

delete_group_user_keeps_owner_example :
    (g : Group) × (user : User) × (group_table.find_by_pk state "7" ≡ some g)
    × ((is_admin alice || has_member alice.id "owner" g.users) ≡ true)
    × (group_table.find_user state "3" ≡ some user)
    × (without_bob.members ≡ filter (other_than "3") alice_owns)
    × ((count_p is_owner alice_owns ≡ 0) ⊎ (0 < count_p is_owner without_bob.members))
delete_group_user_keeps_owner_example =
    delete_group_user_keeps_owner casl group_table alice "7" "3" state without_bob group
      (λ g. members-UniqueMembers) remove_run

add_run : post_group_evaluation casl group_table alice "7" "9" state ≡ (state, ok group)
unfolding post_group_evaluation with_group with_evaluation throw_unless allows create_for_user
add_run = refl

post_group_evaluation_authorised_example :
    (g : Group) × (e : Evaluation) × (group_table.find_by_pk state "7" ≡ some g)
    × (group_table.find_evaluation state "9" ≡ some e)
    × ((is_admin alice
          || (has_user alice.id g.users
              && (str_eq e.user_id alice.id
                  || (e.is_public || any (λ x. has_user alice.id x.users) e.groups))))
        ≡ true)
    × (state ≡ group_table.add_evaluation state g e.id)
post_group_evaluation_authorised_example =
    post_group_evaluation_authorised casl group_table alice "7" "9" state state group add_run
