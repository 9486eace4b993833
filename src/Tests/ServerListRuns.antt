-- ===== src/Tests/ServerListRuns.antt =====
-- Runs of groups.ts on two lists that hold a group each in an object of its own.
use security_scan.Prelude.{◌≡◌, refl, true, false, none, [], ◌∷◌}
use security_scan.ServerLists.{
  GroupsState, find_index, remove_at, all_but_last, splice_one, delete_from_my_groups,
  delete_from_all_groups, delete_group,
}
use security_scan.ServerLists.Splice.{Removed, delete_group-Removed}

-- The user's group is object 2 in one list and object 5 in the other.
abbrev state : GroupsState
state = record {
  heap = λ k. record { id = "7"; name = "Scans"; is_public = true; role = none; users = [] };
  all_groups = 5 ∷ 6 ∷ [];
  my_groups = 2 ∷ [];
  loading = false;
}

-- The deletion of the user's group leaves it among all groups and drops another one.
delete_run : delete_group 2 state ≡ record state { all_groups = 5 ∷ []; my_groups = [] }
unfolding delete_group delete_from_my_groups delete_from_all_groups find_index splice_one remove_at
    all_but_last
delete_run = refl

delete_group-Removed_example :
    Removed 2 state.all_groups (delete_group 2 state).all_groups
    × Removed 2 state.my_groups (delete_group 2 state).my_groups
delete_group-Removed_example = delete_group-Removed 2 state
