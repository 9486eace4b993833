-- ===== src/ServerLists.antt =====
-- heimdall2-master/apps/frontend/src/store/groups.ts and evaluations.ts: the lists that mirror those of
-- the server. The stores compare groups and evaluations by reference, so a group is its place in
-- a heap, and an evaluation carries its reference. A request is an argument: what it answered.
pub mod Splice
pub mod Save
use security_scan.Prelude.{
  ℕ, zero, suc, String, Bool, true, false, not, Option, none, some, List, [], ◌∷◌, ◌++◌, str_eq,
  filter, find, includes, if◌then◌else◌, ◌==◌,
}

-- IGroup, less its times. A text of JSON has no role if it is undefined.
pub record GroupData : Type 0 where
  pub id : String
  pub name : String
  pub is_public : Bool
  pub role : Option String
  pub users : List String

abbrev pub or_old : Option String → Option String → Option String
or_old none old = old
or_old (some new) old = some new

-- `Object.assign(target, updated)`
abbrev pub assign : GroupData → GroupData → GroupData
assign target updated = record updated { role = or_old updated.role target.role }

pub record GroupsState : Type 0 where
  pub heap : ℕ → GroupData
  pub all_groups : List ℕ
  pub my_groups : List ℕ
  pub loading : Bool

-- findIndex, and indexOf with the test that the reference is the same
unfoldable pub find_index : {A : Type 0} → (A → Bool) → List A → Option ℕ
find_index p [] = none
find_index p (x ∷ xs) =
    let rest = find_index p xs in
    if p x then some 0 else elim rest [ none ↦ none | some i ↦ some (suc i) ]

unfoldable pub remove_at : {A : Type 0} → ℕ → List A → List A
remove_at i [] = []
remove_at zero (x ∷ xs) = xs
remove_at (suc i) (x ∷ xs) = x ∷ remove_at i xs

unfoldable pub all_but_last : {A : Type 0} → List A → List A
all_but_last [] = []
all_but_last (x ∷ []) = []
all_but_last (x ∷ y ∷ xs) = x ∷ all_but_last (y ∷ xs)

-- `splice(i, 1)`, where -1, which indexOf gives if it finds nothing, means the last element
unfoldable pub splice_one : {A : Type 0} → Option ℕ → List A → List A
unfolding remove_at all_but_last
splice_one none xs = all_but_last xs
splice_one (some i) xs = remove_at i xs

abbrev pub set_all_groups : List ℕ → GroupsState → GroupsState
set_all_groups groups s = record s { all_groups = groups }

abbrev pub set_my_groups : List ℕ → GroupsState → GroupsState
set_my_groups groups s = record s { my_groups = groups }

abbrev pub set_loading : Bool → GroupsState → GroupsState
set_loading loading s = record s { loading = loading }

abbrev pub add_to_my_groups : ℕ → GroupsState → GroupsState
add_to_my_groups added s = record s { my_groups = s.my_groups ++ (added ∷ []) }

abbrev pub add_to_all_groups : ℕ → GroupsState → GroupsState
add_to_all_groups added s = record s { all_groups = s.all_groups ++ (added ∷ []) }

abbrev pub write : ℕ → GroupData → (ℕ → GroupData) → ℕ → GroupData
write at group heap k = if k == at then group else heap k

-- UPDATE_MY_GROUPS and UPDATE_ALL_GROUPS, at the group with the index
abbrev pub update_at : ℕ → ℕ → GroupsState → GroupsState
update_at target updated s = record s {
  heap = write target (assign (s.heap target) (s.heap updated)) s.heap;
}

-- the group of a list with an id, which findIndex finds
abbrev pub of_id : (ℕ → GroupData) → String → List ℕ → Option ℕ
of_id heap id groups = find (λ g. str_eq (heap g).id id) groups

abbrev pub update_my_group : ℕ → GroupsState → GroupsState
update_my_group group s = elim (of_id s.heap (s.heap group).id s.my_groups) [
  | some target ↦ update_at target group s
  | none ↦ add_to_my_groups group s
]

abbrev pub update_all_group : ℕ → GroupsState → GroupsState
update_all_group group s = elim (of_id s.heap (s.heap group).id s.all_groups) [
  | some target ↦ update_at target group s
  | none ↦ add_to_all_groups group s
]

-- UpdateGroup
unfoldable pub update_group : ℕ → GroupsState → GroupsState
update_group group s = update_all_group group (update_my_group group s)

unfoldable pub delete_from_my_groups : ℕ → GroupsState → GroupsState
unfolding find_index splice_one
delete_from_my_groups group s = record s {
  my_groups = splice_one (find_index (λ g. g == group) s.my_groups) s.my_groups;
}

unfoldable pub delete_from_all_groups : ℕ → GroupsState → GroupsState
unfolding find_index splice_one
delete_from_all_groups group s = record s {
  all_groups = splice_one (find_index (λ g. g == group) s.all_groups) s.all_groups;
}

-- DeleteGroup, after the server has answered
unfoldable pub delete_group : ℕ → GroupsState → GroupsState
unfolding delete_from_my_groups delete_from_all_groups
delete_group group s = delete_from_my_groups group (delete_from_all_groups group s)

-- What is read of an evaluation, with its reference.
pub record HeldEvaluation : Type 0 where
  pub ref : ℕ
  pub id : String
  pub tags : List String

-- SAVE_EVALUTION: the first with that id is replaced, or the evaluation is added at the end.
unfoldable pub save_evaluation : HeldEvaluation → List HeldEvaluation → List HeldEvaluation
save_evaluation new [] = new ∷ []
save_evaluation new (e ∷ es) =
    let rest = save_evaluation new es in if str_eq new.id e.id then new ∷ es else e ∷ rest

unfoldable pub remove_evaluation : HeldEvaluation → List HeldEvaluation → List HeldEvaluation
unfolding find_index splice_one
remove_evaluation evaluation es = splice_one (find_index (λ e. e.ref == evaluation.ref) es) es

-- evaluationForFile
abbrev pub evaluation_for_file : Option String → List HeldEvaluation → Option HeldEvaluation
evaluation_for_file none es = none
evaluation_for_file (some id) es = find (λ e. str_eq e.id id) es

-- `_.difference`, the ids that load_results loads
abbrev pub unloaded_ids : List String → List String → List String
unloaded_ids evaluation_ids loaded = filter (λ id. not (includes loaded id)) evaluation_ids

abbrev pub all_evaluation_tags : List HeldEvaluation → List String
all_evaluation_tags [] = []
all_evaluation_tags (e ∷ es) = e.tags ++ all_evaluation_tags es
