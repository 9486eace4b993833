-- ===== src/Tests/SelectionRuns.antt =====
-- Runs of data_store.ts and data_filters.ts: two files are loaded, and one is toggled.
use security_scan.Prelude.{◌≡◌, ◌≢◌, ◌↔◌, refl, none, some, [], ◌∷◌}
use security_scan.Selection.{
  File, Store, empty_store, on, mixed, without, dedupe, select_evaluations, clear_evaluation,
  selected_of, all_evaluations_selected, all_profiles_selected, ids, toggle_evaluation,
  add_execution, exec_json, load_text,
}
use security_scan.Selection.Ids.{Within}
use security_scan.Selection.Sound.{WellFormed}
use security_scan.Selection.Reach.{
  loads, loads_unselected, all_selected_iff, Reachable, start, next, Reachable-WellFormed,
}

abbrev first_file : File
first_file = record { unique_id = "f1"; filename = "rhel.json"; database_id = none }

abbrev second_file : File
second_file = record { unique_id = "f2"; filename = "nginx.json"; database_id = some 12 }

abbrev one : Store
one = record empty_store { execution_files = first_file ∷ []; selected_evaluation_ids = "f1" ∷ [] }

abbrev two : Store
two = record empty_store {
  execution_files = first_file ∷ second_file ∷ [];
  selected_evaluation_ids = "f2" ∷ "f1" ∷ [];
}

load_first : load_text exec_json first_file empty_store ≡ some one
unfolding load_text toggle_evaluation select_evaluations add_execution dedupe without
load_first = refl

load_second : load_text exec_json second_file one ≡ some two
unfolding load_text toggle_evaluation select_evaluations add_execution dedupe without
load_second = refl

two-Reachable : Reachable two
two-Reachable =
    next (next start (loads exec_json first_file refl refl load_first))
      (loads exec_json second_file refl refl load_second)

both_on : all_evaluations_selected two ≡ on
unfolding all_evaluations_selected selected_of
both_on = refl

one_left : all_evaluations_selected (toggle_evaluation "f1" two) ≡ mixed
unfolding all_evaluations_selected selected_of toggle_evaluation clear_evaluation without
one_left = refl

-- A report of Splunk is loaded and not selected.
with_splunk-Reachable : Reachable (add_execution second_file one)
with_splunk-Reachable =
    next (next start (loads exec_json first_file refl refl load_first))
      (loads_unselected second_file refl refl)

splunk_run : all_evaluations_selected (add_execution second_file one) ≡ mixed
unfolding all_evaluations_selected selected_of add_execution
splunk_run = refl

all_selected_iff_example :
    ((all_evaluations_selected two ≡ on)
      ↔ ((two.execution_files ≢ []) × Within (ids two.execution_files) two.selected_evaluation_ids))
    × ((all_profiles_selected two ≡ on)
        ↔ ((two.profile_files ≢ []) × Within (ids two.profile_files) two.selected_profile_ids))
all_selected_iff_example = all_selected_iff two two-Reachable

Reachable-WellFormed_example : WellFormed two
Reachable-WellFormed_example = Reachable-WellFormed two two-Reachable
