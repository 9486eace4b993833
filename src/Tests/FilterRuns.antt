-- ===== src/Tests/FilterRuns.antt =====
-- Runs of data_filters.ts and status_counts.ts on one loaded file.
use security_scan.Prelude.{
  ℕ, ◌+◌, ◌≡◌, refl, true, false, ◌&&◌, none, some, List, [], ◌∷◌, filter, length, Text, codes,
  is_upper, if◌then◌else◌, map,
}
use security_scan.Nist.Status.{ControlStatus, passed, failed}
use security_scan.Hdf.{given, null, undefined, medium, high, segment_passed, segment_failed}
use security_scan.Filters.{
  Searchables, Control, LoadedEvaluation, Filter, of_status, flat_map, loaded_controls, passes_tree,
  keep_id, keep_status, keep_severity, keep_overlay, keep_tree, starts_with, includes_text,
  keep_search, controls,
}
use security_scan.Filters.Laws.{passes, passes_search, controls-filter}
use security_scan.Filters.Search.{id_matches}
use security_scan.Counts.{StatusHash, zero_hash, count_control, count_from, count_statuses}
use security_scan.Counts.Laws.{having, count_of, count_statuses_exact}
use security_scan.Tests.NistRuns.{si_7}

-- toLowerCase on ASCII.
abbrev lower_unit : ℕ → ℕ
lower_unit c = if is_upper c then c + 32 else c

abbrev lower : Text → Text
lower = map lower_unit

abbrev searchables : Searchables
searchables = record {
  id = codes "V-71849";
  title = given (codes "Permissions");
  code = null;
  severity = codes "high";
  status = codes "Failed";
  finding_details = codes "One or more of the automated tests failed";
}

abbrev first : Control
first = record {
  id = "V-71849";
  waived = false;
  extended_by = 0;
  root = record {
    status = failed;
    severity = high;
    waived = false;
    segments = some (segment_passed ∷ segment_failed ∷ []);
    parsed_nist_tags = si_7 ∷ [];
    searchables = searchables;
  };
}

abbrev second : Control
second = record first {
  id = "V-71855";
  root = record {
    status = passed;
    severity = medium;
    waived = false;
    segments = some (segment_passed ∷ []);
    parsed_nist_tags = si_7 ∷ [];
    searchables = record searchables { id = codes "V-71855"; title = undefined };
  };
}

abbrev file : LoadedEvaluation
file = record { unique_id = "f1"; profiles = (first ∷ second ∷ []) ∷ [] }

abbrev any_control : Filter
any_control = record {
  from_file = "f1" ∷ [];
  status = none;
  severity = none;
  omit_overlayed_controls = true;
  search_term = none;
  tree_filters = [];
  control_id = none;
}

abbrev failed_only : Filter
failed_only = record any_control { status = some (of_status failed) }

controls_run : controls lower (file ∷ []) [] failed_only ≡ some (first ∷ [])
unfolding controls keep_search keep_overlay keep_severity keep_status keep_id keep_tree
    loaded_controls flat_map
controls_run = refl

controls-filter_example :
    first ∷ []
    ≡ filter
        (λ c.
          (passes failed_only c && passes_search lower failed_only.search_term c)
          && passes_tree failed_only.tree_filters c)
        (loaded_controls (file ∷ []) [] failed_only.from_file)
controls-filter_example = controls-filter lower (file ∷ []) [] failed_only (first ∷ []) controls_run

abbrev failed_hash : StatusHash
failed_hash = record zero_hash { failed = 1; failed_tests = 1; passing_tests_failed_control = 1 }

count_run : count_statuses lower (file ∷ []) [] failed_only ≡ some failed_hash
unfolding count_statuses count_from count_control controls keep_search keep_overlay keep_severity
    keep_status keep_id keep_tree loaded_controls flat_map
count_run = refl

count_statuses_exact_example :
    (cs : List Control) × (controls lower (file ∷ []) [] failed_only ≡ some cs)
    × ((t : ControlStatus) → count_of failed_hash t ≡ having t cs)
    × (failed_hash.failed + failed_hash.from_profile + failed_hash.not_applicable
          + failed_hash.not_reviewed + failed_hash.passed + failed_hash.profile_error
        ≡ length cs)
count_statuses_exact_example =
    count_statuses_exact lower (file ∷ []) [] failed_only failed_hash count_run

no_scan_in_id : id_matches lower (codes "scan") second ≡ false
unfolding includes_text starts_with
no_scan_in_id = refl
