-- ===== src/Tests/HdfRuns.antt =====
-- Runs of compat_inspec_1_0.ts and compat_wrappers.ts at concrete controls.
use security_scan.Prelude.{
  ◌≤◌, ◌<◌, ◌*◌, ◌≡◌, ◌≢◌, refl, ◌↔◌, ◌⊎◌, true, false, none, some, List, [], ◌∷◌, arith, any, Text,
  codes,
}
use security_scan.Nist.{key_for}
use security_scan.Nist.Status.{
  not_applicable, from_profile, profile_error, passed, failed, not_reviewed,
}
use security_scan.Hdf.{
  ControlResult, ExecJsonControl, given, undefined, result_passed, result_failed, error,
  segment_failed, segment_passed, skipped, compute_status, status_of_list, compute_segments,
  status_list, compute_severity, no_severity, critical, tenth, seen, unmapped,
}
use security_scan.Hdf.Status.{
  Has, IsDismissed, compute_status_iff, compute_severity_monotone, severity_rank,
}
use security_scan.Hdf.Tags.{IsUnique, keys, parses_to, tags, tags_distinct}
use security_scan.Tests.Instances.{same_collation}
use security_scan.Tests.NistRuns.{si_7}

abbrev result : ControlResult
result = record {
  backtrace = undefined;
  code_desc = "File /etc/shadow is expected not to be readable";
  exception = undefined;
  message = given "expected not to be readable";
  resource = undefined;
  run_time = given 3;
  skip_message = undefined;
  start_time = "2020-01-01T00:00:00Z";
  status = given result_failed;
}

abbrev exec_json : ExecJsonControl
exec_json = record {
  id = "V-71849";
  title = given "Permissions";
  code = undefined;
  desc = undefined;
  impact = 7 * tenth;
  nist = some (codes "SI-7 (14) b." ∷ codes "Rev_4" ∷ []);
  results = record result { status = given result_passed } ∷ result ∷ [];
  descriptions = none;
  skipped_due_to_waiver = false;
}

exec_json-failed : compute_status exec_json ≡ failed
unfolding compute_status status_of_list compute_segments status_list
exec_json-failed = refl

waived_run : compute_status (record exec_json { skipped_due_to_waiver = true }) ≡ not_applicable
unfolding compute_status status_of_list compute_segments status_list
waived_run = refl

compute_status_iff_example :
    ((compute_status exec_json ≡ not_applicable)
      ↔ ((¬ Has error exec_json) × IsDismissed exec_json))
    × ((compute_status exec_json ≡ failed)
        ↔ ((¬ Has error exec_json) × (¬ IsDismissed exec_json) × Has segment_failed exec_json))
    × ((compute_status exec_json ≡ passed) ↔ (
        (¬ Has error exec_json)
        × (¬ IsDismissed exec_json)
        × (¬ Has segment_failed exec_json)
        × Has segment_passed exec_json))
    × ((compute_status exec_json ≡ not_reviewed) ↔ (
        (¬ Has error exec_json)
        × (¬ IsDismissed exec_json)
        × (¬ Has segment_failed exec_json)
        × (¬ Has segment_passed exec_json)
        × Has skipped exec_json))
    × ((compute_status exec_json ≡ profile_error) ↔ (
        Has error exec_json
        ⊎ ((¬ IsDismissed exec_json)
            × (¬ Has segment_failed exec_json)
            × (¬ Has segment_passed exec_json)
            × (¬ Has skipped exec_json))))
    × (compute_status exec_json ≢ from_profile)
compute_status_iff_example = compute_status_iff exec_json

compute_severity_monotone_example :
    (severity_rank (compute_severity (5 * tenth)) ≤ severity_rank (compute_severity (9 * tenth)))
    × ((compute_severity (5 * tenth) ≡ no_severity) ↔ (5 * tenth < tenth))
    × ((compute_severity (5 * tenth) ≡ critical) ↔ (9 * tenth ≤ 5 * tenth))
compute_severity_monotone_example = compute_severity_monotone (5 * tenth) (9 * tenth) (omega arith)

abbrev raw : List Text
raw = codes "SI-7 (14) b." ∷ codes "Rev_4" ∷ codes "SI-7" ∷ codes "SI-7" ∷ []

tags_distinct_example :
    (tags same_collation raw ≢ [])
    × IsUnique (keys (tags same_collation raw))
    × ((any (parses_to (key_for si_7)) raw ≡ false)
        ⊎ (seen (key_for si_7) (keys (tags same_collation raw)) ≡ true))
    × ((seen (key_for si_7) (keys (tags same_collation raw)) ≡ false)
        ⊎ ((any (parses_to (key_for si_7)) raw ≡ true) ⊎ (key_for si_7 ≡ key_for unmapped)))
tags_distinct_example = tags_distinct same_collation raw (key_for si_7)
