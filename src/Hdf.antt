-- ===== src/Hdf.antt =====
-- heimdall2-master/libs/inspecjs/src/compat_impl/compat_inspec_1_0.ts and compat_wrappers.ts: what
-- Heimdall derives from one control of an InSpec report. The report is that of Report, the tags are
-- those of Tagging.
pub mod Status
pub mod Tags
use Prim.Native.String.{◌++◌ as text_append}
use security_scan.Prelude.Int.{ℤ, is_pos}
use security_scan.Prelude.{
  ℕ, zero, suc, ◌+◌, ◌*◌, ◌^◌, String, Bool, true, false, ◌&&◌, ◌||◌, not, Option, none, some, List,
  [], ◌∷◌, ◌++◌, map, put_key, ltb, ◌==◌, str_eq, if◌then◌else◌, any, find, is_empty, Text, codes,
  text_eq, length,
}
pub use security_scan.Report.{
  Nullable, given, null, undefined, printed, or_undefined, or_text, or_undefined_number,
  or_undefined_array, Severity, no_severity, low, medium, high, critical, SegmentStatus,
  segment_passed, segment_failed, skipped, error, no_status, ResultStatus, result_error,
  result_failed, result_passed, result_skipped, ControlResult, ControlDescription, ExecJsonControl,
  DescriptionValue, text_value, other_value, ProfileJsonControl, Segment,
}
pub use security_scan.Tagging.{TagState}
unfoldable pub use security_scan.Tagging.{
  compute_raw_nist_tags, seen, collect_tag, collect_tags, no_tags, unmapped, insert_sorted, sort,
  stub_if_empty, compute_proper_nist_tags, canonize_all,
}
use security_scan.Nist.{NistControl, NistRevision, PartialConfig, key_for, local_compare, canonize}
use security_scan.Nist.Parse.{ParseNist, control, revision, nothing, parse_nist}
use security_scan.Nist.Status.{
  ControlStatus, not_applicable, from_profile, profile_error, passed, failed, not_reviewed,
}

-- `result.backtrace ? 'error' : result.status || 'no_status'`
abbrev pub segment_status : Nullable (List String) → Nullable ResultStatus → SegmentStatus
segment_status (given trace) s = error
segment_status null (given result_error) = error
segment_status null (given result_failed) = segment_failed
segment_status null (given result_passed) = segment_passed
segment_status null (given result_skipped) = skipped
segment_status null null = no_status
segment_status null undefined = no_status
segment_status undefined (given result_error) = error
segment_status undefined (given result_failed) = segment_failed
segment_status undefined (given result_passed) = segment_passed
segment_status undefined (given result_skipped) = skipped
segment_status undefined null = no_status
segment_status undefined undefined = no_status

abbrev pub to_segment : ControlResult → Segment
to_segment result = record {
  status = segment_status result.backtrace result.status;
  message = or_undefined result.message;
  code_desc = result.code_desc;
  skip_message = or_undefined result.skip_message;
  exception = or_undefined result.exception;
  backtrace = or_undefined_array result.backtrace;
  start_time = result.start_time;
  run_time = or_undefined_number result.run_time;
  resource = or_undefined result.resource;
}

unfoldable pub compute_segments : ExecJsonControl → List Segment
compute_segments c = map to_segment c.results

unfoldable pub status_list : Option (List Segment) → Option (List SegmentStatus)
status_list none = none
status_list (some segments) = some (map (λ s. s.status) segments)

abbrev pub status_tag : SegmentStatus → ℕ
status_tag segment_passed = 0
status_tag segment_failed = 1
status_tag skipped = 2
status_tag error = 3
status_tag no_status = 4

-- `status_list.includes(s)`
abbrev pub has_status : SegmentStatus → List SegmentStatus → Bool
has_status s l = any (λ t. status_tag t == status_tag s) l

-- compute_status, on the list that it reads
unfoldable pub status_of_list : Bool → ℕ → Option (List SegmentStatus) → ControlStatus
status_of_list waived impact none = profile_error
status_of_list waived impact (some l) =
    if has_status error l
    then profile_error
    else if waived || impact == 0
    then not_applicable
    else if length l == 0
    then profile_error
    else if has_status segment_failed l
    then failed
    else if has_status segment_passed l
    then passed
    else if has_status skipped l
    then not_reviewed
    else profile_error

unfoldable pub compute_status : ExecJsonControl → ControlStatus
unfolding status_of_list compute_segments status_list
compute_status c =
    status_of_list c.skipped_due_to_waiver c.impact (status_list (some (compute_segments c)))

-- A tenth, in the unit of impacts.
abbrev pub tenth : ℕ
tenth = 10 ^ 14

unfoldable pub compute_severity : ℕ → Severity
compute_severity impact =
    if ltb impact (1 * tenth)
    then no_severity
    else if ltb impact (4 * tenth)
    then low
    else if ltb impact (7 * tenth)
    then medium
    else if ltb impact (9 * tenth)
    then high
    else critical

infixr 60 ◌#◌
abbrev ◌#◌ : String → String → String
a # b = text_append a b

unfoldable pub to_message_line : ControlResult → String
to_message_line r = elim r.status [
  | given result_skipped ↦ "SKIPPED -- " # printed r.skip_message # "\n"
  | given result_failed ↦
      "FAILED -- Test: " # r.code_desc # "\nMessage: " # printed r.message # "\n"
  | given result_passed ↦ "PASSED -- " # r.code_desc # "\n\""
  | given result_error ↦ "ERROR -- Test: " # r.code_desc # "\nMessage: " # printed r.message
  | null ↦ "Exception: " # printed r.exception # "\n"
  | undefined ↦ "Exception: " # printed r.exception # "\n"
]

abbrev concat_lines : List String → String
concat_lines [] = ""
concat_lines (l ∷ ls) = l # concat_lines ls

unfoldable pub compute_message : ExecJsonControl → String
unfolding to_message_line
compute_message c =
    if c.impact == 0
    then or_text c.desc "No message found."
    else concat_lines (map to_message_line c.results)

-- finding_details, on the properties that it reads. Both classes give a message, so that the test
-- of `this.message` for `undefined` always passes, and every status has a case.
unfoldable pub finding_details : ControlStatus → Option (List SegmentStatus) → String → String
finding_details failed l message =
    "One or more of the automated tests failed or was inconclusive for the control:\n\n" # message
    # "\n"
finding_details passed l message =
    "All Automated tests passed for the control:\n\n" # message # "\n"
finding_details not_reviewed l message =
    "Automated test skipped due to known accepted condition in the control:\n\n" # message # "\n"
finding_details not_applicable l message = "Justification:\n\n" # message # "\n"
finding_details profile_error none message = "No describe blocks were run in this control"
finding_details profile_error (some []) message = "No describe blocks were run in this control"
finding_details profile_error (some (s ∷ l)) message = "Exception:\n\n" # message # "\n"
finding_details from_profile l message = "No tests are run in a profile json."

abbrev exec_descriptions : List (String × String) → List ControlDescription → List (String × String)
exec_descriptions m [] = m
exec_descriptions m (x ∷ xs) = exec_descriptions (put_key x.label x.contents m) xs

abbrev profile_descriptions :
    List (String × String) → List (String × DescriptionValue) → List (String × String)
profile_descriptions m [] = m
profile_descriptions m ((key, text_value s) ∷ xs) = profile_descriptions (put_key key s m) xs
profile_descriptions m ((key, other_value) ∷ xs) = profile_descriptions m xs

abbrev of_option {ℓ κ} : {A : Type ℓ} {B : Type κ} → Option A → B → (A → B) → B
of_option none d f = d
of_option (some a) d f = f a

pub record HdfControl : Type 0 where
  pub raw_nist_tags : List Text
  pub parsed_nist_tags : List NistControl
  pub parsed_nist_revision : Option NistRevision
  pub severity : Severity
  pub waived : Bool
  pub is_profile : Bool
  pub descriptions : List (String × String)
  pub message : String
  pub segments : Option (List Segment)
  pub status : ControlStatus

module _ (locale_compare : Text → Text → ℤ) where
  -- the constructor of ExecControl
  unfoldable pub exec_control : ExecJsonControl → HdfControl
  unfolding compute_raw_nist_tags compute_proper_nist_tags compute_severity compute_message
      compute_segments compute_status put_key
  exec_control c =
      let raw = compute_raw_nist_tags c.nist in
      let (tags, rev) = compute_proper_nist_tags locale_compare raw in
      record {
        raw_nist_tags = raw;
        parsed_nist_tags = tags;
        parsed_nist_revision = rev;
        severity = compute_severity c.impact;
        waived = c.skipped_due_to_waiver;
        is_profile = false;
        descriptions = of_option c.descriptions [] (exec_descriptions []);
        message = compute_message c;
        segments = some (compute_segments c);
        status = compute_status c;
      }

  -- the constructor of ProfileControl, with its getter `message`
  unfoldable pub profile_control : ProfileJsonControl → HdfControl
  unfolding compute_raw_nist_tags compute_proper_nist_tags compute_severity put_key
  profile_control c =
      let raw = compute_raw_nist_tags c.nist in
      let (tags, rev) = compute_proper_nist_tags locale_compare raw in
      record {
        raw_nist_tags = raw;
        parsed_nist_tags = tags;
        parsed_nist_revision = rev;
        severity = compute_severity c.impact;
        waived = false;
        is_profile = true;
        descriptions = of_option c.descriptions [] (profile_descriptions []);
        message = or_text c.desc "No message found.";
        segments = none;
        status = from_profile;
      }

-- A control of either report, and hdfWrapControl, which tells them apart by the key `results`.
pub data AnyControl : Type 0 where
  exec : ExecJsonControl → AnyControl
  profile : ProfileJsonControl → AnyControl

module _ (locale_compare : Text → Text → ℤ) where
  unfoldable pub hdf_wrap_control : AnyControl → HdfControl
  unfolding exec_control profile_control
  hdf_wrap_control (exec c) = exec_control locale_compare c
  hdf_wrap_control (profile c) = profile_control locale_compare c

  unfoldable pub start_time : AnyControl → Option String
  unfolding hdf_wrap_control
  start_time c = elim (hdf_wrap_control c).segments [
    | none ↦ none
    | some l ↦ elim l [ [] ↦ none | s ∷ r ↦ some s.start_time ]
  ]
