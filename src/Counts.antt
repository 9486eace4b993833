-- ===== src/Counts.antt =====
-- heimdall2-master/apps/frontend/src/store/status_counts.ts and severity_counts.ts: the counts of the
-- controls that a filter keeps. The caches in front of them, of lru-cache, are not modelled.
pub mod Laws
use security_scan.Prelude.{
  ℕ, ◌+◌, Bool, true, false, Option, none, some, List, [], ◌∷◌, length, filter, Text, if◌then◌else◌,
  ◌==◌,
}
use security_scan.Nist.Status.{
  ControlStatus, not_applicable, from_profile, profile_error, passed, failed, not_reviewed,
}
use security_scan.Hdf.{
  Severity, no_severity, low, medium, high, critical, SegmentStatus, segment_passed, segment_failed,
  status_tag,
}
use security_scan.Filters.{Control, RootControl, Filter, LoadedEvaluation, LoadedProfile, controls}

pub record StatusHash : Type 0 where
  pub failed : ℕ
  pub from_profile : ℕ
  pub not_applicable : ℕ
  pub not_reviewed : ℕ
  pub passed : ℕ
  pub profile_error : ℕ
  pub passed_tests : ℕ
  pub failed_tests : ℕ
  pub passing_tests_failed_control : ℕ
  pub waived : ℕ

abbrev pub zero_hash : StatusHash
zero_hash = record {
  failed = 0;
  from_profile = 0;
  not_applicable = 0;
  not_reviewed = 0;
  passed = 0;
  profile_error = 0;
  passed_tests = 0;
  failed_tests = 0;
  passing_tests_failed_control = 0;
  waived = 0;
}

-- `segments || []`
abbrev pub or_empty : Option (List SegmentStatus) → List SegmentStatus
or_empty none = []
or_empty (some l) = l

abbrev pub with_tag : SegmentStatus → List SegmentStatus → ℕ
with_tag s l = length (filter (λ t. status_tag t == status_tag s) l)

abbrev count_by : StatusHash → ControlStatus → Bool → List SegmentStatus → StatusHash
count_by h failed w l = record h {
  failed = h.failed + 1;
  passing_tests_failed_control = h.passing_tests_failed_control + with_tag segment_passed l;
  failed_tests = h.failed_tests + with_tag segment_failed l;
}
count_by h from_profile w l = record h { from_profile = h.from_profile + 1 }
count_by h not_applicable w l = record h {
  not_applicable = h.not_applicable + 1;
  waived = if w then h.waived + length l else h.waived;
}
count_by h not_reviewed w l = record h { not_reviewed = h.not_reviewed + 1 }
count_by h passed w l = record h { passed = h.passed + 1; passed_tests = h.passed_tests + length l }
count_by h profile_error w l = record h { profile_error = h.profile_error + 1 }

-- one round of the loop of count_statuses
unfoldable pub count_control : StatusHash → RootControl → StatusHash
count_control h c = count_by h c.status c.waived (or_empty c.segments)

unfoldable pub count_from : StatusHash → List Control → StatusHash
unfolding count_control
count_from h [] = h
count_from h (c ∷ cs) = count_from (count_control h c.root) cs

abbrev pub map_option {ℓ κ} : {A : Type ℓ} {B : Type κ} → (A → B) → Option A → Option B
map_option f none = none
map_option f (some a) = some (f a)

-- `{status: undefined, ...filter}`: the spread comes last, so that the status of the filter stands.
abbrev pub without_status : Filter → Filter
without_status f = record f { status = f.status }

pub record SeverityHash : Type 0 where
  pub no_severity : ℕ
  pub low : ℕ
  pub medium : ℕ
  pub high : ℕ
  pub critical : ℕ

abbrev pub zero_severities : SeverityHash
zero_severities = record { no_severity = 0; low = 0; medium = 0; high = 0; critical = 0 }

unfoldable pub count_severity : SeverityHash → Severity → SeverityHash
count_severity h no_severity = record h { no_severity = h.no_severity + 1 }
count_severity h low = record h { low = h.low + 1 }
count_severity h medium = record h { medium = h.medium + 1 }
count_severity h high = record h { high = h.high + 1 }
count_severity h critical = record h { critical = h.critical + 1 }

unfoldable pub count_severities_from : SeverityHash → List Control → SeverityHash
unfolding count_severity
count_severities_from h [] = h
count_severities_from h (c ∷ cs) = count_severities_from (count_severity h c.root.severity) cs

module _ (to_lower_case : Text → Text) (evaluations : List LoadedEvaluation)
    (profiles : List LoadedProfile) where
  unfoldable pub count_statuses : Filter → Option StatusHash
  unfolding count_from
  count_statuses f =
      map_option (count_from zero_hash)
        (controls to_lower_case evaluations profiles (without_status f))

  unfoldable pub count_severities : Filter → Option SeverityHash
  unfolding count_severities_from
  count_severities f =
      map_option (count_severities_from zero_severities)
        (controls to_lower_case evaluations profiles (without_status f))
