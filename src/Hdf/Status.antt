-- ===== src/Hdf/Status.antt =====
-- The status of a control by its results, and the severities: compute_status, compute_severity of
-- compat_inspec_1_0.ts, against the description above ControlStatus in compat_wrappers.ts.
use security_scan.Prelude.{
  ◌⊎◌, ℕ, ◌≤◌, ◌<◌, ◌*◌, ◌≡◌, refl, ◌↔◌, ◌≢◌, Bool, true, false, ◌||◌, List, [], ◌∷◌, map, arith,
  any, length, ◌==◌, if◌then◌else◌,
}
use security_scan.Nist.Status.{
  ControlStatus, not_applicable, from_profile, profile_error, passed, failed, not_reviewed,
}
use security_scan.Hdf.{
  SegmentStatus, segment_passed, segment_failed, skipped, error, ControlResult, ExecJsonControl,
  segment_status, to_segment, has_status, status_tag, compute_status, Severity, no_severity, low,
  medium, high, critical, compute_severity, tenth,
}

-- Some result of the control counts as `s`; a result with a backtrace counts as an error.
abbrev pub Has : SegmentStatus → ExecJsonControl → Type 0
Has s c =
    any (λ r. status_tag (segment_status r.backtrace r.status) == status_tag s) c.results ≡ true

-- The control is waived, or its impact is 0.
abbrev pub IsDismissed : ExecJsonControl → Type 0
IsDismissed c = (c.skipped_due_to_waiver || c.impact == 0) ≡ true

has_status-map :
    (s : SegmentStatus) (rs : List ControlResult)
    → has_status s (map (λ t. t.status) (map to_segment rs))
      ≡ any (λ r. status_tag (segment_status r.backtrace r.status) == status_tag s) rs
has_status-map s [] = refl
has_status-map s (r ∷ rs) = rw (has_status-map s rs)

has_status-length :
    (s : SegmentStatus) (l : List SegmentStatus) → has_status s l ≡ true → (length l == 0) ≡ false
has_status-length s [] h = cc
has_status-length s (t ∷ l) h = ground arith

-- The list of statuses that compute_status reads.
abbrev listed : ExecJsonControl → List SegmentStatus
listed c = map (λ t. t.status) (map to_segment c.results)

-- The ladder of compute_status, over its tests.
ladder : Bool → Bool → Bool → Bool → Bool → ControlStatus
ladder e d f p k =
    if e
    then profile_error
    else if d
    then not_applicable
    else if f
    then failed
    else if p
    then passed
    else if k
    then not_reviewed
    else profile_error

compute_status-ladder :
    (c : ExecJsonControl)
    → compute_status c
      ≡ ladder
          (has_status error (listed c))
          (c.skipped_due_to_waiver || c.impact == 0)
          (has_status segment_failed (listed c))
          (has_status segment_passed (listed c))
          (has_status skipped (listed c))
unfolding compute_status ladder
compute_status-ladder c = ground (
  arith,
  has_status-length segment_failed (listed c),
  has_status-length segment_passed (listed c),
  has_status-length skipped (listed c),
)

ladder_iff :
    (e d f p k : Bool)
    → ((ladder e d f p k ≡ not_applicable) ↔ ((e ≢ true) × (d ≡ true)))
      × ((ladder e d f p k ≡ failed) ↔ ((e ≢ true) × (d ≢ true) × (f ≡ true)))
      × ((ladder e d f p k ≡ passed) ↔ ((e ≢ true) × (d ≢ true) × (f ≢ true) × (p ≡ true)))
      × ((ladder e d f p k ≡ not_reviewed)
          ↔ ((e ≢ true) × (d ≢ true) × (f ≢ true) × (p ≢ true) × (k ≡ true)))
      × ((ladder e d f p k ≡ profile_error)
          ↔ ((e ≡ true) ⊎ ((d ≢ true) × (f ≢ true) × (p ≢ true) × (k ≢ true))))
      × (ladder e d f p k ≢ from_profile)
unfolding ladder
ladder_iff e d f p k = ground arith

-- A control has exactly one of the statuses, by the first of these that applies: Profile Error if a
-- result is an error, Not Applicable if the control is dismissed, Failed if a result failed,
-- Passed if one passed, Not Reviewed if one was skipped, and otherwise Profile Error.
pub compute_status_iff :
    (c : ExecJsonControl)
    → ((compute_status c ≡ not_applicable) ↔ ((¬ Has error c) × IsDismissed c))
      × ((compute_status c ≡ failed) ↔ ((¬ Has error c) × (¬ IsDismissed c) × Has segment_failed c))
      × ((compute_status c ≡ passed)
          ↔ ((¬ Has error c) × (¬ IsDismissed c) × (¬ Has segment_failed c) × Has segment_passed c))
      × ((compute_status c ≡ not_reviewed) ↔ (
          (¬ Has error c)
          × (¬ IsDismissed c)
          × (¬ Has segment_failed c)
          × (¬ Has segment_passed c)
          × Has skipped c))
      × ((compute_status c ≡ profile_error) ↔ (
          Has error c
          ⊎ ((¬ IsDismissed c)
              × (¬ Has segment_failed c)
              × (¬ Has segment_passed c)
              × (¬ Has skipped c))))
      × (compute_status c ≢ from_profile)
compute_status_iff c =
    rw
      (
        compute_status-ladder c,
        has_status-map error c.results,
        has_status-map segment_failed c.results,
        has_status-map segment_passed c.results,
        has_status-map skipped c.results,
      )
      (ladder_iff _ _ _ _ _)

abbrev pub severity_rank : Severity → ℕ
severity_rank no_severity = 0
severity_rank low = 1
severity_rank medium = 2
severity_rank high = 3
severity_rank critical = 4

-- A higher impact never gives a lower severity, the severity is none exactly below 0.1, and it is
-- critical exactly from 0.9 on.
pub compute_severity_monotone :
    (i j : ℕ)
    → i ≤ j
    → (severity_rank (compute_severity i) ≤ severity_rank (compute_severity j))
      × ((compute_severity i ≡ no_severity) ↔ (i < tenth))
      × ((compute_severity i ≡ critical) ↔ (9 * tenth ≤ i))
unfolding compute_severity
compute_severity_monotone i j h = (ground arith, ground arith, ground arith)
