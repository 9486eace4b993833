-- ===== src/Nist/Status.antt =====
-- Statuses of controls and of groups of controls: compare_statuses and updateStatus of
-- libs/inspecjs/src/nist.ts, ControlStatus of compat_wrappers.ts.
use security_scan.Prelude.Int.{ℤ, sub_ℕ, is_pos}
use security_scan.Prelude.{ℕ, ◌+◌, List, [], ◌∷◌, ◌==◌, if◌then◌else◌}

pub data ControlStatus : Type 0 where
  not_applicable from_profile profile_error passed failed not_reviewed : ControlStatus

pub data ControlGroupStatus : Type 0 where
  of_control : ControlStatus → ControlGroupStatus
  empty : ControlGroupStatus

-- The strings of the source are told apart by these numbers.
abbrev pub status_tag : ControlStatus → ℕ
status_tag not_applicable = 0
status_tag from_profile = 1
status_tag profile_error = 2
status_tag passed = 3
status_tag failed = 4
status_tag not_reviewed = 5

abbrev pub group_tag : ControlGroupStatus → ℕ
group_tag (of_control s) = status_tag s
group_tag empty = 6

abbrev pub precedence : List ControlGroupStatus
precedence =
    empty
    ∷ of_control from_profile
    ∷ of_control not_applicable
    ∷ of_control not_reviewed
    ∷ of_control passed
    ∷ of_control failed
    ∷ of_control profile_error
    ∷ []

-- `indexOf`; each status stands in the list, so that -1 is not met.
unfoldable pub index_of : ControlGroupStatus → List ControlGroupStatus → ℕ
index_of s [] = 0
index_of s (t ∷ ts) = let rest = index_of s ts in if group_tag t == group_tag s then 0 else rest + 1

unfoldable pub compare_statuses : ControlGroupStatus → ControlGroupStatus → ℤ
unfolding index_of
compare_statuses a b = sub_ℕ (index_of a precedence) (index_of b precedence)

unfoldable pub update_status : ControlGroupStatus → ControlStatus → ControlGroupStatus
update_status group control =
    if is_pos (compare_statuses group (of_control control)) then of_control control else group
