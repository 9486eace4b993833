-- ===== src/Tests/NistRuns.antt =====
-- Runs of nist.ts at concrete controls.
use security_scan.Prelude.Int.{pos, negsuc}
use security_scan.Prelude.{
  ◌+◌, ◌≤◌, ◌≡◌, refl, ◌↔◌, none, some, List, [], ◌∷◌, arith, true, text_eq, Text, codes, length,
}
use security_scan.Nist.{NistControl, compare_lineage, contains, canonize}
use security_scan.Nist.Lineage.{Extends, compare_lineage_iff}
use security_scan.Nist.Parse.{
  parse_nist, parse_control, parse_full, match_rev, match_family, match_control, control_of_match,
  decimal, control, revision, nothing,
}
use security_scan.Nist.Parse.RoundTrip.{defaults, standard, IsStandard, parse_nist-canonize}
use security_scan.Nist.Status.{failed, passed, of_control, update_status, compare_statuses}

abbrev pub si_7_14_b : NistControl
si_7_14_b = standard b'S' b'I' (codes "7") (codes "14" ∷ codes "b" ∷ []) none

abbrev pub si_7 : NistControl
si_7 = standard b'S' b'I' (codes "7") [] none

canonize_run : canonize si_7_14_b (defaults 5) ≡ codes "SI-7 (14) b."
unfolding canonize
canonize_run = refl

parse_run :
    parse_nist (codes "SI-4a.2.")
    ≡ control (record {
      sub_specifiers = codes "SI" ∷ codes "4" ∷ codes "a" ∷ codes "2" ∷ [];
      raw_text = some (codes "SI-4a.2.");
    })
unfolding parse_nist parse_control parse_full match_rev match_family match_control control_of_match
parse_run = refl

parse_revision_run : parse_nist (codes "Rev_5") ≡ revision (record { rev_num = 5 })
unfolding parse_nist match_rev decimal
parse_revision_run = refl

parse_garbage_run : parse_nist (codes "si-7") ≡ nothing
unfolding parse_nist parse_control parse_full match_rev match_family match_control
parse_garbage_run = refl

lineage_runs :
    (compare_lineage si_7 si_7_14_b ≡ pos 2) × (compare_lineage si_7_14_b si_7 ≡ negsuc 0)
unfolding compare_lineage text_eq
lineage_runs = (refl, refl)

si_7_14_b-IsStandard : IsStandard b'S' b'I' (codes "7") (codes "14" ∷ codes "b" ∷ [])
unfolding contains canonize parse_nist match_rev control_of_match
si_7_14_b-IsStandard = record {
  family_a = refl;
  family_b = refl;
  filled = refl;
  digits = refl;
  whole = (record { filled = refl; whole = refl }, (record { filled = refl; whole = refl }, tt));
}

short_enough : length (canonize si_7_14_b (defaults 5)) ≤ 63 + length (codes "7")
unfolding canonize
short_enough = omega arith

parse_nist-canonize_example :
    parse_nist (canonize si_7_14_b (defaults 5))
    ≡ control (
        standard b'S' b'I'
          (codes "7")
          (codes "14" ∷ codes "b" ∷ [])
          (some (canonize si_7_14_b (defaults 5))))
parse_nist-canonize_example =
    parse_nist-canonize b'S' b'I' 5 (codes "7") (codes "14" ∷ codes "b" ∷ []) none
      si_7_14_b-IsStandard (omega arith) short_enough

compare_lineage_iff_example :
    (compare_lineage si_7 si_7_14_b ≡ pos 2)
    ↔ ((rest : List Text) × Extends si_7 si_7_14_b rest × (length rest ≡ 2))
compare_lineage_iff_example = compare_lineage_iff si_7 si_7_14_b 2

contained : contains si_7 si_7_14_b ≡ true
unfolding contains text_eq
contained = refl

contained_again : contains si_7_14_b si_7_14_b ≡ true
unfolding contains text_eq
contained_again = refl

-- A failed control does not move a group that has passed.
failed_after_passed : update_status (of_control passed) failed ≡ of_control passed
unfolding update_status compare_statuses
failed_after_passed = refl
