-- ===== src/Tests/HierarchyRuns.antt =====
-- Runs of _generate_full_nist_hierarchy of nist.ts on a table that lists a control before its parent.
use security_scan.Prelude.{◌≡◌, refl, ◌↔◌, some, List, [], ◌∷◌, Text, codes}
use security_scan.Nist.{NistControl}
use security_scan.Nist.Parse.{
  parse_nist, parse_control, parse_full, match_rev, match_family, match_number, match_control,
  split_specs, control_of_match,
}
use security_scan.Nist.Hierarchy.{
  Hierarchy, insert_all, empty_hierarchy, with_families, parse_all, generate_full_nist_hierarchy,
}
use security_scan.Nist.Hierarchy.Generate.{ParentKey, ChildKey, generate_full_nist_hierarchy_iff}

abbrev families : List Text
families = codes "AC" ∷ []

abbrev numbers : List Text
numbers = codes "AC-2 (1)" ∷ codes "AC-2" ∷ []

abbrev controls : List NistControl
controls =
    record {
      sub_specifiers = codes "AC" ∷ codes "2" ∷ codes "1" ∷ [];
      raw_text = some (codes "AC-2 (1)");
    }
    ∷ record { sub_specifiers = codes "AC" ∷ codes "2" ∷ []; raw_text = some (codes "AC-2") }
    ∷ []

parsed : parse_all numbers ≡ some controls
unfolding parse_nist parse_control parse_full match_rev match_family match_number match_control
    split_specs control_of_match
parsed = refl

abbrev hierarchy : Hierarchy
hierarchy = insert_all controls (with_families families empty_hierarchy)

generated : generate_full_nist_hierarchy families numbers ≡ some hierarchy
unfolding generate_full_nist_hierarchy
generated = rw (generate_full_nist_hierarchy, parsed) refl

generate_full_nist_hierarchy_iff_example :
    (cs : List NistControl) × (parse_all numbers ≡ some cs)
    × (ChildKey hierarchy (codes "AC-2") (codes "AC-2-1")
        ↔ ParentKey cs (codes "AC-2") (codes "AC-2-1"))
generate_full_nist_hierarchy_iff_example =
    generate_full_nist_hierarchy_iff families numbers hierarchy (codes "AC-2") (codes "AC-2-1")
      generated
