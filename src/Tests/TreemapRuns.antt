-- ===== src/Tests/TreemapRuns.antt =====
-- Runs of the tree map on a small hierarchy.
use security_scan.Prelude.{
  ℕ, zero, suc, ◌≡◌, refl, Option, none, some, List, [], ◌∷◌, map, filter, Text, codes, In, here,
  there, arith, length, text_eq,
}
use security_scan.Nist.{NistControl}
use security_scan.Nist.Status.{ControlStatus}
use security_scan.Nist.Hierarchy.{Node, Hierarchy, lookup}
use security_scan.Treemap.{
  MappedControl, Treemap, TreemapNodeLeaf, lookup_key_for, depth_max, controls_to_nist_node_data,
  build_populated_nist_map,
}
use security_scan.Treemap.Under.{Under}
use security_scan.Treemap.Shown.{Deepening, Shown}
use security_scan.Treemap.Scaffold.{leaves_of}
use security_scan.Treemap.Placed.{placed_at, goes_to, build_populated_nist_map-leaves}

abbrev nist : List Text → NistControl
nist specs = record { sub_specifiers = specs; raw_text = none }

abbrev nodes : ℕ → Node
nodes zero = record { control = nist (codes "AC" ∷ []); children = 1 ∷ [] }
nodes (suc zero) = record { control = nist (codes "AC" ∷ codes "2" ∷ []); children = [] }
nodes (suc (suc n)) = record { control = nist []; children = [] }

abbrev hierarchy : Hierarchy
hierarchy = record { nodes = nodes; next = 2; keys = []; roots = 0 ∷ [] }

nodes-Deepening : Deepening nodes
nodes-Deepening zero c here = omega arith
nodes-Deepening zero c (there i) = elim i [ ]
nodes-Deepening (suc zero) c i = elim i [ ]
nodes-Deepening (suc (suc n)) c i = elim i [ ]

-- A control with a tag below the depth of the map, and one that no node takes.
abbrev mapped : MappedControl
mapped = record {
  id = codes "V-1";
  title = some [];
  desc = none;
  unique_key = codes "k";
  status = ControlStatus.passed;
  parsed_nist_tags = nist (codes "AC" ∷ codes "2" ∷ codes "a" ∷ []) ∷ nist (codes "ZZ" ∷ []) ∷ [];
}

-- A color is the number of the leaves that it is the average of.
abbrev color : ControlStatus → ℕ
color status = 1

leaves : List (TreemapNodeLeaf ℕ)
leaves = controls_to_nist_node_data color (mapped ∷ [])

-- The leaf stands at the node AC-2, the third that is made.
abbrev first_leaf : Treemap ℕ → List (TreemapNodeLeaf ℕ)
first_leaf t = leaves_of (t.nodes 2).children

abbrev parents : Option (Treemap ℕ) → List (Option ℕ)
parents none = []
parents (some t) = map (λ (l : TreemapNodeLeaf ℕ). l.parent) (first_leaf t)

placed_run : parents (build_populated_nist_map length hierarchy 3 leaves) ≡ some 2 ∷ []
unfolding leaves build_populated_nist_map controls_to_nist_node_data lookup_key_for text_eq
placed_run = refl

build_populated_nist_map-leaves_example :
    (t : Treemap ℕ) × (build_populated_nist_map length hierarchy 3 leaves ≡ some t)
    × ((root m : ℕ)
        → In root (0 ∷ [])
        → Shown nodes depth_max root m
        → (p : ℕ) × (lookup (lookup_key_for (nodes m).control depth_max) t.control_lookup ≡ some p))
    × ((k : Text) (p : ℕ)
        → lookup k t.control_lookup ≡ some p
        → (lookup_key_for (t.nodes p).nist_control depth_max ≡ k) × Under t.nodes 0 p)
    × ((p : ℕ)
        → leaves_of (t.nodes p).children
          ≡ map (placed_at p) (filter (goes_to t.control_lookup depth_max p) leaves))
build_populated_nist_map-leaves_example =
    build_populated_nist_map-leaves length hierarchy 3 leaves nodes-Deepening (omega arith)
