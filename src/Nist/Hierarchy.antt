-- ===== src/Nist/Hierarchy.antt =====
-- The hierarchy of NIST controls: heimdall2-master/libs/inspecjs/src/nist.ts and the tables of
-- raw_nist.ts, which are arguments. A node is its place in a heap; the object that maps keys to nodes is
-- a list of entries, the latest first.
pub mod Sound
pub mod Complete
pub mod Generate
use security_scan.Prelude.{
  ℕ, suc, ◌+◌, Bool, true, false, Option, none, some, List, [], ◌∷◌, ◌++◌, if◌then◌else◌, ◌==◌,
  Text, text_eq,
}
use security_scan.Nist.{NistControl, control_parent, key_for}
use security_scan.Nist.Parse.{
  parse_nist, control as parsed_control, revision as parsed_revision, nothing as not_parsed,
}

pub record Node : Type 0 where
  pub control : NistControl
  pub children : List ℕ

pub record Hierarchy : Type 0 where
  pub nodes : ℕ → Node
  -- the first place that is free
  pub next : ℕ
  pub keys : List (Text × ℕ)
  pub roots : List ℕ

abbrev pub lookup : Text → List (Text × ℕ) → Option ℕ
lookup k [] = none
lookup k ((j, n) ∷ m) = if text_eq j k then some n else lookup k m

abbrev pub write : ℕ → Node → (ℕ → Node) → ℕ → Node
write at node nodes k = if k == at then node else nodes k

-- a node of no key
abbrev pub alloc : Node → Hierarchy → Hierarchy
alloc node s = record s { nodes = write s.next node s.nodes; next = suc s.next }

-- `map[key] = node`
abbrev pub register : Text → Node → Hierarchy → Hierarchy
register key node s = record (alloc node s) { keys = (key, s.next) ∷ s.keys }

-- The node of the control: the one of its key, with this control, or a new one.
unfoldable pub place_node : NistControl → Hierarchy → ℕ × Hierarchy
place_node c s = elim (lookup (key_for c) s.keys) [
  | some n ↦ (n, record s { nodes = write n (record (s.nodes n) { control = c }) s.nodes })
  | none ↦ (s.next, register (key_for c) (record { control = c; children = [] }) s)
]

-- The node becomes a child of its parent's node, which is made if it is not there; without a parent the
-- control is a root.
unfoldable pub attach : ℕ → NistControl → Option NistControl → Hierarchy → Hierarchy
attach n c none s = record (alloc (record { control = c; children = [] }) s) {
  roots = s.roots ++ (s.next ∷ []);
}
attach n c (some p) s = elim (lookup (key_for p) s.keys) [
  | some a ↦ record s {
    nodes = write a (record (s.nodes a) { children = (s.nodes a).children ++ (n ∷ []) }) s.nodes;
  }
  | none ↦ register (key_for p) (record { control = p; children = n ∷ [] }) s
]

unfoldable pub insert : NistControl → Hierarchy → Hierarchy
unfolding place_node attach
insert c s = let (n, t) = place_node c s in attach n c (control_parent c) t

unfoldable pub insert_all : List NistControl → Hierarchy → Hierarchy
unfolding insert
insert_all [] s = s
insert_all (c ∷ cs) s = insert_all cs (insert c s)

abbrev pub empty_hierarchy : Hierarchy
empty_hierarchy = record {
  nodes = λ k. record { control = record { sub_specifiers = []; raw_text = none }; children = [] };
  next = 0;
  keys = [];
  roots = [];
}

-- The roots of the families.
unfoldable pub with_families : List Text → Hierarchy → Hierarchy
with_families [] s = s
with_families (f ∷ fs) s =
    let c : NistControl = record { sub_specifiers = f ∷ []; raw_text = some f } in
    with_families fs (record (register (key_for c) (record { control = c; children = [] }) s) {
      roots = s.roots ++ (s.next ∷ []);
    })

abbrev pub parse_all : List Text → Option (List NistControl)
parse_all [] = some []
parse_all (n ∷ ns) = elim (parse_nist n) [
  | parsed_control c ↦ elim (parse_all ns) [ none ↦ none | some cs ↦ some (c ∷ cs) ]
  | parsed_revision r ↦ none
  | not_parsed ↦ none
]

-- _generate_full_nist_hierarchy; nothing if it throws
unfoldable pub generate_full_nist_hierarchy : List Text → List Text → Option Hierarchy
unfolding insert_all with_families
generate_full_nist_hierarchy families numbers = elim (parse_all numbers) [
  | none ↦ none
  | some cs ↦ some (insert_all cs (with_families families empty_hierarchy))
]
