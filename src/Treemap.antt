-- ===== src/Treemap.antt =====
-- heimdall2-master/apps/frontend/src/utilities/treemap_util.ts: the tree of the NIST hierarchy with the
-- controls of a view at its leaves. A parent node is its place in a heap; a leaf is a value, since nothing
-- but the push below writes to it. What d3 makes of the weights and of the order of the titles is not
-- modelled; the colors and their average, of the library chroma-js, are arguments.
pub mod Shown
pub mod Under
pub mod Scaffold
pub mod Fills
pub mod Placed
use security_scan.Prelude.{
  ℕ, zero, suc, ◌+◌, String, Bool, true, false, Option, none, some, List, [], ◌∷◌, ◌++◌, map, take,
  length, ltb, ◌==◌, if◌then◌else◌, is_empty, Text, text_eq, codes, join,
}
use security_scan.Nist.{NistControl}
use security_scan.Nist.Status.{ControlStatus}
use security_scan.Nist.Hierarchy.{Node, Hierarchy, lookup}

-- What is read of a contextualised control: its data, its unique key and the status and the tags of its
-- root.
pub record MappedControl : Type 0 where
  pub id : Text
  pub title : Option Text
  pub desc : Option Text
  pub unique_key : Text
  pub status : ControlStatus
  pub parsed_nist_tags : List NistControl

-- `parent` is a place.
pub record TreemapNodeLeaf (Color : Type 0) : Type 0 where
  pub title : Text
  pub subtitle : Option Text
  pub hovertext : Option Text
  pub key : Text
  pub control : MappedControl
  pub nist_control : NistControl
  pub color : Color
  pub parent : Option ℕ

pub data TreemapNode (Color : Type 0) : Type 0 where
  a_leaf : TreemapNodeLeaf Color → TreemapNode Color
  a_parent : ℕ → TreemapNode Color

pub record TreemapNodeParent (Color : Type 0) : Type 0 where
  pub key : Text
  pub title : Text
  pub nist_control : NistControl
  pub parent : Option ℕ
  pub children : List (TreemapNode Color)
  pub color : Option Color

pub record Treemap (Color : Type 0) : Type 0 where
  pub nodes : ℕ → TreemapNodeParent Color
  -- the first place that is free
  pub next : ℕ
  -- controlLookup, the latest entry first
  pub control_lookup : List (Text × ℕ)

abbrev pub depth_max : ℕ
depth_max = 2

-- `t || undefined`
abbrev pub or_undefined : Option Text → Option Text
or_undefined none = none
or_undefined (some t) = if is_empty t then none else some t

-- `t || ''`
abbrev pub or_blank : Option Text → Text
or_blank none = []
or_blank (some t) = t

-- A text that is appended, where there may be none.
abbrev pub as_printed : Option Text → Text
as_printed none = codes "undefined"
as_printed (some t) = t

abbrev dash : Text
dash = codes "-"

unfoldable pub lookup_key_for : NistControl → ℕ → Text
lookup_key_for x zero = join dash x.sub_specifiers
lookup_key_for x (suc max_depth) = join dash (take (suc max_depth) x.sub_specifiers)

-- All of one, a share of one, or nothing.
pub data Weight : Type 0 where
  nothing one : Weight
  one_of : ℕ → Weight

module _ {Color : Type 0} where
  -- The leaves of a control, one for each of its tags.
  abbrev pub leaf_of : (ControlStatus → Color) → MappedControl → NistControl → TreemapNodeLeaf Color
  leaf_of color_for_status cc nc = record {
    title = cc.id;
    subtitle = or_undefined cc.title;
    hovertext = or_undefined cc.desc;
    key = cc.unique_key ++ as_printed nc.raw_text;
    control = cc;
    nist_control = nc;
    color = color_for_status cc.status;
    parent = none;
  }

  unfoldable pub controls_to_nist_node_data :
      (ControlStatus → Color) → List MappedControl → List (TreemapNodeLeaf Color)
  controls_to_nist_node_data color_for_status [] = []
  controls_to_nist_node_data color_for_status (cc ∷ ccs) =
      map (leaf_of color_for_status cc) cc.parsed_nist_tags
      ++ controls_to_nist_node_data color_for_status ccs

  abbrev pub write_node : ℕ → TreemapNodeParent Color → Treemap Color → Treemap Color
  write_node at node s = record s { nodes = λ k. if k == at then node else s.nodes k }

  -- `parent.children.push(child)`
  abbrev pub push_child : ℕ → TreemapNode Color → Treemap Color → Treemap Color
  push_child at child s =
      write_node at (record (s.nodes at) { children = (s.nodes at).children ++ (child ∷ []) }) s

  -- A new node at the first free place.
  abbrev pub new_node : TreemapNodeParent Color → Treemap Color → Treemap Color
  new_node node s = record (write_node s.next node s) { next = suc s.next }

  abbrev pub new_parent : Option ℕ → Node → TreemapNodeParent Color
  new_parent parent node = record {
    key = or_blank node.control.raw_text;
    title = or_blank node.control.raw_text;
    nist_control = node.control;
    parent = parent;
    children = [];
    color = none;
  }

  -- `controlLookup[key] = ret`
  abbrev pub register : Text → ℕ → Treemap Color → Treemap Color
  register key at s = record s { control_lookup = (key, at) ∷ s.control_lookup }

  -- The loop over the children, each of which goes to the node at `at`.
  abbrev pub fill_children :
      (ℕ → Treemap Color → Option (Treemap Color))
      → ℕ
      → List ℕ
      → Treemap Color
      → Option (Treemap Color)
  fill_children go at [] s = some s
  fill_children go at (child ∷ more) s = elim (go child s) [
    | none ↦ none
    | some t ↦ fill_children go at more (push_child at (a_parent s.next) t)
  ]

  abbrev pub fill_if :
      Bool
      → (ℕ → Treemap Color → Option (Treemap Color))
      → ℕ
      → List ℕ
      → Treemap Color
      → Option (Treemap Color)
  fill_if true go at children s = fill_children go at children s
  fill_if false go at children s = some s

  abbrev pub register_after : Text → ℕ → Option (Treemap Color) → Option (Treemap Color)
  register_after key at none = none
  register_after key at (some s) = some (register key at s)

  -- The node that is made stands at the place that was free before. Nothing if the fuel is too small.
  unfoldable pub recursive_nist_map :
      (ℕ → Node) → ℕ → ℕ → Option ℕ → ℕ → Treemap Color → Option (Treemap Color)
  unfolding lookup_key_for
  recursive_nist_map hierarchy max_depth zero parent n s = none
  recursive_nist_map hierarchy max_depth (suc fuel) parent n s =
      let node = hierarchy n in
      let made = new_node (new_parent parent node) s in
      register_after (lookup_key_for node.control max_depth) s.next (
        fill_if (ltb (length node.control.sub_specifiers) max_depth)
          (recursive_nist_map hierarchy max_depth fuel (some s.next)) s.next node.children made)

  -- A leaf goes to the node of its key; without one it is left out, with a warning.
  unfoldable pub place_leaf : ℕ → TreemapNodeLeaf Color → Treemap Color → Treemap Color
  unfolding lookup_key_for
  place_leaf max_depth leaf s =
      elim (lookup (lookup_key_for leaf.nist_control max_depth) s.control_lookup) [
        | none ↦ s
        | some at ↦ push_child at (a_leaf (record leaf { parent = some at })) s
      ]

  unfoldable pub populate_tree_map :
      ℕ → List (TreemapNodeLeaf Color) → Treemap Color → Treemap Color
  unfolding place_leaf
  populate_tree_map max_depth [] s = s
  populate_tree_map max_depth (leaf ∷ leaves) s =
      populate_tree_map max_depth leaves (place_leaf max_depth leaf s)

  -- The colors that the children have.
  abbrev pub child_colors : (ℕ → TreemapNodeParent Color) → List (TreemapNode Color) → List Color
  child_colors nodes [] = []
  child_colors nodes (a_leaf l ∷ cs) = l.color ∷ child_colors nodes cs
  child_colors nodes (a_parent p ∷ cs) = elim (nodes p).color [
    | none ↦ child_colors nodes cs
    | some c ↦ c ∷ child_colors nodes cs
  ]

  abbrev pub colored : (List Color → Color) → List Color → Option Color → Option Color
  colored average [] before = before
  colored average (c ∷ cs) before = some (average (c ∷ cs))

  abbrev pub colorize_children :
      (ℕ → Treemap Color → Treemap Color) → List (TreemapNode Color) → Treemap Color → Treemap Color
  colorize_children go [] s = s
  colorize_children go (a_leaf l ∷ cs) s = colorize_children go cs s
  colorize_children go (a_parent p ∷ cs) s = colorize_children go cs (go p s)

  -- On fuel, which is the depth of the tree.
  unfoldable pub colorize_tree_map : (List Color → Color) → ℕ → ℕ → Treemap Color → Treemap Color
  colorize_tree_map average zero root s = s
  colorize_tree_map average (suc fuel) root s =
      let t = colorize_children (colorize_tree_map average fuel) (s.nodes root).children s in
      write_node root
        (record (t.nodes root) {
          color =
              colored average (child_colors t.nodes (t.nodes root).children) (t.nodes root).color;
        })
        t

  abbrev pub tree_root : TreemapNodeParent Color
  tree_root = record {
    key = codes "tree_root";
    title = codes "NIST-853 Controls";
    nist_control = record { sub_specifiers = []; raw_text = some (codes "NIST-853") };
    parent = none;
    children = [];
    color = none;
  }

  -- The root alone, at the place 0.
  abbrev pub root_only : Treemap Color
  root_only = record { nodes = λ k. tree_root; next = 1; control_lookup = [] }

  abbrev pub finished :
      (List Color → Color)
      → List (TreemapNodeLeaf Color)
      → ℕ
      → Option (Treemap Color)
      → Option (Treemap Color)
  finished average leaves fuel none = none
  finished average leaves fuel (some s) =
      some (colorize_tree_map average fuel 0 (populate_tree_map depth_max leaves s))

  unfoldable pub build_populated_nist_map :
      (List Color → Color) → Hierarchy → ℕ → List (TreemapNodeLeaf Color) → Option (Treemap Color)
  unfolding recursive_nist_map populate_tree_map colorize_tree_map
  build_populated_nist_map average full_nist_hierarchy fuel leaves =
      finished average leaves (suc fuel) (
        fill_children (recursive_nist_map full_nist_hierarchy.nodes depth_max fuel (some 0)) 0
          full_nist_hierarchy.roots root_only)

  -- The weights that node_data_to_tree_map gives to `sum`.
  unfoldable pub weight : (ℕ → TreemapNodeParent Color) → TreemapNode Color → Weight
  weight nodes (a_parent p) = if is_empty (nodes p).children then one else nothing
  weight nodes (a_leaf l) = elim l.parent [
    | none ↦ nothing
    | some p ↦ one_of (length (nodes p).children)
  ]

  -- build_nist_tree_map, up to what d3 makes of it
  unfoldable pub build_nist_tree_map :
      (ControlStatus → Color)
      → (List Color → Color)
      → Hierarchy
      → ℕ
      → List MappedControl
      → Option (Treemap Color)
  unfolding controls_to_nist_node_data build_populated_nist_map
  build_nist_tree_map color_for_status average full_nist_hierarchy fuel controls =
      build_populated_nist_map average full_nist_hierarchy fuel
        (controls_to_nist_node_data color_for_status controls)
