-- ===== src/Treemap/Placed.antt =====
-- Where the leaves of heimdall2-master/apps/frontend/src/utilities/treemap_util.ts stand in the finished map.
use mathlib.Core.List.{append_assoc, append-nil}
use security_scan.Prelude.{
  ℕ, zero, suc, ◌<◌, ◌≡◌, refl, sym, subst, ◌∙◌, ap, Bool, true, false, Option, none, some, List,
  [], ◌∷◌, ◌++◌, map, filter, ◌==◌, ==_iff, if◌then◌else◌, Text, arith, Bool-cases, Option-cases,
  inl, inr, In,
}
use security_scan.Nist.Hierarchy.{Hierarchy, lookup}
use security_scan.Treemap.{
  Treemap, TreemapNode, TreemapNodeLeaf, a_leaf, a_parent, lookup_key_for, depth_max, write_node,
  place_leaf, populate_tree_map, colorize_children, colorize_tree_map, recursive_nist_map,
  root_only, build_populated_nist_map,
}
use security_scan.Treemap.Shown.{Deepening, Shown, ShownKey}
use security_scan.Treemap.Under.{Under, at_top, Keeps, Under-Keeps, Keeps-push}
use security_scan.Treemap.Scaffold.{leaves_of, leaves_of-append, push_child-control, Scaffold}
use security_scan.Treemap.Fills.{NewUnder, fill_children-Grown, recursive_nist_map-Grown}

-- What the lookup finds is the place.
abbrev pub leads_to : ℕ → Option ℕ → Bool
leads_to p none = false
leads_to p (some q) = p == q

module _ {Color : Type 0} where
  -- The lookup leads the key of the leaf to the place.
  abbrev pub goes_to : List (Text × ℕ) → ℕ → ℕ → TreemapNodeLeaf Color → Bool
  goes_to control_lookup depth p l =
      leads_to p (lookup (lookup_key_for l.nist_control depth) control_lookup)

  abbrev pub placed_at : ℕ → TreemapNodeLeaf Color → TreemapNodeLeaf Color
  placed_at p l = record l { parent = some p }

  place_leaf-leaves :
      (depth : ℕ) (l : TreemapNodeLeaf Color) (s : Treemap Color) (p : ℕ)
      → leaves_of ((place_leaf depth l s).nodes p).children
        ≡ leaves_of (s.nodes p).children
          ++ (if goes_to s.control_lookup depth p l then placed_at p l ∷ [] else [])
  unfolding place_leaf
  place_leaf-leaves depth l s p =
      elim (Option-cases (lookup (lookup_key_for l.nist_control depth) s.control_lookup)) [
        | inl e ↦ rw (e, place_leaf) (sym (append-nil (leaves_of (s.nodes p).children)))
        | inr (at, e) ↦ elim (Bool-cases (p == at)) [
          | inl f ↦
              let q : p ≡ at = (==_iff p at).0 f in
              rw (e, place_leaf)
                (rw f (
                  leaves_of-append (s.nodes at).children (a_leaf (placed_at at l) ∷ [])
                  ∙ ap (λ r. leaves_of (s.nodes r).children ++ (placed_at r l ∷ [])) (sym q)))
          | inr f ↦ rw (e, place_leaf) (rw f (sym (append-nil (leaves_of (s.nodes p).children))))
        ]
      ]

  -- What neither a leaf nor a color changes.
  record Same (s t : Treemap Color) : Type 0 where
    same_lookup : t.control_lookup ≡ s.control_lookup
    same_control : (p : ℕ) → (t.nodes p).nist_control ≡ (s.nodes p).nist_control
    keeps : Keeps s.nodes t.nodes

  Same-self : (s : Treemap Color) → Same s s
  Same-self s = record { same_lookup = refl; same_control = λ p. refl; keeps = λ p q m. m }

  Same-twice : {s t u : Treemap Color} → Same s t → Same t u → Same s u
  Same-twice a b = record {
    same_lookup = b.same_lookup ∙ a.same_lookup;
    same_control = λ p. b.same_control p ∙ a.same_control p;
    keeps = λ p q m. b.keeps p q (a.keeps p q m);
  }

  place_leaf-Same :
      (depth : ℕ) (l : TreemapNodeLeaf Color) (s : Treemap Color) → Same s (place_leaf depth l s)
  unfolding place_leaf
  place_leaf-Same depth l s =
      elim (Option-cases (lookup (lookup_key_for l.nist_control depth) s.control_lookup)) [
        | inl e ↦ rw (e, place_leaf) (Same-self s)
        | inr (at, e) ↦
            rw (e, place_leaf)
              (record {
                same_lookup = refl;
                same_control = push_child-control at (a_leaf (placed_at at l)) s;
                keeps = Keeps-push at (a_leaf (placed_at at l)) s;
              })
      ]

  populate-Same :
      (depth : ℕ) (ls : List (TreemapNodeLeaf Color)) (s : Treemap Color)
      → Same s (populate_tree_map depth ls s)
  unfolding populate_tree_map
  populate-Same depth [] s = Same-self s
  populate-Same depth (l ∷ ls) s =
      Same-twice (place_leaf-Same depth l s) (populate-Same depth ls (place_leaf depth l s))

  one_more :
      (b : Bool) (f : TreemapNodeLeaf Color → TreemapNodeLeaf Color) (l : TreemapNodeLeaf Color)
      (xs ls : List (TreemapNodeLeaf Color))
      → (xs ++ (if b then f l ∷ [] else [])) ++ map f ls ≡ xs ++ map f (if b then l ∷ ls else ls)
  one_more true f l xs ls = append_assoc xs (f l ∷ []) (map f ls)
  one_more false f l xs ls = ap (λ t. t ++ map f ls) (append-nil xs)

  populate-leaves :
      (depth : ℕ) (ls : List (TreemapNodeLeaf Color)) (s : Treemap Color) (p : ℕ)
      → leaves_of ((populate_tree_map depth ls s).nodes p).children
        ≡ leaves_of (s.nodes p).children
          ++ map (placed_at p) (filter (goes_to s.control_lookup depth p) ls)
  unfolding populate_tree_map
  populate-leaves depth [] s p = sym (append-nil (leaves_of (s.nodes p).children))
  populate-leaves depth (l ∷ ls) s p =
      populate-leaves depth ls (place_leaf depth l s) p
      ∙ rw (place_leaf-leaves depth l s p, (place_leaf-Same depth l s).same_lookup)
          (one_more (goes_to s.control_lookup depth p l) (placed_at p) l
            (leaves_of (s.nodes p).children) (filter (goes_to s.control_lookup depth p) ls))

  -- What a color changes is nothing else.
  record Recolored (s t : Treemap Color) : Type 0 where
    same : Same s t
    same_children : (p : ℕ) → (t.nodes p).children ≡ (s.nodes p).children

  Recolored-twice : {s t u : Treemap Color} → Recolored s t → Recolored t u → Recolored s u
  Recolored-twice a b = record {
    same = Same-twice a.same b.same;
    same_children = λ p. b.same_children p ∙ a.same_children p;
  }

  colorize_children-Recolored :
      (go : ℕ → Treemap Color → Treemap Color)
      → ((p : ℕ) (s : Treemap Color) → Recolored s (go p s))
      → (cs : List (TreemapNode Color)) (s : Treemap Color)
      → Recolored s (colorize_children go cs s)
  colorize_children-Recolored go r [] s = record { same = Same-self s; same_children = λ p. refl }
  colorize_children-Recolored go r (a_leaf l ∷ cs) s = colorize_children-Recolored go r cs s
  colorize_children-Recolored go r (a_parent p ∷ cs) s =
      Recolored-twice (r p s) (colorize_children-Recolored go r cs (go p s))

  write_color-Recolored :
      (root : ℕ) (color : Option Color) (s : Treemap Color)
      → Recolored s (write_node root (record (s.nodes root) { color = color }) s)
  write_color-Recolored root color s = record {
    same = record {
      same_lookup = refl;
      same_control = λ p. elim (Bool-cases (p == root)) [
        | inl e ↦ rw e (ap (λ q. (s.nodes q).nist_control) (sym ((==_iff p root).0 e)))
        | inr e ↦ rw e refl
      ];
      keeps = λ p q m. elim (Bool-cases (p == root)) [
        | inl e ↦ rw e (subst (λ r. In (a_parent q) (s.nodes r).children) ((==_iff p root).0 e) m)
        | inr e ↦ rw e m
      ];
    };
    same_children = λ p. elim (Bool-cases (p == root)) [
      | inl e ↦ rw e (ap (λ q. (s.nodes q).children) (sym ((==_iff p root).0 e)))
      | inr e ↦ rw e refl
    ];
  }

  colorize_tree_map-Recolored :
      (average : List Color → Color) (fuel root : ℕ) (s : Treemap Color)
      → Recolored s (colorize_tree_map average fuel root s)
  unfolding colorize_tree_map
  colorize_tree_map-Recolored average zero root s = record {
    same = Same-self s;
    same_children = λ p. refl;
  }
  colorize_tree_map-Recolored average (suc fuel) root s =
      Recolored-twice
        (colorize_children-Recolored (colorize_tree_map average fuel)
          (colorize_tree_map-Recolored average fuel) (s.nodes root).children s)
        (write_color-Recolored root _
          (colorize_children (colorize_tree_map average fuel) (s.nodes root).children s))

root-Scaffold : {Color : Type 0} (depth : ℕ) → Scaffold {Color = Color} depth root_only
root-Scaffold depth = record {
  registered = λ k p h. absurd (ground (arith, h));
  bare = λ p. refl;
  blank = λ p l. refl;
}

Under-root :
    {Color : Type 0} (s : Treemap Color)
    → NewUnder depth_max 0 root_only s
    → (p : ℕ) → p < s.next
    → Under s.nodes 0 p
Under-root s under zero l = at_top
Under-root s under (suc p) l = under (suc p) (omega arith) l

-- If in the hierarchy a child has more specifiers than its parent, the map is built, on any fuel of more
-- than the depth: the key of every node that is a root, or is a child of such a node with fewer
-- specifiers than the depth, leads to a node; a node to which a key leads has the NIST control of that
-- key and is reached from the root of the map by the children; and the leaves under a node are those
-- whose key leads to it, in their order, with the node as their parent.
pub build_populated_nist_map-leaves :
    {Color : Type 0} (average : List Color → Color) (hierarchy : Hierarchy) (fuel : ℕ)
    (leaves : List (TreemapNodeLeaf Color))
    → Deepening hierarchy.nodes
    → depth_max < fuel
    → (t : Treemap Color) × (build_populated_nist_map average hierarchy fuel leaves ≡ some t)
      × ((root m : ℕ)
          → In root hierarchy.roots
          → Shown hierarchy.nodes depth_max root m
          → (p : ℕ) × (lookup
                (lookup_key_for (hierarchy.nodes m).control depth_max)
                t.control_lookup
              ≡ some p))
      × ((k : Text) (p : ℕ)
          → lookup k t.control_lookup ≡ some p
          → (lookup_key_for (t.nodes p).nist_control depth_max ≡ k) × Under t.nodes 0 p)
      × ((p : ℕ)
          → leaves_of (t.nodes p).children
            ≡ map (placed_at p) (filter (goes_to t.control_lookup depth_max p) leaves))
unfolding build_populated_nist_map
build_populated_nist_map-leaves average hierarchy fuel leaves deep enough =
    let (s, e, g, known, under) =
      fill_children-Grown depth_max (ShownKey hierarchy.nodes depth_max)
        (recursive_nist_map hierarchy.nodes depth_max fuel (some 0)) 0 hierarchy.roots
        (λ x i.
          recursive_nist_map-Grown depth_max hierarchy.nodes deep fuel (some 0) x
            (omega (arith, enough)) (omega (arith, enough)))
        root_only (root-Scaffold depth_max) (omega arith) in
    let u = populate_tree_map depth_max leaves s in
    let filled = populate-Same depth_max leaves s in
    let r = colorize_tree_map-Recolored average (suc fuel) 0 u in
    let all = Same-twice filled r.same in
    (
      colorize_tree_map average (suc fuel) 0 u,
      rw e refl,
      (λ root m i shown.
          let (p, leads) = known _ (root, i, (m, shown, refl)) in
          (p, ap (lookup _) all.same_lookup ∙ leads)),
      (λ k p h.
          let (key, inside) = g.scaffold.registered k p (rw all.same_lookup at h) in
          (
            ap (λ c. lookup_key_for c depth_max) (all.same_control p) ∙ key,
            Under-Keeps s.nodes (colorize_tree_map average (suc fuel) 0 u).nodes 0 p all.keeps
                (Under-root s under p inside),
          )),
      λ p.
          ap leaves_of (r.same_children p)
          ∙ populate-leaves depth_max leaves s p
          ∙ ap
              (λ xs. xs ++ map (placed_at p) (filter (goes_to s.control_lookup depth_max p) leaves))
              (g.scaffold.bare p)
          ∙ ap (λ m. map (placed_at p) (filter (goes_to m depth_max p) leaves))
              (sym all.same_lookup),
    )
