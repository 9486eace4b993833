-- ===== src/Treemap/Under.antt =====
-- The tree that the arrays of children make of the places of
-- heimdall2-master/apps/frontend/src/utilities/treemap_util.ts.
use security_scan.Prelude.{
  ℕ, ◌≡◌, subst, [], ◌∷◌, true, ◌==◌, ==_iff, Bool-cases, inl, inr, In, In-append_left,
  In-append_right, refl,
}
use security_scan.Treemap.{TreemapNode, TreemapNodeParent, a_parent, Treemap, push_child}

module _ {Color : Type 0} where
  -- The second place is the first one, or is reached from it by the children.
  pub data Under (nodes : ℕ → TreemapNodeParent Color) (top : ℕ) : ℕ → Type 0 where
    at_top : Under nodes top top
    child_of :
        {p q : ℕ} → Under nodes top p → In (a_parent q) (nodes p).children → Under nodes top q

  -- The children that are nodes stay in the arrays.
  abbrev pub Keeps : (s t : ℕ → TreemapNodeParent Color) → Type 0
  Keeps s t = (p q : ℕ) → In (a_parent q) (s p).children → In (a_parent q) (t p).children

  pub Under-Keeps :
      (s t : ℕ → TreemapNodeParent Color) (top p : ℕ) → Keeps s t → Under s top p → Under t top p
  Under-Keeps s t top _ k at_top = at_top
  Under-Keeps s t top _ k (child_of {p} {q} u m) = child_of (Under-Keeps s t top p k u) (k p q m)

  pub Under-twice :
      (s : ℕ → TreemapNodeParent Color) (a b c : ℕ) → Under s a b → Under s b c → Under s a c
  Under-twice s a b _ u at_top = u
  Under-twice s a b _ u (child_of {p} {q} v m) = child_of (Under-twice s a b p u v) m

  pub Keeps-push :
      (at : ℕ) (child : TreemapNode Color) (s : Treemap Color)
      → Keeps s.nodes (push_child at child s).nodes
  Keeps-push at child s p q m = elim (Bool-cases (p == at)) [
    | inl e ↦ rw e (
        In-append_left (s.nodes at).children (child ∷ [])
          (subst (λ r. In (a_parent q) (s.nodes r).children) ((==_iff p at).0 e) m))
    | inr e ↦ rw e m
  ]

  pub Under-push : (at q : ℕ) (s : Treemap Color) → Under (push_child at (a_parent q) s).nodes at q
  Under-push at q s =
      let e : (at == at) ≡ true = (==_iff at at).1 refl in
      child_of at_top (rw e (In-append_right (a_parent q) (s.nodes at).children))
