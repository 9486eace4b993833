-- ===== src/Treemap/Fills.antt =====
-- What recursive_nist_map of heimdall2-master/apps/frontend/src/utilities/treemap_util.ts makes of a map.
use security_scan.Prelude.{
  ℕ, zero, suc, ◌+◌, ◌≤◌, ◌<◌, ◌≡◌, refl, sym, ◌∙◌, ap, subst, Bool, true, false, Option, some,
  List, [], ◌∷◌, ltb, ◌==◌, ==_iff, length, Text, arith, Bool-cases, inl, inr, In, here, there,
}
use security_scan.Nist.Hierarchy.{Node}
use security_scan.Treemap.Under.{
  Under, at_top, Keeps, Under-Keeps, Under-twice, Keeps-push, Under-push,
}
use security_scan.Treemap.Shown.{Deepening, ShownKey, ShownKey-cases, OfSome}
use security_scan.Treemap.{
  Treemap, a_parent, lookup_key_for, new_node, new_parent, push_child, register, fill_children,
  fill_if, recursive_nist_map,
}
use security_scan.Treemap.Scaffold.{
  Known, Scaffold, Grown, Grown-twice, new_node-Grown, push_child-Grown, register-Scaffold,
  register-Known, register-itself,
}

module _ {Color : Type 0} (depth : ℕ) where
  -- The new places of the second map stand under the place.
  abbrev pub NewUnder : ℕ → (s t : Treemap Color) → Type 0
  NewUnder top s t = (p : ℕ) → s.next ≤ p → p < t.next → Under t.nodes top p

  -- What was found is a grown map, which knows the keys and has what is new under the place.
  abbrev pub Filled : (Text → Type 0) → ℕ → Treemap Color → Option (Treemap Color) → Type 0
  Filled keys top s o =
      (t : Treemap Color) × (o ≡ some t)
      × Grown depth s t
      × ((k : Text) → keys k → Known t k)
      × NewUnder top s t

  -- From a scaffold the function makes such a map, with the new places under the first of them.
  abbrev pub Fills : (Text → Type 0) → (Treemap Color → Option (Treemap Color)) → Type 0
  Fills keys go = (s : Treemap Color) → Scaffold depth s → Filled keys s.next s (go s)

  -- The new places of a child stand under the node that it is pushed to.
  pushed-NewUnder :
      (at : ℕ) (s t u : Treemap Color)
      → NewUnder s.next s t
      → Keeps (push_child at (a_parent s.next) t).nodes u.nodes
      → NewUnder at t u
      → NewUnder at s u
  pushed-NewUnder at s t u first keeps others p l m = elim (Bool-cases (ltb p t.next)) [
    | inl e ↦
        let pushed = push_child at (a_parent s.next) t in
        Under-Keeps pushed.nodes u.nodes at p keeps (
          Under-twice pushed.nodes at s.next p (Under-push at s.next t) (
            Under-Keeps t.nodes pushed.nodes s.next p (Keeps-push at (a_parent s.next) t)
              (first p l (ground (arith, e)))))
    | inr e ↦ others p (ground (arith, e)) m
  ]

  pub fill_children-Grown :
      (keys : ℕ → Text → Type 0) (go : ℕ → Treemap Color → Option (Treemap Color)) (at : ℕ)
      (cs : List ℕ)
      → ((c : ℕ) → In c cs → Fills (keys c) (go c))
      → (s : Treemap Color) → Scaffold depth s
      → at < s.next
      → Filled (OfSome keys cs) at s (fill_children go at cs s)
  fill_children-Grown keys go at [] f s c inside = (
    s,
    refl,
    record {
      scaffold = c;
      longer = omega arith;
      kept = λ p l. refl;
      known = λ k a. a;
      keeps = λ p q m. m;
    },
    (λ k (x, i, a). elim i [ ]),
    λ p l m. absurd (omega (arith, l, m)),
  )
  fill_children-Grown keys go at (child ∷ more) f s c inside =
      let (t, e, g, first, first_under) = f child here s c in
      let inside_t : at < t.next = omega (arith, inside, g.longer) in
      let pushed = push_child-Grown depth at s.next t g.scaffold inside_t in
      let (u, d, h, others, others_under) =
        fill_children-Grown keys go at more (λ x i. f x (there i))
          (push_child at (a_parent s.next) t) pushed.scaffold inside_t in
      (
        u,
        rw (e, fill_children) d,
        Grown-twice depth g (Grown-twice depth pushed h),
        known u (λ k a. h.known k (first k a)) others,
        pushed-NewUnder at s t u first_under h.keeps others_under,
      )
    where
      known :
          (u : Treemap Color)
          → ((k : Text) → keys child k → Known u k)
          → ((k : Text) → OfSome keys more k → Known u k)
          → (k : Text) → OfSome keys (child ∷ more) k
          → Known u k
      known u first others k (_, here, a) = first k a
      known u first others k (x, there i, a) = others k (x, i, a)

  fill_if-Grown :
      (b : Bool) (keys : ℕ → Text → Type 0) (go : ℕ → Treemap Color → Option (Treemap Color))
      (at : ℕ) (cs : List ℕ)
      → (b ≡ true → (c : ℕ) → In c cs → Fills (keys c) (go c))
      → (s : Treemap Color) → Scaffold depth s
      → at < s.next
      → Filled (λ k. (b ≡ true) × OfSome keys cs k) at s (fill_if b go at cs s)
  fill_if-Grown true keys go at cs f s c inside =
      let (t, e, g, known, under) = fill_children-Grown keys go at cs (f refl) s c inside in
      (t, e, g, (λ k (shown, a). known k a), under)
  fill_if-Grown false keys go at cs f s c inside =
      let (t, e, g, known, under) =
        fill_children-Grown keys go at [] (λ x i. elim i [ ]) s c inside in
      (t, e, g, (λ k (shown, a). cc), under)

  new_node-control :
      (parent : Option ℕ) (node : Node) (s : Treemap Color)
      → ((new_node (new_parent parent node) s).nodes s.next).nist_control ≡ node.control
  new_node-control parent node s = let e : (s.next == s.next) ≡ true = ground arith in rw e refl

  module _ (hierarchy : ℕ → Node) where
    pub recursive_nist_map-Grown :
        Deepening hierarchy
        → (fuel : ℕ) (parent : Option ℕ) (n : ℕ)
        → depth < length (hierarchy n).control.sub_specifiers + fuel
        → 0 < fuel
        → Fills (ShownKey hierarchy depth n) (recursive_nist_map hierarchy depth fuel parent n)
    unfolding recursive_nist_map
    recursive_nist_map-Grown deep zero parent n enough some_fuel s c =
        absurd (omega (arith, some_fuel))
    recursive_nist_map-Grown deep (suc fuel) parent n enough some_fuel s c =
        let node = hierarchy n in
        let key = lookup_key_for node.control depth in
        let made = new_node-Grown depth parent node s c in
        let (t, e, g, below, under) =
          fill_if-Grown (ltb (length node.control.sub_specifiers) depth) (ShownKey hierarchy depth)
            (recursive_nist_map hierarchy depth fuel (some s.next)) s.next node.children
            (λ shallow x i.
              recursive_nist_map-Grown deep fuel (some s.next) x (omega (arith, enough, deep n x i))
                (ground (arith, enough, shallow)))
            (new_node (new_parent parent node) s) made.scaffold (omega arith) in
        let control : (t.nodes s.next).nist_control ≡ node.control =
          g.kept s.next (omega arith) ∙ new_node-control parent node s in
        (
          register key s.next t,
          rw e refl,
          Grown-twice depth made (record {
            scaffold =
                register-Scaffold depth s.next key t g.scaffold (omega (arith, g.longer))
                  (ap (λ c. lookup_key_for c depth) control);
            longer = g.longer;
            kept = g.kept;
            known = λ k a. register-Known depth s.next key t k (g.known k a);
            keeps = g.keeps;
          }),
          (λ k a. elim (ShownKey-cases hierarchy depth n k a) [
            | inl same ↦
                subst (Known (register key s.next t)) same (register-itself depth s.next key t)
            | inr deep_key ↦ register-Known depth s.next key t k (below k deep_key)
          ]),
          λ p l m. elim (Bool-cases (p == s.next)) [
            | inl same ↦ subst (Under t.nodes s.next) (sym ((==_iff p s.next).0 same)) at_top
            | inr other ↦ under p (ground (arith, l, other)) m
          ],
        )
