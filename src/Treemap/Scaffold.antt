-- ===== src/Treemap/Scaffold.antt =====
-- The scaffold of heimdall2-master/apps/frontend/src/utilities/treemap_util.ts: what recursive_nist_map makes.
use security_scan.Prelude.{
  ℕ, ◌≤◌, ◌<◌, ◌≡◌, refl, sym, ◌∙◌, ap, subst, false, Option, some, List, [], ◌∷◌, ◌++◌, ◌==◌,
  ==_iff, Text, text_eq, text_eq_iff, arith, Bool-cases, inl, inr, In,
}
use security_scan.Nist.Hierarchy.{Node, lookup}
use security_scan.Treemap.Under.{Keeps, Keeps-push}
use security_scan.Treemap.{
  Treemap, TreemapNode, TreemapNodeLeaf, a_leaf, a_parent, lookup_key_for, new_node, new_parent,
  push_child, register,
}

module _ {Color : Type 0} where
  -- The lookup leads the key to a node.
  abbrev pub Known : Treemap Color → Text → Type 0
  Known s k = (p : ℕ) × (lookup k s.control_lookup ≡ some p)

  abbrev pub leaves_of : List (TreemapNode Color) → List (TreemapNodeLeaf Color)
  leaves_of [] = []
  leaves_of (a_leaf l ∷ cs) = l ∷ leaves_of cs
  leaves_of (a_parent p ∷ cs) = leaves_of cs

  pub leaves_of-append :
      (cs ds : List (TreemapNode Color)) → leaves_of (cs ++ ds) ≡ leaves_of cs ++ leaves_of ds
  leaves_of-append [] ds = refl
  leaves_of-append (a_leaf l ∷ cs) ds = ap (λ t. l ∷ t) (leaves_of-append cs ds)
  leaves_of-append (a_parent p ∷ cs) ds = leaves_of-append cs ds

  -- A push changes nothing but the children.
  pub push_child-control :
      (at : ℕ) (child : TreemapNode Color) (s : Treemap Color) (p : ℕ)
      → ((push_child at child s).nodes p).nist_control ≡ (s.nodes p).nist_control
  push_child-control at child s p = elim (Bool-cases (p == at)) [
    | inl e ↦ rw e (ap (λ q. (s.nodes q).nist_control) (sym ((==_iff p at).0 e)))
    | inr e ↦ rw e refl
  ]

module _ {Color : Type 0} (depth : ℕ) where
  -- The lookup leads to nodes of its keys, no leaf stands anywhere, and the free places have no children.
  pub record Scaffold (s : Treemap Color) : Type 0 where
    pub registered :
        (k : Text) (p : ℕ)
        → lookup k s.control_lookup ≡ some p
        → (lookup_key_for (s.nodes p).nist_control depth ≡ k) × (p < s.next)
    pub bare : (p : ℕ) → leaves_of (s.nodes p).children ≡ []
    pub blank : (p : ℕ) → s.next ≤ p → (s.nodes p).children ≡ []

  -- The second map was made of the first by adding to it.
  pub record Grown (s t : Treemap Color) : Type 0 where
    pub scaffold : Scaffold t
    pub longer : s.next ≤ t.next
    pub kept : (p : ℕ) → p < s.next → (t.nodes p).nist_control ≡ (s.nodes p).nist_control
    pub known : (k : Text) → Known s k → Known t k
    pub keeps : Keeps s.nodes t.nodes

  pub Grown-twice : {s t u : Treemap Color} → Grown s t → Grown t u → Grown s u
  Grown-twice {s} {t} {u} g h = record {
    scaffold = h.scaffold;
    longer = omega (arith, g.longer, h.longer);
    kept = λ p l. h.kept p (omega (arith, l, g.longer)) ∙ g.kept p l;
    known = λ k a. h.known k (g.known k a);
    keeps = λ p q m. h.keeps p q (g.keeps p q m);
  }

  pub new_node-Grown :
      (parent : Option ℕ) (node : Node) (s : Treemap Color)
      → Scaffold s
      → Grown s (new_node (new_parent parent node) s)
  new_node-Grown parent node s c = record {
    scaffold = record {
      registered = λ k p h.
          let r = c.registered k p h in
          let e : (p == s.next) ≡ false = ground (arith, r.1) in (rw e (r.0), omega (arith, r.1));
      bare = λ p. elim (Bool-cases (p == s.next)) [ inl e ↦ rw e refl | inr e ↦ rw e (c.bare p) ];
      blank = λ p l.
          let e : (p == s.next) ≡ false = ground (arith, l) in rw e (c.blank p (omega (arith, l)));
    };
    longer = omega arith;
    kept = λ p l. let e : (p == s.next) ≡ false = ground (arith, l) in rw e refl;
    known = λ k a. a;
    keeps = λ p q m. elim (Bool-cases (p == s.next)) [
      | inl e ↦
          (let nil : (s.nodes p).children ≡ [] =
              c.blank p (ground (arith, (==_iff p s.next).0 e)) in
            let none_there : In (a_parent q) [] = subst (In (a_parent q)) nil m in
            elim none_there [ ])
      | inr e ↦ rw e m
    ];
  }

  pub push_child-Grown :
      (at q : ℕ) (s : Treemap Color)
      → Scaffold s
      → at < s.next
      → Grown s (push_child at (a_parent q) s)
  push_child-Grown at q s c inside = record {
    scaffold = record {
      registered = λ k p h. rw (push_child-control at (a_parent q) s p) (c.registered k p h);
      bare = λ p. elim (Bool-cases (p == at)) [
        | inl e ↦ rw e (
            leaves_of-append (s.nodes at).children (a_parent q ∷ [])
            ∙ ap (λ l. l ++ []) (c.bare at))
        | inr e ↦ rw e (c.bare p)
      ];
      blank = λ p l. let e : (p == at) ≡ false = ground (arith, l, inside) in rw e (c.blank p l);
    };
    longer = omega arith;
    kept = λ p l. push_child-control at (a_parent q) s p;
    known = λ k a. a;
    keeps = Keeps-push at (a_parent q) s;
  }

  pub register-Scaffold :
      (at : ℕ) (key : Text) (s : Treemap Color)
      → Scaffold s
      → at < s.next
      → lookup_key_for (s.nodes at).nist_control depth ≡ key
      → Scaffold (register key at s)
  register-Scaffold at key s c l e = record {
    registered = λ k p h. elim (Bool-cases (text_eq key k)) [
      | inl f ↦
          let same : some at ≡ some p = rw f at h in
          let q : at ≡ p = ground (arith, same) in
          subst (λ p. (lookup_key_for (s.nodes p).nist_control depth ≡ k) × (p < s.next)) q
            (e ∙ (text_eq_iff key k).0 f, l)
      | inr f ↦ c.registered k p (rw f at h)
    ];
    bare = c.bare;
    blank = c.blank;
  }

  pub register-Known :
      (at : ℕ) (key : Text) (s : Treemap Color) (k : Text) → Known s k → Known (register key at s) k
  register-Known at key s k (p, e) = elim (Bool-cases (text_eq key k)) [
    | inl f ↦ (at, rw f refl)
    | inr f ↦ (p, rw f e)
  ]

  pub register-itself : (at : ℕ) (key : Text) (s : Treemap Color) → Known (register key at s) key
  register-itself at key s = (at, rw ((text_eq_iff key key).1 refl) refl)
