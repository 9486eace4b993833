-- ===== src/Nist/Hierarchy/Sound.antt =====
-- What the loops that build the hierarchy of NIST controls keep true of the heap.
use security_scan.Prelude.{
  ℕ, suc, ◌<◌, ◌≤◌, ◌≡◌, refl, sym, ap, subst, ◌∙◌, ◌⊎◌, inl, inr, true, false, none, some, [], ◌∷◌,
  arith, In, Bool-cases, ◌==◌, ==_iff, Text, text_eq, text_eq_iff,
}
use security_scan.Nist.{key_for}
use security_scan.Nist.Hierarchy.{Node, Hierarchy, lookup, write, register}

abbrev pub key_at : Hierarchy → ℕ → Text
key_at s n = key_for (s.nodes n).control

-- Every entry leads to a node of its key, and the keys of a node and of its child are in the relation.
pub record Consistent (R : Text → Text → Type 0) (s : Hierarchy) : Type 0 where
  pub keyed : (k : Text) (n : ℕ) → lookup k s.keys ≡ some n → (n < s.next) × (key_at s n ≡ k)
  pub child : (a b : ℕ) → In b (s.nodes a).children → (b < s.next) × R (key_at s a) (key_at s b)
  pub fresh : (a : ℕ) → s.next ≤ a → (s.nodes a).children ≡ []

abbrev pub SameKeys : Hierarchy → ℕ → Node → Type 0
SameKeys s at node = at < s.next → key_for node.control ≡ key_at s at

key_at-write :
    (s : Hierarchy) (at : ℕ) (node : Node) (b : ℕ)
    → SameKeys s at node
    → b < s.next
    → key_for (write at node s.nodes b).control ≡ key_at s b
key_at-write s at node b same h = elim (Bool-cases (b == at)) [
  | inl e ↦
      rw e (
        subst (λ x. x < s.next → key_for node.control ≡ key_at s x) (sym ((==_iff b at).0 e)) same
          h)
  | inr e ↦ rw e refl
]

-- One node is written, at a used place or at the free one.
pub Consistent-write :
    (R : Text → Text → Type 0) (s : Hierarchy) (at next : ℕ) (node : Node)
    → Consistent R s
    → s.next ≤ next
    → at < next
    → SameKeys s at node
    → ((b : ℕ) → In b node.children → (b < s.next) × R (key_for node.control) (key_at s b))
    → Consistent R (record s { nodes = write at node s.nodes; next = next })
Consistent-write R s at next node v grows used same kids = record {
  keyed = λ k n e.
      let (below, key) = v.keyed k n e in
      (omega (arith, below, grows), key_at-write s at node n same below ∙ key);
  child = λ a b m. kid a b m (Bool-cases (a == at));
  fresh = λ a h. elim (Bool-cases (a == at)) [
    | inl e ↦ absurd (omega (arith, h, used, (==_iff a at).0 e))
    | inr e ↦ rw e (v.fresh a (omega (arith, h, grows)))
  ];
}
  where
    kid :
        (a b : ℕ)
        → In b (write at node s.nodes a).children
        → ((a == at) ≡ true) ⊎ ((a == at) ≡ false)
        → (b < next)
          × R
              (key_for (write at node s.nodes a).control)
              (key_for (write at node s.nodes b).control)
    kid a b m (inl e) =
        let (below, related) = kids b (rw e at m) in
        (
          omega (arith, below, grows),
          rw e (
              subst (R (key_for node.control)) (sym (key_at-write s at node b same below)) related),
        )
    kid a b m (inr e) =
        let (below, related) = v.child a b (rw e at m) in
        (
          omega (arith, below, grows),
          rw e (subst (R (key_at s a)) (sym (key_at-write s at node b same below)) related),
        )

-- A new node is entered under its key.
pub Consistent-register :
    (R : Text → Text → Type 0) (s : Hierarchy) (node : Node)
    → Consistent R s
    → ((b : ℕ) → In b node.children → (b < s.next) × R (key_for node.control) (key_at s b))
    → Consistent R (register (key_for node.control) node s)
Consistent-register R s node v kids = record {
  keyed = λ k n e. entry k n e (Bool-cases (text_eq (key_for node.control) k));
  child = w.child;
  fresh = w.fresh;
}
  where
    w : Consistent R (record s { nodes = write s.next node s.nodes; next = suc s.next })
    w =
        Consistent-write R s s.next (suc s.next) node v (omega arith) (omega arith)
          (λ h. absurd (omega (arith, h))) kids

    entry :
        (k : Text) (n : ℕ)
        → lookup k ((key_for node.control, s.next) ∷ s.keys) ≡ some n
        → (text_eq (key_for node.control) k ≡ true) ⊎ (text_eq (key_for node.control) k ≡ false)
        → (n < suc s.next) × (key_for (write s.next node s.nodes n).control ≡ k)
    entry k n e (inl f) =
        let at : s.next ≡ n = ground (arith, rw f at e) in
        (
          omega (arith, at),
          rw ((==_iff n s.next).1 (sym at)) ((text_eq_iff (key_for node.control) k).0 f),
        )
    entry k n e (inr f) = w.keyed k n (rw f at e)

-- The entries and the children of one hierarchy are in the other one too.
abbrev pub Grows : Hierarchy → Hierarchy → Type 0
Grows s t =
    ((k : Text) (n : ℕ) → lookup k s.keys ≡ some n → lookup k t.keys ≡ some n)
    × ((a b : ℕ) → In b (s.nodes a).children → In b (t.nodes a).children)

pub Grows-trans : (s t u : Hierarchy) → Grows s t → Grows t u → Grows s u
Grows-trans s t u (e, c) (f, d) = ((λ k n h. f k n (e k n h)), (λ a b m. d a b (c a b m)))

pub Grows-write :
    (s : Hierarchy) (at : ℕ) (node : Node)
    → ((b : ℕ) → In b (s.nodes at).children → In b node.children)
    → (a b : ℕ) → In b (s.nodes a).children
    → In b (write at node s.nodes a).children
Grows-write s at node keep a b m = elim (Bool-cases (a == at)) [
  | inl e ↦ rw e (keep b (subst (λ x. In b (s.nodes x).children) ((==_iff a at).0 e) m))
  | inr e ↦ rw e m
]

pub Grows-register :
    (s : Hierarchy) (node : Node)
    → (s.nodes s.next).children ≡ []
    → lookup (key_for node.control) s.keys ≡ none
    → Grows s (register (key_for node.control) node s)
Grows-register s node free absent = (
  (λ k n h. elim (Bool-cases (text_eq (key_for node.control) k)) [
    | inl e ↦ absurd (
        ground (
          arith,
          sym absent ∙ ap (λ j. lookup j s.keys) ((text_eq_iff (key_for node.control) k).0 e) ∙ h,
        ))
    | inr e ↦ rw e h
  ]),
  Grows-write s s.next node (λ b m. absurd (not_in b (rw free at m))),
)
  where
    not_in : (b : ℕ) → ¬ In b []
    not_in b m = elim m [ ]
