-- ===== src/Nist/Hierarchy/Complete.antt =====
-- One step of _generate_full_nist_hierarchy of nist.ts: its node and its parent's node.
use security_scan.Prelude.{
  ℕ, suc, ◌<◌, ◌≡◌, refl, sym, ap, subst, ◌∙◌, ◌⊎◌, inl, inr, none, some, [], ◌∷◌, ◌++◌, arith, In,
  here, there, In-append_left, In-append_right, In-append_inv, Option-cases, Text, text_eq_refl,
  ==_iff,
}
use security_scan.Nist.{NistControl, key_for}
use security_scan.Nist.Hierarchy.{Node, Hierarchy, lookup, place_node, attach}
use security_scan.Nist.Hierarchy.Sound.{
  key_at, Consistent, Consistent-write, Consistent-register, Grows, Grows-write, Grows-register,
}

module _ (R : Text → Text → Type 0) where
  pub place_node_lem :
      (c : NistControl) (s : Hierarchy)
      → Consistent R s
      → Consistent R (place_node c s).1
        × (lookup (key_for c) (place_node c s).1.keys ≡ some (place_node c s).0)
        × Grows s (place_node c s).1
  unfolding place_node
  place_node_lem c s v = elim (Option-cases (lookup (key_for c) s.keys)) [
    | inr (n, e) ↦
        (let (below, key) = v.keyed (key_for c) n e in
          rw (e, place_node)
            (
              Consistent-write R s n s.next (record (s.nodes n) { control = c }) v (omega arith)
                  below (λ h. sym key)
                  (λ b m.
                    let (used, related) = v.child n b m in
                    (used, subst (λ k. R k (key_at s b)) key related)),
              e,
              ((λ k j h. h), Grows-write s n (record (s.nodes n) { control = c }) (λ b m. m)),
            ))
    | inl e ↦
        rw (e, place_node)
          (
            Consistent-register R s (record { control = c; children = [] }) v (λ b m. elim m [ ]),
            rw (text_eq_refl (key_for c)) refl,
            Grows-register s (record { control = c; children = [] }) (v.fresh s.next (omega arith))
                e,
          )
  ]

  In-one : {x y : ℕ} → In x (y ∷ []) → x ≡ y
  In-one here = refl
  In-one (there m) = elim m [ ]

  pub attach_parent :
      (n : ℕ) (c p : NistControl) (s : Hierarchy)
      → Consistent R s
      → lookup (key_for c) s.keys ≡ some n
      → R (key_for p) (key_for c)
      → Consistent R (attach n c (some p) s)
        × Grows s (attach n c (some p) s)
        × ((a : ℕ) × (lookup (key_for p) (attach n c (some p) s).keys ≡ some a)
            × In n ((attach n c (some p) s).nodes a).children)
  unfolding attach
  attach_parent n c p s v entered related =
      let (used, key) = v.keyed (key_for c) n entered in
      elim (Option-cases (lookup (key_for p) s.keys)) [
        | inr (a, e) ↦
            (let (below, parent_key) = v.keyed (key_for p) a e in
              rw (e, attach)
                (
                  Consistent-write R s a s.next
                      (record (s.nodes a) { children = (s.nodes a).children ++ (n ∷ []) }) v
                      (omega arith) below (λ h. refl)
                      (λ b m.
                        old_or_new a b used key parent_key
                          (In-append_inv (s.nodes a).children (n ∷ []) m)),
                  (
                    (λ k j h. h),
                    Grows-write s a
                        (record (s.nodes a) { children = (s.nodes a).children ++ (n ∷ []) })
                        (λ b m. In-append_left (s.nodes a).children (n ∷ []) m),
                  ),
                  (a, e, rw ((==_iff a a).1 refl) (In-append_right n (s.nodes a).children)),
                ))
        | inl e ↦
            rw (e, attach)
              (
                Consistent-register R s (record { control = p; children = n ∷ [] }) v
                    (λ b m. only b used key (In-one m)),
                Grows-register s (record { control = p; children = n ∷ [] })
                    (v.fresh s.next (omega arith)) e,
                (
                  s.next,
                  rw (text_eq_refl (key_for p)) refl,
                  rw ((==_iff s.next s.next).1 refl) here,
                ),
              )
      ]
    where
      only :
          (b : ℕ)
          → n < s.next
          → key_at s n ≡ key_for c
          → b ≡ n
          → (b < s.next) × R (key_for p) (key_at s b)
      only b used key e =
          (omega (arith, used, e), subst (R (key_for p)) (sym (ap (key_at s) e ∙ key)) related)

      old_or_new :
          (a b : ℕ)
          → n < s.next
          → key_at s n ≡ key_for c
          → key_at s a ≡ key_for p
          → In b (s.nodes a).children ⊎ In b (n ∷ [])
          → (b < s.next) × R (key_at s a) (key_at s b)
      old_or_new a b used key parent_key (inl m) = v.child a b m
      old_or_new a b used key parent_key (inr m) =
          subst (λ k. (b < s.next) × R k (key_at s b)) (sym parent_key) (only b used key (In-one m))

  pub attach_root :
      (n : ℕ) (c : NistControl) (s : Hierarchy)
      → Consistent R s
      → Consistent R (attach n c none s) × Grows s (attach n c none s)
  unfolding attach
  attach_root n c s v =
      let node : Node = record { control = c; children = [] } in
      let w =
        Consistent-write R s s.next (suc s.next) node v (omega arith) (omega arith)
          (λ h. absurd (omega (arith, h))) (λ b m. elim m [ ]) in
      (
        record { keyed = w.keyed; child = w.child; fresh = w.fresh },
        (
          (λ k j h. h),
          Grows-write s s.next node (λ b m. subst (In b) (v.fresh s.next (omega arith)) m),
        ),
      )
