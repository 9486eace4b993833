-- ===== src/Nist/Hierarchy/Generate.antt =====
-- The hierarchy of NIST controls that _generate_full_nist_hierarchy of nist.ts makes.
use security_scan.Prelude.{
  ℕ, ◌≡◌, refl, subst, ◌↔◌, inl, inr, Option, none, some, List, [], ◌∷◌, arith, In, here, there,
  Option-cases, Text,
}
use security_scan.Nist.{NistControl, control_parent, key_for}
use security_scan.Nist.Hierarchy.{
  Hierarchy, lookup, place_node, attach, insert, insert_all, empty_hierarchy, with_families,
  parse_all, generate_full_nist_hierarchy,
}
use security_scan.Nist.Hierarchy.Sound.{key_at, Consistent, Consistent-register, Grows, Grows-trans}
use security_scan.Nist.Hierarchy.Complete.{place_node_lem, attach_parent, attach_root}

-- A control with the second key has a parent with the first one.
abbrev pub ParentKey : List NistControl → Text → Text → Type 0
ParentKey cs k j =
    (c : NistControl) × (p : NistControl) × In c cs
    × (control_parent c ≡ some p)
    × (key_for p ≡ k)
    × (key_for c ≡ j)

-- The node of the second key is a child of the node of the first one.
abbrev pub ChildKey : Hierarchy → Text → Text → Type 0
ChildKey s k j =
    (a : ℕ) × (b : ℕ) × (lookup k s.keys ≡ some a)
    × (lookup j s.keys ≡ some b)
    × In b (s.nodes a).children

ChildKey-Grows : (s t : Hierarchy) (k j : Text) → Grows s t → ChildKey s k j → ChildKey t k j
ChildKey-Grows s t k j (entries, children) (a, b, e, f, m) =
    (a, b, entries k a e, entries j b f, children a b m)

module _ (R : Text → Text → Type 0) where
  insert_lem :
      (c : NistControl) (s : Hierarchy)
      → Consistent R s
      → ((p : NistControl) → control_parent c ≡ some p → R (key_for p) (key_for c))
      → Consistent R (insert c s)
        × Grows s (insert c s)
        × ((p : NistControl)
            → control_parent c ≡ some p
            → ChildKey (insert c s) (key_for p) (key_for c))
  unfolding insert
  insert_lem c s v related =
      let (w, entered, grown) = place_node_lem R c s v in
      attached (control_parent c) refl w entered grown
    where
      attached :
          (o : Option NistControl)
          → control_parent c ≡ o
          → Consistent R (place_node c s).1
          → lookup (key_for c) (place_node c s).1.keys ≡ some (place_node c s).0
          → Grows s (place_node c s).1
          → Consistent R (attach (place_node c s).0 c (control_parent c) (place_node c s).1)
            × Grows s (attach (place_node c s).0 c (control_parent c) (place_node c s).1)
            × ((p : NistControl)
                → control_parent c ≡ some p
                → ChildKey
                    (attach (place_node c s).0 c (control_parent c) (place_node c s).1)
                    (key_for p)
                    (key_for c))
      attached none e w entered grown =
          let (x, more) = attach_root R (place_node c s).0 c (place_node c s).1 w in
          rw e (
            x,
            Grows-trans s (place_node c s).1 (attach (place_node c s).0 c none (place_node c s).1)
                grown more,
            λ p f. absurd (ground (arith, f)),
          )
      attached (some p) e w entered grown =
          let (x, more, (a, at, m)) =
            attach_parent R (place_node c s).0 c p (place_node c s).1 w entered (related p e) in
          rw e (
            x,
            Grows-trans s (place_node c s).1
                (attach (place_node c s).0 c (some p) (place_node c s).1) grown more,
            λ q f.
                let same : p ≡ q = ground (arith, f) in
                subst
                  (λ r.
                    ChildKey (attach (place_node c s).0 c (some p) (place_node c s).1) (key_for r)
                      (key_for c))
                  same
                  (a, (place_node c s).0, at, more.0 (key_for c) (place_node c s).0 entered, m),
          )

  insert_all_lem :
      (cs : List NistControl) (s : Hierarchy)
      → Consistent R s
      → ((c p : NistControl) → In c cs → control_parent c ≡ some p → R (key_for p) (key_for c))
      → Consistent R (insert_all cs s)
        × Grows s (insert_all cs s)
        × ((c p : NistControl)
            → In c cs
            → control_parent c ≡ some p
            → ChildKey (insert_all cs s) (key_for p) (key_for c))
  unfolding insert_all
  insert_all_lem [] s v related = (v, ((λ k n h. h), (λ a b m. m)), (λ c p m e. elim m [ ]))
  insert_all_lem (c ∷ cs) s v related =
      let (w, grown, linked) = insert_lem c s v (λ p e. related c p here e) in
      let (x, more, others) =
        insert_all_lem cs (insert c s) w (λ d p m e. related d p (there m) e) in
      (
        x,
        Grows-trans s (insert c s) (insert_all cs (insert c s)) grown more,
        split
            (λ p e.
              ChildKey-Grows (insert c s) (insert_all cs (insert c s)) (key_for p) (key_for c) more
                (linked p e))
            others,
      )
    where
      split :
          ((p : NistControl)
            → control_parent c ≡ some p
            → ChildKey (insert_all cs (insert c s)) (key_for p) (key_for c))
          → ((d p : NistControl)
              → In d cs
              → control_parent d ≡ some p
              → ChildKey (insert_all cs (insert c s)) (key_for p) (key_for d))
          → (d p : NistControl) → In d (c ∷ cs)
          → control_parent d ≡ some p
          → ChildKey (insert_all cs (insert c s)) (key_for p) (key_for d)
      split first others _ p here e = first p e
      split first others d p (there m) e = others d p m e

  Consistent-families :
      (fs : List Text) (s : Hierarchy) → Consistent R s → Consistent R (with_families fs s)
  unfolding with_families
  Consistent-families [] s v = v
  Consistent-families (f ∷ fs) s v =
      let w =
        Consistent-register R s
          (record {
            control = record { sub_specifiers = f ∷ []; raw_text = some f };
            children = [];
          })
          v (λ b m. elim m [ ]) in
      Consistent-families fs _ (record { keyed = w.keyed; child = w.child; fresh = w.fresh })

  Consistent-empty : Consistent R empty_hierarchy
  Consistent-empty = record {
    keyed = λ k n e. absurd (ground (arith, e));
    child = λ a b m. elim m [ ];
    fresh = λ a h. refl;
  }

ChildKey-inv :
    (cs : List NistControl) (s : Hierarchy) (k j : Text)
    → Consistent (ParentKey cs) s
    → ChildKey s k j
    → ParentKey cs k j
ChildKey-inv cs s k j v (a, b, e, f, m) =
    subst (λ x. ParentKey cs x j) (v.keyed k a e).1
      (subst (ParentKey cs (key_at s a)) (v.keyed j b f).1 (v.child a b m).1)

-- In the hierarchy that is made of the tables, the node of one key is a child of the node of another
-- exactly if a control of the table has the one key and its parent the other: each control hangs under
-- its parent, in whatever order the table lists them.
pub generate_full_nist_hierarchy_iff :
    (families numbers : List Text) (s : Hierarchy) (k j : Text)
    → generate_full_nist_hierarchy families numbers ≡ some s
    → (cs : List NistControl) × (parse_all numbers ≡ some cs) × (ChildKey s k j ↔ ParentKey cs k j)
unfolding generate_full_nist_hierarchy
generate_full_nist_hierarchy_iff families numbers s k j h =
    elim (Option-cases (parse_all numbers)) [
      | inl e ↦ absurd (ground (arith, rw (e, generate_full_nist_hierarchy) at h))
      | inr (cs, e) ↦
          (let made : insert_all cs (with_families families empty_hierarchy) ≡ s =
              ground (arith, rw (e, generate_full_nist_hierarchy) at h) in
            let (v, grown, linked) =
              insert_all_lem (ParentKey cs) cs (with_families families empty_hierarchy)
                (Consistent-families (ParentKey cs) families empty_hierarchy
                  (Consistent-empty (ParentKey cs)))
                (λ c p m f. (c, p, m, f, refl, refl)) in
            (
              cs,
              e,
              subst (λ t. ChildKey t k j ↔ ParentKey cs k j) made
                  (
                    ChildKey-inv cs (insert_all cs (with_families families empty_hierarchy)) k j v,
                    λ (c, p, m, f, of_p, of_c).
                        subst
                          (λ x.
                            ChildKey (insert_all cs (with_families families empty_hierarchy)) x j)
                          of_p
                          (subst
                            (ChildKey (insert_all cs (with_families families empty_hierarchy))
                              (key_for p))
                            of_c (linked c p m f)),
                  ),
            ))
    ]
