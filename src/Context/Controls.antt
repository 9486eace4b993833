-- ===== src/Context/Controls.antt =====
-- The links between the controls of a report: the last loop of contextualizeEvaluation.
use security_scan.Prelude.{
  ◌≡◌, ◌≢◌, refl, ap, sym, subst, ◌∙◌, ◌⊎◌, inl, inr, true, Option, none, some, List, [], ◌∷◌,
  arith, str_eq, eq_iff, find, filter, is_empty, find_inv, In, here, there, In-filter_inv,
  Bool-cases, Option-cases, ◌==◌, ==_iff,
}
use security_scan.Context.{
  Extends, ContextualizedProfile, ContextualizedControl, control_id, same_id, contains_of,
  find_ancestor, populated, first_of, find_populated, other_than_itself, base_of,
}

-- In a profile with links a control is bound in a profile that its own extends.
abbrev pub Direct :
    Extends ContextualizedProfile → ContextualizedControl → ContextualizedControl → Type 0
Direct profiles c b =
    (q : ContextualizedProfile) × In q (profiles.extends_from c.sourced_from.place)
    × (b.sourced_from.place ≡ q.place)

-- In a profile without links it is bound to another control, the first with results of that id or the
-- first of that id.
abbrev pub Sibling :
    List ContextualizedControl
    → Extends ContextualizedProfile
    → ContextualizedControl
    → ContextualizedControl
    → Type 0
Sibling all profiles c b =
    (profiles.extends_from c.sourced_from.place ≡ [])
    × (profiles.extended_by c.sourced_from.place ≡ [])
    × (find_populated all c ≡ some b)
    × (c.place ≢ b.place)

abbrev pub Bound :
    List ContextualizedControl
    → Extends ContextualizedProfile
    → ContextualizedControl
    → ContextualizedControl
    → Type 0
Bound all profiles c b =
    In b all
    × (control_id b.data_of ≡ control_id c.data_of)
    × (Direct profiles c b ⊎ Sibling all profiles c b)

same_id_iff :
    (c b : ContextualizedControl) → same_id c b ≡ true → control_id b.data_of ≡ control_id c.data_of
same_id_iff c b e = (eq_iff (control_id b.data_of) (control_id c.data_of)).0 e

In-is_empty : {A : Type 0} (l : List A) → is_empty l ≡ true → l ≡ []
In-is_empty [] e = refl
In-is_empty (x ∷ l) e = cc

find_ancestor_inv :
    (all : List ContextualizedControl) (c b : ContextualizedControl)
    (ps : List ContextualizedProfile)
    → find_ancestor all c ps ≡ some b
    → In b all
      × (control_id b.data_of ≡ control_id c.data_of)
      × ((q : ContextualizedProfile) × In q ps × (b.sourced_from.place ≡ q.place))
unfolding find_ancestor
find_ancestor_inv all c b [] h = absurd (ground (arith, h))
find_ancestor_inv all c b (p ∷ ps) h = elim (Option-cases (find (same_id c) (contains_of all p))) [
  | inl e ↦
      (let (m, same, (q, n, at)) = find_ancestor_inv all c b ps (rw (e, find_ancestor) at h) in
        (m, same, (q, there n, at)))
  | inr (a, e) ↦
      (let one : a ≡ b = ground (arith, rw (e, find_ancestor) at h) in
        let (m, same) = find_inv (same_id c) (contains_of all p) (e ∙ ap some one) in
        let (n, at) = In-filter_inv (λ d. d.sourced_from.place == p.place) all m in
        (n, same_id_iff c b same, (p, here, (==_iff b.sourced_from.place p.place).0 at)))
]

-- Controls of one id look for the same control.
pub find_populated-same :
    (all : List ContextualizedControl) (c d : ContextualizedControl)
    → control_id c.data_of ≡ control_id d.data_of
    → find_populated all c ≡ find_populated all d
unfolding find_populated
find_populated-same all c d e =
    let test : same_id c ≡ same_id d = ap (λ id x. str_eq (control_id x.data_of) id) e in
    ap
      (λ test. elim (find populated (filter test all)) [
        | some base ↦ some base
        | none ↦ first_of (filter test all)
      ])
      test

find_populated_inv :
    (all : List ContextualizedControl) (c b : ContextualizedControl)
    → find_populated all c ≡ some b
    → In b all × (control_id b.data_of ≡ control_id c.data_of)
unfolding find_populated
find_populated_inv all c b h = elim (Option-cases (find populated (filter (same_id c) all))) [
  | inl e ↦ of_filter (first (filter (same_id c) all) (rw (e, find_populated) at h))
  | inr (a, e) ↦
      (let one : a ≡ b = ground (arith, rw (e, find_populated) at h) in
        of_filter (find_inv populated (filter (same_id c) all) (e ∙ ap some one)).0)
]
  where
    of_filter :
        In b (filter (same_id c) all) → In b all × (control_id b.data_of ≡ control_id c.data_of)
    of_filter m = let (n, same) = In-filter_inv (same_id c) all m in (n, same_id_iff c b same)

    first : (l : List ContextualizedControl) → first_of l ≡ some b → In b l
    first [] e = absurd (ground (arith, e))
    first (d ∷ l) e = subst (λ x. In x (d ∷ l)) (ground (arith, e)) here

other_than_itself_inv :
    (c b : ContextualizedControl) (o : Option ContextualizedControl)
    → other_than_itself c o ≡ some b
    → (o ≡ some b) × (c.place ≢ b.place)
other_than_itself_inv c b none h = absurd (ground (arith, h))
other_than_itself_inv c b (some d) h = elim (Bool-cases (c.place == d.place)) [
  | inl e ↦ absurd (ground (arith, rw e at h))
  | inr e ↦
      (let one : d ≡ b = ground (arith, rw e at h) in
        (ap some one, λ at. ground (arith, e, at ∙ ap (λ x. x.place) (sym one))))
]

pub base_of-Bound :
    (all : List ContextualizedControl) (profiles : Extends ContextualizedProfile)
    (c b : ContextualizedControl)
    → base_of all profiles c ≡ some b
    → Bound all profiles c b
unfolding base_of
base_of-Bound all profiles c b h =
    elim (Bool-cases (is_empty (profiles.extends_from c.sourced_from.place))) [
      | inr e ↦
          (let (m, same, direct) =
              find_ancestor_inv all c b (profiles.extends_from c.sourced_from.place)
                (rw (e, base_of) at h) in
            (m, same, inl direct))
      | inl e ↦ elim (Bool-cases (is_empty (profiles.extended_by c.sourced_from.place))) [
        | inr f ↦
            (let (m, same, direct) =
                find_ancestor_inv all c b (profiles.extends_from c.sourced_from.place)
                  (rw (e, f, base_of) at h) in
              (m, same, inl direct))
        | inl f ↦
            (let (found, other) =
                other_than_itself_inv c b (find_populated all c) (rw (e, f, base_of) at h) in
              let (m, same) = find_populated_inv all c b found in
              (
                m,
                same,
                inr (
                  In-is_empty (profiles.extends_from c.sourced_from.place) e,
                  In-is_empty (profiles.extended_by c.sourced_from.place) f,
                  found,
                  other,
                ),
              ))
      ]
    ]
