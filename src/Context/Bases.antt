-- ===== src/Context/Bases.antt =====
-- Which control a control extends, by a description that stands beside the last loop of
-- contextualizeEvaluation (libs/inspecjs/src/context.ts).
use security_scan.Prelude.{
  ◌≡◌, ◌≢◌, refl, sym, subst, ◌↔◌, ◌⊎◌, inl, inr, Bool, true, false, ◌&&◌, not, Option, none, some,
  List, [], ◌∷◌, arith, eq_iff, find, filter, is_empty, Bool-cases, Option-cases, ◌==◌, ==_iff,
}
use security_scan.Report.{Segment}
use security_scan.Context.{
  Extends, ContextualizedProfile, ContextualizedControl, control_id, same_id, contains_of,
  find_ancestor, populated, first_of, find_populated, other_than_itself, base_of,
}

-- The first element of the list with a property, if one has it.
pub data First {A : Type 0} (P : A → Type 0) : List A → Option A → Type 0 where
  in_none : First P [] none
  at_head : {x : A} {xs : List A} → P x → First P (x ∷ xs) (some x)
  behind : {x : A} {xs : List A} {o : Option A} → ¬ P x → First P xs o → First P (x ∷ xs) o

abbrev pub SameId : ContextualizedControl → ContextualizedControl → Type 0
SameId c b = control_id b.data_of ≡ control_id c.data_of

-- A control with results.
abbrev pub Populated : ContextualizedControl → Type 0
Populated b = (s : Segment) × (more : List Segment) × (b.hdf.segments ≡ some (s ∷ more))

-- A control of the profile with the id.
abbrev pub InProfile :
    ContextualizedControl → ContextualizedProfile → ContextualizedControl → Type 0
InProfile c q b = (b.sourced_from.place ≡ q.place) × SameId c b

-- The first control with the id of the first of the profiles that has one.
pub data Ancestor (all : List ContextualizedControl) (c : ContextualizedControl)
    : List ContextualizedProfile → Option ContextualizedControl → Type 0 where
  nowhere : Ancestor all c [] none
  in_first :
      {q : ContextualizedProfile} {qs : List ContextualizedProfile} {b : ContextualizedControl}
      → First (InProfile c q) all (some b)
      → Ancestor all c (q ∷ qs) (some b)
  in_later :
      {q : ContextualizedProfile} {qs : List ContextualizedProfile}
      {o : Option ContextualizedControl}
      → First (InProfile c q) all none
      → Ancestor all c qs o
      → Ancestor all c (q ∷ qs) o

-- The first control with the id that has results, or else the first with the id.
pub data Candidate (all : List ContextualizedControl) (c : ContextualizedControl)
    : Option ContextualizedControl → Type 0 where
  with_results :
      {b : ContextualizedControl}
      → First (λ x. SameId c x × Populated x) all (some b)
      → Candidate all c (some b)
  with_id :
      {o : Option ContextualizedControl}
      → First (λ x. SameId c x × Populated x) all none
      → First (SameId c) all o
      → Candidate all c o

-- The profile of the control extends another one or is extended.
abbrev pub Linked : Extends ContextualizedProfile → ContextualizedControl → Type 0
Linked profiles c =
    (profiles.extends_from c.sourced_from.place ≢ [])
    ⊎ (profiles.extended_by c.sourced_from.place ≢ [])

-- What a control extends: in a linked profile the ancestor, else the candidate, unless that is itself.
pub data Base (all : List ContextualizedControl) (profiles : Extends ContextualizedProfile)
    (c : ContextualizedControl) : Option ContextualizedControl → Type 0 where
  of_profiles :
      {o : Option ContextualizedControl}
      → Linked profiles c
      → Ancestor all c (profiles.extends_from c.sourced_from.place) o
      → Base all profiles c o
  of_another :
      {b : ContextualizedControl}
      → ¬ Linked profiles c
      → Candidate all c (some b)
      → c.place ≢ b.place
      → Base all profiles c (some b)
  of_itself :
      {b : ContextualizedControl}
      → ¬ Linked profiles c
      → Candidate all c (some b)
      → c.place ≡ b.place
      → Base all profiles c none
  of_no_candidate : ¬ Linked profiles c → Candidate all c none → Base all profiles c none

module _ {A : Type 0} where
  find-First :
      (p : A → Bool) (P : A → Type 0)
      → ((x : A) → (p x ≡ true) ↔ P x)
      → (xs : List A) → First P xs (find p xs)
  find-First p P iff [] = in_none
  find-First p P iff (x ∷ xs) = elim (Bool-cases (p x)) [
    | inl e ↦ rw e (at_head ((iff x).0 e))
    | inr e ↦ rw e (behind (λ h. ground (arith, e, (iff x).1 h)) (find-First p P iff xs))
  ]

  find-filter : (p q : A → Bool) (xs : List A) → find q (filter p xs) ≡ find (λ x. p x && q x) xs
  find-filter p q [] = refl
  find-filter p q (x ∷ xs) = ground (arith, find-filter p q xs)

  first_of-filter : (p : A → Bool) (xs : List A) → first_of (filter p xs) ≡ find p xs
  first_of-filter p [] = refl
  first_of-filter p (x ∷ xs) = ground (arith, first_of-filter p xs)

  find_both-First :
      (p q : A → Bool) (P Q : A → Type 0)
      → ((x : A) → (p x ≡ true) ↔ P x)
      → ((x : A) → (q x ≡ true) ↔ Q x)
      → (xs : List A) → First (λ x. P x × Q x) xs (find q (filter p xs))
  find_both-First p q P Q p_iff q_iff xs =
      subst (First (λ x. P x × Q x) xs) (sym (find-filter p q xs)) (
        find-First (λ x. p x && q x) (λ x. P x × Q x)
          (λ x. (
            (λ h. ((p_iff x).0 (ground (arith, h)), (q_iff x).0 (ground (arith, h)))),
            (λ (h, k). ground (arith, (p_iff x).1 h, (q_iff x).1 k)),
          ))
          xs)

  is_empty_iff : (l : List A) → (is_empty l ≡ true) ↔ (l ≡ [])
  is_empty_iff [] = ((λ e. refl), (λ e. refl))
  is_empty_iff (x ∷ l) = ((λ e. cc), (λ e. cc))

same_id-SameId : (c b : ContextualizedControl) → (same_id c b ≡ true) ↔ SameId c b
same_id-SameId c b = eq_iff (control_id b.data_of) (control_id c.data_of)

populated-Populated : (b : ContextualizedControl) → (populated b ≡ true) ↔ Populated b
populated-Populated b = of_segments b.hdf.segments
  where
    of_segments :
        (o : Option (List Segment))
        → (elim o [ none ↦ false | some l ↦ not (is_empty l) ] ≡ true)
          ↔ ((s : Segment) × (more : List Segment) × (o ≡ some (s ∷ more)))
    of_segments none = ((λ e. cc), (λ (s, more, e). cc))
    of_segments (some []) = ((λ e. cc), (λ (s, more, e). absurd (ground (arith, e))))
    of_segments (some (s ∷ more)) = ((λ e. (s, more, refl)), (λ h. refl))

find_ancestor-Ancestor :
    (all : List ContextualizedControl) (c : ContextualizedControl) (ps : List ContextualizedProfile)
    → Ancestor all c ps (find_ancestor all c ps)
unfolding find_ancestor
find_ancestor-Ancestor all c [] = nowhere
find_ancestor-Ancestor all c (q ∷ qs) =
    let first : First (InProfile c q) all (find (same_id c) (contains_of all q)) =
      find_both-First (λ d. d.sourced_from.place == q.place) (same_id c)
        (λ d. d.sourced_from.place ≡ q.place) (SameId c) (λ d. ==_iff d.sourced_from.place q.place)
        (same_id-SameId c) all in
    elim (Option-cases (find (same_id c) (contains_of all q))) [
      | inl e ↦
          rw (e, find_ancestor)
            (in_later (subst (First (InProfile c q) all) e first) (find_ancestor-Ancestor all c qs))
      | inr (b, e) ↦ rw (e, find_ancestor) (in_first (subst (First (InProfile c q) all) e first))
    ]

find_populated-Candidate :
    (all : List ContextualizedControl) (c : ContextualizedControl)
    → Candidate all c (find_populated all c)
unfolding find_populated
find_populated-Candidate all c =
    let P : ContextualizedControl → Type 0 = λ x. SameId c x × Populated x in
    let first : First P all (find populated (filter (same_id c) all)) =
      find_both-First (same_id c) populated (SameId c) Populated (same_id-SameId c)
        populated-Populated all in
    elim (Option-cases (find populated (filter (same_id c) all))) [
      | inl e ↦
          rw (e, find_populated)
            (with_id (subst (First P all) e first) (
              subst (First (SameId c) all) (sym (first_of-filter (same_id c) all))
                (find-First (same_id c) (SameId c) (same_id-SameId c) all)))
      | inr (b, e) ↦ rw (e, find_populated) (with_results (subst (First P all) e first))
    ]

other_than_itself-Base :
    (all : List ContextualizedControl) (profiles : Extends ContextualizedProfile)
    (c : ContextualizedControl) (o : Option ContextualizedControl)
    → ¬ Linked profiles c
    → Candidate all c o
    → Base all profiles c (other_than_itself c o)
other_than_itself-Base all profiles c none alone found = of_no_candidate alone found
other_than_itself-Base all profiles c (some b) alone found =
    elim (Bool-cases (c.place == b.place)) [
      | inl e ↦ rw e (of_itself alone found ((==_iff c.place b.place).0 e))
      | inr e ↦ rw e (of_another alone found (λ at. ground (arith, e, at)))
    ]

pub base_of-Base :
    (all : List ContextualizedControl) (profiles : Extends ContextualizedProfile)
    (c : ContextualizedControl)
    → Base all profiles c (base_of all profiles c)
unfolding base_of
base_of-Base all profiles c =
    elim (Bool-cases (is_empty (profiles.extends_from c.sourced_from.place))) [
      | inr e ↦
          rw (e, base_of)
            (of_profiles
              (inl (λ nil.
                ground
                  (arith, e, (is_empty_iff (profiles.extends_from c.sourced_from.place)).1 nil)))
              (find_ancestor-Ancestor all c (profiles.extends_from c.sourced_from.place)))
      | inl e ↦ elim (Bool-cases (is_empty (profiles.extended_by c.sourced_from.place))) [
        | inr f ↦
            rw (e, f, base_of)
              (of_profiles
                (inr (λ nil.
                  ground
                    (arith, f, (is_empty_iff (profiles.extended_by c.sourced_from.place)).1 nil)))
                (find_ancestor-Ancestor all c (profiles.extends_from c.sourced_from.place)))
        | inl f ↦
            rw (e, f, base_of)
              (other_than_itself-Base all profiles c (find_populated all c)
                (λ linked. elim linked [
                  | inl some_from ↦
                      some_from ((is_empty_iff (profiles.extends_from c.sourced_from.place)).0 e)
                  | inr some_by ↦
                      some_by ((is_empty_iff (profiles.extended_by c.sourced_from.place)).0 f)
                ])
                (find_populated-Candidate all c))
      ]
    ]
