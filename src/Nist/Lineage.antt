-- ===== src/Nist/Lineage.antt =====
-- compare_lineage and contains of nist.ts: containment is the prefix order on sub-specifiers.
use security_scan.Prelude.Int.{pos}
use security_scan.Prelude.{
  ℕ, ◌≡◌, refl, sym, ap, ◌∙◌, ◌↔◌, ◌⊎◌, inl, inr, true, false, List, [], ◌∷◌, ◌++◌, arith, length,
  length-append, Bool-cases, Text, text_eq_iff, text_eq_refl,
}
use mathlib.Core.List.{append_assoc, append-nil}
use security_scan.Nist.{NistControl, same_so_far, compare_lineage, contains}

-- `other` has the sub-specifiers of `this` and then `rest`.
abbrev pub Extends : NistControl → NistControl → List Text → Type 0
Extends this other rest = other.sub_specifiers ≡ this.sub_specifiers ++ rest

same_so_far-append : (ss rest : List Text) → same_so_far ss (ss ++ rest) ≡ true
unfolding same_so_far
same_so_far-append [] rest = refl
same_so_far-append (s ∷ ss) rest = ground (arith, text_eq_refl s, same_so_far-append ss rest)

same_so_far_prefix :
    (ss os : List Text) → same_so_far ss os ≡ true → (rest : List Text) × (os ≡ ss ++ rest)
unfolding same_so_far
same_so_far_prefix [] os h = (os, refl)
same_so_far_prefix (s ∷ ss) [] h = cc
same_so_far_prefix (s ∷ ss) (o ∷ os) h =
    let (rest, e) = same_so_far_prefix ss os (ground arith) in
    (rest, ground (arith, text_eq_iff s o, e))

compare_lineage_of_Extends :
    (this other : NistControl) (rest : List Text)
    → Extends this other rest
    → compare_lineage this other ≡ pos (length rest)
unfolding compare_lineage
compare_lineage_of_Extends this other rest e = ground (
  arith,
  ap length e,
  length-append this.sub_specifiers rest,
  same_so_far-append this.sub_specifiers rest,
)

compare_lineage_sound :
    (this other : NistControl) (n : ℕ)
    → compare_lineage this other ≡ pos n
    → (rest : List Text) × Extends this other rest × (length rest ≡ n)
unfolding compare_lineage
compare_lineage_sound this other n h =
    let (rest, e) = same_so_far_prefix this.sub_specifiers other.sub_specifiers (ground arith) in
    (rest, e, ground (arith, compare_lineage_of_Extends this other rest e))

-- compare_lineage returns a number n that is not negative exactly when the other control has all
-- the sub-specifiers of this one followed by n more.
pub compare_lineage_iff :
    (this other : NistControl) (n : ℕ)
    → (compare_lineage this other ≡ pos n)
      ↔ ((rest : List Text) × Extends this other rest × (length rest ≡ n))
compare_lineage_iff this other n = (
  compare_lineage_sound this other n,
  λ (rest, e, l). compare_lineage_of_Extends this other rest e ∙ ap pos l,
)

contains_sound :
    (this other : NistControl)
    → contains this other ≡ true
    → (rest : List Text) × Extends this other rest
unfolding contains
contains_sound this other h =
    same_so_far_prefix this.sub_specifiers other.sub_specifiers (ground arith)

pub contains_of_Extends :
    (this other : NistControl) (rest : List Text)
    → Extends this other rest
    → contains this other ≡ true
unfolding contains
contains_of_Extends this other rest e = ground (
  arith,
  ap length e,
  length-append this.sub_specifiers rest,
  same_so_far-append this.sub_specifiers rest,
)

-- contains holds exactly when the sub-specifiers of this control are a prefix of the other's.
pub contains_iff :
    (this other : NistControl)
    → (contains this other ≡ true) ↔ ((rest : List Text) × Extends this other rest)
contains_iff this other =
    (contains_sound this other, λ (rest, e). contains_of_Extends this other rest e)

append-nil_of_cycle : (ss r t : List Text) → ss ≡ (ss ++ r) ++ t → r ≡ []
append-nil_of_cycle ss [] t e = refl
append-nil_of_cycle ss (x ∷ r) t e =
    absurd (omega (arith, ap length e, length-append (ss ++ x ∷ r) t, length-append ss (x ∷ r)))

contains_trans :
    (a b c : NistControl) → contains a b ≡ true → contains b c ≡ true → contains a c ≡ true
contains_trans a b c ab bc =
    let (r, e) = contains_sound a b ab in
    let (t, f) = contains_sound b c bc in
    contains_of_Extends a c (r ++ t) (f ∙ ap (λ s. s ++ t) e ∙ append_assoc a.sub_specifiers r t)

contains_antisymm :
    (a b : NistControl)
    → contains a b ≡ true
    → contains b a ≡ true
    → a.sub_specifiers ≡ b.sub_specifiers
contains_antisymm a b ab ba =
    let (r, e) = contains_sound a b ab in
    let (t, f) = contains_sound b a ba in
    let r_nil : r ≡ [] = append-nil_of_cycle a.sub_specifiers r t (f ∙ ap (λ s. s ++ t) e) in
    sym (e ∙ ap (λ s. a.sub_specifiers ++ s) r_nil ∙ append-nil a.sub_specifiers)

-- contains is an order on sub-specifiers. Every control contains itself, and of three controls of
-- which the first contains the second and the second the third, the first contains the third;
-- the second contains the first only if the two have the same sub-specifiers.
pub contains_order :
    (a b c : NistControl)
    → contains a b ≡ true
    → contains b c ≡ true
    → (contains a a ≡ true)
      × (contains a c ≡ true)
      × ((contains b a ≡ false) ⊎ (a.sub_specifiers ≡ b.sub_specifiers))
contains_order a b c ab bc = (
  contains_of_Extends a a [] (sym (append-nil a.sub_specifiers)),
  contains_trans a b c ab bc,
  elim (Bool-cases (contains b a)) [
    | inl ba ↦ inr (contains_antisymm a b ab ba)
    | inr apart ↦ inl apart
  ],
)
