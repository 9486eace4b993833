-- ===== src/Delta/Changes.antt =====
-- Whether a property changes between runs: ControlChange of delta_util.ts.
use security_scan.Prelude.{
  ◌≡◌, sym, subst, ◌↔◌, ◌⊎◌, inl, inr, Bool, true, false, none, some, List, [], ◌∷◌, arith, any, In,
  here, there, Bool-cases, Option-cases, Text, text_eq, text_eq_iff,
}
use security_scan.Delta.{not_selected, ControlChange, first_selected, valid}

abbrev pub Selected : Text → Type 0
Selected v = text_eq v not_selected ≡ false

-- Two selected values differ.
abbrev pub Differs : List Text → Type 0
Differs vs =
    (v : Text) × (w : Text) × In v vs × In w vs × Selected v × Selected w × (text_eq w v ≡ false)

any_inv : (p : Text → Bool) (l : List Text) → any p l ≡ true → (w : Text) × In w l × (p w ≡ true)
any_inv p [] h = cc
any_inv p (w ∷ l) h = elim (Bool-cases (p w)) [
  | inl e ↦ (w, here, e)
  | inr e ↦ (let (x, m, t) = any_inv p l (rw e at h) in (x, there m, t))
]

any-In : (p : Text → Bool) {w : Text} (l : List Text) → In w l → p w ≡ true → any p l ≡ true
any-In p [] m e = elim m [ ]
any-In p (x ∷ l) here e = ground arith
any-In p (x ∷ l) (there m) e = ground (arith, any-In p l m e)

not_selected_cons :
    (v w : Text) (vs : List Text)
    → In w (v ∷ vs)
    → text_eq v not_selected ≡ true
    → (In w vs → text_eq w not_selected ≡ true)
    → text_eq w not_selected ≡ true
not_selected_cons v _ vs here e ih = e
not_selected_cons v w vs (there n) e ih = ih n

first_selected-none :
    (vs : List Text)
    → first_selected vs ≡ none
    → (w : Text) → In w vs
    → text_eq w not_selected ≡ true
unfolding first_selected
first_selected-none [] h w m = elim m [ ]
first_selected-none (v ∷ vs) h w m = elim (Bool-cases (text_eq v not_selected)) [
  | inl e ↦ not_selected_cons v w vs m e (first_selected-none vs (rw (e, first_selected) at h) w)
  | inr e ↦ absurd (ground (arith, rw (e, first_selected) at h))
]

-- The first selected value stands in the list, those behind it too, and what is selected is it or
-- stands behind it.
first_selected-some :
    (vs : List Text) (v : Text) (rest : List Text)
    → first_selected vs ≡ some (v, rest)
    → Selected v
      × In v vs
      × ((w : Text) → In w rest → In w vs)
      × ((w : Text) → In w vs → Selected w → (w ≡ v) ⊎ In w rest)
unfolding first_selected
first_selected-some [] v rest h = absurd (ground (arith, h))
first_selected-some (x ∷ vs) v rest h = elim (Bool-cases (text_eq x not_selected)) [
  | inl e ↦
      (let (selected, m, within, behind) =
          first_selected-some vs v rest (rw (e, first_selected) at h) in
        (selected, there m, (λ w n. there (within w n)), skipped e behind))
  | inr e ↦
      (let same : x ≡ v = ground (arith, rw (e, first_selected) at h) in
        let tail : vs ≡ rest = ground (arith, rw (e, first_selected) at h) in
        (
          subst Selected same e,
          subst (λ y. In y (x ∷ vs)) same here,
          (λ w n. there (subst (In w) (sym tail) n)),
          first same tail,
        ))
]
  where
    skipped :
        text_eq x not_selected ≡ true
        → ((w : Text) → In w vs → Selected w → (w ≡ v) ⊎ In w rest)
        → (w : Text) → In w (x ∷ vs)
        → Selected w
        → (w ≡ v) ⊎ In w rest
    skipped e behind _ here s = absurd (ground (arith, e, s))
    skipped e behind w (there n) s = behind w n s

    first : x ≡ v → vs ≡ rest → (w : Text) → In w (x ∷ vs) → Selected w → (w ≡ v) ⊎ In w rest
    first same tail _ here s = inl same
    first same tail w (there n) s = inr (subst (In w) tail n)

differs_first :
    (v : Text) (rest : List Text) (b : Text)
    → (b ≡ v) ⊎ In b rest
    → Selected b
    → text_eq b v ≡ false
    → (w : Text) × In w rest × Selected w × (text_eq w v ≡ false)
differs_first v rest b (inl e) t d = absurd (ground (arith, d, (text_eq_iff b v).1 e))
differs_first v rest b (inr n) t d = (b, n, t, d)

differs_behind :
    (v : Text) (rest : List Text) (a b : Text)
    → (a ≡ v) ⊎ In a rest
    → (b ≡ v) ⊎ In b rest
    → Selected a
    → Selected b
    → text_eq b a ≡ false
    → (w : Text) × In w rest × Selected w × (text_eq w v ≡ false)
differs_behind v rest a b (inl e) y s t d =
    differs_first v rest b y t (subst (λ x. text_eq b x ≡ false) e d)
differs_behind v rest a b (inr m) y s t d = elim (Bool-cases (text_eq a v)) [
  | inr e ↦ (a, m, s, e)
  | inl e ↦ differs_first v rest b y t (subst (λ x. text_eq b x ≡ false) ((text_eq_iff a v).0 e) d)
]

-- A change counts exactly if two of its values are selected and differ, wherever they stand.
pub valid_iff : (c : ControlChange) → (valid c ≡ true) ↔ Differs c.values
unfolding valid
valid_iff c = (to, from)
  where
    to : valid c ≡ true → Differs c.values
    to h = elim (Option-cases (first_selected c.values)) [
      | inl e ↦ absurd (ground (arith, rw (e, valid) at h))
      | inr ((v, rest), e) ↦
          (let (selected, m, within, behind) = first_selected-some c.values v rest e in
            let (w, n, t) = any_inv _ rest (rw (e, valid) at h) in
            (v, w, m, within w n, selected, ground (arith, t), ground (arith, t)))
    ]

    from : Differs c.values → valid c ≡ true
    from (a, b, m, n, s, t, d) = elim (Option-cases (first_selected c.values)) [
      | inl e ↦ absurd (ground (arith, s, first_selected-none c.values e a m))
      | inr ((v, rest), e) ↦
          (let (selected, at, within, behind) = first_selected-some c.values v rest e in
            let (w, k, u, other) = differs_behind v rest a b (behind a m s) (behind b n t) s t d in
            rw (valid, e) (any-In _ rest k (ground (arith, u, other))))
    ]
