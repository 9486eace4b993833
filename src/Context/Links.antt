-- ===== src/Context/Links.antt =====
-- The arrays extendsFrom and extendedBy of context.ts: what one link does to them.
use security_scan.Prelude.{
  ℕ, ◌≡◌, refl, sym, subst, ◌⊎◌, inl, inr, List, [], ◌∷◌, ◌==◌, ==_iff, In, here, there,
  In-append_right, In-append_left, In-append_inv, Bool-cases,
}
use security_scan.Context.{Extends, no_links, push, link}

module _ {A : Type 0} where
  In-one : {x y : A} → In x (y ∷ []) → x ≡ y
  In-one here = refl
  In-one (there h) = elim h [ ]

  pub In-push_new : (at : ℕ) (x : A) (f : ℕ → List A) → In x (push at x f at)
  In-push_new at x f = rw ((==_iff at at).1 refl) (In-append_right x (f at))

  pub In-push : (at : ℕ) (x y : A) (f : ℕ → List A) (k : ℕ) → In y (f k) → In y (push at x f k)
  In-push at x y f k h = elim (Bool-cases (k == at)) [
    | inl e ↦ rw e (In-append_left (f k) (x ∷ []) h)
    | inr e ↦ rw e h
  ]

  pub In-push_inv :
      (at : ℕ) (x y : A) (f : ℕ → List A) (k : ℕ)
      → In y (push at x f k)
      → In y (f k) ⊎ ((k ≡ at) × (y ≡ x))
  In-push_inv at x y f k h = elim (Bool-cases (k == at)) [
    | inl e ↦ elim (In-append_inv (f k) (x ∷ []) (rw e at h)) [
      | inl m ↦ inl m
      | inr m ↦ inr ((==_iff k at).0 e, In-one m)
    ]
    | inr e ↦ inl (rw e at h)
  ]

module _ {A : Type 0} (place : A → ℕ) where
  -- Every entry of the arrays extendsFrom has the property.
  abbrev pub Every : (ℕ → A → Type 0) → Extends A → Type 0
  Every P g = (k : ℕ) (b : A) → In b (g.extends_from k) → P k b

  pub Every-link :
      (P : ℕ → A → Type 0) (over base : A) (g : Extends A)
      → P (place over) base
      → Every P g
      → Every P (link place over base g)
  unfolding link
  Every-link P over base g p v k b h = elim (In-push_inv (place over) base b g.extends_from k h) [
    | inl m ↦ v k b m
    | inr (at, is) ↦ subst (λ j. P j b) (sym at) (subst (P (place over)) (sym is) p)
  ]

  -- What extends and what is extended stand in each other's arrays.
  abbrev pub Mirrored : Extends A → Type 0
  Mirrored g =
      ((k : ℕ) (b : A)
        → In b (g.extends_from k)
        → (a : A) × (place a ≡ k) × In a (g.extended_by (place b)))
      × ((k : ℕ) (a : A)
          → In a (g.extended_by k)
          → (b : A) × (place b ≡ k) × In b (g.extends_from (place a)))

  pub Mirrored-link :
      (over base : A) (g : Extends A) → Mirrored g → Mirrored (link place over base g)
  unfolding link
  Mirrored-link over base g (from, by) = (
    (λ k b h. elim (In-push_inv (place over) base b g.extends_from k h) [
      | inl m ↦
          (let (a, at, n) = from k b m in
            (a, at, In-push (place base) over a g.extended_by (place b) n))
      | inr (at, is) ↦ (
        over,
        sym at,
        subst (λ x. In over (push (place base) over g.extended_by (place x))) (sym is)
            (In-push_new (place base) over g.extended_by),
      )
    ]),
    (λ k a h. elim (In-push_inv (place base) over a g.extended_by k h) [
      | inl m ↦
          (let (b, at, n) = by k a m in
            (b, at, In-push (place over) base b g.extends_from (place a) n))
      | inr (at, is) ↦ (
        base,
        sym at,
        subst (λ x. In base (push (place over) base g.extends_from (place x))) (sym is)
            (In-push_new (place over) base g.extends_from),
      )
    ]),
  )

  pub Mirrored-none : Mirrored no_links
  Mirrored-none = ((λ k b h. elim h [ ]), (λ k a h. elim h [ ]))
