-- ===== src/Prelude/Lists.antt =====
-- Lists measured by native numbers, and the array methods of the language: includes, filter,
-- every, some, find, slice.
use Prim.Native.Nat.{ℕ, zero, suc, ◌+◌, ◌≤◌}
use Prim.Native.String.{String}
use mathlib.Core.Path.{◌≡◌, refl, subst}
use mathlib.Core.Logic.{◌⊎◌, inl, inr}
use mathlib.Core.Bool.{Bool, true, false, ◌&&◌, ◌||◌}
use mathlib.Core.List.{List, [], ◌∷◌, ◌++◌}
use mathlib.Core.Option.{Option, none, some}
use native.Mathlib.Omega.{arith}
use text.Mathlib.Text.{◌==◌ as str_eq}
use security_scan.Prelude.Tests.{if◌then◌else◌, Bool-cases}

module _ {ℓ} {A : Type ℓ} where
  abbrev pub length : List A → ℕ
  length [] = 0
  length (x ∷ xs) = suc (length xs)

  abbrev pub take : ℕ → List A → List A
  take zero xs = []
  take (suc n) [] = []
  take (suc n) (x ∷ xs) = x ∷ take n xs

  abbrev pub filter : (A → Bool) → List A → List A
  filter p [] = []
  filter p (x ∷ xs) = let rest = filter p xs in if p x then x ∷ rest else rest

  abbrev pub any : (A → Bool) → List A → Bool
  any p [] = false
  any p (x ∷ xs) = p x || any p xs

  abbrev pub all : (A → Bool) → List A → Bool
  all p [] = true
  all p (x ∷ xs) = p x && all p xs

  abbrev pub find : (A → Bool) → List A → Option A
  find p [] = none
  find p (x ∷ xs) = if p x then some x else find p xs

  abbrev pub is_empty : List A → Bool
  is_empty [] = true
  is_empty (x ∷ xs) = false

  -- How many elements pass the test.
  abbrev pub count_p : (A → Bool) → List A → ℕ
  count_p p [] = 0
  count_p p (x ∷ xs) = (if p x then 1 else 0) + count_p p xs

  abbrev pub All {κ} : (A → Type κ) → List A → Type κ
  All P [] = Unit
  All P (x ∷ xs) = P x × All P xs

  -- `x` stands in the list, as a family that can be matched.
  pub data In (x : A) : List A → Type ℓ where
    here : {xs : List A} → In x (x ∷ xs)
    there : {y : A} {xs : List A} → In x xs → In x (y ∷ xs)

  pub length-append : (xs ys : List A) → length (xs ++ ys) ≡ length xs + length ys
  length-append [] ys = omega arith
  length-append (x ∷ xs) ys = omega (arith, length-append xs ys)

  pub length-filter : (p : A → Bool) (xs : List A) → length (filter p xs) ≡ count_p p xs
  length-filter p [] = refl
  length-filter p (x ∷ xs) = ground (arith, length-filter p xs)

  pub length-filter-le : (p : A → Bool) (xs : List A) → length (filter p xs) ≤ length xs
  length-filter-le p [] = omega arith
  length-filter-le p (x ∷ xs) = ground (arith, length-filter-le p xs)

  pub filter-append :
      (p : A → Bool) (xs ys : List A) → filter p (xs ++ ys) ≡ filter p xs ++ filter p ys
  filter-append p [] ys = refl
  filter-append p (x ∷ xs) ys = ground (arith, filter-append p xs ys)

  pub filter-filter :
      (p q : A → Bool) (xs : List A) → filter p (filter q xs) ≡ filter (λ x. q x && p x) xs
  filter-filter p q [] = refl
  filter-filter p q (x ∷ xs) = ground (arith, filter-filter p q xs)

  pub all-filter : (p : A → Bool) (xs : List A) → all p (filter p xs) ≡ true
  all-filter p [] = refl
  all-filter p (x ∷ xs) = ground (arith, all-filter p xs)

  pub all_of_In : (p : A → Bool) {x : A} (xs : List A) → In x xs → all p xs ≡ true → p x ≡ true
  all_of_In p [] m h = elim m [ ]
  all_of_In p (y ∷ xs) here h = ground arith
  all_of_In p (y ∷ xs) (there m) h = all_of_In p xs m (ground arith)

  pub In-filter : (p : A → Bool) {x : A} (xs : List A) → In x xs → p x ≡ true → In x (filter p xs)
  In-filter p [] m h = elim m [ ]
  In-filter p (y ∷ xs) here h = rw h here
  In-filter p (y ∷ xs) (there m) h = elim (Bool-cases (p y)) [
    | inl e ↦ rw e (there (In-filter p xs m h))
    | inr e ↦ rw e (In-filter p xs m h)
  ]

  In-cons-filter_inv :
      (p : A → Bool) {x y : A} {xs : List A}
      → p y ≡ true
      → (In x (filter p xs) → In x xs × (p x ≡ true))
      → In x (y ∷ filter p xs)
      → In x (y ∷ xs) × (p x ≡ true)
  In-cons-filter_inv p e ih here = (here, e)
  In-cons-filter_inv p e ih (there m) = (there (ih m).0, (ih m).1)

  pub In-filter_inv :
      (p : A → Bool) {x : A} (xs : List A) → In x (filter p xs) → In x xs × (p x ≡ true)
  In-filter_inv p [] h = elim h [ ]
  In-filter_inv p {x} (y ∷ xs) h = elim (Bool-cases (p y)) [
    | inl e ↦ In-cons-filter_inv p e (In-filter_inv p xs) (rw e at h)
    | inr e ↦ (there (In-filter_inv p xs (rw e at h)).0, (In-filter_inv p xs (rw e at h)).1)
  ]

  pub In-append_right : (x : A) (l : List A) → In x (l ++ (x ∷ []))
  In-append_right x [] = here
  In-append_right x (y ∷ l) = there (In-append_right x l)

  pub In-append_left : {x : A} (l m : List A) → In x l → In x (l ++ m)
  In-append_left [] m h = elim h [ ]
  In-append_left (y ∷ l) m here = here
  In-append_left (y ∷ l) m (there h) = there (In-append_left l m h)

  pub In-append_inv : {x : A} (l m : List A) → In x (l ++ m) → In x l ⊎ In x m
  In-append_inv [] m h = inr h
  In-append_inv (y ∷ l) m here = inl here
  In-append_inv (y ∷ l) m (there h) = elim (In-append_inv l m h) [
    | inl k ↦ inl (there k)
    | inr k ↦ inr k
  ]

  pub find_inv : (p : A → Bool) {x : A} (xs : List A) → find p xs ≡ some x → In x xs × (p x ≡ true)
  find_inv p [] h = absurd (ground (arith, h))
  find_inv p {x} (y ∷ xs) h = elim (Bool-cases (p y)) [
    | inl e ↦
        (let same : y ≡ x = ground (arith, rw e at h) in
          (subst (λ z. In z (y ∷ xs)) same here, subst (λ z. p z ≡ true) same e))
    | inr e ↦ (let (m, t) = find_inv p xs (rw e at h) in (there m, t))
  ]

-- `includes` on an array of strings.
abbrev pub includes : List String → String → Bool
includes [] s = false
includes (x ∷ xs) s = str_eq x s || includes xs s
