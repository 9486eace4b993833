-- ===== src/Selection/Ids.antt =====
-- Sets of identifiers as the arrays of data_filters.ts hold them.
use security_scan.Prelude.{
  suc, ◌≤◌, String, ◌≡◌, refl, sym, ap, ◌∙◌, true, false, ◌&&◌, ◌||◌, not, List, [], ◌∷◌, ◌++◌,
  arith, str_eq, eq_iff, Bool-cases, inl, inr, includes, length,
}
use security_scan.Selection.{File, ids, without, dedupe, other_files}

-- No identifier stands twice.
abbrev pub Distinct : List String → Type 0
Distinct [] = Unit
Distinct (x ∷ l) = (includes l x ≡ false) × Distinct l

-- Every identifier of the first list stands in the second.
abbrev pub Within : List String → List String → Type 0
Within s l = (x : String) → includes s x ≡ true → includes l x ≡ true

str_eq_congr : (i x id : String) → str_eq i x ≡ true → str_eq i id ≡ str_eq x id
str_eq_congr i x id e = ap (λ k. str_eq k id) ((eq_iff i x).0 e)

pub str_eq_sym : (x y : String) → str_eq x y ≡ str_eq y x
str_eq_sym x y = elim (Bool-cases (str_eq x y)) [
  | inl e ↦ e ∙ sym ((eq_iff y x).1 (sym ((eq_iff x y).0 e)))
  | inr e ↦ elim (Bool-cases (str_eq y x)) [
    | inl f ↦ (eq_iff x y).1 (sym ((eq_iff y x).0 f)) ∙ sym f
    | inr f ↦ e ∙ sym f
  ]
]

pub includes-without :
    (id : String) (l : List String) (x : String)
    → includes (without id l) x ≡ (includes l x && not (str_eq x id))
unfolding without
includes-without id [] x = refl
includes-without id (i ∷ l) x = ground (arith, str_eq_congr i x id, includes-without id l x)

pub includes-append :
    (l m : List String) (x : String) → includes (l ++ m) x ≡ (includes l x || includes m x)
includes-append [] m x = refl
includes-append (i ∷ l) m x = ground (arith, includes-append l m x)

pub includes-dedupe : (l : List String) (x : String) → includes (dedupe l) x ≡ includes l x
unfolding dedupe
includes-dedupe [] x = refl
includes-dedupe (i ∷ l) x =
    ground (arith, includes-without i (dedupe l) x, includes-dedupe l x, str_eq_sym i x)

pub Distinct-without : (id : String) (l : List String) → Distinct l → Distinct (without id l)
unfolding without
Distinct-without id [] d = tt
Distinct-without id (i ∷ l) (n, d) = elim (Bool-cases (str_eq i id)) [
  | inl e ↦ rw e (Distinct-without id l d)
  | inr e ↦ rw e (includes-without id l i ∙ ground arith, Distinct-without id l d)
]

pub Distinct-dedupe : (l : List String) → Distinct (dedupe l)
unfolding dedupe
Distinct-dedupe [] = tt
Distinct-dedupe (i ∷ l) = (
  includes-without i (dedupe l) i ∙ ground (arith, (eq_iff i i).1 refl),
  Distinct-without i (dedupe l) (Distinct-dedupe l),
)

length-without_le : (id : String) (l : List String) → length (without id l) ≤ length l
unfolding without
length-without_le id [] = omega arith
length-without_le id (i ∷ l) = ground (arith, length-without_le id l)

length-without :
    (id : String) (l : List String) → includes l id ≡ true → suc (length (without id l)) ≤ length l
unfolding without
length-without id [] h = cc
length-without id (i ∷ l) h = ground (arith, length-without id l, length-without_le id l)

Within-without :
    (s l : List String) (y : String) → Within s l → includes s y ≡ false → Within s (without y l)
Within-without s l y w n x h = includes-without y l x ∙ ground (arith, w x h, (eq_iff x y).0, apart)
  where
    apart : str_eq x y ≡ false
    apart = elim (Bool-cases (str_eq x y)) [
      | inl e ↦ absurd (ground (arith, sym (ap (includes s) ((eq_iff x y).0 e)) ∙ h, n))
      | inr e ↦ e
    ]

-- Distinct identifiers that stand in a list are at most as many as its elements.
pub length-Within : (s l : List String) → Distinct s → Within s l → length s ≤ length l
length-Within [] l d w = omega arith
length-Within (x ∷ s) l (n, d) w =
    let x_in : includes l x ≡ true = w x (ground (arith, (eq_iff x x).1 refl)) in
    omega (
      arith,
      length-Within s (without x l) d (Within-without s l x (λ y h. w y (ground (arith, h))) n),
      length-without x l x_in,
    )

-- If they are as many, each element of the list is one of them.
pub Within-length : (s l : List String) → Distinct s → Within s l → length s ≡ length l → Within l s
Within-length s l d w e y h = elim (Bool-cases (includes s y)) [
  | inl in_s ↦ in_s
  | inr out ↦ absurd (
      omega (
        arith,
        length-Within s (without y l) d (Within-without s l y w out),
        length-without y l h,
        e,
      ))
]

pub ids-other_files :
    (id : String) (files : List File) → ids (other_files id files) ≡ without id (ids files)
unfolding without
ids-other_files id [] = refl
ids-other_files id (f ∷ files) = elim (Bool-cases (str_eq f.unique_id id)) [
  | inl e ↦ rw e (ids-other_files id files)
  | inr e ↦ rw e (ap (λ r. f.unique_id ∷ r) (ids-other_files id files))
]

pub ids-append : (l m : List File) → ids (l ++ m) ≡ ids l ++ ids m
ids-append [] m = refl
ids-append (f ∷ l) m = ap (λ r. f.unique_id ∷ r) (ids-append l m)

pub length-ids : (l : List File) → length (ids l) ≡ length l
length-ids [] = refl
length-ids (f ∷ l) = ap suc (length-ids l)

pub Distinct-snoc :
    (l : List String) (x : String) → includes l x ≡ false → Distinct l → Distinct (l ++ x ∷ [])
Distinct-snoc [] x n d = (refl, tt)
Distinct-snoc (i ∷ l) x n (m, d) = (
  includes-append l (x ∷ []) i ∙ ground (arith, n, m, str_eq_sym i x),
  Distinct-snoc l x (ground (arith, n)) d,
)
