-- ===== src/Splunk/Grouping.antt =====
-- group_by of heimdall2-master/apps/frontend/src/utilities/helper_util.ts against filters.
use mathlib.Core.List.{append_assoc, append-nil}
use security_scan.Prelude.{
  ◌≡◌, refl, sym, ◌∙◌, ap, String, true, false, ◌||◌, none, some, List, [], ◌∷◌, ◌++◌, map, put_key,
  get_key, str_eq, eq_iff, if◌then◌else◌, filter, includes, arith, Bool-cases, inl, inr,
}
use security_scan.Splunk.{Hash, group_item, group_from, group_by}

-- The keys in the order of their first items.
abbrev pub add_key : String → List String → List String
add_key k ks = if includes ks k then ks else ks ++ (k ∷ [])

module _ {T : Type 0} (f : T → String) where
  abbrev pub keys_from : List String → List T → List String
  keys_from ks [] = ks
  keys_from ks (x ∷ xs) = keys_from (add_key (f x) ks) xs

  abbrev pub with_key : String → List T → List T
  with_key k xs = filter (λ x. str_eq (f x) k) xs

  -- For each key the items that have it.
  abbrev pub table : List String → List T → Hash (List T)
  table ks xs = map (λ k. (k, with_key k xs)) ks

  abbrev Distinct : List String → Type 0
  Distinct [] = Unit
  Distinct (k ∷ ks) = (includes ks k ≡ false) × Distinct ks

  -- Every item has one of the keys.
  abbrev Covered : List String → List T → Type 0
  Covered ks seen = (k : String) → includes ks k ≡ false → with_key k seen ≡ []

  with_key-append :
      (k : String) (seen : List T) (x : T)
      → with_key k (seen ++ (x ∷ []))
        ≡ (if str_eq (f x) k then with_key k seen ++ (x ∷ []) else with_key k seen)
  with_key-append k [] x = ground arith
  with_key-append k (y ∷ seen) x = ground (arith, with_key-append k seen x)

  -- The entries of other keys stay.
  table-other :
      (ks : List String) (seen : List T) (x : T)
      → includes ks (f x) ≡ false
      → table ks (seen ++ (x ∷ [])) ≡ table ks seen
  table-other [] seen x h = refl
  table-other (k ∷ ks) seen x h =
      ground
        (arith, table-other ks seen x, with_key-append k seen x, eq_iff k (f x), eq_iff (f x) k)

  put_key-table :
      (ks : List String) (seen : List T) (x : T)
      → Distinct ks
      → includes ks (f x) ≡ true
      → put_key (f x) (with_key (f x) seen ++ (x ∷ [])) (table ks seen)
        ≡ table ks (seen ++ (x ∷ []))
  unfolding put_key
  put_key-table [] seen x d h = ground (arith, h)
  put_key-table (k ∷ ks) seen x (d, ds) h = elim (Bool-cases (str_eq k (f x))) [
    | inl e ↦
        let p : k ≡ f x = (eq_iff k (f x)).0 e in
        ground (
          arith,
          p,
          table-other ks seen x,
          with_key-append k seen x,
          eq_iff (f x) k,
          eq_iff k (f x),
        )
    | inr e ↦ ground (
      arith,
      put_key-table ks seen x ds,
      with_key-append k seen x,
      eq_iff (f x) k,
      eq_iff k (f x),
    )
  ]

  put_key-absent :
      (ks : List String) (k : String) (v : List T) (seen : List T)
      → includes ks k ≡ false
      → put_key k v (table ks seen) ≡ table ks seen ++ ((k, v) ∷ [])
  unfolding put_key
  put_key-absent [] k v seen h = refl
  put_key-absent (j ∷ ks) k v seen h = ground (arith, put_key-absent ks k v seen)

  get_key-table :
      (ks : List String) (k : String) (seen : List T)
      → get_key k (table ks seen) ≡ (if includes ks k then some (with_key k seen) else none)
  unfolding get_key
  get_key-table [] k seen = refl
  get_key-table (j ∷ ks) k seen = ground (arith, get_key-table ks k seen, eq_iff j k)

  table-append :
      (ks : List String) (k : String) (seen : List T)
      → table (ks ++ (k ∷ [])) seen ≡ table ks seen ++ ((k, with_key k seen) ∷ [])
  table-append [] k seen = refl
  table-append (j ∷ ks) k seen = ap (λ t. (j, with_key j seen) ∷ t) (table-append ks k seen)

  includes-append :
      (ks : List String) (k j : String)
      → includes (ks ++ (k ∷ [])) j ≡ (includes ks j || str_eq k j)
  includes-append [] k j = ground arith
  includes-append (i ∷ ks) k j = ground (arith, includes-append ks k j)

  Distinct-append :
      (ks : List String) (k : String)
      → Distinct ks
      → includes ks k ≡ false
      → Distinct (ks ++ (k ∷ []))
  Distinct-append [] k d h = (refl, tt)
  Distinct-append (j ∷ ks) k (d, ds) h = (
    ground (arith, includes-append ks k j, eq_iff j k, eq_iff k j),
    Distinct-append ks k ds (ground arith),
  )

  -- One item more.
  group_item-table :
      (ks : List String) (seen : List T) (x : T)
      → Distinct ks
      → Covered ks seen
      → group_item (f x) x (table ks seen) ≡ table (add_key (f x) ks) (seen ++ (x ∷ []))
  unfolding group_item
  group_item-table ks seen x d c = elim (Bool-cases (includes ks (f x))) [
    | inl e ↦ rw (get_key-table ks (f x) seen) (rw e (put_key-table ks seen x d e))
    | inr e ↦ rw (get_key-table ks (f x) seen) (
        rw e (
          put_key-absent ks (f x) (x ∷ []) seen e
          ∙ ground (
            arith,
            table-append ks (f x) (seen ++ (x ∷ [])),
            table-other ks seen x,
            with_key-append (f x) seen x,
            c (f x) e,
            eq_iff (f x) (f x),
          )))
  ]

  Covered-add :
      (ks : List String) (seen : List T) (x : T)
      → Covered ks seen
      → Covered (add_key (f x) ks) (seen ++ (x ∷ []))
  Covered-add ks seen x c j h = elim (Bool-cases (includes ks (f x))) [
    | inl e ↦ ground (arith, h, e, c j, with_key-append j seen x, eq_iff (f x) j)
    | inr e ↦ ground (arith, h, e, c j, with_key-append j seen x, includes-append ks (f x) j)
  ]

  Distinct-add : (ks : List String) (k : String) → Distinct ks → Distinct (add_key k ks)
  Distinct-add ks k d = elim (Bool-cases (includes ks k)) [
    | inl e ↦ rw e d
    | inr e ↦ rw e (Distinct-append ks k d e)
  ]

  group_from-table :
      (ks : List String) (seen xs : List T)
      → Distinct ks
      → Covered ks seen
      → group_from f (table ks seen) xs ≡ table (keys_from ks xs) (seen ++ xs)
  group_from-table ks seen [] d c = ap (table ks) (sym (append-nil seen))
  group_from-table ks seen (x ∷ xs) d c =
      ap (λ m. group_from f m xs) (group_item-table ks seen x d c)
      ∙ group_from-table (add_key (f x) ks) (seen ++ (x ∷ [])) xs (Distinct-add ks (f x) d)
          (Covered-add ks seen x c)
      ∙ ap (table (keys_from (add_key (f x) ks) xs)) (append_assoc seen (x ∷ []) xs)

  -- group_by makes one entry for each key, in the order of the first items that have it, with the items
  -- that have the key in their order.
  pub group_by-table : (xs : List T) → group_by xs f ≡ table (keys_from [] xs) xs
  group_by-table xs = group_from-table [] [] xs tt (λ k h. refl)
