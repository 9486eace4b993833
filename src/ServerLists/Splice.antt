-- ===== src/ServerLists/Splice.antt =====
-- Deleting a group from the lists: DeleteGroup of groups.ts.
use security_scan.Prelude.{
  ℕ, suc, ◌≡◌, refl, ap, ◌∙◌, ◌⊎◌, inl, inr, false, none, some, List, [], ◌∷◌, ◌++◌, arith, any,
  ◌==◌, ==_iff, Bool-cases, Option-cases,
}
use security_scan.ServerLists.{
  find_index, remove_at, all_but_last, splice_one, GroupsState, delete_from_my_groups,
  delete_from_all_groups, delete_group,
}

-- The element is taken out where it first stands, or, if it stands nowhere, the last one is.
abbrev pub Removed : ℕ → List ℕ → List ℕ → Type 0
Removed r l kept =
    ((before : List ℕ) × (after : List ℕ) × (any (λ g. g == r) before ≡ false)
      × (l ≡ before ++ (r ∷ after))
      × (kept ≡ before ++ after))
    ⊎ ((any (λ g. g == r) l ≡ false)
        × (((l ≡ []) × (kept ≡ [])) ⊎ ((last : ℕ) × (l ≡ kept ++ (last ∷ [])))))

all_but_last_lem : (x : ℕ) (l : List ℕ) → (last : ℕ) × (x ∷ l ≡ all_but_last (x ∷ l) ++ (last ∷ []))
unfolding all_but_last
all_but_last_lem x [] = (x, refl)
all_but_last_lem x (y ∷ l) = let (last, e) = all_but_last_lem y l in (last, ap (λ r. x ∷ r) e)

find_index-none :
    (r : ℕ) (l : List ℕ) → find_index (λ g. g == r) l ≡ none → any (λ g. g == r) l ≡ false
unfolding find_index
find_index-none r [] h = refl
find_index-none r (x ∷ l) h = elim (Bool-cases (x == r)) [
  | inl e ↦ absurd (ground (arith, rw (e, find_index) at h))
  | inr e ↦ elim (Option-cases (find_index (λ g. g == r) l)) [
    | inl f ↦ rw e (find_index-none r l f)
    | inr (i, f) ↦ absurd (ground (arith, rw (e, f, find_index) at h))
  ]
]

find_index-some :
    (r : ℕ) (l : List ℕ) (i : ℕ)
    → find_index (λ g. g == r) l ≡ some i
    → (before : List ℕ) × (after : List ℕ) × (any (λ g. g == r) before ≡ false)
      × (l ≡ before ++ (r ∷ after))
      × (remove_at i l ≡ before ++ after)
unfolding find_index remove_at
find_index-some r [] i h = absurd (ground (arith, h))
find_index-some r (x ∷ l) i h = elim (Bool-cases (x == r)) [
  | inl e ↦
      (let first : i ≡ 0 = ground (arith, rw (e, find_index) at h) in
        ([], l, refl, ap (λ y. y ∷ l) ((==_iff x r).0 e), ap (λ j. remove_at j (x ∷ l)) first))
  | inr e ↦ elim (Option-cases (find_index (λ g. g == r) l)) [
    | inl f ↦ absurd (ground (arith, rw (e, f, find_index) at h))
    | inr (j, f) ↦
        (let next : i ≡ suc j = ground (arith, rw (e, f, find_index) at h) in
          let (before, after, apart, same, kept) = find_index-some r l j f in
          (
            x ∷ before,
            after,
            rw e apart,
            ap (λ m. x ∷ m) same,
            ap (λ k. remove_at k (x ∷ l)) next ∙ ap (λ m. x ∷ m) kept,
          ))
  ]
]

splice_one-Removed : (r : ℕ) (l : List ℕ) → Removed r l (splice_one (find_index (λ g. g == r) l) l)
unfolding splice_one
splice_one-Removed r l = elim (Option-cases (find_index (λ g. g == r) l)) [
  | inr (i, e) ↦ rw e (inl (find_index-some r l i e))
  | inl e ↦ rw e (inr (find_index-none r l e, ends l))
]
  where
    ends :
        (m : List ℕ)
        → ((m ≡ []) × (all_but_last m ≡ [])) ⊎ ((last : ℕ) × (m ≡ all_but_last m ++ (last ∷ [])))
    ends [] = inl (refl, refl)
    ends (x ∷ m) = inr (all_but_last_lem x m)

-- The deletion of a group takes it out of each of the two lists that holds this very object, and from
-- a list that does not hold it, it takes the last group, whichever that is.
pub delete_group-Removed :
    (group : ℕ) (s : GroupsState)
    → Removed group s.all_groups (delete_group group s).all_groups
      × Removed group s.my_groups (delete_group group s).my_groups
unfolding delete_group delete_from_my_groups delete_from_all_groups
delete_group-Removed group s =
    (splice_one-Removed group s.all_groups, splice_one-Removed group s.my_groups)
