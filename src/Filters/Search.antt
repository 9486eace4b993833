-- ===== src/Filters/Search.antt =====
-- The search of data_filters.ts meets a missing title or code: contains_term removes what is null
-- and not what is undefined.
use security_scan.Prelude.{
  ◌≡◌, refl, inl, inr, Bool, true, false, Option, none, some, List, [], ◌∷◌, In, here, there, All,
  if◌then◌else◌, Text, Bool-cases,
}
use security_scan.Hdf.{Nullable, given, null, undefined}
use security_scan.Filters.{
  Control, includes_text, some_contains, contains_term, keep_if, search_all,
}

module _ (to_lower_case : Text → Text) where
  -- The term stands in the id, whatever the case of the letters in the id.
  abbrev pub id_matches : Text → Control → Bool
  id_matches term c = includes_text term (to_lower_case c.root.searchables.id)

  undefined_title :
      (term : Text) (c : Control)
      → c.root.searchables.title ≡ undefined
      → id_matches term c ≡ false
      → contains_term to_lower_case c term ≡ none
  unfolding contains_term
  undefined_title term c e h = rw (h, e) refl

  search_all_throws :
      (term : Text) (c : Control) (cs : List Control)
      → In c cs
      → contains_term to_lower_case c term ≡ none
      → search_all to_lower_case term cs ≡ none
  unfolding search_all
  search_all_throws term c [] m e = elim m [ ]
  search_all_throws term c (d ∷ cs) here e = rw e refl
  search_all_throws term c (d ∷ cs) (there m) e =
      rw (search_all_throws term c cs m e) (keep_none (contains_term to_lower_case d term))
    where
      keep_none : (o : Option Bool) → keep_if to_lower_case d o none ≡ none
      keep_none none = refl
      keep_none (some b) = refl

  -- A search throws as soon as one of the controls has an undefined title and an id in which the
  -- term does not stand, whatever the other controls are.
  pub undefined_title_throws :
      (term : Text) (c : Control) (cs : List Control)
      → In c cs
      → c.root.searchables.title ≡ undefined
      → id_matches term c ≡ false
      → search_all to_lower_case term cs ≡ none
  undefined_title_throws term c cs m e h =
      search_all_throws term c cs m (undefined_title term c e h)

  -- A text that a search may look at without throwing.
  abbrev pub IsPresent : Nullable Text → Type 0
  IsPresent (given s) = Unit
  IsPresent null = Unit
  IsPresent undefined = ⊥

  some_contains_total :
      (term : Text) (l : List (Nullable Text))
      → All IsPresent l
      → (b : Bool) × (some_contains to_lower_case term l ≡ some b)
  unfolding some_contains
  some_contains_total term [] h = (false, refl)
  some_contains_total term (null ∷ l) (_, h) = some_contains_total term l h
  some_contains_total term (undefined ∷ l) (e, h) = absurd e
  some_contains_total term (given s ∷ l) (_, h) =
      elim (Bool-cases (includes_text term (to_lower_case s))) [
        | inl e ↦ (true, rw e refl)
        | inr e ↦ (let (b, k) = some_contains_total term l h in (b, rw e k))
      ]

  -- Neither the title nor the code of the control is undefined.
  abbrev pub HasTexts : Control → Type 0
  HasTexts c = IsPresent c.root.searchables.title × IsPresent c.root.searchables.code

  contains_term_total :
      (term : Text) (c : Control)
      → HasTexts c
      → (b : Bool) × (contains_term to_lower_case c term ≡ some b)
  unfolding contains_term
  contains_term_total term c (t, d) =
      let s = c.root.searchables in
      some_contains_total term
        (given s.id
          ∷ s.title
          ∷ s.code
          ∷ given s.severity
          ∷ given s.status
          ∷ given s.finding_details
          ∷ [])
        (tt, (t, (d, (tt, (tt, (tt, tt))))))

  -- A search over controls with neither an undefined title nor an undefined code returns.
  pub search_all_total :
      (term : Text) (cs : List Control)
      → All HasTexts cs
      → (rs : List Control) × (search_all to_lower_case term cs ≡ some rs)
  unfolding search_all
  search_all_total term [] h = ([], refl)
  search_all_total term (c ∷ cs) (v, h) =
      let (b, e) = contains_term_total term c v in
      let (rs, k) = search_all_total term cs h in ((if b then c ∷ rs else rs), rw (e, k) refl)
