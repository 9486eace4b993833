-- ===== src/Filters/Laws.antt =====
-- What the getter `controls` of data_filters.ts returns without a search.
use security_scan.Prelude.{
  String, ◌≡◌, refl, sym, ap, ◌∙◌, Bool, true, false, ◌&&◌, Option, none, some, List, [], ◌∷◌,
  arith, if◌then◌else◌, filter, filter-filter, Text, Bool-cases, Option-cases, inl, inr,
}
use security_scan.Filters.{
  Control, Filter, StatusFilter, of_status, waived_only, LoadedEvaluation, LoadedProfile,
  loaded_controls, passes_id, passes_status, passes_severity, passes_overlay, passes_tree, keep_id,
  keep_status, keep_severity, keep_overlay, keep_tree, keep_search, controls, search_all,
  contains_term, keep_if, then_tree,
}

filter_all : (cs : List Control) → filter (λ c. true) cs ≡ cs
filter_all [] = refl
filter_all (c ∷ cs) = ap (λ r. c ∷ r) (filter_all cs)

keep_id-filter :
    (f : Filter) (cs : List Control) → keep_id f cs ≡ filter (passes_id f.control_id) cs
unfolding keep_id
keep_id-filter f cs = by_field f.control_id
  where
    by_field :
        (o : Option String)
        → elim o [ none ↦ cs | some id ↦ filter (passes_id (some id)) cs ] ≡ filter (passes_id o) cs
    by_field none = sym (filter_all cs)
    by_field (some id) = refl

keep_status-filter :
    (f : Filter) (cs : List Control) → keep_status f cs ≡ filter (passes_status f.status) cs
unfolding keep_status
keep_status-filter f cs = elim (Option-cases f.status) [
  | inl e ↦ rw e (sym (filter_all cs))
  | inr (s, e) ↦ rw e (by_status s)
]
  where
    by_status :
        (s : StatusFilter)
        → elim s [
          | waived_only ↦ filter (λ c. c.waived) cs
          | of_status t ↦ filter (passes_status (some (of_status t))) cs
        ]
          ≡ filter (passes_status (some s)) cs
    by_status waived_only = refl
    by_status (of_status t) = refl

keep_severity-filter :
    (f : Filter) (cs : List Control) → keep_severity f cs ≡ filter (passes_severity f.severity) cs
unfolding keep_severity
keep_severity-filter f cs = elim (Option-cases f.severity) [
  | inl e ↦ rw e (sym (filter_all cs))
  | inr (s, e) ↦ rw e refl
]

keep_overlay-filter :
    (f : Filter) (cs : List Control)
    → keep_overlay f cs ≡ filter (passes_overlay f.omit_overlayed_controls) cs
unfolding keep_overlay
keep_overlay-filter f cs = elim (Bool-cases f.omit_overlayed_controls) [
  | inl e ↦ rw e refl
  | inr e ↦ rw e (sym (filter_all cs))
]

keep_tree-filter :
    (f : Filter) (cs : List Control) → keep_tree f cs ≡ filter (passes_tree f.tree_filters) cs
unfolding keep_tree
keep_tree-filter f cs = by_path f.tree_filters
  where
    by_path :
        (ts : List Text)
        → elim ts [ [] ↦ cs | t ∷ us ↦ filter (passes_tree (t ∷ us)) cs ]
          ≡ filter (passes_tree ts) cs
    by_path [] = sym (filter_all cs)
    by_path (t ∷ us) = refl

-- The tests of a filter other than the search.
abbrev pub passes : Filter → Control → Bool
passes f c =
    ((passes_id f.control_id c && passes_status f.status c) && passes_severity f.severity c)
    && passes_overlay f.omit_overlayed_controls c

kept-filter :
    (f : Filter) (cs : List Control)
    → keep_overlay f (keep_severity f (keep_status f (keep_id f cs))) ≡ filter (passes f) cs
kept-filter f cs =
    keep_overlay-filter f _
    ∙ ap (filter (passes_overlay f.omit_overlayed_controls)) (
        keep_severity-filter f _
        ∙ ap (filter (passes_severity f.severity)) (
            keep_status-filter f _
            ∙ ap (filter (passes_status f.status)) (keep_id-filter f cs)
            ∙ filter-filter (passes_status f.status) (passes_id f.control_id) cs)
        ∙ filter-filter (passes_severity f.severity)
            (λ c. passes_id f.control_id c && passes_status f.status c) cs)
    ∙ filter-filter (passes_overlay f.omit_overlayed_controls)
        (λ c.
          (passes_id f.control_id c && passes_status f.status c) && passes_severity f.severity c)
        cs

module _ (to_lower_case : Text → Text) where
  abbrev found : Option Bool → Bool
  found none = false
  found (some b) = b

  -- The control passes the search of the filter, if it has one.
  abbrev pub passes_search : Option Text → Control → Bool
  passes_search none c = true
  passes_search (some term) c = found (contains_term to_lower_case c (to_lower_case term))

  search_all-filter :
      (term : Text) (cs rs : List Control)
      → search_all to_lower_case term cs ≡ some rs
      → rs ≡ filter (λ c. found (contains_term to_lower_case c term)) cs
  unfolding search_all
  search_all-filter term [] rs h = ground arith
  search_all-filter term (c ∷ cs) rs h =
      step (contains_term to_lower_case c term) (search_all to_lower_case term cs) h
        (search_all-filter term cs)
    where
      step :
          (o : Option Bool) (l : Option (List Control))
          → keep_if to_lower_case c o l ≡ some rs
          → ((ts : List Control)
              → l ≡ some ts
              → ts ≡ filter (λ x. found (contains_term to_lower_case x term)) cs)
          → rs ≡ (
              if found o
              then c ∷ filter (λ x. found (contains_term to_lower_case x term)) cs
              else filter (λ x. found (contains_term to_lower_case x term)) cs)
      step none l e ih = cc
      step (some b) none e ih = cc
      step (some b) (some ts) e ih = ground (arith, e, ih ts refl)

  keep_search-filter :
      (f : Filter) (cs rs : List Control)
      → keep_search to_lower_case f cs ≡ some rs
      → rs ≡ filter (passes_search f.search_term) cs
  unfolding keep_search
  keep_search-filter f cs rs h = elim (Option-cases f.search_term) [
    | inl e ↦ rw e (ground (arith, rw (e, keep_search) at h, filter_all cs))
    | inr (term, e) ↦ rw e (search_all-filter (to_lower_case term) cs rs (rw (e, keep_search) at h))
  ]

  then_tree_inv :
      (f : Filter) (o : Option (List Control)) (cs : List Control)
      → then_tree to_lower_case f o ≡ some cs
      → (mid : List Control) × (o ≡ some mid) × (keep_tree f mid ≡ cs)
  then_tree_inv f none cs h = cc
  then_tree_inv f (some mid) cs h = (mid, refl, cc)

  -- If the search throws nowhere, the getter returns, in their order, the controls of the profiles
  -- of the chosen files that pass every test that the filter asks for.
  pub controls-filter :
      (evaluations : List LoadedEvaluation) (profiles : List LoadedProfile) (f : Filter)
      (cs : List Control)
      → controls to_lower_case evaluations profiles f ≡ some cs
      → cs
        ≡ filter
            (λ c. (passes f c && passes_search f.search_term c) && passes_tree f.tree_filters c)
            (loaded_controls evaluations profiles f.from_file)
  unfolding controls
  controls-filter evaluations profiles f cs h =
      let all = loaded_controls evaluations profiles f.from_file in
      let (mid, kept, treed) = then_tree_inv f (keep_search to_lower_case f _) cs h in
      sym treed
      ∙ keep_tree-filter f mid
      ∙ ap (filter (passes_tree f.tree_filters)) (
          keep_search-filter f _ mid kept
          ∙ ap (filter (passes_search f.search_term)) (kept-filter f all)
          ∙ filter-filter (passes_search f.search_term) (passes f) all)
      ∙ filter-filter (passes_tree f.tree_filters)
          (λ c. passes f c && passes_search f.search_term c) all
