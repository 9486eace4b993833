-- ===== src/Counts/Laws.antt =====
-- The counts add up: status_counts.ts and severity_counts.ts.
use security_scan.Prelude.{
  ℕ, ◌+◌, ◌≡◌, refl, sym, subst, ap, ◌∙◌, Bool, true, false, some, List, [], ◌∷◌, arith, length,
  filter, count_p, Text, ◌==◌, ◌&&◌, Option-cases, inl, inr,
}
use security_scan.Nist.Status.{
  ControlStatus, not_applicable, from_profile, profile_error, passed, failed, not_reviewed,
  status_tag as control_tag,
}
use security_scan.Filters.{
  Control, Filter, LoadedEvaluation, LoadedProfile, controls, of_status, loaded_controls,
  passes_tree,
}
use security_scan.Filters.Laws.{passes, passes_search, controls-filter}
use security_scan.Counts.{StatusHash, zero_hash, count_control, count_from, count_statuses}

-- How many of the controls have the status.
abbrev pub having : ControlStatus → List Control → ℕ
having s cs = count_p (λ c. control_tag c.root.status == control_tag s) cs

-- The counts of one hash, by status.
abbrev pub CountsOf : StatusHash → StatusHash → List Control → Type 0
CountsOf h g cs =
    (h.failed ≡ g.failed + having failed cs)
    × (h.from_profile ≡ g.from_profile + having from_profile cs)
    × (h.not_applicable ≡ g.not_applicable + having not_applicable cs)
    × (h.not_reviewed ≡ g.not_reviewed + having not_reviewed cs)
    × (h.passed ≡ g.passed + having passed cs)
    × (h.profile_error ≡ g.profile_error + having profile_error cs)

count_from-CountsOf : (h : StatusHash) (cs : List Control) → CountsOf (count_from h cs) h cs
unfolding count_from
count_from-CountsOf h [] = ground arith
count_from-CountsOf h (c ∷ cs) = ground (arith, count_from-CountsOf (count_control h c.root) cs)

sum_having :
    (cs : List Control)
    → having failed cs
        + having from_profile cs
        + having not_applicable cs
        + having not_reviewed cs
        + having passed cs
        + having profile_error cs
      ≡ length cs
sum_having [] = omega arith
sum_having (c ∷ cs) = ground (arith, sum_having cs)

-- A count of the hash, by its status.
abbrev pub count_of : StatusHash → ControlStatus → ℕ
count_of h failed = h.failed
count_of h from_profile = h.from_profile
count_of h not_applicable = h.not_applicable
count_of h not_reviewed = h.not_reviewed
count_of h passed = h.passed
count_of h profile_error = h.profile_error

count_of-having :
    (h : StatusHash) (cs : List Control) (t : ControlStatus)
    → CountsOf h zero_hash cs
    → count_of h t ≡ having t cs
count_of-having h cs failed e = omega arith
count_of-having h cs from_profile e = omega arith
count_of-having h cs not_applicable e = omega arith
count_of-having h cs not_reviewed e = omega arith
count_of-having h cs passed e = omega arith
count_of-having h cs profile_error e = omega arith

having-filter_other :
    (p : Control → Bool) (t : ControlStatus) (cs : List Control)
    → ((c : Control) → p c ≡ true → (control_tag c.root.status == control_tag t) ≡ false)
    → having t (filter p cs) ≡ 0
having-filter_other p t [] h = refl
having-filter_other p t (c ∷ cs) h = ground (arith, h c, having-filter_other p t cs h)

-- The segment counts of a hash are about the controls with that status.
module _ (to_lower_case : Text → Text) (evaluations : List LoadedEvaluation)
    (profiles : List LoadedProfile) where
  count_statuses_inv :
      (f : Filter) (h : StatusHash)
      → count_statuses to_lower_case evaluations profiles f ≡ some h
      → (cs : List Control) × (controls to_lower_case evaluations profiles f ≡ some cs)
        × (h ≡ count_from zero_hash cs)
  unfolding count_statuses
  count_statuses_inv f h e = elim (Option-cases (controls to_lower_case evaluations profiles f)) [
    | inl n ↦ absurd (ground (arith, e, n))
    | inr (cs, k) ↦ (cs, k, ground (arith, e, k))
  ]

  -- The hash of a filter counts, under each status, the controls with that status among those that
  -- the getter `controls` returns, and the six counts add up to the number of these controls.
  pub count_statuses_exact :
      (f : Filter) (h : StatusHash)
      → count_statuses to_lower_case evaluations profiles f ≡ some h
      → (cs : List Control) × (controls to_lower_case evaluations profiles f ≡ some cs)
        × ((t : ControlStatus) → count_of h t ≡ having t cs)
        × (h.failed + h.from_profile + h.not_applicable + h.not_reviewed + h.passed
              + h.profile_error
            ≡ length cs)
  count_statuses_exact f h e =
      let (cs, k, same) = count_statuses_inv f h e in
      let counts : CountsOf h zero_hash cs =
        subst (λ x. CountsOf x zero_hash cs) (sym same) (count_from-CountsOf zero_hash cs) in
      (cs, k, (λ t. count_of-having h cs t counts), omega (arith, counts, sum_having cs))

  passes_other :
      (f : Filter) (s t : ControlStatus) (c : Control)
      → f.status ≡ some (of_status s)
      → (control_tag s == control_tag t) ≡ false
      → ((passes f c && passes_search to_lower_case f.search_term c)
          && passes_tree f.tree_filters c)
        ≡ true
      → (control_tag c.root.status == control_tag t) ≡ false
  passes_other f s t c e ne h = ground (arith, e, ne, h)

  -- If the filter asks for one status, the hash of the filter is 0 under every other status.
  pub count_statuses_other :
      (f : Filter) (h : StatusHash) (s t : ControlStatus)
      → f.status ≡ some (of_status s)
      → (control_tag s == control_tag t) ≡ false
      → count_statuses to_lower_case evaluations profiles f ≡ some h
      → count_of h t ≡ 0
  count_statuses_other f h s t asks ne e =
      let (cs, k, same) = count_statuses_inv f h e in
      let counts : CountsOf h zero_hash cs =
        subst (λ x. CountsOf x zero_hash cs) (sym same) (count_from-CountsOf zero_hash cs) in
      count_of-having h cs t counts
      ∙ ap (having t) (controls-filter to_lower_case evaluations profiles f cs k)
      ∙ having-filter_other
          (λ c.
            (passes f c && passes_search to_lower_case f.search_term c)
            && passes_tree f.tree_filters c)
          t (loaded_controls evaluations profiles f.from_file) (λ c. passes_other f s t c asks ne)
