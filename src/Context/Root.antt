-- ===== src/Context/Root.antt =====
-- root and full_code of context.ts: that the search for the root ends.
use mathlib.Core.Option.{some-injective}
use security_scan.Prelude.Int.{ℤ}
use security_scan.Prelude.{
  ℕ, zero, suc, ◌<◌, ◌≡◌, ◌≢◌, refl, sym, subst, ap, ◌∙◌, ◌⊎◌, inl, inr, Bool, true, false, some,
  List, [], ◌∷◌, ◌++◌, arith, In, Option-cases, Text, trim,
}
use security_scan.Context.{
  Extends, ReportProfile, ContextualizedProfile, ContextualizedControl, no_links, control_id,
  profile_place, parent_of, base_of, number_profiles, link_profiles, all_controls, link_controls,
  contextualize_evaluation,
}
use security_scan.Context.Code.{root, full_code, over_code, banner}
use security_scan.Context.Links.{Mirrored, Mirrored-none}
use security_scan.Context.Profiles.{link_profiles_iff, link_profiles-Mirrored}
use security_scan.Context.Controls.{Direct, Sibling, base_of-Bound, find_populated-same}
use security_scan.Context.Places.{option_list, link_controls_exact, all_controls-From}

-- The root and the full code are found with that fuel: the root has the id of the control and extends
-- nothing.
abbrev pub Rooted : Extends ContextualizedControl → ℕ → ContextualizedControl → Type 0
Rooted g fuel c =
    (r : ContextualizedControl) × (root g fuel c ≡ some r)
    × (g.extends_from r.place ≡ [])
    × (control_id r.data_of ≡ control_id c.data_of)
    × ((text : Text) × (full_code g fuel c ≡ some text))

over_code-some :
    (c : ContextualizedControl) (redundant : Bool) (rest : Text)
    → (text : Text) × (over_code c redundant (some rest) ≡ some text)
over_code-some c true rest = (rest, refl)
over_code-some c false rest = (trim (banner c ++ (10 ∷ 10 ∷ rest)), refl)

module _ (all : List ContextualizedControl) (profiles : Extends ContextualizedProfile)
    (g : Extends ContextualizedControl)
    (exact : (c : ContextualizedControl)
      → In c all
      → g.extends_from c.place ≡ option_list (base_of all profiles c)) where
  Rooted-end :
      (fuel : ℕ) (c : ContextualizedControl) → g.extends_from c.place ≡ [] → Rooted g (suc fuel) c
  unfolding root full_code
  Rooted-end fuel c e = (c, rw (e, root) refl, e, refl, (trim (banner c), rw (e, full_code) refl))

  root-next :
      (fuel : ℕ) (c b : ContextualizedControl)
      → g.extends_from c.place ≡ b ∷ []
      → root g (suc fuel) c ≡ root g fuel b
  unfolding root
  root-next fuel c b e = rw (e, root) refl

  full_code-next :
      (fuel : ℕ) (c b r : ContextualizedControl) (rest : Text)
      → g.extends_from c.place ≡ b ∷ []
      → root g (suc fuel) c ≡ some r
      → full_code g fuel b ≡ some rest
      → (text : Text) × (full_code g (suc fuel) c ≡ some text)
  unfolding full_code
  full_code-next fuel c b r rest e found code =
      rw (full_code, e, found, code) (over_code-some c _ rest)

  Rooted-next :
      (fuel : ℕ) (c b : ContextualizedControl)
      → g.extends_from c.place ≡ b ∷ []
      → control_id b.data_of ≡ control_id c.data_of
      → Rooted g fuel b
      → Rooted g (suc fuel) c
  Rooted-next fuel c b e same (r, found, ends, id, (rest, code)) =
      let here : root g (suc fuel) c ≡ some r = root-next fuel c b e ∙ found in
      (r, here, ends, id ∙ same, full_code-next fuel c b r rest e here code)

  module _ (rank : ℕ → ℕ)
      (higher : (k : ℕ) (q : ContextualizedProfile)
        → In q (profiles.extends_from k)
        → rank q.place < rank k)
      (mirrored : Mirrored profile_place profiles) where
    -- A control that is bound directly stands in a profile that is extended.
    abbrev Extended : ContextualizedControl → Type 0
    Extended c = profiles.extended_by c.sourced_from.place ≢ []

    Direct-Extended : (c b : ContextualizedControl) → Direct profiles c b → Extended b
    Direct-Extended c b (q, m, at) e =
        let (a, same, n) = mirrored.0 c.sourced_from.place q m in
        let none_left : In a [] = subst (In a) (ap profiles.extended_by (sym at) ∙ e) n in
        elim none_left [ ]

    Direct-higher :
        (c b : ContextualizedControl)
        → Direct profiles c b
        → rank b.sourced_from.place < rank c.sourced_from.place
    Direct-higher c b (q, m, at) = omega (arith, higher c.sourced_from.place q m, ap rank at)

    Rooted-Extended :
        (fuel : ℕ) (c : ContextualizedControl)
        → In c all
        → Extended c
        → rank c.sourced_from.place < fuel
        → Rooted g fuel c
    Rooted-Extended zero c m x h = absurd (omega (arith, h))
    Rooted-Extended (suc fuel) c m x h = elim (Option-cases (base_of all profiles c)) [
      | inl e ↦ Rooted-end fuel c (exact c m ∙ ap option_list e)
      | inr (b, e) ↦
          (let (n, same, how) = base_of-Bound all profiles c b e in
            elim how [
              | inl direct ↦ Rooted-next fuel c b (exact c m ∙ ap option_list e) same (
                  Rooted-Extended fuel b n (Direct-Extended c b direct)
                    (omega (arith, h, Direct-higher c b direct)))
              | inr (no_base, no_over, found, other) ↦ absurd (x no_over)
            ])
    ]

    -- A sibling is not bound to a sibling: both look for the same control.
    Sibling-last :
        (c b d : ContextualizedControl)
        → Sibling all profiles c b
        → control_id b.data_of ≡ control_id c.data_of
        → ¬ Sibling all profiles b d
    Sibling-last c b d (none_c, over_c, found, other) same (none_b, over_b, again, apart) = apart (
        ap (λ x. x.place)
          (some-injective b d (sym found ∙ find_populated-same all c b (sym same) ∙ again)))

    -- Fuel for one step to a sibling and the steps that each go to a lower rank.
    Rooted-all :
        (n : ℕ) (c : ContextualizedControl) → ((k : ℕ) → rank k < n) → In c all → Rooted g (suc n) c
    Rooted-all zero c h m = absurd (omega (arith, h 0))
    Rooted-all (suc n) c h m = elim (Option-cases (base_of all profiles c)) [
      | inl e ↦ Rooted-end (suc n) c (exact c m ∙ ap option_list e)
      | inr (b, e) ↦
          (let (in_all, same, how) = base_of-Bound all profiles c b e in
            Rooted-next (suc n) c b (exact c m ∙ ap option_list e) same (bound c b in_all same how))
    ]
      where
        bound :
            (c b : ContextualizedControl)
            → In b all
            → control_id b.data_of ≡ control_id c.data_of
            → Direct profiles c b ⊎ Sibling all profiles c b
            → Rooted g (suc n) b
        bound c b in_all same (inl direct) =
            Rooted-Extended (suc n) b in_all (Direct-Extended c b direct) (h b.sourced_from.place)
        bound c b in_all same (inr sibling) = elim (Option-cases (base_of all profiles b)) [
          | inl e ↦ Rooted-end n b (exact b in_all ∙ ap option_list e)
          | inr (d, e) ↦
              (let (n_d, same_d, how) = base_of-Bound all profiles b d e in
                elim how [
                  | inl direct ↦ Rooted-next n b d (exact b in_all ∙ ap option_list e) same_d (
                      Rooted-Extended n d n_d (Direct-Extended b d direct)
                        (omega (arith, h b.sourced_from.place, Direct-higher b d direct)))
                  | inr last ↦ absurd (Sibling-last c b d sibling same last)
                ])
        ]

-- If no profile of a report is among its own ancestors, which a rank below n shows that grows from a
-- profile to its parent, then n + 1 steps find the root and the full code of every control; the
-- root has the id of the control and extends nothing.
pub contextualize_evaluation-Rooted :
    (locale_compare : Text → Text → ℤ) (report : List ReportProfile) (rank : ℕ → ℕ) (n : ℕ)
    (c : ContextualizedControl)
    → ((p q : ContextualizedProfile)
        → In p (contextualize_evaluation locale_compare report).contains
        → parent_of (contextualize_evaluation locale_compare report).contains p ≡ some q
        → rank p.place < rank q.place)
    → ((k : ℕ) → rank k < n)
    → In c (contextualize_evaluation locale_compare report).controls
    → Rooted (contextualize_evaluation locale_compare report).control_links (suc n) c
unfolding contextualize_evaluation
contextualize_evaluation-Rooted locale_compare report rank n c grows below m =
    let contains = number_profiles 0 report in
    let profiles = link_profiles contains contains no_links in
    let all = all_controls locale_compare 0 contains in
    Rooted-all all profiles (link_controls all all profiles no_links)
      (λ d k.
        link_controls_exact all profiles 0 all no_links d
          (all_controls-From locale_compare 0 contains) k refl)
      rank
      (λ k q i.
        let (a, at, e, j) = (link_profiles_iff contains k q).0.0 i in
        omega (arith, grows q a j e, ap rank at))
      (link_profiles-Mirrored contains contains no_links (Mirrored-none profile_place)) n c below m
