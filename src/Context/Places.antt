-- ===== src/Context/Places.antt =====
-- What the last loop of contextualizeEvaluation leaves in the arrays of the controls.
use security_scan.Prelude.Int.{ℤ}
use security_scan.Prelude.{
  ℕ, suc, ◌+◌, ◌<◌, ◌≤◌, ◌≡◌, refl, sym, subst, ap, ◌∙◌, false, Option, none, some, List, [], ◌∷◌,
  ◌++◌, length, arith, In, here, there, ◌==◌, ==_iff, Text,
}
use security_scan.Hdf.{AnyControl}
use security_scan.Context.{
  Extends, ReportProfile, ContextualizedProfile, ContextualizedControl, no_links, link,
  control_place, new_control, contain, all_controls, link_found, base_of, link_controls,
  number_profiles, link_profiles, contextualize_evaluation,
}
use security_scan.Context.Links.{Mirrored, Mirrored-link, Mirrored-none}
use security_scan.Context.Bases.{Base, base_of-Base}

-- The places of the controls count up from the number.
abbrev pub From : ℕ → List ContextualizedControl → Type 0
From n [] = Unit
From n (c ∷ cs) = (c.place ≡ n) × From (suc n) cs

From-append :
    (n : ℕ) (xs ys : List ContextualizedControl)
    → From n xs
    → From (n + length xs) ys
    → From n (xs ++ ys)
From-append n [] ys v w = subst (λ m. From m ys) (omega arith) w
From-append n (x ∷ xs) ys (at, v) w =
    (at, From-append (suc n) xs ys v (subst (λ m. From m ys) (omega arith) w))

module _ (locale_compare : Text → Text → ℤ) where
  contain-From :
      (p : ContextualizedProfile) (n : ℕ) (cs : List AnyControl)
      → From n (contain locale_compare p n cs)
  unfolding contain new_control
  contain-From p n [] = tt
  contain-From p n (c ∷ cs) = (refl, contain-From p (suc n) cs)

  length-contain :
      (p : ContextualizedProfile) (n : ℕ) (cs : List AnyControl)
      → length (contain locale_compare p n cs) ≡ length cs
  unfolding contain
  length-contain p n [] = refl
  length-contain p n (c ∷ cs) = ap suc (length-contain p (suc n) cs)

  pub all_controls-From :
      (n : ℕ) (ps : List ContextualizedProfile) → From n (all_controls locale_compare n ps)
  unfolding all_controls
  all_controls-From n [] = tt
  all_controls-From n (p ∷ ps) =
      From-append n (contain locale_compare p n p.data_of.controls)
        (all_controls locale_compare (n + length p.data_of.controls) ps)
        (contain-From p n p.data_of.controls)
        (subst (λ m. From (n + m) (all_controls locale_compare (n + length p.data_of.controls) ps))
          (sym (length-contain p n p.data_of.controls))
          (all_controls-From (n + length p.data_of.controls) ps))

From-In :
    (n : ℕ) (l : List ContextualizedControl) (c : ContextualizedControl)
    → From n l
    → In c l
    → n ≤ c.place
From-In n [] c v m = elim m [ ]
From-In n (d ∷ l) _ (at, v) here = omega (arith, at)
From-In n (d ∷ l) c (at, v) (there m) = omega (arith, From-In (suc n) l c v m)

abbrev pub option_list : {A : Type 0} → Option A → List A
option_list none = []
option_list (some x) = x ∷ []

module _ (all : List ContextualizedControl) (profiles : Extends ContextualizedProfile) where
  -- A link at another place.
  link_found_other :
      (o : Option ContextualizedControl) (c : ContextualizedControl)
      (g : Extends ContextualizedControl) (k : ℕ)
      → (k == c.place) ≡ false
      → (link_found c o g).extends_from k ≡ g.extends_from k
  unfolding link
  link_found_other none c g k e = refl
  link_found_other (some b) c g k e = rw e refl

  link_found_here :
      (o : Option ContextualizedControl) (c : ContextualizedControl)
      (g : Extends ContextualizedControl)
      → g.extends_from c.place ≡ []
      → (link_found c o g).extends_from c.place ≡ option_list o
  unfolding link
  link_found_here none c g e = e
  link_found_here (some b) c g e = rw ((==_iff c.place c.place).1 refl) (rw e refl)

  link_controls_before :
      (n : ℕ) (rest : List ContextualizedControl) (g : Extends ContextualizedControl) (k : ℕ)
      → From n rest
      → k < n
      → (link_controls all rest profiles g).extends_from k ≡ g.extends_from k
  unfolding link_controls
  link_controls_before n [] g k v h = refl
  link_controls_before n (c ∷ rest) g k (at, v) h =
      link_controls_before (suc n) rest (link_found c (base_of all profiles c) g) k v
        (omega (arith, h))
      ∙ link_found_other (base_of all profiles c) c g k (ground (arith, at, h))

  pub link_controls_exact :
      (n : ℕ) (rest : List ContextualizedControl) (g : Extends ContextualizedControl)
      (c : ContextualizedControl)
      → From n rest
      → In c rest
      → g.extends_from c.place ≡ []
      → (link_controls all rest profiles g).extends_from c.place
        ≡ option_list (base_of all profiles c)
  unfolding link_controls
  link_controls_exact n [] g c v m e = elim m [ ]
  link_controls_exact n (d ∷ rest) g _ (at, v) here e =
      link_controls_before (suc n) rest (link_found d (base_of all profiles d) g) d.place v
        (omega (arith, at))
      ∙ link_found_here (base_of all profiles d) d g e
  link_controls_exact n (d ∷ rest) g c (at, v) (there m) e =
      link_controls_exact (suc n) rest (link_found d (base_of all profiles d) g) c v m (
        link_found_other (base_of all profiles d) d g c.place
          (ground (arith, at, From-In (suc n) rest c v m))
        ∙ e)

  Mirrored-link_found :
      (o : Option ContextualizedControl) (c : ContextualizedControl)
      (g : Extends ContextualizedControl)
      → Mirrored control_place g
      → Mirrored control_place (link_found c o g)
  Mirrored-link_found none c g v = v
  Mirrored-link_found (some b) c g v = Mirrored-link control_place c b g v

  link_controls-Mirrored :
      (rest : List ContextualizedControl) (g : Extends ContextualizedControl)
      → Mirrored control_place g
      → Mirrored control_place (link_controls all rest profiles g)
  unfolding link_controls
  link_controls-Mirrored [] g v = v
  link_controls-Mirrored (c ∷ rest) g v =
      link_controls-Mirrored rest (link_found c (base_of all profiles c) g)
        (Mirrored-link_found (base_of all profiles c) c g v)

-- A control of a contextualised report extends exactly what the description of Base gives: where its
-- profile extends another or is extended, the first control with the same id in the first of the
-- profiles that its own extends which has one, if one has; else the first control with that id
-- that has results, or without such a one the first with that id, unless it is the control itself. What
-- extends and what is extended stand in each other's arrays.
pub contextualize_evaluation-links :
    (locale_compare : Text → Text → ℤ) (report : List ReportProfile) (c : ContextualizedControl)
    → In c (contextualize_evaluation locale_compare report).controls
    → ((base : Option ContextualizedControl) × Base
          (contextualize_evaluation locale_compare report).controls
          (contextualize_evaluation locale_compare report).profile_links
          c
          base
        × ((contextualize_evaluation locale_compare report).control_links.extends_from c.place
            ≡ option_list base))
      × Mirrored control_place (contextualize_evaluation locale_compare report).control_links
unfolding contextualize_evaluation
contextualize_evaluation-links locale_compare report c m =
    let contains = number_profiles 0 report in
    let profiles = link_profiles contains contains no_links in
    let all = all_controls locale_compare 0 contains in
    (
      (
        base_of all profiles c,
        base_of-Base all profiles c,
        link_controls_exact all profiles 0 all no_links c
            (all_controls-From locale_compare 0 contains) m refl,
      ),
      link_controls-Mirrored all profiles all no_links (Mirrored-none control_place),
    )
