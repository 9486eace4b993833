-- ===== src/Tests/ContextRuns.antt =====
-- Runs of context.ts on a report of a baseline and its overlay, and on profiles that stand alone.
use security_scan.Prelude.{
  ℕ, zero, suc, ◌<◌, ◌≡◌, refl, ◌↔◌, Option, none, some, List, [], ◌∷◌, arith, In, here, there,
  false, ◌==◌, if◌then◌else◌,
}
use security_scan.Report.{ExecJsonControl, given, null, undefined}
use security_scan.Hdf.{exec}
use security_scan.Context.{
  ReportProfile, ContextualizedProfile, ContextualizedControl, ContextualizedEvaluation,
  number_profiles, parent_of, link_profiles, new_control, contain, all_controls, find_ancestor,
  base_of, link_controls, contextualize_evaluation, no_links, link, control_place, profile_place,
}
use security_scan.Context.Code.{root}
use security_scan.Context.Links.{Mirrored}
use security_scan.Context.Profiles.{IsParent, link_profiles_iff}
use security_scan.Context.Bases.{Base}
use security_scan.Context.Places.{option_list, contextualize_evaluation-links}
use security_scan.Context.Root.{Rooted, contextualize_evaluation-Rooted}
use security_scan.Tests.Instances.{same_collation}

abbrev pub control : ExecJsonControl
control = record {
  id = "V-1";
  title = undefined;
  code = given "describe x";
  desc = null;
  impact = 500000000000000;
  nist = none;
  results = [];
  descriptions = none;
  skipped_due_to_waiver = false;
}

abbrev baseline : ReportProfile
baseline = record { name = "base"; parent_profile = given "overlay"; controls = exec control ∷ [] }

abbrev overlay : ReportProfile
overlay = record {
  name = "overlay";
  parent_profile = undefined;
  controls = exec (record control { code = null }) ∷ [];
}

abbrev report : List ReportProfile
report = baseline ∷ overlay ∷ []

abbrev pub context : ContextualizedEvaluation
context = contextualize_evaluation same_collation report

-- The two contextualised profiles.
abbrev base_profile : ContextualizedProfile
base_profile = record { place = 0; data_of = baseline }

abbrev over_profile : ContextualizedProfile
over_profile = record { place = 1; data_of = overlay }

abbrev pub over_control : ContextualizedControl
over_control = new_control same_collation over_profile 1 (exec (record control { code = null }))

over_control-In : In over_control context.controls
unfolding contextualize_evaluation number_profiles all_controls contain
over_control-In = there here

link_profiles_iff_example :
    (In base_profile (
        (link_profiles
            (base_profile ∷ over_profile ∷ [])
            (base_profile ∷ over_profile ∷ [])
            no_links).extends_from
          1)
      ↔ IsParent (base_profile ∷ over_profile ∷ []) 1 base_profile)
    × Mirrored profile_place (
        link_profiles
          (base_profile ∷ over_profile ∷ [])
          (base_profile ∷ over_profile ∷ [])
          no_links)
link_profiles_iff_example = link_profiles_iff (base_profile ∷ over_profile ∷ []) 1 base_profile

contextualize_evaluation-links_example :
    ((base : Option ContextualizedControl) × Base context.controls context.profile_links
        over_control base
      × (context.control_links.extends_from over_control.place ≡ option_list base))
    × Mirrored control_place context.control_links
contextualize_evaluation-links_example =
    contextualize_evaluation-links same_collation report over_control over_control-In

abbrev rank : ℕ → ℕ
rank k = if k == 1 then 1 else 0

rank_grows :
    (p q : ContextualizedProfile)
    → In p context.contains
    → parent_of context.contains p ≡ some q
    → rank p.place < rank q.place
unfolding contextualize_evaluation number_profiles parent_of
rank_grows _ q here e = ground (arith, e)
rank_grows _ q (there here) e = absurd (ground (arith, e))
rank_grows p q (there (there m)) e = elim m [ ]

rank_below : (k : ℕ) → rank k < 2
rank_below k = ground arith

contextualize_evaluation-Rooted_example : Rooted context.control_links 3 over_control
contextualize_evaluation-Rooted_example =
    contextualize_evaluation-Rooted same_collation report rank 2 over_control rank_grows rank_below
      over_control-In

-- A profile that names itself as its parent: its control extends itself, and no fuel finds a root.
abbrev own_parent : List ReportProfile
own_parent = record baseline { parent_profile = given "base" } ∷ []

abbrev pub own_context : ContextualizedEvaluation
own_context = contextualize_evaluation same_collation own_parent

abbrev own_control : ContextualizedControl
own_control =
    new_control same_collation
      (record { place = 0; data_of = record baseline { parent_profile = given "base" } }) 0
      (exec control)

own_base : own_context.control_links.extends_from 0 ≡ own_control ∷ []
unfolding contextualize_evaluation number_profiles link_profiles parent_of all_controls contain
    link_controls base_of find_ancestor link
own_base = refl

no_root : (fuel : ℕ) → root own_context.control_links fuel own_control ≡ none
unfolding root contextualize_evaluation
no_root zero = refl
no_root (suc fuel) = rw (root, own_base) (no_root fuel)
