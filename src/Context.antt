-- ===== src/Context.antt =====
-- heimdall2-master/libs/inspecjs/src/context.ts: which profiles and which controls of a report extend
-- which. An object is its place with its data: a profile's place is in the list of the profiles, a
-- control's in the list of all controls; the arrays that the loops push onto are kept by place.
pub mod Links
pub mod Profiles
pub mod Controls
pub mod Bases
pub mod Places
pub mod Code
pub mod Root
use security_scan.Prelude.Int.{ℤ}
use security_scan.Prelude.{
  ℕ, zero, suc, ◌+◌, String, Bool, true, false, ◌&&◌, ◌||◌, not, Option, none, some, List, [], ◌∷◌,
  ◌++◌, map, length, str_eq, find, filter, is_empty, if◌then◌else◌, ◌==◌, Text, codes, trim,
  text_eq, In,
}
use security_scan.Report.{Nullable, given, null, undefined, Segment, printed}
use security_scan.Hdf.{HdfControl, AnyControl, exec, profile, hdf_wrap_control}

-- What is read of a profile of a report.
pub record ReportProfile : Type 0 where
  pub name : String
  pub parent_profile : Nullable String
  pub controls : List AnyControl

pub record ContextualizedProfile : Type 0 where
  pub place : ℕ
  pub data_of : ReportProfile

abbrev pub control_id : AnyControl → String
control_id (exec c) = c.id
control_id (profile c) = c.id

abbrev pub control_code : AnyControl → Nullable String
control_code (exec c) = c.code
control_code (profile c) = c.code

pub record ContextualizedControl : Type 0 where
  pub place : ℕ
  pub data_of : AnyControl
  pub hdf : HdfControl
  pub sourced_from : ContextualizedProfile

-- The arrays extendsFrom and extendedBy of all objects.
pub record Extends (A : Type 0) : Type 0 where
  pub extends_from : ℕ → List A
  pub extended_by : ℕ → List A

abbrev pub no_links : {A : Type 0} → Extends A
no_links = record { extends_from = λ k. []; extended_by = λ k. [] }

abbrev pub push : {A : Type 0} → ℕ → A → (ℕ → List A) → ℕ → List A
push at x f k = if k == at then f k ++ (x ∷ []) else f k

-- `over.extendsFrom.push(base)` and `base.extendedBy.push(over)`
unfoldable pub link : {A : Type 0} → (A → ℕ) → A → A → Extends A → Extends A
link place over base g = record {
  extends_from = push (place over) base g.extends_from;
  extended_by = push (place base) over g.extended_by;
}

unfoldable pub number_profiles : ℕ → List ReportProfile → List ContextualizedProfile
number_profiles n [] = []
number_profiles n (p ∷ ps) = record { place = n; data_of = p } ∷ number_profiles (suc n) ps

-- The profile that the field parent_profile names.
unfoldable pub parent_of :
    List ContextualizedProfile → ContextualizedProfile → Option ContextualizedProfile
parent_of all p = elim p.data_of.parent_profile [
  | given name ↦ find (λ q. str_eq q.data_of.name name) all
  | null ↦ none
  | undefined ↦ none
]

abbrev pub profile_place : ContextualizedProfile → ℕ
profile_place p = p.place

abbrev pub link_parent :
    Option ContextualizedProfile
    → ContextualizedProfile
    → Extends ContextualizedProfile
    → Extends ContextualizedProfile
link_parent none p g = g
link_parent (some parent) p g = link profile_place parent p g

-- The loop that establishes parentage; `rest` are the profiles still to come.
unfoldable pub link_profiles :
    (all rest : List ContextualizedProfile)
    → Extends ContextualizedProfile
    → Extends ContextualizedProfile
unfolding parent_of
link_profiles all [] g = g
link_profiles all (p ∷ rest) g = link_profiles all rest (link_parent (parent_of all p) p g)

module _ (locale_compare : Text → Text → ℤ) where
  -- the constructor of ContextualizedControlImp
  unfoldable pub new_control : ContextualizedProfile → ℕ → AnyControl → ContextualizedControl
  unfolding hdf_wrap_control
  new_control sourced_from place c = record {
    place = place;
    data_of = c;
    hdf = hdf_wrap_control locale_compare c;
    sourced_from = sourced_from;
  }

  -- The loop that extracts the controls: `contain` of one profile, `all_controls` of all.
  unfoldable pub contain : ContextualizedProfile → ℕ → List AnyControl → List ContextualizedControl
  unfolding new_control
  contain sourced_from place [] = []
  contain sourced_from place (c ∷ cs) =
      new_control sourced_from place c ∷ contain sourced_from (suc place) cs

  unfoldable pub all_controls : ℕ → List ContextualizedProfile → List ContextualizedControl
  unfolding contain
  all_controls place [] = []
  all_controls place (p ∷ ps) =
      contain p place p.data_of.controls ++ all_controls (place + length p.data_of.controls) ps

abbrev pub control_place : ContextualizedControl → ℕ
control_place c = c.place

abbrev pub same_id : ContextualizedControl → ContextualizedControl → Bool
same_id c d = str_eq (control_id d.data_of) (control_id c.data_of)

-- `p.contains`
abbrev pub contains_of :
    List ContextualizedControl → ContextualizedProfile → List ContextualizedControl
contains_of all p = filter (λ c. c.sourced_from.place == p.place) all

abbrev pub link_found :
    ContextualizedControl
    → Option ContextualizedControl
    → Extends ContextualizedControl
    → Extends ContextualizedControl
link_found c none g = g
link_found c (some base) g = link control_place c base g

-- The first control of that id in the profiles, searched in their order.
unfoldable pub find_ancestor :
    List ContextualizedControl
    → ContextualizedControl
    → List ContextualizedProfile
    → Option ContextualizedControl
find_ancestor all c [] = none
find_ancestor all c (p ∷ ps) = elim (find (same_id c) (contains_of all p)) [
  | some ancestor ↦ some ancestor
  | none ↦ find_ancestor all c ps
]

abbrev pub populated : ContextualizedControl → Bool
populated c = elim c.hdf.segments [ none ↦ false | some l ↦ not (is_empty l) ]

abbrev pub first_of : {A : Type 0} → List A → Option A
first_of [] = none
first_of (x ∷ xs) = some x

-- The control of that id with results, or else the first of that id.
unfoldable pub find_populated :
    List ContextualizedControl → ContextualizedControl → Option ContextualizedControl
find_populated all c =
    let same = filter (same_id c) all in
    elim (find populated same) [ some base ↦ some base | none ↦ first_of same ]

-- `Object.is(cc, base)` tells the places apart.
abbrev pub other_than_itself :
    ContextualizedControl → Option ContextualizedControl → Option ContextualizedControl
other_than_itself c none = none
other_than_itself c (some base) = if c.place == base.place then none else some base

-- What a control is bound to, if to anything.
unfoldable pub base_of :
    List ContextualizedControl
    → Extends ContextualizedProfile
    → ContextualizedControl
    → Option ContextualizedControl
unfolding find_ancestor find_populated
base_of all profiles c =
    if not (is_empty (profiles.extends_from c.sourced_from.place))
      || not (is_empty (profiles.extended_by c.sourced_from.place))
    then find_ancestor all c (profiles.extends_from c.sourced_from.place)
    else other_than_itself c (find_populated all c)

-- The loop that links the controls; `rest` are those still to come.
unfoldable pub link_controls :
    (all rest : List ContextualizedControl)
    → Extends ContextualizedProfile
    → Extends ContextualizedControl
    → Extends ContextualizedControl
unfolding base_of
link_controls all [] profiles g = g
link_controls all (c ∷ rest) profiles g =
    link_controls all rest profiles (link_found c (base_of all profiles c) g)

pub record ContextualizedEvaluation : Type 0 where
  pub contains : List ContextualizedProfile
  pub profile_links : Extends ContextualizedProfile
  pub controls : List ContextualizedControl
  pub control_links : Extends ContextualizedControl

unfoldable pub contextualize_evaluation :
    (Text → Text → ℤ) → List ReportProfile → ContextualizedEvaluation
unfolding number_profiles link_profiles all_controls link_controls
contextualize_evaluation locale_compare profiles =
    let contains = number_profiles 0 profiles in
    let profile_links = link_profiles contains contains no_links in
    let controls = all_controls locale_compare 0 contains in
    record {
      contains = contains;
      profile_links = profile_links;
      controls = controls;
      control_links = link_controls controls controls profile_links no_links;
    }

-- A profile in its own file is not linked to anything.
unfoldable pub contextualize_profile : (Text → Text → ℤ) → ReportProfile → ContextualizedEvaluation
unfolding contain
contextualize_profile locale_compare p =
    let context : ContextualizedProfile = record { place = 0; data_of = p } in
    record {
      contains = context ∷ [];
      profile_links = no_links;
      controls = contain locale_compare context 0 p.controls;
      control_links = no_links;
    }
