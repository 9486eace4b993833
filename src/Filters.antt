-- ===== src/Filters.antt =====
-- heimdall2-master/apps/frontend/src/store/data_filters.ts: the getter `controls`, which filters the
-- controls of the loaded files. A profile of a file holds its controls; of a control the filters
-- read the fields below, those of its root among them. The cache in front of the getter, of the
-- library lru-cache, is not modelled: the definitions compute the value that a miss computes.
-- A text is its list of UTF-16 code units, and `toLowerCase` is a parameter.
pub mod Search
pub mod Laws
use security_scan.Prelude.{
  ℕ, zero, suc, String, Bool, true, false, ◌&&◌, ◌||◌, not, Option, none, some, List, [], ◌∷◌, ◌++◌,
  ◌==◌, ltb, str_eq, if◌then◌else◌, filter, any, includes, length, is_empty, Text, text_eq, map,
}
use security_scan.Nist.{NistControl, contains}
use security_scan.Nist.Status.{ControlStatus, status_tag}
use security_scan.Hdf.{Nullable, given, null, undefined, Severity, SegmentStatus}
use security_scan.Hdf.Status.{severity_rank}

-- The texts that a search looks at, in their order; `severity`, `status` and `finding_details` are
-- never missing.
pub record Searchables : Type 0 where
  pub id : Text
  pub title : Nullable Text
  pub code : Nullable Text
  pub severity : Text
  pub status : Text
  pub finding_details : Text

-- What is read of `control.root.hdf`.
pub record RootControl : Type 0 where
  pub status : ControlStatus
  pub severity : Severity
  pub waived : Bool
  pub segments : Option (List SegmentStatus)
  pub parsed_nist_tags : List NistControl
  pub searchables : Searchables

pub record Control : Type 0 where
  pub id : String
  pub waived : Bool
  pub extended_by : ℕ
  pub root : RootControl

-- A loaded evaluation with the controls of each of its profiles, or a loaded profile.
pub record LoadedEvaluation : Type 0 where
  pub unique_id : String
  pub profiles : List (List Control)

pub record LoadedProfile : Type 0 where
  pub unique_id : String
  pub controls : List Control

pub data StatusFilter : Type 0 where
  of_status : ControlStatus → StatusFilter
  waived_only : StatusFilter

pub record Filter : Type 0 where
  pub from_file : List String
  pub status : Option StatusFilter
  pub severity : Option Severity
  pub omit_overlayed_controls : Bool
  pub search_term : Option Text
  pub tree_filters : List Text
  pub control_id : Option String

-- `flatMap`
unfoldable pub flat_map {ℓ κ} : {A : Type ℓ} {B : Type κ} → (A → List B) → List A → List B
flat_map f [] = []
flat_map f (x ∷ xs) = f x ++ flat_map f xs

abbrev pub flatten_profiles : List (List Control) → List Control
flatten_profiles = flat_map (λ p. p)

-- profiles_for_evaluations and profiles, and the controls that they contain
unfoldable pub loaded_controls :
    List LoadedEvaluation → List LoadedProfile → List String → List Control
loaded_controls evaluations profiles files =
    flat_map (λ p. p)
      (flat_map (λ e. e.profiles) (filter (λ e. includes files e.unique_id) evaluations)
        ++ map (λ p. p.controls) (filter (λ p. includes files p.unique_id) profiles))

abbrev pub passes_id : Option String → Control → Bool
passes_id none c = true
passes_id (some id) c = str_eq c.id id

abbrev pub passes_status : Option StatusFilter → Control → Bool
passes_status none c = true
passes_status (some waived_only) c = c.waived
passes_status (some (of_status s)) c = status_tag c.root.status == status_tag s

abbrev pub passes_severity : Option Severity → Control → Bool
passes_severity none c = true
passes_severity (some s) c = severity_rank c.root.severity == severity_rank s

abbrev pub passes_overlay : Bool → Control → Bool
passes_overlay omit c = if omit then c.extended_by == 0 else true

abbrev pub passes_tree : List Text → Control → Bool
passes_tree [] c = true
passes_tree (t ∷ ts) c =
    any (λ tag. contains (record { sub_specifiers = t ∷ ts; raw_text = none }) tag)
      c.root.parsed_nist_tags

-- `filter(p)` where a test is made only if the filter asks for one
unfoldable pub keep_id : Filter → List Control → List Control
keep_id f cs = elim f.control_id [ none ↦ cs | some id ↦ filter (λ c. str_eq c.id id) cs ]

unfoldable pub keep_status : Filter → List Control → List Control
keep_status f cs = elim f.status [
  | none ↦ cs
  | some s ↦ elim s [
    | waived_only ↦ filter (λ c. c.waived) cs
    | of_status t ↦ filter (λ c. status_tag c.root.status == status_tag t) cs
  ]
]

unfoldable pub keep_severity : Filter → List Control → List Control
keep_severity f cs = elim f.severity [
  | none ↦ cs
  | some s ↦ filter (λ c. severity_rank c.root.severity == severity_rank s) cs
]

unfoldable pub keep_overlay : Filter → List Control → List Control
keep_overlay f cs = if f.omit_overlayed_controls then filter (λ c. c.extended_by == 0) cs else cs

unfoldable pub keep_tree : Filter → List Control → List Control
keep_tree f cs = elim f.tree_filters [ [] ↦ cs | t ∷ ts ↦ filter (passes_tree (t ∷ ts)) cs ]

-- `s.includes(term)`
unfoldable pub starts_with : Text → Text → Bool
starts_with [] s = true
starts_with (t ∷ ts) [] = false
starts_with (t ∷ ts) (c ∷ s) = t == c && starts_with ts s

unfoldable pub includes_text : Text → Text → Bool
unfolding starts_with
includes_text term [] = starts_with term []
includes_text term (c ∷ s) = starts_with term (c ∷ s) || includes_text term s

module _ (to_lower_case : Text → Text) where
  -- The loop of `some` in contains_term over what is not null. On `undefined` the call of
  -- `toLowerCase` throws, which is `none`.
  unfoldable pub some_contains : Text → List (Nullable Text) → Option Bool
  some_contains term [] = some false
  some_contains term (null ∷ l) = some_contains term l
  some_contains term (undefined ∷ l) = none
  some_contains term (given s ∷ l) =
      let rest = some_contains term l in
      if includes_text term (to_lower_case s) then some true else rest

  unfoldable pub contains_term : Control → Text → Option Bool
  unfolding some_contains
  contains_term c term =
      let s = c.root.searchables in
      some_contains term (
        given s.id
        ∷ s.title
        ∷ s.code
        ∷ given s.severity
        ∷ given s.status
        ∷ given s.finding_details
        ∷ [])

  abbrev pub keep_if : Control → Option Bool → Option (List Control) → Option (List Control)
  keep_if c none rest = none
  keep_if c (some b) none = none
  keep_if c (some b) (some cs) = some (if b then c ∷ cs else cs)

  -- `filter` with a test that may throw
  unfoldable pub search_all : Text → List Control → Option (List Control)
  search_all term [] = some []
  search_all term (c ∷ cs) = keep_if c (contains_term c term) (search_all term cs)

  unfoldable pub keep_search : Filter → List Control → Option (List Control)
  keep_search f cs = elim f.search_term [
    | none ↦ some cs
    | some term ↦ search_all (to_lower_case term) cs
  ]

  abbrev pub then_tree : Filter → Option (List Control) → Option (List Control)
  then_tree f none = none
  then_tree f (some cs) = some (keep_tree f cs)

  -- the getter `controls`, at one filter
  unfoldable pub controls :
      List LoadedEvaluation → List LoadedProfile → Filter → Option (List Control)
  controls evaluations profiles f = then_tree f (
      keep_search f (
        keep_overlay f (
          keep_severity f
            (keep_status f (keep_id f (loaded_controls evaluations profiles f.from_file))))))
