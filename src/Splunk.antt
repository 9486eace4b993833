-- ===== src/Splunk.antt =====
-- heimdall2-master/apps/frontend/src/utilities/splunk_util.ts: the events of a search and how they are put
-- together again, with group_by and map_hash of helper_util.ts. A payload of one of the three subtypes
-- has the shape of that subtype, as the source casts it.
-- An object that is used as a map is its list of entries; a key that every object has as a property
-- (constructor), and one that is written as an integer, which the language puts first, are not told apart
-- from others.
pub mod Grouping
pub mod Consolidation
pub mod Client
pub mod Jobs
pub mod Executions
use security_scan.Prelude.{
  ℕ, String, Option, none, some, List, [], ◌∷◌, ◌++◌, map, put_key, get_key,
}

pub record ExecutionMetaInfo : Type 0 where
  pub filename : String
  pub filetype : String
  pub guid : String
  pub parse_time : String
  pub hdf_splunk_schema : String

pub record ProfileMetaInfo : Type 0 where
  pub file : ExecutionMetaInfo
  pub profile_sha256 : String

pub record ControlMetaInfo : Type 0 where
  pub file : ExecutionMetaInfo
  pub profile_sha256 : String
  pub start_time : String
  pub control_id : String

-- What else stands in an event is not read: `rest` says which it is.
pub record ControlPayload : Type 0 where
  pub meta : ControlMetaInfo
  pub rest : ℕ

pub record ProfilePayload : Type 0 where
  pub meta : ProfileMetaInfo
  pub controls : List ControlPayload
  pub rest : ℕ

pub record ExecutionPayload : Type 0 where
  pub meta : ExecutionMetaInfo
  pub profiles : List ProfilePayload
  pub rest : ℕ

pub data UnknownPayload : Type 0 where
  header_event : ExecutionPayload → UnknownPayload
  profile_event : ProfilePayload → UnknownPayload
  control_event : ControlPayload → UnknownPayload

abbrev pub guid_of : UnknownPayload → String
guid_of (header_event e) = e.meta.guid
guid_of (profile_event p) = p.meta.file.guid
guid_of (control_event c) = c.meta.file.guid

abbrev pub subtype_of : UnknownPayload → String
subtype_of (header_event e) = "header"
subtype_of (profile_event p) = "profile"
subtype_of (control_event c) = "control"

abbrev pub Hash : Type 0 → Type 0
Hash T = List (String × T)

-- `hash[key] || []`
abbrev pub or_empty_list : {T : Type 0} → Option (List T) → List T
or_empty_list none = []
or_empty_list (some xs) = xs

-- The body of the loop of group_by: a list that is there takes the item at its end.
unfoldable pub group_item : {T : Type 0} → String → T → Hash (List T) → Hash (List T)
unfolding put_key get_key
group_item key item result = put_key key (or_empty_list (get_key key result) ++ (item ∷ [])) result

abbrev pub group_from : {T : Type 0} → (T → String) → Hash (List T) → List T → Hash (List T)
group_from key_getter result [] = result
group_from key_getter result (i ∷ items) =
    group_from key_getter (group_item (key_getter i) i result) items

abbrev pub group_by : {T : Type 0} → List T → (T → String) → Hash (List T)
group_by items key_getter = group_from key_getter [] items

-- map_hash with a function that may throw, which is nothing
unfoldable pub map_hash : {T G : Type 0} → Hash T → (T → Option G) → Option (Hash G)
map_hash [] map_function = some []
map_hash ((key, v) ∷ old) map_function = elim (map_function v) [
  | none ↦ none
  | some g ↦ elim (map_hash old map_function) [
    | none ↦ none
    | some result ↦ some ((key, g) ∷ result)
  ]
]

-- Object.values
abbrev pub values : {T : Type 0} → Hash T → List T
values {T} hash = map (λ (e : String × T). e.1) hash

abbrev pub values_of : {T : Type 0} → Option (Hash T) → Option (List T)
values_of none = none
values_of (some built) = some (values built)

abbrev pub as_headers : List UnknownPayload → List ExecutionPayload
as_headers [] = []
as_headers (header_event e ∷ ps) = e ∷ as_headers ps
as_headers (profile_event p ∷ ps) = as_headers ps
as_headers (control_event c ∷ ps) = as_headers ps

abbrev pub as_profiles : List UnknownPayload → List ProfilePayload
as_profiles [] = []
as_profiles (header_event e ∷ ps) = as_profiles ps
as_profiles (profile_event p ∷ ps) = p ∷ as_profiles ps
as_profiles (control_event c ∷ ps) = as_profiles ps

abbrev pub as_controls : List UnknownPayload → List ControlPayload
as_controls [] = []
as_controls (header_event e ∷ ps) = as_controls ps
as_controls (profile_event p ∷ ps) = as_controls ps
as_controls (control_event c ∷ ps) = c ∷ as_controls ps

-- `profile.controls.push(...corrControls)`
abbrev pub with_controls : Hash (List ControlPayload) → ProfilePayload → ProfilePayload
with_controls groups profile = record profile {
  controls = profile.controls ++ or_empty_list (get_key profile.meta.profile_sha256 groups);
}

-- The one header with the profiles, which are the objects that the loop fills. Nothing if it throws.
abbrev pub with_profiles :
    List ExecutionPayload
    → List ProfilePayload
    → Hash (List ControlPayload)
    → Option ExecutionPayload
with_profiles [] profiles groups = none
with_profiles (exec ∷ []) profiles groups =
    some (record exec { profiles = exec.profiles ++ map (with_controls groups) profiles })
with_profiles (exec ∷ other ∷ more) profiles groups = none

unfoldable pub consolidate_file_payloads : List UnknownPayload → Option ExecutionPayload
unfolding group_item get_key
consolidate_file_payloads file_payloads =
    let subtypes = group_by file_payloads subtype_of in
    with_profiles (as_headers (or_empty_list (get_key "header" subtypes)))
      (as_profiles (or_empty_list (get_key "profile" subtypes)))
      (group_by (as_controls (or_empty_list (get_key "control" subtypes)))
        (λ ctrl. ctrl.meta.profile_sha256))

unfoldable pub consolidate_payloads : List UnknownPayload → Option (List ExecutionPayload)
unfolding map_hash group_item consolidate_file_payloads
consolidate_payloads payloads =
    values_of (map_hash (group_by payloads guid_of) consolidate_file_payloads)
