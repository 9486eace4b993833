-- ===== src/Splunk/Consolidation.antt =====
-- consolidate_payloads of heimdall2-master/apps/frontend/src/utilities/splunk_util.ts against a description
-- by filters.
use mathlib.Core.List.{append_assoc, append-nil}
use security_scan.Prelude.{
  ◌≡◌, refl, sym, ◌∙◌, ap, fun_ext, String, Option, none, some, List, [], ◌∷◌, ◌++◌, map, get_key,
  get_key-put_key, str_eq, eq_iff, Bool-cases, inl, inr, if◌then◌else◌, filter, arith,
}
use security_scan.Splunk.{
  ControlPayload, ProfilePayload, ExecutionPayload, UnknownPayload, header_event, profile_event,
  control_event, guid_of, subtype_of, Hash, or_empty_list, group_item, group_from, group_by,
  map_hash, values_of, as_headers, as_profiles, as_controls, with_controls, with_profiles,
  consolidate_file_payloads, consolidate_payloads,
}
use security_scan.Splunk.Grouping.{keys_from, with_key, table, group_by-table}

-- A profile with the controls of its hash behind those it has.
abbrev pub filled : List ControlPayload → ProfilePayload → ProfilePayload
filled cs p = record p {
  controls = p.controls ++ filter (λ c. str_eq c.meta.profile_sha256 p.meta.profile_sha256) cs;
}

abbrev pub with_parts :
    List ExecutionPayload → List ProfilePayload → List ControlPayload → Option ExecutionPayload
with_parts [] ps cs = none
with_parts (e ∷ []) ps cs = some (record e { profiles = e.profiles ++ map (filled cs) ps })
with_parts (e ∷ other ∷ more) ps cs = none

-- The only header, with the profiles among the events and in each the controls of its hash. Nothing
-- without a header, or with several.
abbrev pub assembled : List UnknownPayload → Option ExecutionPayload
assembled ps = with_parts (as_headers ps) (as_profiles ps) (as_controls ps)

abbrev pub assembled_all : List UnknownPayload → List String → Option (List ExecutionPayload)
assembled_all ps [] = some []
assembled_all ps (g ∷ gs) = elim (assembled (with_key guid_of g ps)) [
  | none ↦ none
  | some e ↦ elim (assembled_all ps gs) [ none ↦ none | some es ↦ some (e ∷ es) ]
]

module _ {T : Type 0} (f : T → String) (k : String) where
  after :
      (x : T) (m : Hash (List T))
      → get_key k (group_item (f x) x m) ≡ (
          if str_eq (f x) k
          then some (or_empty_list (get_key (f x) m) ++ (x ∷ []))
          else get_key k m)
  unfolding group_item
  after x m = get_key-put_key k (f x) (or_empty_list (get_key (f x) m) ++ (x ∷ [])) m

  group_from-get :
      (m : Hash (List T)) (xs : List T)
      → or_empty_list (get_key k (group_from f m xs))
        ≡ or_empty_list (get_key k m) ++ with_key f k xs
  unfolding group_item
  group_from-get m [] = sym (append-nil (or_empty_list (get_key k m)))
  group_from-get m (x ∷ xs) =
      group_from-get (group_item (f x) x m) xs ∙ elim (Bool-cases (str_eq (f x) k)) [
        | inl e ↦
            let same : f x ≡ k = (eq_iff (f x) k).0 e in
            ground (
              arith,
              e,
              same,
              after x m,
              append_assoc (or_empty_list (get_key k m)) (x ∷ []) (with_key f k xs),
            )
        | inr e ↦ ground (arith, e, after x m)
      ]

as_headers-filter :
    (ps : List UnknownPayload) → as_headers (with_key subtype_of "header" ps) ≡ as_headers ps
as_headers-filter [] = refl
as_headers-filter (header_event e ∷ ps) = ap (λ l. e ∷ l) (as_headers-filter ps)
as_headers-filter (profile_event p ∷ ps) = as_headers-filter ps
as_headers-filter (control_event c ∷ ps) = as_headers-filter ps

as_profiles-filter :
    (ps : List UnknownPayload) → as_profiles (with_key subtype_of "profile" ps) ≡ as_profiles ps
as_profiles-filter [] = refl
as_profiles-filter (header_event e ∷ ps) = as_profiles-filter ps
as_profiles-filter (profile_event p ∷ ps) = ap (λ l. p ∷ l) (as_profiles-filter ps)
as_profiles-filter (control_event c ∷ ps) = as_profiles-filter ps

as_controls-filter :
    (ps : List UnknownPayload) → as_controls (with_key subtype_of "control" ps) ≡ as_controls ps
as_controls-filter [] = refl
as_controls-filter (header_event e ∷ ps) = as_controls-filter ps
as_controls-filter (profile_event p ∷ ps) = as_controls-filter ps
as_controls-filter (control_event c ∷ ps) = ap (λ l. c ∷ l) (as_controls-filter ps)

with_controls-filled :
    (cs : List ControlPayload) (p : ProfilePayload)
    → with_controls (group_by cs (λ c. c.meta.profile_sha256)) p ≡ filled cs p
unfolding get_key
with_controls-filled cs p =
    ap (λ l. record p { controls = p.controls ++ l })
      (group_from-get (λ (c : ControlPayload). c.meta.profile_sha256) p.meta.profile_sha256 [] cs)

with_profiles-parts :
    (es : List ExecutionPayload) (ps : List ProfilePayload) (cs : List ControlPayload)
    → with_profiles es ps (group_by cs (λ c. c.meta.profile_sha256)) ≡ with_parts es ps cs
with_profiles-parts [] ps cs = refl
with_profiles-parts (e ∷ []) ps cs =
    ap (λ g. some (record e { profiles = e.profiles ++ map g ps }))
      (fun_ext (with_controls-filled cs))
with_profiles-parts (e ∷ other ∷ more) ps cs = refl

-- The events of a subtype.
of_subtype :
    (s : String) (ps : List UnknownPayload)
    → or_empty_list (get_key s (group_by ps subtype_of)) ≡ with_key subtype_of s ps
unfolding get_key
of_subtype s ps = group_from-get subtype_of s [] ps

pub consolidate_file_payloads-assembled :
    (ps : List UnknownPayload) → consolidate_file_payloads ps ≡ assembled ps
unfolding consolidate_file_payloads
consolidate_file_payloads-assembled ps =
    rw
      (
        of_subtype "header" ps,
        of_subtype "profile" ps,
        of_subtype "control" ps,
        as_headers-filter ps,
        as_profiles-filter ps,
        as_controls-filter ps,
      )
      (with_profiles-parts (as_headers ps) (as_profiles ps) (as_controls ps))

map_hash-assembled :
    (ps : List UnknownPayload) (gs : List String)
    → values_of (map_hash (table guid_of gs ps) consolidate_file_payloads) ≡ assembled_all ps gs
unfolding map_hash
map_hash-assembled ps [] = refl
map_hash-assembled ps (g ∷ gs) =
    ground
      (arith, consolidate_file_payloads-assembled (with_key guid_of g ps), map_hash-assembled ps gs)

-- The payloads of a search give one report for each GUID, in the order of the first payloads that have
-- it. Each is assembled from the payloads of its GUID: the only header, with the profiles and in each
-- profile the controls of its hash. If the payloads of a GUID have no header or several, it throws.
pub consolidate_payloads-assembled :
    (ps : List UnknownPayload)
    → consolidate_payloads ps ≡ assembled_all ps (keys_from guid_of [] ps)
unfolding consolidate_payloads
consolidate_payloads-assembled ps =
    rw (group_by-table guid_of ps, consolidate_payloads)
      (map_hash-assembled ps (keys_from guid_of [] ps))
