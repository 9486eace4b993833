-- ===== src/Delta/Pairings.antt =====
-- The pairing of the controls of several files: ComparisonContext of delta_util.ts.
use security_scan.Prelude.{
  ◌≡◌, refl, ap, ◌∙◌, String, Bool, true, false, ◌&&◌, Option, none, some, List, [], ◌∷◌, map,
  arith, put_key, get_key, get_key-put_key, str_eq, eq_iff, Bool-cases, ◌⊎◌, inl, inr,
  if◌then◌else◌, filter, is_empty,
}
use security_scan.Context.{ContextualizedControl, ContextualizedEvaluation, control_id}
use security_scan.Delta.{
  ControlSeriesLookup, or_empty, group_control, group_controls, ResultControls, match_controls,
  SourcedEvaluation, extract_top_level_controls, pairings,
}

-- `pairings[id][file]`
abbrev pub pairing : ControlSeriesLookup → String → String → Option ContextualizedControl
pairing acc id file = get_key file (or_empty (get_key id acc))

-- The last of the controls with the id.
abbrev pub last_with :
    String
    → List ContextualizedControl
    → Option ContextualizedControl
    → Option ContextualizedControl
last_with id [] found = found
last_with id (c ∷ cs) found =
    last_with id cs (if str_eq (control_id c.data_of) id then some c else found)

-- The last of the controls with the id among those of the file.
abbrev last_control :
    String
    → String
    → List ResultControls
    → Option ContextualizedControl
    → Option ContextualizedControl
last_control id file [] found = found
last_control id file (r ∷ rs) found =
    last_control id file rs
      (if str_eq r.unique_id file then last_with id r.controls found else found)

pairing-group_control :
    (acc : ControlSeriesLookup) (id file u : String) (c : ContextualizedControl)
    → pairing (group_control u c acc) id file
      ≡ (if str_eq (control_id c.data_of) id && str_eq u file then some c else pairing acc id file)
unfolding group_control
pairing-group_control acc id file u c =
    ap (λ o. get_key file (or_empty o))
      (get_key-put_key id (control_id c.data_of)
        (put_key u c (or_empty (get_key (control_id c.data_of) acc))) acc)
    ∙ split (Bool-cases (str_eq (control_id c.data_of) id))
  where
    split :
        (str_eq (control_id c.data_of) id ≡ true) ⊎ (str_eq (control_id c.data_of) id ≡ false)
        → get_key file (
            or_empty (
              if str_eq (control_id c.data_of) id
              then some (put_key u c (or_empty (get_key (control_id c.data_of) acc)))
              else get_key id acc))
          ≡ (if str_eq (control_id c.data_of) id && str_eq u file
              then some c
              else pairing acc id file)
    split (inl e) = rw e (
        get_key-put_key file u c (or_empty (get_key (control_id c.data_of) acc))
        ∙ ap (λ i. if str_eq u file then some c else pairing acc i file)
            ((eq_iff (control_id c.data_of) id).0 e))
    split (inr e) = rw e refl

pairing-group_controls :
    (acc : ControlSeriesLookup) (id file u : String) (cs : List ContextualizedControl)
    → pairing (group_controls u cs acc) id file
      ≡ (if str_eq u file then last_with id cs (pairing acc id file) else pairing acc id file)
unfolding group_controls
pairing-group_controls acc id file u [] = ground arith
pairing-group_controls acc id file u (c ∷ cs) =
    pairing-group_controls (group_control u c acc) id file u cs
    ∙ rw (pairing-group_control acc id file u c) (elim (Bool-cases (str_eq u file)) [
      | inl e ↦ rw e (ap (last_with id cs) (ground arith))
      | inr e ↦ rw e (ground arith)
    ])

pairing-match_controls :
    (rs : List ResultControls) (acc : ControlSeriesLookup) (id file : String)
    → pairing (match_controls rs acc) id file ≡ last_control id file rs (pairing acc id file)
unfolding match_controls
pairing-match_controls [] acc id file = refl
pairing-match_controls (r ∷ rs) acc id file =
    pairing-match_controls rs (group_controls r.unique_id r.controls acc) id file
    ∙ ap (last_control id file rs) (pairing-group_controls acc id file r.unique_id r.controls)

-- No control of the report extends this one.
abbrev pub is_top : ContextualizedEvaluation → ContextualizedControl → Bool
is_top evaluation c = is_empty (evaluation.control_links.extended_by c.place)

-- The last control with the id that nothing extends in the reports of the file.
abbrev pub last_top :
    String
    → String
    → List SourcedEvaluation
    → Option ContextualizedControl
    → Option ContextualizedControl
last_top id file [] found = found
last_top id file (r ∷ rs) found = last_top id file rs (
    if str_eq r.unique_id file
    then last_with id (filter (is_top r.evaluation) r.evaluation.controls) found
    else found)

last_control-extract :
    (executions : List SourcedEvaluation) (id file : String) (found : Option ContextualizedControl)
    → last_control id file (map extract_top_level_controls executions) found
      ≡ last_top id file executions found
unfolding extract_top_level_controls
last_control-extract [] id file found = refl
last_control-extract (r ∷ rs) id file found = last_control-extract rs id file _

-- The pairings of a comparison give, for a control id and a file, the last control with that id that
-- nothing extends in the reports of the file, and nothing if there is none.
pub pairings-last_top :
    (executions : List SourcedEvaluation) (id file : String)
    → pairing (pairings executions) id file ≡ last_top id file executions none
unfolding pairings get_key
pairings-last_top executions id file =
    pairing-match_controls (map extract_top_level_controls executions) [] id file
    ∙ last_control-extract executions id file none
