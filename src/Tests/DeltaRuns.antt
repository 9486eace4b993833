-- ===== src/Tests/DeltaRuns.antt =====
-- Runs of delta_util.ts on the reports of the runs of context.ts.
use security_scan.Prelude.{
  ◌≡◌, refl, ◌↔◌, true, false, none, some, List, [], ◌∷◌, put_key, get_key, codes, text_eq,
}
use security_scan.Context.{
  number_profiles, parent_of, link_profiles, contain, all_controls, find_ancestor, base_of,
  link_controls, contextualize_evaluation, link,
}
use security_scan.Delta.{
  not_selected, ControlChange, first_selected, valid, SourcedEvaluation, extract_top_level_controls,
  group_control, group_controls, match_controls, pairings,
}
use security_scan.Delta.Changes.{Differs, valid_iff}
use security_scan.Delta.Pairings.{pairing, last_top, pairings-last_top}
use security_scan.Tests.ContextRuns.{context, over_control}

-- The second file has no such control.
abbrev change : ControlChange
change = record { name = codes "Severity"; values = codes "low" ∷ not_selected ∷ codes "high" ∷ [] }

change_run : valid change ≡ true
unfolding valid first_selected text_eq
change_run = refl

unchanged_run :
    valid (record change { values = not_selected ∷ codes "low" ∷ codes "low" ∷ [] }) ≡ false
unfolding valid first_selected text_eq
unchanged_run = refl

valid_iff_example : (valid change ≡ true) ↔ Differs change.values
valid_iff_example = valid_iff change

abbrev executions : List SourcedEvaluation
executions =
    record { unique_id = "f1"; evaluation = context }
    ∷ record { unique_id = "f2"; evaluation = context }
    ∷ []

pairings-last_top_example :
    pairing (pairings executions) "V-1" "f2" ≡ last_top "V-1" "f2" executions none
pairings-last_top_example = pairings-last_top executions "V-1" "f2"

-- The control of the overlay is paired, not the one that it extends.
paired_run : pairing (pairings executions) "V-1" "f2" ≡ some over_control
unfolding pairings extract_top_level_controls match_controls group_controls group_control put_key
    get_key contextualize_evaluation number_profiles link_profiles parent_of all_controls contain
    link_controls base_of find_ancestor link
paired_run = refl
