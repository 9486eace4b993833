-- ===== src/Selection/Toggle.antt =====
-- What toggling and unloading a file change: data_filters.ts and data_store.ts.
use security_scan.Prelude.{
  String, ◌≡◌, refl, ap, ◌∙◌, ◌&&◌, not, List, ◌∷◌, arith, str_eq, if◌then◌else◌, Bool-cases, inl,
  inr, includes,
}
use security_scan.Selection.{
  Store, ids, without, dedupe, select_evaluations, clear_evaluation, clear_profile,
  toggle_evaluation, clear_file, remove_profile, remove_result, remove_file,
}
use security_scan.Selection.Ids.{includes-without, includes-dedupe, ids-other_files, str_eq_sym}

pub toggle_includes :
    (selected : List String) (id x : String)
    → includes (if includes selected id then without id selected else dedupe (id ∷ selected)) x
      ≡ (if str_eq x id then not (includes selected id) else includes selected x)
toggle_includes selected id x =
    ground
      (arith, includes-without id selected x, includes-dedupe (id ∷ selected) x, str_eq_sym id x)

toggled :
    (id : String) (s : Store)
    → ((toggle_evaluation id s).selected_evaluation_ids ≡ (
        if includes s.selected_evaluation_ids id
        then without id s.selected_evaluation_ids
        else dedupe (id ∷ s.selected_evaluation_ids)))
      × ((toggle_evaluation id s).selected_profile_ids ≡ s.selected_profile_ids)
      × ((toggle_evaluation id s).execution_files ≡ s.execution_files)
      × ((toggle_evaluation id s).profile_files ≡ s.profile_files)
unfolding toggle_evaluation clear_evaluation select_evaluations
toggled id s = elim (Bool-cases (includes s.selected_evaluation_ids id)) [
  | inl e ↦ rw e (refl, refl, refl, refl)
  | inr e ↦ rw e (refl, refl, refl, refl)
]

-- Toggling an evaluation turns its own selection over, and leaves that of every other file, the
-- profiles and the loaded files as they were.
pub toggle_evaluation_lem :
    (id x : String) (s : Store)
    → (includes (toggle_evaluation id s).selected_evaluation_ids x ≡ (
        if str_eq x id
        then not (includes s.selected_evaluation_ids id)
        else includes s.selected_evaluation_ids x))
      × ((toggle_evaluation id s).selected_profile_ids ≡ s.selected_profile_ids)
      × ((toggle_evaluation id s).execution_files ≡ s.execution_files)
      × ((toggle_evaluation id s).profile_files ≡ s.profile_files)
toggle_evaluation_lem id x s =
    let (selected, profiles, executions, loaded) = toggled id s in
    (
      ap (λ l. includes l x) selected ∙ toggle_includes s.selected_evaluation_ids id x,
      profiles,
      executions,
      loaded,
    )

-- Unloading a file leaves it neither loaded nor selected, and every other file as it was.
pub remove_file_lem :
    (id x : String) (s : Store)
    → (includes (ids (remove_file id s).execution_files) x
        ≡ (includes (ids s.execution_files) x && not (str_eq x id)))
      × (includes (ids (remove_file id s).profile_files) x
          ≡ (includes (ids s.profile_files) x && not (str_eq x id)))
      × (includes (remove_file id s).selected_evaluation_ids x
          ≡ (includes s.selected_evaluation_ids x && not (str_eq x id)))
      × (includes (remove_file id s).selected_profile_ids x
          ≡ (includes s.selected_profile_ids x && not (str_eq x id)))
unfolding remove_file remove_result remove_profile clear_file clear_profile clear_evaluation
remove_file_lem id x s = (
  ap (λ l. includes l x) (ids-other_files id s.execution_files)
      ∙ includes-without id (ids s.execution_files) x,
  ap (λ l. includes l x) (ids-other_files id s.profile_files)
      ∙ includes-without id (ids s.profile_files) x,
  includes-without id s.selected_evaluation_ids x,
  includes-without id s.selected_profile_ids x,
)
