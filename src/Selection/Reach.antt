-- ===== src/Selection/Reach.antt =====
-- The stores that the interface can reach: data_store.ts, data_filters.ts, report_intake.ts, and what
-- components/global/upload_tabs/splunk/FileList.vue loads without them.
use security_scan.Prelude.{
  String, ◌≡◌, ◌≢◌, ◌↔◌, refl, ap, subst, true, false, some, List, [], ◌∷◌, arith, eq_iff,
  Bool-cases, inl, inr, includes, length,
}
use security_scan.Selection.{
  File, Store, empty_store, on, ids, select_evaluations, select_profiles, clear_evaluation,
  clear_profile, clear_all_evaluations, clear_all_profiles, selected_of, all_evaluations_selected,
  all_profiles_selected, is_on, toggle_all_evaluations, toggle_all_profiles,
  select_exclusive_evaluation, select_exclusive_profile, toggle_evaluation, toggle_profile,
  clear_file, add_execution, add_profile, remove_profile, remove_result, remove_file, Converted,
  exec_json, profile_json, errors, load_text,
}
use security_scan.Selection.Ids.{Within, length-Within, Within-length, length-ids}
use security_scan.Selection.Sound.{
  Sound, WellFormed, Sound-nil, Sound-select, Sound-remove, Sound-add, last_in,
  toggle_evaluation-WellFormed, toggle_profile-WellFormed,
}

-- One action of the interface. A file is loaded under a new identifier, and the actions on one file
-- are offered for the loaded files.
pub data Step (s : Store) : Store → Type 0 where
  loads :
      {t : Store} (c : Converted) (file : File)
      → includes (ids s.execution_files) file.unique_id ≡ false
      → includes (ids s.profile_files) file.unique_id ≡ false
      → load_text c file s ≡ some t
      → Step s t
  -- a report of Splunk (FileList.vue), which is loaded and not selected
  loads_unselected :
      (file : File)
      → includes (ids s.execution_files) file.unique_id ≡ false
      → includes (ids s.profile_files) file.unique_id ≡ false
      → Step s (add_execution file s)
  removes : (id : String) → Step s (remove_file id s)
  toggles_evaluation :
      (id : String) → includes (ids s.execution_files) id ≡ true → Step s (toggle_evaluation id s)
  toggles_profile :
      (id : String) → includes (ids s.profile_files) id ≡ true → Step s (toggle_profile id s)
  toggles_all_evaluations : Step s (toggle_all_evaluations s)
  toggles_all_profiles : Step s (toggle_all_profiles s)
  selects_only_evaluation :
      (id : String)
      → includes (ids s.execution_files) id ≡ true
      → Step s (select_exclusive_evaluation id s)
  selects_only_profile :
      (id : String)
      → includes (ids s.profile_files) id ≡ true
      → Step s (select_exclusive_profile id s)

pub data Reachable : Store → Type 0 where
  start : Reachable empty_store
  next : {s t : Store} → Reachable s → Step s t → Reachable t

load_text-WellFormed :
    (c : Converted) (file : File) (s t : Store)
    → includes (ids s.execution_files) file.unique_id ≡ false
    → includes (ids s.profile_files) file.unique_id ≡ false
    → load_text c file s ≡ some t
    → WellFormed s
    → WellFormed t
unfolding load_text add_execution add_profile
load_text-WellFormed exec_json file s t n m e v = subst WellFormed (ground (arith, e)) (
    toggle_evaluation-WellFormed file.unique_id (add_execution file s)
      (last_in s.execution_files file)
      (record {
        evaluations = Sound-add s.execution_files s.selected_evaluation_ids file n v.evaluations;
        profiles = v.profiles;
      }))
load_text-WellFormed profile_json file s t n m e v = subst WellFormed (ground (arith, e)) (
    toggle_profile-WellFormed file.unique_id (add_profile file s) (last_in s.profile_files file)
      (record {
        evaluations = v.evaluations;
        profiles = Sound-add s.profile_files s.selected_profile_ids file m v.profiles;
      }))
load_text-WellFormed errors file s t n m e v = cc

remove_file-WellFormed : (id : String) (s : Store) → WellFormed s → WellFormed (remove_file id s)
unfolding remove_file remove_result remove_profile clear_file clear_profile clear_evaluation
remove_file-WellFormed id s v = record {
  evaluations = Sound-remove s.execution_files s.selected_evaluation_ids id v.evaluations;
  profiles = Sound-remove s.profile_files s.selected_profile_ids id v.profiles;
}

all-WellFormed :
    (s : Store)
    → WellFormed s
    → WellFormed (toggle_all_evaluations s) × WellFormed (toggle_all_profiles s)
unfolding toggle_all_evaluations toggle_all_profiles clear_all_evaluations clear_all_profiles
    select_evaluations select_profiles
all-WellFormed s v = (evaluations_part, profiles_part)
  where
    evaluations_part : WellFormed (toggle_all_evaluations s)
    evaluations_part = elim (Bool-cases (is_on (all_evaluations_selected s))) [
      | inl e ↦ rw e (record {
        evaluations = Sound-nil s.execution_files s.selected_evaluation_ids v.evaluations;
        profiles = v.profiles;
      })
      | inr e ↦ rw e (record {
        evaluations =
            Sound-select s.execution_files (ids s.execution_files) s.selected_evaluation_ids
              v.evaluations (λ x h. h);
        profiles = v.profiles;
      })
    ]

    profiles_part : WellFormed (toggle_all_profiles s)
    profiles_part = elim (Bool-cases (is_on (all_profiles_selected s))) [
      | inl e ↦ rw e (record {
        evaluations = v.evaluations;
        profiles = Sound-nil s.profile_files s.selected_profile_ids v.profiles;
      })
      | inr e ↦ rw e (record {
        evaluations = v.evaluations;
        profiles =
            Sound-select s.profile_files (ids s.profile_files) s.selected_profile_ids v.profiles
              (λ x h. h);
      })
    ]

Within-one : (id : String) (l : List String) → includes l id ≡ true → Within (id ∷ []) l
Within-one id l h x e = subst (λ k. includes l k ≡ true) ((eq_iff id x).0 (ground (arith, e))) h

Step-WellFormed : (s t : Store) → Step s t → WellFormed s → WellFormed t
unfolding select_exclusive_evaluation select_exclusive_profile clear_all_evaluations
    clear_all_profiles select_evaluations select_profiles add_execution
Step-WellFormed s t (loads c file n m e) v = load_text-WellFormed c file s t n m e v
Step-WellFormed s _ (loads_unselected file n m) v = record {
  evaluations = Sound-add s.execution_files s.selected_evaluation_ids file n v.evaluations;
  profiles = v.profiles;
}
Step-WellFormed s _ (removes id) v = remove_file-WellFormed id s v
Step-WellFormed s _ (toggles_evaluation id h) v = toggle_evaluation-WellFormed id s h v
Step-WellFormed s _ (toggles_profile id h) v = toggle_profile-WellFormed id s h v
Step-WellFormed s _ toggles_all_evaluations v = (all-WellFormed s v).0
Step-WellFormed s _ toggles_all_profiles v = (all-WellFormed s v).1
Step-WellFormed s _ (selects_only_evaluation id h) v = record {
  evaluations =
      Sound-select s.execution_files (id ∷ []) []
        (Sound-nil s.execution_files s.selected_evaluation_ids v.evaluations)
        (Within-one id (ids s.execution_files) h);
  profiles = v.profiles;
}
Step-WellFormed s _ (selects_only_profile id h) v = record {
  evaluations = v.evaluations;
  profiles =
      Sound-select s.profile_files (id ∷ []) []
        (Sound-nil s.profile_files s.selected_profile_ids v.profiles)
        (Within-one id (ids s.profile_files) h);
}

-- In every store that the interface can reach, the selected identifiers are those of loaded files,
-- and neither the loaded nor the selected identifiers have one twice.
pub Reachable-WellFormed : (s : Store) → Reachable s → WellFormed s
Reachable-WellFormed _ start = record {
  evaluations = record { files_distinct = tt; distinct = tt; within = λ x h. h };
  profiles = record { files_distinct = tt; distinct = tt; within = λ x h. h };
}
Reachable-WellFormed t (next {s} r step) = Step-WellFormed s t step (Reachable-WellFormed s r)

-- The number of selected files decides whether all are selected.
pub selected_of_iff :
    (files : List File) (selected : List String)
    → Sound files selected
    → (selected_of (length selected) (length files) ≡ on)
      ↔ ((files ≢ []) × Within (ids files) selected)
unfolding selected_of
selected_of_iff files selected v = (
  (λ h. (
    (λ e. absurd (ground (arith, h, ap length e))),
    Within-length selected (ids files) v.distinct v.within (ground (arith, h, length-ids files)),
  )),
  (λ (ne, w). counts files selected ne (
      omega (
        arith,
        length-Within selected (ids files) v.distinct v.within,
        length-Within (ids files) selected v.files_distinct w,
        length-ids files,
      ))),
)
  where
    counts :
        (fs : List File) (l : List String)
        → fs ≢ []
        → length l ≡ length fs
        → selected_of (length l) (length fs) ≡ on
    counts [] l ne e = absurd (ne refl)
    counts (f ∷ fs) l ne e = ground (arith, e)

-- In every reachable store, the box for all evaluations is on exactly when a file is loaded and all
-- loaded ones are selected, though it only compares two numbers; the same holds for profiles.
pub all_selected_iff :
    (s : Store)
    → Reachable s
    → ((all_evaluations_selected s ≡ on)
        ↔ ((s.execution_files ≢ []) × Within (ids s.execution_files) s.selected_evaluation_ids))
      × ((all_profiles_selected s ≡ on)
          ↔ ((s.profile_files ≢ []) × Within (ids s.profile_files) s.selected_profile_ids))
unfolding all_evaluations_selected all_profiles_selected
all_selected_iff s r =
    let v = Reachable-WellFormed s r in
    (
      selected_of_iff s.execution_files s.selected_evaluation_ids v.evaluations,
      selected_of_iff s.profile_files s.selected_profile_ids v.profiles,
    )
