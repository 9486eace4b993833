-- ===== src/Selection.antt =====
-- heimdall2-master/apps/frontend/src/store/data_store.ts, data_filters.ts and report_intake.ts: the
-- files that are loaded, and which of them are selected. The two stores are one state; of a file the
-- identifiers and the name are kept, for its tags and dates are not read here and what it contains
-- is modelled in Filters. `commit` runs a mutation at once.
pub mod Ids
pub mod Sound
pub mod Reach
pub mod Toggle
pub mod Views
use security_scan.Prelude.{
  ℕ, String, Bool, true, false, not, Option, none, some, List, [], ◌∷◌, ◌++◌, map, str_eq, ◌==◌,
  if◌then◌else◌, filter, includes, length,
}

pub record File : Type 0 where
  pub unique_id : String
  pub filename : String
  pub database_id : Option ℕ

pub record Store : Type 0 where
  pub execution_files : List File
  pub profile_files : List File
  pub selected_evaluation_ids : List String
  pub selected_profile_ids : List String

abbrev pub empty_store : Store
empty_store = record {
  execution_files = [];
  profile_files = [];
  selected_evaluation_ids = [];
  selected_profile_ids = [];
}

pub data Trinary : Type 0 where
  on off mixed : Trinary

abbrev pub ids : List File → List String
ids = map (λ f. f.unique_id)

-- `filter((i) => i !== id)`
unfoldable pub without : String → List String → List String
without id l = filter (λ i. not (str_eq i id)) l

-- `[...new Set(l)]`, which keeps the first of equal elements in its place
unfoldable pub dedupe : List String → List String
unfolding without
dedupe [] = []
dedupe (x ∷ l) = x ∷ without x (dedupe l)

unfoldable pub select_evaluations : List String → Store → Store
unfolding dedupe
select_evaluations files s = record s {
  selected_evaluation_ids = dedupe (files ++ s.selected_evaluation_ids);
}

unfoldable pub select_profiles : List String → Store → Store
unfolding dedupe
select_profiles files s = record s {
  selected_profile_ids = dedupe (files ++ s.selected_profile_ids);
}

unfoldable pub clear_evaluation : String → Store → Store
unfolding without
clear_evaluation id s = record s { selected_evaluation_ids = without id s.selected_evaluation_ids }

unfoldable pub clear_profile : String → Store → Store
unfolding without
clear_profile id s = record s { selected_profile_ids = without id s.selected_profile_ids }

unfoldable pub clear_all_evaluations : Store → Store
clear_all_evaluations s = record s { selected_evaluation_ids = [] }

unfoldable pub clear_all_profiles : Store → Store
clear_all_profiles s = record s { selected_profile_ids = [] }

-- the switch on the number of selected files
unfoldable pub selected_of : ℕ → ℕ → Trinary
selected_of selected files = if selected == 0 then off else if selected == files then on else mixed

unfoldable pub all_evaluations_selected : Store → Trinary
unfolding selected_of
all_evaluations_selected s =
    selected_of (length s.selected_evaluation_ids) (length s.execution_files)

unfoldable pub all_profiles_selected : Store → Trinary
unfolding selected_of
all_profiles_selected s = selected_of (length s.selected_profile_ids) (length s.profile_files)

abbrev pub is_on : Trinary → Bool
is_on on = true
is_on off = false
is_on mixed = false

unfoldable pub toggle_all_evaluations : Store → Store
toggle_all_evaluations s =
    if is_on (all_evaluations_selected s)
    then clear_all_evaluations s
    else select_evaluations (ids s.execution_files) s

unfoldable pub toggle_all_profiles : Store → Store
toggle_all_profiles s =
    if is_on (all_profiles_selected s)
    then clear_all_profiles s
    else select_profiles (ids s.profile_files) s

unfoldable pub select_exclusive_evaluation : String → Store → Store
select_exclusive_evaluation id s = select_evaluations (id ∷ []) (clear_all_evaluations s)

unfoldable pub select_exclusive_profile : String → Store → Store
select_exclusive_profile id s = select_profiles (id ∷ []) (clear_all_profiles s)

unfoldable pub toggle_evaluation : String → Store → Store
toggle_evaluation id s =
    if includes s.selected_evaluation_ids id
    then clear_evaluation id s
    else select_evaluations (id ∷ []) s

unfoldable pub toggle_profile : String → Store → Store
toggle_profile id s =
    if includes s.selected_profile_ids id then clear_profile id s else select_profiles (id ∷ []) s

unfoldable pub clear_file : String → Store → Store
clear_file id s = clear_profile id (clear_evaluation id s)

unfoldable pub add_execution : File → Store → Store
add_execution file s = record s { execution_files = s.execution_files ++ file ∷ [] }

unfoldable pub add_profile : File → Store → Store
add_profile file s = record s { profile_files = s.profile_files ++ file ∷ [] }

abbrev pub other_files : String → List File → List File
other_files id = filter (λ f. not (str_eq f.unique_id id))

unfoldable pub remove_profile : String → Store → Store
remove_profile id s = record s { profile_files = other_files id s.profile_files }

unfoldable pub remove_result : String → Store → Store
remove_result id s = record s { execution_files = other_files id s.execution_files }

unfoldable pub remove_file : String → Store → Store
remove_file id s = remove_result id (remove_profile id (clear_file id s))

-- What convertFile makes of a text: a report of a run, a profile, or neither.
pub data Converted : Type 0 where
  exec_json profile_json errors : Converted

-- loadText, with the identifier that `uuid` gives in the file; `none` if it throws
unfoldable pub load_text : Converted → File → Store → Option Store
load_text exec_json file s = some (toggle_evaluation file.unique_id (add_execution file s))
load_text profile_json file s = some (toggle_profile file.unique_id (add_profile file s))
load_text errors file s = none
