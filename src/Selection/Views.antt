-- ===== src/Selection/Views.antt =====
-- The selection as the user sees it: which files are loaded and which are selected, without the order of
-- the lists of data_store.ts and data_filters.ts.
pub mod Kinds
pub mod Refinement
use security_scan.Prelude.{
  String, ◌≡◌, Bool, true, false, ◌&&◌, ◌||◌, not, str_eq, includes, List, if◌then◌else◌,
}
use security_scan.Selection.{File, Store, ids}

-- The sets of the loaded and of the selected identifiers of one kind.
pub record View : Type 0 where
  pub loaded : String → Bool
  pub selected : String → Bool

abbrev pub view : List File → List String → View
view files selected = record { loaded = includes (ids files); selected = includes selected }

abbrev pub evaluations : Store → View
evaluations s = view s.execution_files s.selected_evaluation_ids

abbrev pub profiles : Store → View
profiles s = view s.profile_files s.selected_profile_ids

abbrev pub Same : (String → Bool) → (String → Bool) → Type 0
Same p q = (x : String) → p x ≡ q x

-- What one action does to the files of one kind.
pub data Change (v w : View) : Type 0 where
  -- a new file is loaded and selected
  adds :
      (id : String)
      → v.loaded id ≡ false
      → ((x : String) → w.loaded x ≡ (v.loaded x || str_eq x id))
      → ((x : String) → w.selected x ≡ (v.selected x || str_eq x id))
      → Change v w
  -- a new file is loaded and not selected
  adds_unselected :
      (id : String)
      → v.loaded id ≡ false
      → ((x : String) → w.loaded x ≡ (v.loaded x || str_eq x id))
      → Same w.selected v.selected
      → w.selected id ≡ false
      → Change v w
  -- the selection of one loaded file is turned over
  turns :
      (id : String)
      → v.loaded id ≡ true
      → Same w.loaded v.loaded
      → ((x : String) → w.selected x ≡ (if str_eq x id then not (v.selected x) else v.selected x))
      → Change v w
  -- all loaded files were selected, and none is
  clears :
      Same v.selected v.loaded
      → Same w.loaded v.loaded
      → ((x : String) → w.selected x ≡ false)
      → Change v w
  -- not all loaded files were selected, and all are
  fills :
      ¬ Same v.selected v.loaded → Same w.loaded v.loaded → Same w.selected v.loaded → Change v w
  -- one loaded file is selected and no other
  singles :
      (id : String)
      → v.loaded id ≡ true
      → Same w.loaded v.loaded
      → ((x : String) → w.selected x ≡ str_eq x id)
      → Change v w

-- A file is neither loaded nor selected any more.
abbrev pub Removes : String → View → View → Type 0
Removes id v w =
    ((x : String) → w.loaded x ≡ (v.loaded x && not (str_eq x id)))
    × ((x : String) → w.selected x ≡ (v.selected x && not (str_eq x id)))

-- One action: on one kind, with the other as it was, or the unloading of a file.
pub data ViewStep (e p : View) : View → View → Type 0 where
  on_evaluations : {f : View} → Change e f → ViewStep e p f p
  on_profiles : {q : View} → Change p q → ViewStep e p e q
  unloads : (id : String) {f q : View} → Removes id e f → Removes id p q → ViewStep e p f q

pub data ViewReachable : View → View → Type 0 where
  begins :
      (e p : View)
      → ((x : String) → e.loaded x ≡ false)
      → ((x : String) → e.selected x ≡ false)
      → ((x : String) → p.loaded x ≡ false)
      → ((x : String) → p.selected x ≡ false)
      → ViewReachable e p
  goes_on : {e p f q : View} → ViewReachable e p → ViewStep e p f q → ViewReachable f q
