-- ===== src/Selection/Views/Kinds.antt =====
-- What the actions do to the lists of one kind, on the view of them.
use security_scan.Prelude.{
  String, ◌≡◌, refl, sym, ap, ◌∙◌, true, false, ◌||◌, not, arith, str_eq, eq_iff, includes, List,
  [], ◌∷◌, ◌++◌, length, if◌then◌else◌, Bool-cases, inl, inr,
}
use security_scan.Selection.{
  File, Trinary, on, off, mixed, is_on, ids, selected_of, without, dedupe,
}
use security_scan.Selection.Ids.{Within, includes-append, includes-dedupe, ids-append, str_eq_sym}
use security_scan.Selection.Sound.{Sound}
use security_scan.Selection.Reach.{selected_of_iff}
use security_scan.Selection.Toggle.{toggle_includes}
use security_scan.Selection.Views.{
  view, Same, Change, adds, adds_unselected, turns, clears, fills, singles,
}

abbrev pub turned : String → List String → List String
turned id selected = if includes selected id then without id selected else dedupe (id ∷ selected)

abbrev pub all_turned : List File → List String → List String
all_turned files selected =
    if is_on (selected_of (length selected) (length files))
    then []
    else dedupe (ids files ++ selected)

pub turned-Change :
    (id : String) (files : List File) (selected : List String)
    → includes (ids files) id ≡ true
    → Change (view files selected) (view files (turned id selected))
turned-Change id files selected h =
    turns id h (λ x. refl) (λ x. toggle_includes selected id x ∙ at_id x)
  where
    at_id :
        (x : String)
        → (if str_eq x id then not (includes selected id) else includes selected x)
          ≡ (if str_eq x id then not (includes selected x) else includes selected x)
    at_id x = elim (Bool-cases (str_eq x id)) [
      | inl e ↦ rw e (ap (λ i. not (includes selected i)) (sym ((eq_iff x id).0 e)))
      | inr e ↦ rw e refl
    ]

added_loaded :
    (file : File) (files : List File) (x : String)
    → includes (ids (files ++ file ∷ [])) x ≡ (includes (ids files) x || str_eq x file.unique_id)
added_loaded file files x =
    ap (λ l. includes l x) (ids-append files (file ∷ []))
    ∙ includes-append (ids files) (file.unique_id ∷ []) x
    ∙ ground (arith, str_eq_sym file.unique_id x)

pub unselected-Change :
    (file : File) (files : List File) (selected : List String)
    → Sound files selected
    → includes (ids files) file.unique_id ≡ false
    → Change (view files selected) (view (files ++ file ∷ []) selected)
unselected-Change file files selected v n =
    adds_unselected file.unique_id n (added_loaded file files) (λ x. refl)
      (ground (arith, n, v.within file.unique_id))

pub added-Change :
    (file : File) (files : List File) (selected : List String)
    → Sound files selected
    → includes (ids files) file.unique_id ≡ false
    → Change (view files selected) (view (files ++ file ∷ []) (turned file.unique_id selected))
added-Change file files selected v n =
    adds file.unique_id n (added_loaded file files)
      (λ x. toggle_includes selected file.unique_id x ∙ selects x)
  where
    unselected : includes selected file.unique_id ≡ false
    unselected = ground (arith, n, v.within file.unique_id)

    selects :
        (x : String)
        → (if str_eq x file.unique_id
            then not (includes selected file.unique_id)
            else includes selected x)
          ≡ (includes selected x || str_eq x file.unique_id)
    selects x = ground (arith, unselected)

pub single-Change :
    (id : String) (files : List File) (selected : List String)
    → includes (ids files) id ≡ true
    → Change (view files selected) (view files (dedupe (id ∷ [])))
single-Change id files selected h =
    singles id h (λ x. refl) (λ x. includes-dedupe (id ∷ []) x ∙ ground (arith, str_eq_sym id x))

is_on_iff : (t : Trinary) → is_on t ≡ true → t ≡ on
is_on_iff on e = refl
is_on_iff off e = cc
is_on_iff mixed e = cc

both_ways :
    (s l : List String) → Within s l → Within l s → (x : String) → includes s x ≡ includes l x
both_ways s l w u x = ground (arith, w x, u x)

nothing_selected :
    (files : List File) (selected : List String)
    → Sound files selected
    → files ≡ []
    → (x : String) → includes selected x ≡ false
nothing_selected [] selected v e x = ground (arith, v.within x)
nothing_selected (f ∷ files) selected v e x = cc

pub all_turned-Change :
    (files : List File) (selected : List String)
    → Sound files selected
    → Change (view files selected) (view files (all_turned files selected))
all_turned-Change files selected v =
    elim (Bool-cases (is_on (selected_of (length selected) (length files)))) [
      | inl e ↦
          (let (some_loaded, all_in) = (selected_of_iff files selected v).0 (is_on_iff _ e) in
            rw e (clears (both_ways selected (ids files) v.within all_in) (λ x. refl) (λ x. refl)))
      | inr e ↦ rw e (not_all files selected v e)
    ]
  where
    filled :
        (files : List File) (selected : List String)
        → Sound files selected
        → Same (includes (dedupe (ids files ++ selected))) (includes (ids files))
    filled files selected v x =
        includes-dedupe (ids files ++ selected) x
        ∙ includes-append (ids files) selected x
        ∙ ground (arith, v.within x)

    not_all :
        (files : List File) (selected : List String)
        → Sound files selected
        → is_on (selected_of (length selected) (length files)) ≡ false
        → Change (view files selected) (view files (dedupe (ids files ++ selected)))
    not_all [] selected v e =
        clears (nothing_selected [] selected v refl) (λ x. refl) (filled [] selected v)
    not_all (f ∷ files) selected v e =
        fills
          (λ same. ground (
            arith,
            e,
            ap is_on (
                (selected_of_iff (f ∷ files) selected v).1
                  ((λ is_nil. ground (arith, is_nil)), (λ x h. same x ∙ h))),
          ))
          (λ x. refl) (filled (f ∷ files) selected v)
