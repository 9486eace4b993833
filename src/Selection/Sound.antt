-- ===== src/Selection/Sound.antt =====
-- What a selection of loaded files keeps: each selected identifier is that of one loaded file.
use security_scan.Prelude.{
  String, ◌≡◌, refl, ap, subst, ◌∙◌, true, false, List, [], ◌∷◌, ◌++◌, arith, eq_iff, Bool-cases,
  inl, inr, includes,
}
use security_scan.Selection.{
  File, Store, ids, without, dedupe, select_evaluations, select_profiles, clear_evaluation,
  clear_profile, toggle_evaluation, toggle_profile, other_files,
}
use security_scan.Selection.Ids.{
  Distinct, Within, includes-without, includes-append, includes-dedupe, Distinct-without,
  Distinct-dedupe, ids-other_files, ids-append, Distinct-snoc,
}

-- The selected identifiers, each once, are among those of the files, each once.
pub record Sound (files : List File) (selected : List String) : Type 0 where
  pub files_distinct : Distinct (ids files)
  pub distinct : Distinct selected
  pub within : Within selected (ids files)

pub record WellFormed (s : Store) : Type 0 where
  pub evaluations : Sound s.execution_files s.selected_evaluation_ids
  pub profiles : Sound s.profile_files s.selected_profile_ids

pub Sound-nil : (files : List File) (selected : List String) → Sound files selected → Sound files []
Sound-nil files selected v = record {
  files_distinct = v.files_distinct;
  distinct = tt;
  within = λ x h. cc;
}

pub Sound-select :
    (files : List File) (new selected : List String)
    → Sound files selected
    → Within new (ids files)
    → Sound files (dedupe (new ++ selected))
Sound-select files new selected v w = record {
  files_distinct = v.files_distinct;
  distinct = Distinct-dedupe (new ++ selected);
  within = λ x h. ground (
    arith,
    h,
    includes-dedupe (new ++ selected) x,
    includes-append new selected x,
    w x,
    v.within x,
  );
}

pub Sound-without :
    (files : List File) (selected : List String) (id : String)
    → Sound files selected
    → Sound files (without id selected)
Sound-without files selected id v = record {
  files_distinct = v.files_distinct;
  distinct = Distinct-without id selected v.distinct;
  within = λ x h. ground (arith, h, includes-without id selected x, v.within x);
}

pub Sound-remove :
    (files : List File) (selected : List String) (id : String)
    → Sound files selected
    → Sound (other_files id files) (without id selected)
Sound-remove files selected id v = record {
  files_distinct = rw (ids-other_files id files) (Distinct-without id (ids files) v.files_distinct);
  distinct = Distinct-without id selected v.distinct;
  within = λ x h.
      ap (λ l. includes l x) (ids-other_files id files)
      ∙ ground
          (arith, h, includes-without id selected x, includes-without id (ids files) x, v.within x);
}

pub Sound-add :
    (files : List File) (selected : List String) (file : File)
    → includes (ids files) file.unique_id ≡ false
    → Sound files selected
    → Sound (files ++ file ∷ []) selected
Sound-add files selected file n v = record {
  files_distinct =
      rw (ids-append files (file ∷ []))
        (Distinct-snoc (ids files) file.unique_id n v.files_distinct);
  distinct = v.distinct;
  within = λ x h.
      ap (λ l. includes l x) (ids-append files (file ∷ []))
      ∙ includes-append (ids files) (file.unique_id ∷ []) x
      ∙ ground (arith, v.within x h);
}

Within-one : (id : String) (l : List String) → includes l id ≡ true → Within (id ∷ []) l
Within-one id l h x e = subst (λ k. includes l k ≡ true) ((eq_iff id x).0 (ground (arith, e))) h

pub last_in :
    (files : List File) (file : File) → includes (ids (files ++ file ∷ [])) file.unique_id ≡ true
last_in files file =
    ap (λ l. includes l file.unique_id) (ids-append files (file ∷ []))
    ∙ includes-append (ids files) (file.unique_id ∷ []) file.unique_id
    ∙ ground (arith, (eq_iff file.unique_id file.unique_id).1 refl)

pub toggle_evaluation-WellFormed :
    (id : String) (s : Store)
    → includes (ids s.execution_files) id ≡ true
    → WellFormed s
    → WellFormed (toggle_evaluation id s)
unfolding toggle_evaluation clear_evaluation select_evaluations
toggle_evaluation-WellFormed id s h v = elim (Bool-cases (includes s.selected_evaluation_ids id)) [
  | inl e ↦ rw e (record {
    evaluations = Sound-without s.execution_files s.selected_evaluation_ids id v.evaluations;
    profiles = v.profiles;
  })
  | inr e ↦ rw e (record {
    evaluations =
        Sound-select s.execution_files (id ∷ []) s.selected_evaluation_ids v.evaluations
          (Within-one id (ids s.execution_files) h);
    profiles = v.profiles;
  })
]

pub toggle_profile-WellFormed :
    (id : String) (s : Store)
    → includes (ids s.profile_files) id ≡ true
    → WellFormed s
    → WellFormed (toggle_profile id s)
unfolding toggle_profile clear_profile select_profiles
toggle_profile-WellFormed id s h v = elim (Bool-cases (includes s.selected_profile_ids id)) [
  | inl e ↦ rw e (record {
    evaluations = v.evaluations;
    profiles = Sound-without s.profile_files s.selected_profile_ids id v.profiles;
  })
  | inr e ↦ rw e (record {
    evaluations = v.evaluations;
    profiles =
        Sound-select s.profile_files (id ∷ []) s.selected_profile_ids v.profiles
          (Within-one id (ids s.profile_files) h);
  })
]
