-- ===== src/Tagging.antt =====
-- heimdall2-master/libs/inspecjs/src/compat_impl/compat_inspec_1_0.ts, compute_raw_nist_tags and
-- compute_proper_nist_tags, and canonized_nist of both classes: the NIST tags of a control.
use security_scan.Prelude.Int.{ℤ, is_pos}
use security_scan.Prelude.{
  Bool, Option, none, some, List, [], ◌∷◌, ◌++◌, if◌then◌else◌, any, Text, codes, text_eq,
}
use security_scan.Nist.{NistControl, NistRevision, PartialConfig, key_for, local_compare, canonize}
use security_scan.Nist.Parse.{ParseNist, control, revision, nothing, parse_nist}

unfoldable pub compute_raw_nist_tags : Option (List Text) → List Text
compute_raw_nist_tags none = codes "UM-1" ∷ []
compute_raw_nist_tags (some fetched) = fetched

-- the variables of the loop of compute_proper_nist_tags
pub record TagState : Type 0 where
  pub parsed_nist_tags : List NistControl
  pub parsed_nist_revision : Option NistRevision
  pub seen_specs : List Text

abbrev pub seen : Text → List Text → Bool
seen key l = any (λ k. text_eq k key) l

unfoldable pub collect_tag : TagState → ParseNist → TagState
collect_tag s nothing = s
collect_tag s (control x) = if seen (key_for x) s.seen_specs then s else record s {
  parsed_nist_tags = s.parsed_nist_tags ++ x ∷ [];
  seen_specs = s.seen_specs ++ key_for x ∷ [];
}
collect_tag s (revision r) = record s { parsed_nist_revision = some r }

unfoldable pub collect_tags : TagState → List Text → TagState
unfolding collect_tag
collect_tags s [] = s
collect_tags s (raw ∷ raws) = collect_tags (collect_tag s (parse_nist raw)) raws

abbrev pub no_tags : TagState
no_tags = record { parsed_nist_tags = []; parsed_nist_revision = none; seen_specs = [] }

-- What `parse_nist('UM-1')` returns.
abbrev pub unmapped : NistControl
unmapped = record { sub_specifiers = codes "UM" ∷ codes "1" ∷ []; raw_text = some (codes "UM-1") }

-- Array.prototype.sort, which is stable
module _ {ℓ} {A : Type ℓ} (compare_items : A → A → ℤ) where
  unfoldable pub insert_sorted : A → List A → List A
  insert_sorted x [] = x ∷ []
  insert_sorted x (y ∷ ys) =
      let rest = insert_sorted x ys in if is_pos (compare_items x y) then y ∷ rest else x ∷ y ∷ ys

  unfoldable pub sort : List A → List A
  unfolding insert_sorted
  sort [] = []
  sort (x ∷ xs) = insert_sorted x (sort xs)

abbrev pub stub_if_empty : List NistControl → List NistControl
stub_if_empty [] = unmapped ∷ []
stub_if_empty (t ∷ ts) = t ∷ ts

module _ (locale_compare : Text → Text → ℤ) where
  unfoldable pub compute_proper_nist_tags : List Text → List NistControl × Option NistRevision
  unfolding collect_tags sort
  compute_proper_nist_tags raw =
      let s = collect_tags no_tags raw in
      (
        stub_if_empty (sort (local_compare locale_compare) s.parsed_nist_tags),
        s.parsed_nist_revision,
      )

-- the loop of canonized_nist
unfoldable pub canonize_all : PartialConfig → List Text → List NistControl → List Text
canonize_all config result [] = result
canonize_all config result (v ∷ vs) =
    let s = canonize v config in
    canonize_all config (if seen s result then result else result ++ s ∷ []) vs
