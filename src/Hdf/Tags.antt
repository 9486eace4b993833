-- ===== src/Hdf/Tags.antt =====
-- The NIST tags of a control: compute_proper_nist_tags and canonized_nist of compat_inspec_1_0.ts.
use security_scan.Prelude.Int.{ℤ, is_pos}
use security_scan.Prelude.{
  ◌≡◌, refl, sym, ap, ◌∙◌, subst, ◌≢◌, ◌⊎◌, inl, inr, Bool, true, false, List, [], ◌∷◌, ◌++◌, map,
  arith, Bool-cases, if◌then◌else◌, any, Text, text_eq, text_eq_iff,
}
use security_scan.Nist.{NistControl, PartialConfig, key_for, local_compare, canonize}
use security_scan.Nist.Parse.{ParseNist, control, revision, nothing, parse_nist}
use security_scan.Hdf.{
  TagState, collect_tag, collect_tags, no_tags, unmapped, insert_sorted, sort,
  compute_proper_nist_tags, seen, canonize_all, stub_if_empty,
}

-- No text stands twice in the list.
abbrev pub IsUnique : List Text → Type 0
IsUnique [] = Unit
IsUnique (k ∷ ks) = (seen k ks ≡ false) × IsUnique ks

seen-append : (k : Text) (l r : List Text) → seen k (l ++ r) ≡ (if seen k l then true else seen k r)
seen-append k [] r = refl
seen-append k (x ∷ l) r = ground (arith, seen-append k l r)

text_eq_sym : (s t : Text) → text_eq s t ≡ text_eq t s
text_eq_sym s t = ground (arith, text_eq_iff s t, text_eq_iff t s)

IsUnique-snoc : (l : List Text) (k : Text) → IsUnique l → seen k l ≡ false → IsUnique (l ++ k ∷ [])
IsUnique-snoc [] k h e = (refl, tt)
IsUnique-snoc (x ∷ l) k (n, h) e =
    (ground (arith, seen-append x l (k ∷ []), text_eq_sym x k), IsUnique-snoc l k h (ground arith))

-- canonized_nist

canonize_all-IsUnique :
    (config : PartialConfig) (result : List Text) (vs : List NistControl)
    → IsUnique result
    → IsUnique (canonize_all config result vs)
unfolding canonize_all
canonize_all-IsUnique config result [] h = h
canonize_all-IsUnique config result (v ∷ vs) h =
    elim (Bool-cases (seen (canonize v config) result)) [
      | inl e ↦ rw e (canonize_all-IsUnique config result vs h)
      | inr e ↦ rw e (
          canonize_all-IsUnique config (result ++ canonize v config ∷ []) vs
            (IsUnique-snoc result (canonize v config) h e))
    ]

seen_congr : (s k : Text) (l : List Text) → text_eq s k ≡ true → seen s l ≡ seen k l
seen_congr s k l h = ap (λ t. seen t l) ((text_eq_iff s k).0 h)

seen-canonize_all :
    (config : PartialConfig) (k : Text) (result : List Text) (vs : List NistControl)
    → seen k (canonize_all config result vs)
      ≡ (if seen k result then true else any (λ v. text_eq (canonize v config) k) vs)
unfolding canonize_all
seen-canonize_all config k result [] = ground arith
seen-canonize_all config k result (v ∷ vs) = elim (Bool-cases (seen (canonize v config) result)) [
  | inl e ↦ rw e (
      seen-canonize_all config k result vs
      ∙ ground (arith, e, seen_congr (canonize v config) k result))
  | inr e ↦ rw e (
      seen-canonize_all config k (result ++ canonize v config ∷ []) vs
      ∙ ground (arith, seen-append k result (canonize v config ∷ [])))
]

-- The texts of canonized_nist are those of the parsed tags, each once.
pub canonize_all_distinct :
    (config : PartialConfig) (vs : List NistControl) (k : Text)
    → IsUnique (canonize_all config [] vs)
      × (seen k (canonize_all config [] vs) ≡ any (λ v. text_eq (canonize v config) k) vs)
canonize_all_distinct config vs k =
    (canonize_all-IsUnique config [] vs tt, seen-canonize_all config k [] vs)

-- compute_proper_nist_tags

abbrev pub keys : List NistControl → List Text
keys = map key_for

-- A raw tag that parses as a control with the key `k`.
abbrev of_parse : Text → ParseNist → Bool
of_parse k nothing = false
of_parse k (revision r) = false
of_parse k (control x) = text_eq (key_for x) k

abbrev pub parses_to : Text → Text → Bool
parses_to k raw = of_parse k (parse_nist raw)

-- The set of seen keys is that of the tags, each once.
record IsTracked (s : TagState) : Type 0 where
  tracked : s.seen_specs ≡ keys s.parsed_nist_tags
  distinct : IsUnique s.seen_specs

keys-snoc : (l : List NistControl) (x : NistControl) → keys (l ++ x ∷ []) ≡ keys l ++ key_for x ∷ []
keys-snoc [] x = refl
keys-snoc (y ∷ l) x = ap (λ t. key_for y ∷ t) (keys-snoc l x)

collect_tag-IsTracked : (s : TagState) (p : ParseNist) → IsTracked s → IsTracked (collect_tag s p)
unfolding collect_tag
collect_tag-IsTracked s nothing h = h
collect_tag-IsTracked s (revision r) h = record { tracked = h.tracked; distinct = h.distinct }
collect_tag-IsTracked s (control x) h = elim (Bool-cases (seen (key_for x) s.seen_specs)) [
  | inl e ↦ rw e h
  | inr e ↦ rw e (record {
    tracked = ap (λ l. l ++ key_for x ∷ []) h.tracked ∙ sym (keys-snoc s.parsed_nist_tags x);
    distinct = IsUnique-snoc s.seen_specs (key_for x) h.distinct e;
  })
]

collect_tags-IsTracked :
    (s : TagState) (raw : List Text) → IsTracked s → IsTracked (collect_tags s raw)
unfolding collect_tags
collect_tags-IsTracked s [] h = h
collect_tags-IsTracked s (r ∷ raw) h =
    collect_tags-IsTracked (collect_tag s (parse_nist r)) raw
      (collect_tag-IsTracked s (parse_nist r) h)

seen-collect_tag :
    (k : Text) (s : TagState) (p : ParseNist)
    → seen k (collect_tag s p).seen_specs ≡ (if seen k s.seen_specs then true else of_parse k p)
unfolding collect_tag
seen-collect_tag k s nothing = ground arith
seen-collect_tag k s (revision r) = ground arith
seen-collect_tag k s (control x) =
    ground
      (arith, seen-append k s.seen_specs (key_for x ∷ []), seen_congr (key_for x) k s.seen_specs)

seen-collect_tags :
    (k : Text) (s : TagState) (raw : List Text)
    → seen k (collect_tags s raw).seen_specs
      ≡ (if seen k s.seen_specs then true else any (parses_to k) raw)
unfolding collect_tags
seen-collect_tags k s [] = ground arith
seen-collect_tags k s (r ∷ raw) =
    seen-collect_tags k (collect_tag s (parse_nist r)) raw
    ∙ ground (arith, seen-collect_tag k s (parse_nist r))

-- Sorting keeps the keys.
module _ (compare_items : NistControl → NistControl → ℤ) where
  seen-insert_sorted :
      (k : Text) (x : NistControl) (l : List NistControl)
      → seen k (keys (insert_sorted compare_items x l)) ≡ seen k (keys (x ∷ l))
  unfolding insert_sorted
  seen-insert_sorted k x [] = refl
  seen-insert_sorted k x (y ∷ l) = ground (arith, seen-insert_sorted k x l)

  seen-sort :
      (k : Text) (l : List NistControl) → seen k (keys (sort compare_items l)) ≡ seen k (keys l)
  unfolding sort
  seen-sort k [] = refl
  seen-sort k (x ∷ l) =
      seen-insert_sorted k x (sort compare_items l) ∙ ground (arith, seen-sort k l)

  IsUnique-insert_sorted :
      (x : NistControl) (l : List NistControl)
      → seen (key_for x) (keys l) ≡ false
      → IsUnique (keys l)
      → IsUnique (keys (insert_sorted compare_items x l))
  unfolding insert_sorted
  IsUnique-insert_sorted x [] n u = (refl, tt)
  IsUnique-insert_sorted x (y ∷ l) n (m, u) = elim (Bool-cases (is_pos (compare_items x y))) [
    | inl e ↦ rw e (
      ground (arith, seen-insert_sorted (key_for y) x l, text_eq_sym (key_for x) (key_for y)),
      IsUnique-insert_sorted x l (ground arith) u,
    )
    | inr e ↦ rw e (n, (m, u))
  ]

  IsUnique-sort :
      (l : List NistControl) → IsUnique (keys l) → IsUnique (keys (sort compare_items l))
  unfolding sort
  IsUnique-sort [] u = tt
  IsUnique-sort (x ∷ l) (n, u) =
      IsUnique-insert_sorted x (sort compare_items l) (seen-sort (key_for x) l ∙ n)
        (IsUnique-sort l u)

IsUnique-stub : (l : List NistControl) → IsUnique (keys l) → IsUnique (keys (stub_if_empty l))
IsUnique-stub [] u = (refl, tt)
IsUnique-stub (x ∷ l) u = u

seen-stub :
    (k : Text) (l : List NistControl)
    → seen k (keys l) ≡ true
    → seen k (keys (stub_if_empty l)) ≡ true
seen-stub k [] h = cc
seen-stub k (x ∷ l) h = h

seen_of-stub :
    (k : Text) (l : List NistControl)
    → seen k (keys (stub_if_empty l)) ≡ true
    → (seen k (keys l) ≡ true) ⊎ (k ≡ key_for unmapped)
seen_of-stub k [] h = inr (sym ((text_eq_iff (key_for unmapped) k).0 (ground arith)))
seen_of-stub k (x ∷ l) h = inl h

stub-ne-nil : (l : List NistControl) → stub_if_empty l ≢ []
stub-ne-nil [] e = cc
stub-ne-nil (x ∷ l) e = cc

module _ (locale_compare : Text → Text → ℤ) (raw : List Text) where
  -- the tags of a control
  abbrev pub tags : List NistControl
  tags = (compute_proper_nist_tags locale_compare raw).0

  tracked_keys :
      (k : Text)
      → seen k
          (keys (sort (local_compare locale_compare) (collect_tags no_tags raw).parsed_nist_tags))
        ≡ any (parses_to k) raw
  tracked_keys k =
      seen-sort (local_compare locale_compare) k (collect_tags no_tags raw).parsed_nist_tags
      ∙ ap (seen k) (
          sym
            (collect_tags-IsTracked no_tags raw (record { tracked = refl; distinct = tt })).tracked)
      ∙ seen-collect_tags k no_tags raw

  -- A control has at least one parsed tag, no two of its tags have the same sub-specifiers joined,
  -- each raw tag that parses as a control is among them, and each of them is such a raw tag or the
  -- stub UM-1.
  pub tags_distinct :
      (k : Text)
      → (tags ≢ [])
        × IsUnique (keys tags)
        × ((any (parses_to k) raw ≡ false) ⊎ (seen k (keys tags) ≡ true))
        × ((seen k (keys tags) ≡ false) ⊎ ((any (parses_to k) raw ≡ true) ⊎ (k ≡ key_for unmapped)))
  unfolding compute_proper_nist_tags
  tags_distinct k =
      let found = collect_tags no_tags raw in
      let h = collect_tags-IsTracked no_tags raw (record { tracked = refl; distinct = tt }) in
      let sorted = sort (local_compare locale_compare) found.parsed_nist_tags in
      (
        stub-ne-nil sorted,
        IsUnique-stub sorted (
            IsUnique-sort (local_compare locale_compare) found.parsed_nist_tags
              (subst IsUnique h.tracked h.distinct)),
        elim (Bool-cases (any (parses_to k) raw)) [
          | inl e ↦ inr (seen-stub k sorted (tracked_keys k ∙ e))
          | inr e ↦ inl e
        ],
        elim (Bool-cases (seen k (keys (stub_if_empty sorted)))) [
          | inr e ↦ inl e
          | inl e ↦ inr (elim (seen_of-stub k sorted e) [
            | inl f ↦ inl (sym (tracked_keys k) ∙ f)
            | inr f ↦ inr f
          ])
        ],
      )
