-- ===== src/Nist.antt =====
-- heimdall2-master/libs/inspecjs/src/nist.ts: NIST controls, their order and their canonical text.
-- The parser is in Nist/Parse, group statuses in Nist/Status; the other children hold proofs.
pub mod Lineage
pub mod Hierarchy
pub mod Parse
pub mod Status
use security_scan.Prelude.Int.{ℤ, pos, negsuc, sub_ℕ, is_nonzero}
use security_scan.Prelude.{
  ℕ, zero, suc, ◌+◌, ◌-◌, Bool, true, false, ◌&&◌, ◌||◌, not, Option, none, some, List, [], ◌∷◌,
  ◌++◌, ltb, ◌==◌, if◌then◌else◌, length, take, Text, codes, text_eq, join, is_digit, is_space,
  is_lower, trim_start, leb,
}

pub record CanonizationConfig : Type 0 where
  pub max_specifiers : ℕ
  pub pad_zeros : Bool
  pub allow_letters : Bool
  pub add_spaces : Bool
  pub add_parens : Bool
  pub add_periods : Bool

-- The options as a caller may leave them out.
pub record PartialConfig : Type 0 where
  pub max_specifiers : ℕ
  pub pad_zeros : Option Bool
  pub allow_letters : Option Bool
  pub add_spaces : Option Bool
  pub add_parens : Option Bool
  pub add_periods : Option Bool

abbrev or_default : Option Bool → Bool → Bool
or_default none d = d
or_default (some b) d = b

unfoldable pub default_partial_config : PartialConfig → CanonizationConfig
default_partial_config c = record {
  max_specifiers = c.max_specifiers;
  pad_zeros = or_default c.pad_zeros false;
  allow_letters = or_default c.allow_letters true;
  add_spaces = or_default c.add_spaces true;
  add_parens = or_default c.add_parens true;
  add_periods = or_default c.add_periods true;
}

pub record NistControl : Type 0 where
  pub sub_specifiers : List Text
  pub raw_text : Option Text

pub record NistRevision : Type 0 where
  pub rev_num : ℕ

-- the loop of `compare_lineage`, over the sub-specifiers of `this`
unfoldable pub same_so_far : List Text → List Text → Bool
same_so_far [] others = true
same_so_far (s ∷ ss) [] = false
same_so_far (s ∷ ss) (o ∷ others) = text_eq s o && same_so_far ss others

unfoldable pub compare_lineage : NistControl → NistControl → ℤ
unfolding same_so_far
compare_lineage this other =
    if ltb (length other.sub_specifiers) (length this.sub_specifiers)
    then negsuc 0
    else if same_so_far this.sub_specifiers other.sub_specifiers
    then pos (length other.sub_specifiers - length this.sub_specifiers)
    else negsuc 0

abbrev is_minus_one : ℤ → Bool
is_minus_one (pos n) = false
is_minus_one (negsuc zero) = true
is_minus_one (negsuc (suc n)) = false

unfoldable pub contains : NistControl → NistControl → Bool
unfolding compare_lineage
contains this other = not (is_minus_one (compare_lineage this other))

-- `localeCompare` with the options of the source comes with the host.
module _ (locale_compare : Text → Text → ℤ) where
  -- the loop of `localCompare`
  unfoldable pub compare_chains : List Text → List Text → Option ℤ
  compare_chains [] b_chain = none
  compare_chains (a ∷ a_chain) [] = none
  compare_chains (a ∷ a_chain) (b ∷ b_chain) =
      if is_nonzero (locale_compare a b)
      then some (locale_compare a b)
      else compare_chains a_chain b_chain

  unfoldable pub local_compare : NistControl → NistControl → ℤ
  unfolding compare_chains
  local_compare this other = elim (compare_chains this.sub_specifiers other.sub_specifiers) [
    | some lc ↦ lc
    | none ↦ sub_ℕ (length this.sub_specifiers) (length other.sub_specifiers)
  ]

unfoldable pub family : NistControl → Option Text
family c = elim c.sub_specifiers [ [] ↦ none | f ∷ r ↦ some f ]

abbrev is_hex : ℕ → Bool
is_hex c = is_digit c || (leb b'a' c && leb c b'f') || (leb b'A' c && leb c b'F')

abbrev starts_hex : Text → Bool
starts_hex [] = false
starts_hex (c ∷ s) = is_hex c

abbrev digits_ahead : Text → Bool
digits_ahead [] = false
digits_ahead (c ∷ []) = is_digit c
digits_ahead (c ∷ d ∷ s) =
    if c == b'0' && (d == b'x' || d == b'X') then starts_hex s else is_digit c

abbrev skip_sign : Text → Text
skip_sign [] = []
skip_sign (c ∷ s) = if c == b'+' || c == b'-' then s else c ∷ s

-- `!Number.isNaN(Number.parseInt(s))`
unfoldable pub parses_as_int : Text → Bool
unfolding trim_start is_space
parses_as_int s = digits_ahead (skip_sign (trim_start s))

-- What one round of the loop of `canonize` appends for the sub-specifier at index `i`.
unfoldable pub canon_spec : CanonizationConfig → ℕ → Text → Text
unfolding parses_as_int
canon_spec config i spec =
    if parses_as_int spec
    then (let padded = if config.pad_zeros && ltb (length spec) 2 then b'0' ∷ spec else spec in
        let wrapped = if config.add_parens then b'(' ∷ (padded ++ b')' ∷ []) else padded in
        let spaced = if config.add_spaces then b' ' ∷ wrapped else wrapped in
        if ltb 1 i then spaced else padded)
    else if config.allow_letters
    then (if config.add_spaces then b' ' ∷ [] else [])
      ++ (spec ++ (if config.add_periods then b'.' ∷ [] else []))
    else []

-- the loop of `canonize`, from index `i`
unfoldable pub canon_from : CanonizationConfig → ℕ → Text → List Text → Text
unfolding canon_spec
canon_from config i s [] = s
canon_from config i s (spec ∷ specs) =
    let more = canon_from config (i + 1) (s ++ canon_spec config i spec) specs in
    if ltb i config.max_specifiers then more else s

abbrev text_or_empty : Option Text → Text
text_or_empty none = []
text_or_empty (some s) = s

abbrev after_first : List Text → List Text
after_first [] = []
after_first (s ∷ ss) = ss

unfoldable pub canonize : NistControl → PartialConfig → Text
unfolding canon_from default_partial_config family
canonize c partial =
    let config = default_partial_config partial in
    let s = text_or_empty (family c) in
    let s' = if ltb 1 (length c.sub_specifiers) then s ++ b'-' ∷ [] else s in
    canon_from config 1 s' (after_first c.sub_specifiers)

unfoldable pub control_parent : NistControl → Option NistControl
control_parent c =
    if ltb 0 (length c.sub_specifiers)
    then some (record {
      sub_specifiers = take (length c.sub_specifiers - 1) c.sub_specifiers;
      raw_text = none;
    })
    else none

unfoldable pub key_for : NistControl → Text
key_for c = join (b'-' ∷ []) c.sub_specifiers
