-- ===== src/Nist/Parse/RoundTrip.antt =====
-- Parsing the canonical text of a control gives the control back: canonize and parse_nist of nist.ts.
use mathlib.Core.List.{append_assoc, append-nil}
use security_scan.Prelude.{
  ℕ, suc, ◌+◌, ◌≤◌, ◌<◌, ◌≡◌, refl, sym, ap, ◌∙◌, Bool, true, false, Option, inl, inr, none, some,
  List, [], ◌∷◌, ◌++◌, arith, ltb, leb, if◌then◌else◌, Bool-cases, all, any, All, is_empty, length,
  length-append, Text, is_upper, is_digit, is_line_end,
}
use security_scan.Nist.{
  NistControl, PartialConfig, CanonizationConfig, canon_spec, canon_from, canonize, parses_as_int,
}
use security_scan.Nist.Parse.{
  parse_control, parse_full, match_family, control, parse_nist, match_rev, match_control,
  match_number, take_while, drop_while, split_specs, is_spec_sep, control_of_match,
}
use security_scan.Nist.Parse.Words.{words, IsSpec, words-sep_again, words-IsSpec, words-trim}

-- The configuration that gives a limit only.
abbrev pub defaults : ℕ → PartialConfig
defaults m = record {
  max_specifiers = m;
  pad_zeros = none;
  allow_letters = none;
  add_spaces = none;
  add_parens = none;
  add_periods = none;
}

abbrev full : ℕ → CanonizationConfig
full m = record {
  max_specifiers = m;
  pad_zeros = false;
  allow_letters = true;
  add_spaces = true;
  add_parens = true;
  add_periods = true;
}

-- What `canonize` writes behind the number of the control.
abbrev written : Text → Text
written spec =
    if parses_as_int spec then b' ' ∷ b'(' ∷ (spec ++ b')' ∷ []) else b' ' ∷ (spec ++ b'.' ∷ [])

canon_spec-written : (m i : ℕ) (spec : Text) → 1 < i → canon_spec (full m) i spec ≡ written spec
unfolding canon_spec
canon_spec-written m i spec h = ground arith

seps :
    (is_spec_sep b' ' ≡ true)
    × (is_spec_sep b'(' ≡ true)
    × (is_spec_sep b')' ≡ true)
    × (is_spec_sep b'.' ≡ true)
unfolding is_spec_sep
seps = (refl, refl, refl, refl)

words-written :
    (spec s : Text) → IsSpec spec → words true [] (written spec ++ s) ≡ spec ∷ words true [] s
words-written spec s v = elim (Bool-cases (parses_as_int spec)) [
  | inl e ↦ rw e (
      words-sep_again [] b' ' _ seps.0
      ∙ words-sep_again [] b'(' _ seps.1
      ∙ ap (words true []) (append_assoc spec (b')' ∷ []) s)
      ∙ words-IsSpec spec s b')' v seps.2)
  | inr e ↦ rw e (
      words-sep_again [] b' ' _ seps.0
      ∙ ap (words true []) (append_assoc spec (b'.' ∷ []) s)
      ∙ words-IsSpec spec s b'.' v seps.3)
]

tail_text : List Text → Text
tail_text [] = []
tail_text (spec ∷ specs) = written spec ++ tail_text specs

words-tail_text : (specs : List Text) → All IsSpec specs → words true [] (tail_text specs) ≡ specs
unfolding tail_text
words-tail_text [] h = unfold split_specs in refl
words-tail_text (spec ∷ specs) (v, h) =
    words-written spec (tail_text specs) v ∙ ap (λ r. spec ∷ r) (words-tail_text specs h)

canon_from-tail_text :
    (m i : ℕ) (s : Text) (specs : List Text)
    → 1 < i
    → i + length specs ≤ m
    → canon_from (full m) i s specs ≡ s ++ tail_text specs
unfolding canon_from tail_text
canon_from-tail_text m i s [] h k = sym (append-nil s)
canon_from-tail_text m i s (spec ∷ specs) h k =
    let more : ltb i m ≡ true = ground arith in
    rw more (
      ap (λ t. canon_from (full m) (i + 1) (s ++ t) specs) (canon_spec-written m i spec h)
      ∙ canon_from-tail_text m (i + 1) (s ++ written spec) specs (omega arith) (omega arith)
      ∙ append_assoc s (written spec) (tail_text specs))

-- Digits are a number to parseInt.
parses_as_int_of_digits :
    (num : Text) → is_empty num ≡ false → all is_digit num ≡ true → parses_as_int num ≡ true
unfolding parses_as_int
parses_as_int_of_digits [] h k = cc
parses_as_int_of_digits (c ∷ []) h k = ground arith
parses_as_int_of_digits (c ∷ d ∷ s) h k = ground arith

-- A control as the standard writes it: a family of two capitals, a number, and sub-specifiers that
-- the splitter cannot break.
pub record IsStandard (a b : ℕ) (num : Text) (specs : List Text) : Type 0 where
  pub family_a : is_upper a ≡ true
  pub family_b : is_upper b ≡ true
  pub filled : is_empty num ≡ false
  pub digits : all is_digit num ≡ true
  pub whole : All IsSpec specs

abbrev pub standard : ℕ → ℕ → Text → List Text → Option Text → NistControl
standard a b num specs raw = record { sub_specifiers = (a ∷ b ∷ []) ∷ num ∷ specs; raw_text = raw }

canon_spec-digits :
    (m : ℕ) (num : Text)
    → is_empty num ≡ false
    → all is_digit num ≡ true
    → canon_spec (full m) 1 num ≡ num
unfolding canon_spec
canon_spec-digits m num h k = rw (parses_as_int_of_digits num h k) refl

canonize-standard :
    (a b m : ℕ) (num : Text) (specs : List Text) (raw : Option Text)
    → IsStandard a b num specs
    → 2 + length specs ≤ m
    → canonize (standard a b num specs raw) (defaults m) ≡ a ∷ b ∷ b'-' ∷ (num ++ tail_text specs)
unfolding canonize
canonize-standard a b m num specs raw v k =
    let more : ltb 1 m ≡ true = ground arith in
    let two : ltb 1 (suc (suc (length specs))) ≡ true = ground arith in
    rw (two, more)
      (ap (λ t. canon_from (full m) 2 (a ∷ b ∷ b'-' ∷ t) specs)
          (canon_spec-digits m num v.filled v.digits)
        ∙ canon_from-tail_text m 2 (a ∷ b ∷ b'-' ∷ num) specs (omega arith) (omega arith))

-- What stands behind the number begins with a space, if anything does.
abbrev StartsNoDigit : Text → Type 0
StartsNoDigit [] = Unit
StartsNoDigit (c ∷ s) = is_digit c ≡ false

tail_text-StartsNoDigit : (specs : List Text) → StartsNoDigit (tail_text specs)
unfolding tail_text
tail_text-StartsNoDigit [] = tt
tail_text-StartsNoDigit (spec ∷ specs) = elim (Bool-cases (parses_as_int spec)) [
  | inl e ↦ rw e refl
  | inr e ↦ rw e refl
]

take_while-digits :
    (num s : Text)
    → all is_digit num ≡ true
    → StartsNoDigit s
    → take_while is_digit (num ++ s) ≡ num
unfolding take_while
take_while-digits [] [] h k = refl
take_while-digits [] (c ∷ s) h k = ground arith
take_while-digits (d ∷ num) s h k = ground (arith, take_while-digits num s (ground arith) k)

drop_while-digits :
    (num s : Text) → all is_digit num ≡ true → StartsNoDigit s → drop_while is_digit (num ++ s) ≡ s
unfolding drop_while
drop_while-digits [] [] h k = refl
drop_while-digits [] (c ∷ s) h k = ground arith
drop_while-digits (d ∷ num) s h k = ground (arith, drop_while-digits num s (ground arith) k)

is_spec_sep_of-is_line_end : (c : ℕ) → is_line_end c ≡ true → is_spec_sep c ≡ true
unfolding is_spec_sep
is_spec_sep_of-is_line_end c h = ground arith

any-append :
    (p : ℕ → Bool) (s t : Text) → any p s ≡ false → any p t ≡ false → any p (s ++ t) ≡ false
any-append p [] t h k = k
any-append p (c ∷ s) t h k = ground (arith, any-append p s t (ground arith) k)

no_line_end : (spec : Text) → any is_spec_sep spec ≡ false → any is_line_end spec ≡ false
no_line_end [] h = refl
no_line_end (c ∷ spec) h =
    ground (arith, is_spec_sep_of-is_line_end c, no_line_end spec (ground arith))

written-no_line_end :
    (spec : Text) → any is_line_end spec ≡ false → any is_line_end (written spec) ≡ false
written-no_line_end spec h = elim (Bool-cases (parses_as_int spec)) [
  | inl e ↦ rw e (any-append is_line_end spec (b')' ∷ []) h refl)
  | inr e ↦ rw e (any-append is_line_end spec (b'.' ∷ []) h refl)
]

tail_text-no_line_end :
    (specs : List Text) → All IsSpec specs → any is_line_end (tail_text specs) ≡ false
unfolding tail_text
tail_text-no_line_end [] h = refl
tail_text-no_line_end (spec ∷ specs) (v, h) =
    any-append is_line_end (written spec) (tail_text specs)
      (written-no_line_end spec (no_line_end spec v.whole)) (tail_text-no_line_end specs h)

match_number-standard :
    (fam num : Text) (specs : List Text)
    → is_empty num ≡ false
    → all is_digit num ≡ true
    → All IsSpec specs
    → length (tail_text specs) ≤ 60
    → match_number fam (num ++ tail_text specs)
      ≡ some (record { family = fam; control_num = num; subspecs_raw = tail_text specs })
unfolding match_number
match_number-standard fam num specs h k v l =
    let short : leb (length (tail_text specs)) 60 ≡ true = ground arith in
    rw
      (
        take_while-digits num (tail_text specs) k (tail_text-StartsNoDigit specs),
        drop_while-digits num (tail_text specs) k (tail_text-StartsNoDigit specs),
        h,
        short,
        tail_text-no_line_end specs v,
      )
      refl

-- The third unit of a control is no letter of "rev".
match_rev-dash : (a b : ℕ) (s : Text) → match_rev (a ∷ b ∷ b'-' ∷ s) ≡ none
unfolding match_rev
match_rev-dash a b s = ground arith

match_control-dash :
    (a b : ℕ) (s : Text)
    → is_upper a ≡ true
    → is_upper b ≡ true
    → match_control (a ∷ b ∷ b'-' ∷ s) ≡ match_number (a ∷ b ∷ []) s
unfolding match_control
match_control-dash a b s h k = rw (h, k) refl

control_of_match-standard :
    (raw fam num : Text) (specs : List Text)
    → All IsSpec specs
    → control_of_match raw
        (record { family = fam; control_num = num; subspecs_raw = tail_text specs })
      ≡ record { sub_specifiers = fam ∷ num ∷ specs; raw_text = some raw }
unfolding control_of_match
control_of_match-standard raw fam num specs v =
    ap (λ ss. record { sub_specifiers = fam ∷ num ∷ ss; raw_text = some raw })
      (words-trim (tail_text specs) ∙ words-tail_text specs v)

parse_nist-standard :
    (a b : ℕ) (num : Text) (specs : List Text)
    → IsStandard a b num specs
    → length (tail_text specs) ≤ 60
    → parse_nist (a ∷ b ∷ b'-' ∷ (num ++ tail_text specs))
      ≡ control (standard a b num specs (some (a ∷ b ∷ b'-' ∷ (num ++ tail_text specs))))
unfolding parse_nist parse_control match_family parse_full
parse_nist-standard a b num specs v l =
    rw
      (
        match_rev-dash a b (num ++ tail_text specs),
        match_control-dash a b (num ++ tail_text specs) v.family_a v.family_b,
        match_number-standard (a ∷ b ∷ []) num specs v.filled v.digits v.whole l,
        parse_nist,
        parse_full,
      )
      (ap control (control_of_match-standard _ (a ∷ b ∷ []) num specs v.whole))

-- parse_nist reads the canonical text of a standard control back to the same sub-specifiers, if
-- the limit leaves none of them out and what is written behind the number has at most 60 units.
pub parse_nist-canonize :
    (a b m : ℕ) (num : Text) (specs : List Text) (raw : Option Text)
    → IsStandard a b num specs
    → 2 + length specs ≤ m
    → length (canonize (standard a b num specs raw) (defaults m)) ≤ 63 + length num
    → parse_nist (canonize (standard a b num specs raw) (defaults m))
      ≡ control (standard a b num specs (some (canonize (standard a b num specs raw) (defaults m))))
parse_nist-canonize a b m num specs raw v k l =
    let text = canonize-standard a b m num specs raw v k in
    rw text (
      parse_nist-standard a b num specs v
        (omega (arith, ap length text, length-append num (tail_text specs))))
