-- ===== src/Nist/Parse.antt =====
-- parse_nist of libs/inspecjs/src/nist.ts. Each regular expression is written out as the matcher
-- that it stands for: its classes are disjoint where one repetition follows another, so that the
-- greedy match is the only one.
pub mod RoundTrip
pub mod Words
use security_scan.Prelude.{
  ℕ, zero, suc, ◌+◌, ◌-◌, ◌*◌, Bool, true, false, ◌&&◌, ◌||◌, not, Option, none, some, List, [],
  ◌∷◌, ◌++◌, leb, ◌==◌, if◌then◌else◌, all, any, filter, is_empty, length, Text, is_upper, is_digit,
  is_line_end, is_space, trim,
}
use security_scan.Nist.{NistControl, NistRevision}

pub data ParseNist : Type 0 where
  control : NistControl → ParseNist
  revision : NistRevision → ParseNist
  nothing : ParseNist

-- a letter of a regular expression with the flag `i`, by its lower-case code
abbrev same_letter : ℕ → ℕ → Bool
same_letter lower c = c == lower || c + 32 == lower

abbrev is_rev_sep : ℕ → Bool
is_rev_sep c = is_space c || c == b'_' || c == b'.'

-- the rest of the text behind the longest run of the class
unfoldable pub drop_while : (ℕ → Bool) → Text → Text
drop_while p [] = []
drop_while p (c ∷ s) = let rest = drop_while p s in if p c then rest else c ∷ s

unfoldable pub take_while : (ℕ → Bool) → Text → Text
take_while p [] = []
take_while p (c ∷ s) = let rest = take_while p s in if p c then c ∷ rest else []

-- `[\s_.]+(\d+)$`, from its start
unfoldable pub match_rev_tail : Text → Option Text
unfolding drop_while is_space
match_rev_tail [] = none
match_rev_tail (c ∷ s) =
    let digits = drop_while is_rev_sep s in
    if is_rev_sep c && not (is_empty digits) && all is_digit digits then some digits else none

-- REV_RE, giving its group 1
unfoldable pub match_rev : Text → Option Text
unfolding match_rev_tail
match_rev (r ∷ e ∷ v ∷ tail) =
    if same_letter b'r' r && same_letter b'e' e && same_letter b'v' v
    then match_rev_tail tail
    else none
match_rev _ = none

-- Number.parseInt of a text of decimal digits, exact up to 2 ^ 53
unfoldable pub decimal : ℕ → Text → ℕ
decimal n [] = n
decimal n (c ∷ s) = decimal (n * 10 + (c - b'0')) s

-- NIST_FAMILY_RE
unfoldable pub match_family : Text → Bool
match_family (a ∷ b ∷ []) = is_upper a && is_upper b
match_family _ = false

-- the groups of NIST_CONTROL_RE
pub record ControlMatch : Type 0 where
  pub family : Text
  pub control_num : Text
  pub subspecs_raw : Text

-- `([0-9]+)(.{0,60})$`, from its start
unfoldable pub match_number : Text → Text → Option ControlMatch
unfolding take_while drop_while
match_number fam s =
    let num = take_while is_digit s in
    let tail = drop_while is_digit s in
    if not (is_empty num) && leb (length tail) 60 && not (any is_line_end tail)
    then some (record { family = fam; control_num = num; subspecs_raw = tail })
    else none

-- NIST_CONTROL_RE
unfoldable pub match_control : Text → Option ControlMatch
unfolding match_number
match_control (a ∷ b ∷ dash ∷ s) =
    if is_upper a && is_upper b && dash == b'-' then match_number (a ∷ b ∷ []) s else none
match_control _ = none

-- SPEC_SPLITTER's class
unfoldable pub is_spec_sep : ℕ → Bool
unfolding is_space
is_spec_sep c = is_space c || c == b'(' || c == b')' || c == b'.'

-- `split(SPEC_SPLITTER)`: the pieces between the longest runs of separators. `sep` tells that the
-- last unit was a separator, and `cur` is the piece so far.
unfoldable pub split_specs : Bool → Text → Text → List Text
split_specs sep cur [] = cur ∷ []
split_specs sep cur (c ∷ s) =
    let cur' = if is_spec_sep c then (if sep then cur else []) else cur ++ c ∷ [] in
    let rest = split_specs (is_spec_sep c) cur' s in
    if is_spec_sep c && not sep then cur ∷ rest else rest

abbrev pub non_empty : Text → Bool
non_empty s = not (is_empty s)

unfoldable pub control_of_match : Text → ControlMatch → NistControl
unfolding split_specs is_spec_sep trim
control_of_match raw m = record {
  sub_specifiers =
      m.family ∷ m.control_num ∷ filter non_empty (split_specs false [] (trim m.subspecs_raw));
  raw_text = some raw;
}

unfoldable pub parse_full : Text → ParseNist
parse_full raw = elim (match_control raw) [
  | none ↦ nothing
  | some m ↦ control (control_of_match raw m)
]

unfoldable pub parse_control : Text → ParseNist
parse_control raw =
    if match_family raw
    then control (record { sub_specifiers = raw ∷ []; raw_text = some raw })
    else parse_full raw

unfoldable pub parse_nist : Text → ParseNist
parse_nist raw = elim (match_rev raw) [
  | some digits ↦ revision (record { rev_num = decimal 0 digits })
  | none ↦ parse_control raw
]
