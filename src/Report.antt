-- ===== src/Report.antt =====
-- The controls of an InSpec report, as heimdall2-master/libs/inspecjs/src/generated_parsers/v_1_0/exec-json.ts
-- and profile-json.ts declare them, less the fields never read here, and the segments and severities
-- of compat_wrappers.ts. An impact is a decimal between 0 and 1; it is counted in units of 10^-15,
-- which is exact for every literal of at most fifteen places.
use security_scan.Prelude.{
  ℕ, String, Bool, Option, none, some, List, str_eq, if◌then◌else◌, ◌==◌, Text,
}

-- `?: null | T`
pub data Nullable {ℓ} (A : Type ℓ) : Type ℓ where
  given : A → Nullable A
  null undefined : Nullable A

-- as a template literal prints it
abbrev pub printed : Nullable String → String
printed (given s) = s
printed null = "null"
printed undefined = "undefined"

-- `x || undefined` on strings
abbrev pub or_undefined : Nullable String → Option String
or_undefined (given s) = if str_eq s "" then none else some s
or_undefined null = none
or_undefined undefined = none

abbrev pub or_text : Nullable String → String → String
or_text (given s) d = if str_eq s "" then d else s
or_text null d = d
or_text undefined d = d

-- `x || undefined` on numbers, at the zero of the type
abbrev pub or_undefined_number : Nullable ℕ → Option ℕ
or_undefined_number (given n) = if n == 0 then none else some n
or_undefined_number null = none
or_undefined_number undefined = none

-- `x || undefined` on arrays, which are never falsy
abbrev pub or_undefined_array : Nullable (List String) → Option (List String)
or_undefined_array (given l) = some l
or_undefined_array null = none
or_undefined_array undefined = none

pub data Severity : Type 0 where
  no_severity low medium high critical : Severity

pub data SegmentStatus : Type 0 where
  segment_passed segment_failed skipped error no_status : SegmentStatus

pub data ResultStatus : Type 0 where
  result_error result_failed result_passed result_skipped : ResultStatus

pub record ControlResult : Type 0 where
  pub backtrace : Nullable (List String)
  pub code_desc : String
  pub exception : Nullable String
  pub message : Nullable String
  pub resource : Nullable String
  pub run_time : Nullable ℕ
  pub skip_message : Nullable String
  pub start_time : String
  pub status : Nullable ResultStatus

pub record ControlDescription : Type 0 where
  pub label : String
  pub contents : String

-- The value under the key `nist` of the tags is an array of strings, or falsy.
pub record ExecJsonControl : Type 0 where
  pub id : String
  pub title : Nullable String
  pub code : Nullable String
  pub desc : Nullable String
  pub impact : ℕ
  pub nist : Option (List Text)
  pub results : List ControlResult
  pub descriptions : Option (List ControlDescription)
  -- whether `waiver_data` is there and its `skipped_due_to_waiver` is truthy
  pub skipped_due_to_waiver : Bool

-- A value in the descriptions of a profile control: a string or something else.
pub data DescriptionValue : Type 0 where
  text_value : String → DescriptionValue
  other_value : DescriptionValue

pub record ProfileJsonControl : Type 0 where
  pub id : String
  pub title : Nullable String
  pub code : Nullable String
  pub desc : Nullable String
  pub impact : ℕ
  pub nist : Option (List Text)
  pub descriptions : Option (List (String × DescriptionValue))

pub record Segment : Type 0 where
  pub status : SegmentStatus
  pub message : Option String
  pub code_desc : String
  pub skip_message : Option String
  pub exception : Option String
  pub backtrace : Option (List String)
  pub start_time : String
  pub run_time : Option ℕ
  pub resource : Option String
