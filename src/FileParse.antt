-- ===== src/FileParse.antt =====
-- heimdall2-master/libs/inspecjs/src/fileparse.ts: which of the generated parsers reads a text. The
-- parsers, and what they give, are arguments; one that throws gives nothing. For the contextual result
-- they give what is read of a report. FileParse/Formats puts the parsers of Convert in.
pub mod Formats
use security_scan.Prelude.Int.{ℤ}
use security_scan.Prelude.{String, Bool, true, false, Option, none, some, List, Text}
use security_scan.Context.{
  ReportProfile, ContextualizedEvaluation, contextualize_evaluation, contextualize_profile,
}

-- The parsers of the three formats.
pub record Parsers (Exec Min Profile : Type 0) : Type 0 where
  pub to_exec_json : String → Option Exec
  pub to_exec_json_min : String → Option Min
  pub to_profile_json : String → Option Profile

pub data ConversionResult (Exec Min Profile : Type 0) : Type 0 where
  exec_json : Exec → ConversionResult Exec Min Profile
  exec_json_min : Min → ConversionResult Exec Min Profile
  profile_json : Profile → ConversionResult Exec Min Profile
  errors : ConversionResult Exec Min Profile

abbrev pub kept_errors :
    {Exec Min Profile : Type 0} → Bool → Option (ConversionResult Exec Min Profile)
kept_errors true = some errors
kept_errors false = none

-- nothing if it throws
unfoldable pub convert_file :
    {Exec Min Profile : Type 0}
    → Parsers Exec Min Profile
    → String
    → Bool
    → Option (ConversionResult Exec Min Profile)
convert_file parsers text keep_errors = elim (parsers.to_exec_json text) [
  | some report ↦ some (exec_json report)
  | none ↦ elim (parsers.to_exec_json_min text) [
    | some report ↦ some (exec_json_min report)
    | none ↦ elim (parsers.to_profile_json text) [
      | some p ↦ some (profile_json p)
      | none ↦ kept_errors keep_errors
    ]
  ]
]

pub data Contextual : Type 0 where
  an_evaluation : ContextualizedEvaluation → Contextual
  a_profile : ContextualizedEvaluation → Contextual

abbrev pub contextual :
    {Min : Type 0}
    → (Text → Text → ℤ)
    → Option (ConversionResult (List ReportProfile) Min ReportProfile)
    → Option Contextual
contextual locale_compare none = none
contextual locale_compare (some (exec_json report)) =
    some (an_evaluation (contextualize_evaluation locale_compare report))
contextual locale_compare (some (profile_json p)) =
    some (a_profile (contextualize_profile locale_compare p))
contextual locale_compare (some (exec_json_min report)) = none
contextual locale_compare (some errors) = none

-- convertFileContextual; nothing if it throws
unfoldable pub convert_file_contextual :
    {Min : Type 0}
    → (Text → Text → ℤ)
    → Parsers (List ReportProfile) Min ReportProfile
    → String
    → Option Contextual
unfolding convert_file contextualize_evaluation contextualize_profile
convert_file_contextual locale_compare parsers text =
    contextual locale_compare (convert_file parsers text true)
