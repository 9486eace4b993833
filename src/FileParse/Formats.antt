-- ===== src/FileParse/Formats.antt =====
-- heimdall2-master/libs/inspecjs/src/fileparse.ts with the parsers of
-- heimdall2-master/libs/inspecjs/src/generated_parsers/v_1_0. JSON.parse is an argument.
use security_scan.Prelude.{◌≡◌, String, Bool, Option, none, some}
use security_scan.FileParse.{
  Parsers, ConversionResult, exec_json, exec_json_min, profile_json, kept_errors, convert_file,
}
use security_scan.Convert.{Value, r}
use security_scan.Convert.Transform.{Converted, done, invalid_value, out_of_fuel}
use security_scan.Convert.Conforms.{Conforms}
use security_scan.Convert.Fits.{exec_json_fits, exec_jsonmin_fits, profile_json_fits}
use security_scan.Convert.Decides.{Decides, accepts, rejects}
use security_scan.Convert.Typed.{read_as-Decides}
use security_scan.Convert.ExecJson
use security_scan.Convert.ExecJsonMin
use security_scan.Convert.ProfileJson

-- What `try` keeps of a conversion.
abbrev pub if_done : Converted Value → Option Value
if_done (done v) = some v
if_done invalid_value = none
if_done out_of_fuel = none

abbrev pub generated_parsers : (String → Option Value) → Parsers Value Value Value
generated_parsers json_parse = record {
  to_exec_json = λ text. if_done (ExecJson.to_exec_json json_parse text);
  to_exec_json_min = λ text. if_done (ExecJsonMin.to_exec_jsonmin json_parse text);
  to_profile_json = λ text. if_done (ProfileJson.to_profile_json json_parse text);
}

abbrev pub IsExecJson : Value → Type 0
IsExecJson v = Conforms ExecJson.type_map v (r "ExecJSON")

abbrev pub IsExecJsonmin : Value → Type 0
IsExecJsonmin v = Conforms ExecJsonMin.type_map v (r "ExecJsonmin")

abbrev pub IsProfileJson : Value → Type 0
IsProfileJson v = Conforms ProfileJson.type_map v (r "ProfileJSON")

-- The first of the three formats that a value has, with what it is converted to.
pub data Classified (v : Value) (keep_errors : Bool)
    : Option (ConversionResult Value Value Value) → Type 0 where
  as_exec_json :
      {w : Value} → IsExecJson v → IsExecJson w → Classified v keep_errors (some (exec_json w))
  as_exec_jsonmin :
      {w : Value}
      → ¬ IsExecJson v
      → IsExecJsonmin v
      → IsExecJsonmin w
      → Classified v keep_errors (some (exec_json_min w))
  as_profile_json :
      {w : Value}
      → ¬ IsExecJson v
      → ¬ IsExecJsonmin v
      → IsProfileJson v
      → IsProfileJson w
      → Classified v keep_errors (some (profile_json w))
  as_none :
      ¬ IsExecJson v
      → ¬ IsExecJsonmin v
      → ¬ IsProfileJson v
      → Classified v keep_errors (kept_errors keep_errors)

module _ (json_parse : String → Option Value) (text : String) (v : Value) (keep : Bool) where
  abbrev convert_with :
      Converted Value
      → Converted Value
      → Converted Value
      → Option (ConversionResult Value Value Value)
  convert_with a b c =
      convert_file
        (record {
          to_exec_json = λ t. if_done a;
          to_exec_json_min = λ t. if_done b;
          to_profile_json = λ t. if_done c;
        })
        text keep

  classify :
      {a b c : Converted Value}
      → Decides (IsExecJson v) IsExecJson a
      → Decides (IsExecJsonmin v) IsExecJsonmin b
      → Decides (IsProfileJson v) IsProfileJson c
      → Classified v keep (convert_with a b c)
  unfolding convert_file
  classify (accepts p q) b c = as_exec_json p q
  classify (rejects n) (accepts p q) c = as_exec_jsonmin n p q
  classify (rejects n) (rejects m) (accepts p q) = as_profile_json n m p q
  classify (rejects n) (rejects m) (rejects k) = as_none n m k

-- A text that JSON.parse reads is converted by the first format whose type its value has: a full report,
-- a minimal report, a profile. The result is of that type. If the value has none of the types, the
-- errors are the result if they are asked for, and it throws otherwise.
pub convert_file-Classified :
    (json_parse : String → Option Value) (text : String) (v : Value) (keep_errors : Bool)
    → json_parse text ≡ some v
    → Classified v keep_errors (convert_file (generated_parsers json_parse) text keep_errors)
unfolding convert_file
convert_file-Classified json_parse text v keep_errors h =
    classify json_parse text v keep_errors
      (read_as-Decides ExecJson.type_map ExecJson.depth "ExecJSON" exec_json_fits json_parse text v
        h)
      (read_as-Decides ExecJsonMin.type_map ExecJsonMin.depth "ExecJsonmin" exec_jsonmin_fits
        json_parse text v h)
      (read_as-Decides ProfileJson.type_map ProfileJson.depth "ProfileJSON" profile_json_fits
        json_parse text v h)
