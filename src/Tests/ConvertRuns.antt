-- ===== src/Tests/ConvertRuns.antt =====
-- Runs of the conversion of reports at concrete values.
use security_scan.Prelude.{◌≡◌, refl, String, true, false, Option, none, some}
use security_scan.Convert.{
  Value, null_value, number, string, array, object, no_elements, element, no_properties, property,
  r, put_prop, own, entry_of,
}
use security_scan.Convert.Transform.{done, invalid_value, transform}
use security_scan.Convert.Conforms.{Conforms}
use security_scan.Convert.Decides.{Decides}
use security_scan.FileParse.{convert_file}
use security_scan.FileParse.Formats.{Classified, generated_parsers, convert_file-Classified}
use security_scan.Convert.ExecJson
use security_scan.Convert.ExecJsonMin
use security_scan.Convert.ProfileJson
use security_scan.Convert.ExecJson.{type_map, to_exec_json, exec_json_to_json}
use security_scan.Convert.Typed.{to_exec_json-Decides}

abbrev result : Value
result = object (
    property "code_desc" (string "port 22") (
      property "status" (string "passed") (
        property "start_time" (string "2020-01-01")
          (property "run_time" (number "0.01") no_properties))))

-- A report with one control; its result may be any value.
abbrev report : Value → Value
report first_result = object (
    property "version" (string "4.18") (
      property "platform"
        (object
          (property "name" (string "ubuntu") (property "release" (string "18.04") no_properties)))
        (property "profiles"
          (array (
            element
              (object (
                property "name" (string "baseline") (
                  property "sha256" (string "ab12") (
                    property "attributes" (array no_elements) (
                      property "groups" (array no_elements) (
                        property "supports" (array no_elements) (
                          property "controls" (array (element (control first_result) no_elements))
                            no_properties)))))))
              no_elements))
          (property "statistics" (object no_properties)
            (property "source" null_value no_properties)))))
  where
    control : Value → Value
    control first_result = object (
        property "id" (string "V-1") (
          property "impact" (number "0.7") (
            property "refs" (array no_elements) (
              property "results" (array (element first_result no_elements)) (
                property "source_location" (object no_properties) (
                  property "tags" (object (property "nist" null_value no_properties))
                    no_properties))))))

abbrev parsed : String → Option Value
parsed text = some (report result)

abbrev as_text : Value → String
as_text v = "{}"

-- The properties that are not there come back as undefined.
abbrev converted : Value
converted = elim (to_exec_json parsed "{}") [ done v ↦ v | other ↦ null_value ]

-- A result without its description.
refused_run : to_exec_json (λ text. some (report (object no_properties))) "{}" ≡ invalid_value
unfolding type_map transform put_prop own entry_of
refused_run = refl

to_exec_json-Decides_example :
    Decides
      (Conforms type_map (report result) (r "ExecJSON"))
      (λ w. Conforms type_map w (r "ExecJSON"))
      (to_exec_json parsed "{}")
to_exec_json-Decides_example = to_exec_json-Decides parsed "{}" (report result) refl

convert_file-Classified_example :
    Classified (report result) true (convert_file (generated_parsers parsed) "{}" true)
convert_file-Classified_example = convert_file-Classified parsed "{}" (report result) true refl

-- A report that lacks its statistics is of no format.
unreadable_run :
    convert_file (generated_parsers (λ text. some (object no_properties))) "{}" false ≡ none
unfolding convert_file ExecJson.type_map ExecJsonMin.type_map ProfileJson.type_map transform
    put_prop own entry_of
unreadable_run = refl
