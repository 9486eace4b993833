-- ===== src/Convert/ExecJson.antt =====
-- The typeMap of heimdall2-master/libs/inspecjs/src/generated_parsers/v_1_0/exec-json.ts: the types of
-- a report, and the conversion of its text, whose reader JSON.parse and writer JSON.stringify are
-- arguments.
use security_scan.Prelude.{ℕ, String, Option, List, [], ◌∷◌}
use security_scan.Convert.{
  Value, Schema, a, u, o, m, r, any_type, null_type, undefined_type, text_type, number_type,
  boolean_type, enum,
}
use security_scan.Convert.Transform.{Converted, find_type, read_as, write_as}

abbrev platform_family : String
platform_family = "platform-family"

abbrev platform_name : String
platform_name = "platform-name"

abbrev exec_json_type : Schema
exec_json_type =
    o
      (("platform", "platform", r "Platform")
        ∷ ("profiles", "profiles", a (r "ExecJSONProfile"))
        ∷ ("statistics", "statistics", r "Statistics")
        ∷ ("version", "version", text_type)
        ∷ [])
      any_type

abbrev platform_type : Schema
platform_type =
    o
      (("name", "name", text_type)
        ∷ ("release", "release", text_type)
        ∷ ("target_id", "target_id", u (undefined_type ∷ u (null_type ∷ text_type ∷ []) ∷ []))
        ∷ [])
      any_type

abbrev profile_type : Schema
profile_type =
    o
      (("attributes", "attributes", a (m any_type))
        ∷ ("controls", "controls", a (r "ExecJSONControl"))
        ∷ ("copyright", "copyright", u (undefined_type ∷ u (null_type ∷ text_type ∷ []) ∷ []))
        ∷ (
          "copyright_email",
          "copyright_email",
          u (undefined_type ∷ u (null_type ∷ text_type ∷ []) ∷ []),
        )
        ∷ ("depends", "depends", u (undefined_type ∷ u (a (r "Dependency") ∷ null_type ∷ []) ∷ []))
        ∷ ("description", "description", u (undefined_type ∷ u (null_type ∷ text_type ∷ []) ∷ []))
        ∷ ("groups", "groups", a (r "ControlGroup"))
        ∷ (
          "inspec_version",
          "inspec_version",
          u (undefined_type ∷ u (null_type ∷ text_type ∷ []) ∷ []),
        )
        ∷ ("license", "license", u (undefined_type ∷ u (null_type ∷ text_type ∷ []) ∷ []))
        ∷ ("maintainer", "maintainer", u (undefined_type ∷ u (null_type ∷ text_type ∷ []) ∷ []))
        ∷ ("name", "name", text_type)
        ∷ (
          "parent_profile",
          "parent_profile",
          u (undefined_type ∷ u (null_type ∷ text_type ∷ []) ∷ []),
        )
        ∷ ("sha256", "sha256", text_type)
        ∷ ("skip_message", "skip_message", u (undefined_type ∷ u (null_type ∷ text_type ∷ []) ∷ []))
        ∷ ("status", "status", u (undefined_type ∷ u (null_type ∷ text_type ∷ []) ∷ []))
        ∷ ("summary", "summary", u (undefined_type ∷ u (null_type ∷ text_type ∷ []) ∷ []))
        ∷ ("supports", "supports", a (r "SupportedPlatform"))
        ∷ ("title", "title", u (undefined_type ∷ u (null_type ∷ text_type ∷ []) ∷ []))
        ∷ ("version", "version", u (undefined_type ∷ u (null_type ∷ text_type ∷ []) ∷ []))
        ∷ [])
      any_type

abbrev control_type : Schema
control_type =
    o
      (("code", "code", u (undefined_type ∷ u (null_type ∷ text_type ∷ []) ∷ []))
        ∷ ("desc", "desc", u (undefined_type ∷ u (null_type ∷ text_type ∷ []) ∷ []))
        ∷ (
          "descriptions",
          "descriptions",
          u (undefined_type ∷ u (a (r "ControlDescription") ∷ null_type ∷ []) ∷ []),
        )
        ∷ ("id", "id", text_type)
        ∷ ("impact", "impact", number_type)
        ∷ ("refs", "refs", a (r "Reference"))
        ∷ ("results", "results", a (r "ControlResult"))
        ∷ ("source_location", "source_location", r "SourceLocation")
        ∷ ("tags", "tags", m any_type)
        ∷ ("title", "title", u (undefined_type ∷ u (null_type ∷ text_type ∷ []) ∷ []))
        ∷ (
          "waiver_data",
          "waiver_data",
          u (undefined_type ∷ u (null_type ∷ r "WaiverData" ∷ []) ∷ []),
        )
        ∷ [])
      any_type

abbrev description_type : Schema
description_type = o (("data", "data", text_type) ∷ ("label", "label", text_type) ∷ []) any_type

abbrev reference_type : Schema
reference_type =
    o
      (("ref", "ref", u (undefined_type ∷ u (a (m any_type) ∷ text_type ∷ []) ∷ []))
        ∷ ("url", "url", u (undefined_type ∷ text_type ∷ []))
        ∷ ("uri", "uri", u (undefined_type ∷ text_type ∷ []))
        ∷ [])
      any_type

abbrev result_type : Schema
result_type =
    o
      (("backtrace", "backtrace", u (undefined_type ∷ u (a text_type ∷ null_type ∷ []) ∷ []))
        ∷ ("code_desc", "code_desc", text_type)
        ∷ ("exception", "exception", u (undefined_type ∷ u (null_type ∷ text_type ∷ []) ∷ []))
        ∷ ("message", "message", u (undefined_type ∷ u (null_type ∷ text_type ∷ []) ∷ []))
        ∷ ("resource", "resource", u (undefined_type ∷ u (null_type ∷ text_type ∷ []) ∷ []))
        ∷ ("run_time", "run_time", u (undefined_type ∷ u (number_type ∷ null_type ∷ []) ∷ []))
        ∷ ("skip_message", "skip_message", u (undefined_type ∷ u (null_type ∷ text_type ∷ []) ∷ []))
        ∷ ("start_time", "start_time", text_type)
        ∷ (
          "status",
          "status",
          u (undefined_type ∷ u (r "ControlResultStatus" ∷ null_type ∷ []) ∷ []),
        )
        ∷ [])
      any_type

abbrev source_location_type : Schema
source_location_type =
    o
      (("line", "line", u (undefined_type ∷ u (number_type ∷ null_type ∷ []) ∷ []))
        ∷ ("ref", "ref", u (undefined_type ∷ u (null_type ∷ text_type ∷ []) ∷ []))
        ∷ [])
      any_type

abbrev waiver_type : Schema
waiver_type =
    o
      ((
        "expiration_date",
        "expiration_date",
        u (undefined_type ∷ u (null_type ∷ text_type ∷ []) ∷ []),
      )
        ∷ (
          "justification",
          "justification",
          u (undefined_type ∷ u (null_type ∷ text_type ∷ []) ∷ []),
        )
        ∷ ("message", "message", u (undefined_type ∷ u (null_type ∷ text_type ∷ []) ∷ []))
        ∷ ("run", "run", u (undefined_type ∷ u (boolean_type ∷ null_type ∷ []) ∷ []))
        ∷ (
          "skipped_due_to_waiver",
          "skipped_due_to_waiver",
          u (undefined_type ∷ u (boolean_type ∷ null_type ∷ text_type ∷ []) ∷ []),
        )
        ∷ [])
      any_type

abbrev dependency_type : Schema
dependency_type =
    o
      (("branch", "branch", u (undefined_type ∷ u (null_type ∷ text_type ∷ []) ∷ []))
        ∷ ("compliance", "compliance", u (undefined_type ∷ u (null_type ∷ text_type ∷ []) ∷ []))
        ∷ ("git", "git", u (undefined_type ∷ u (null_type ∷ text_type ∷ []) ∷ []))
        ∷ ("name", "name", u (undefined_type ∷ u (null_type ∷ text_type ∷ []) ∷ []))
        ∷ ("path", "path", u (undefined_type ∷ u (null_type ∷ text_type ∷ []) ∷ []))
        ∷ ("skip_message", "skip_message", u (undefined_type ∷ u (null_type ∷ text_type ∷ []) ∷ []))
        ∷ ("status", "status", u (undefined_type ∷ u (null_type ∷ text_type ∷ []) ∷ []))
        ∷ ("supermarket", "supermarket", u (undefined_type ∷ u (null_type ∷ text_type ∷ []) ∷ []))
        ∷ ("url", "url", u (undefined_type ∷ u (null_type ∷ text_type ∷ []) ∷ []))
        ∷ [])
      any_type

abbrev group_type : Schema
group_type =
    o
      (("controls", "controls", a text_type)
        ∷ ("id", "id", text_type)
        ∷ ("title", "title", u (undefined_type ∷ u (null_type ∷ text_type ∷ []) ∷ []))
        ∷ [])
      any_type

abbrev supported_platform_type : Schema
supported_platform_type =
    o
      (("os-family", "os-family", u (undefined_type ∷ u (null_type ∷ text_type ∷ []) ∷ []))
        ∷ ("os-name", "os-name", u (undefined_type ∷ u (null_type ∷ text_type ∷ []) ∷ []))
        ∷ ("platform", "platform", u (undefined_type ∷ u (null_type ∷ text_type ∷ []) ∷ []))
        ∷ (
          platform_family,
          platform_family,
          u (undefined_type ∷ u (null_type ∷ text_type ∷ []) ∷ []),
        )
        ∷ (platform_name, platform_name, u (undefined_type ∷ u (null_type ∷ text_type ∷ []) ∷ []))
        ∷ ("release", "release", u (undefined_type ∷ u (null_type ∷ text_type ∷ []) ∷ []))
        ∷ [])
      any_type

abbrev statistics_type : Schema
statistics_type =
    o
      (("controls", "controls", u (undefined_type ∷ u (null_type ∷ r "StatisticHash" ∷ []) ∷ []))
        ∷ ("duration", "duration", u (undefined_type ∷ u (number_type ∷ null_type ∷ []) ∷ []))
        ∷ [])
      any_type

abbrev statistic_hash_type : Schema
statistic_hash_type =
    o
      (("failed", "failed", u (undefined_type ∷ u (null_type ∷ r "StatisticBlock" ∷ []) ∷ []))
        ∷ ("passed", "passed", u (undefined_type ∷ u (null_type ∷ r "StatisticBlock" ∷ []) ∷ []))
        ∷ ("skipped", "skipped", u (undefined_type ∷ u (null_type ∷ r "StatisticBlock" ∷ []) ∷ []))
        ∷ [])
      any_type

abbrev statistic_block_type : Schema
statistic_block_type = o (("total", "total", number_type) ∷ []) any_type

abbrev status_type : Schema
status_type = enum ("error" ∷ "failed" ∷ "passed" ∷ "skipped" ∷ [])

abbrev type_table : List (String × Schema)
type_table =
    ("ExecJSON", exec_json_type)
    ∷ ("Platform", platform_type)
    ∷ ("ExecJSONProfile", profile_type)
    ∷ ("ExecJSONControl", control_type)
    ∷ ("ControlDescription", description_type)
    ∷ ("Reference", reference_type)
    ∷ ("ControlResult", result_type)
    ∷ ("SourceLocation", source_location_type)
    ∷ ("WaiverData", waiver_type)
    ∷ ("Dependency", dependency_type)
    ∷ ("ControlGroup", group_type)
    ∷ ("SupportedPlatform", supported_platform_type)
    ∷ ("Statistics", statistics_type)
    ∷ ("StatisticHash", statistic_hash_type)
    ∷ ("StatisticBlock", statistic_block_type)
    ∷ ("ControlResultStatus", status_type)
    ∷ []

unfoldable pub type_map : String → Option Schema
type_map name = find_type type_table name

-- More than the types nest: the references of the map make no cycle.
abbrev pub depth : ℕ
depth = 16

-- Convert.toExecJSON
abbrev pub to_exec_json : (String → Option Value) → String → Converted Value
to_exec_json = read_as type_map depth "ExecJSON"

-- Convert.execJSONToJson
abbrev pub exec_json_to_json : (Value → String) → Value → Converted String
exec_json_to_json = write_as type_map depth "ExecJSON"
