-- ===== src/Convert/ProfileJson.antt =====
-- The typeMap of heimdall2-master/libs/inspecjs/src/generated_parsers/v_1_0/profile-json.ts: the types of
-- a profile, and the conversion of its text, whose reader JSON.parse and writer JSON.stringify are
-- arguments.
use security_scan.Prelude.{ℕ, String, Option, List, [], ◌∷◌}
use security_scan.Convert.{
  Value, Schema, a, u, o, m, r, any_type, null_type, undefined_type, text_type, number_type,
}
use security_scan.Convert.Transform.{Converted, find_type, read_as, write_as}

abbrev platform_family : String
platform_family = "platform-family"

abbrev platform_name : String
platform_name = "platform-name"

abbrev profile_json_type : Schema
profile_json_type =
    o
      (("controls", "controls", a (r "ProfileJSONControl"))
        ∷ ("copyright", "copyright", u (undefined_type ∷ u (null_type ∷ text_type ∷ []) ∷ []))
        ∷ (
          "copyright_email",
          "copyright_email",
          u (undefined_type ∷ u (null_type ∷ text_type ∷ []) ∷ []),
        )
        ∷ ("depends", "depends", u (undefined_type ∷ u (a (r "Dependency") ∷ null_type ∷ []) ∷ []))
        ∷ ("generator", "generator", u (undefined_type ∷ u (null_type ∷ r "Generator" ∷ []) ∷ []))
        ∷ ("groups", "groups", a (r "ControlGroup"))
        ∷ ("inputs", "inputs", u (undefined_type ∷ u (a (m any_type) ∷ null_type ∷ []) ∷ []))
        ∷ ("maintainer", "maintainer", u (undefined_type ∷ u (null_type ∷ text_type ∷ []) ∷ []))
        ∷ ("name", "name", text_type)
        ∷ ("sha256", "sha256", text_type)
        ∷ ("status", "status", u (undefined_type ∷ u (null_type ∷ text_type ∷ []) ∷ []))
        ∷ ("supports", "supports", a (r "SupportedPlatform"))
        ∷ ("title", "title", u (undefined_type ∷ u (null_type ∷ text_type ∷ []) ∷ []))
        ∷ ("version", "version", u (undefined_type ∷ u (null_type ∷ text_type ∷ []) ∷ []))
        ∷ [])
      any_type

abbrev profile_control_type : Schema
profile_control_type =
    o
      (("code", "code", text_type)
        ∷ ("desc", "desc", u (undefined_type ∷ u (null_type ∷ text_type ∷ []) ∷ []))
        ∷ (
          "descriptions",
          "descriptions",
          u (undefined_type ∷ u (m any_type ∷ null_type ∷ []) ∷ []),
        )
        ∷ ("id", "id", text_type)
        ∷ ("impact", "impact", number_type)
        ∷ ("refs", "refs", u (undefined_type ∷ u (a (r "Reference") ∷ null_type ∷ []) ∷ []))
        ∷ (
          "source_location",
          "source_location",
          u (undefined_type ∷ u (null_type ∷ r "SourceLocation" ∷ []) ∷ []),
        )
        ∷ ("tags", "tags", m any_type)
        ∷ ("title", "title", u (undefined_type ∷ u (null_type ∷ text_type ∷ []) ∷ []))
        ∷ [])
      any_type

abbrev reference_type : Schema
reference_type =
    o
      (("ref", "ref", u (undefined_type ∷ u (a (m any_type) ∷ text_type ∷ []) ∷ []))
        ∷ ("url", "url", u (undefined_type ∷ text_type ∷ []))
        ∷ ("uri", "uri", u (undefined_type ∷ text_type ∷ []))
        ∷ [])
      any_type

abbrev source_location_type : Schema
source_location_type =
    o
      (("line", "line", u (undefined_type ∷ u (number_type ∷ null_type ∷ []) ∷ []))
        ∷ ("ref", "ref", u (undefined_type ∷ u (null_type ∷ text_type ∷ []) ∷ []))
        ∷ [])
      any_type

abbrev dependency_type : Schema
dependency_type =
    o
      (("branch", "branch", u (undefined_type ∷ u (null_type ∷ text_type ∷ []) ∷ []))
        ∷ ("compliance", "compliance", u (undefined_type ∷ u (null_type ∷ text_type ∷ []) ∷ []))
        ∷ ("git", "git", u (undefined_type ∷ u (null_type ∷ text_type ∷ []) ∷ []))
        ∷ ("name", "name", u (undefined_type ∷ u (null_type ∷ text_type ∷ []) ∷ []))
        ∷ ("path", "path", u (undefined_type ∷ u (null_type ∷ text_type ∷ []) ∷ []))
        ∷ ("skip_message", "skip_message", u (undefined_type ∷ u (null_type ∷ text_type ∷ []) ∷ []))
        ∷ ("status", "status", u (undefined_type ∷ u (null_type ∷ text_type ∷ []) ∷ []))
        ∷ ("supermarket", "supermarket", u (undefined_type ∷ u (null_type ∷ text_type ∷ []) ∷ []))
        ∷ ("url", "url", u (undefined_type ∷ u (null_type ∷ text_type ∷ []) ∷ []))
        ∷ [])
      any_type

abbrev generator_type : Schema
generator_type = o (("name", "name", text_type) ∷ ("version", "version", text_type) ∷ []) any_type

abbrev group_type : Schema
group_type =
    o
      (("controls", "controls", a text_type)
        ∷ ("id", "id", text_type)
        ∷ ("title", "title", u (undefined_type ∷ u (null_type ∷ text_type ∷ []) ∷ []))
        ∷ [])
      any_type

abbrev supported_platform_type : Schema
supported_platform_type =
    o
      (("os-family", "os-family", u (undefined_type ∷ u (null_type ∷ text_type ∷ []) ∷ []))
        ∷ ("os-name", "os-name", u (undefined_type ∷ u (null_type ∷ text_type ∷ []) ∷ []))
        ∷ ("platform", "platform", u (undefined_type ∷ u (null_type ∷ text_type ∷ []) ∷ []))
        ∷ (
          platform_family,
          platform_family,
          u (undefined_type ∷ u (null_type ∷ text_type ∷ []) ∷ []),
        )
        ∷ (platform_name, platform_name, u (undefined_type ∷ u (null_type ∷ text_type ∷ []) ∷ []))
        ∷ ("release", "release", u (undefined_type ∷ u (null_type ∷ text_type ∷ []) ∷ []))
        ∷ [])
      any_type

abbrev type_table : List (String × Schema)
type_table =
    ("ProfileJSON", profile_json_type)
    ∷ ("ProfileJSONControl", profile_control_type)
    ∷ ("Reference", reference_type)
    ∷ ("SourceLocation", source_location_type)
    ∷ ("Dependency", dependency_type)
    ∷ ("Generator", generator_type)
    ∷ ("ControlGroup", group_type)
    ∷ ("SupportedPlatform", supported_platform_type)
    ∷ []

unfoldable pub type_map : String → Option Schema
type_map name = find_type type_table name

-- More than the types nest: the references of the map make no cycle.
abbrev pub depth : ℕ
depth = 16

-- Convert.toProfileJSON
abbrev pub to_profile_json : (String → Option Value) → String → Converted Value
to_profile_json = read_as type_map depth "ProfileJSON"

-- Convert.profileJSONToJson
abbrev pub profile_json_to_json : (Value → String) → Value → Converted String
profile_json_to_json = write_as type_map depth "ProfileJSON"
