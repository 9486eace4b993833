-- ===== src/Convert/ExecJsonMin.antt =====
-- The typeMap of heimdall2-master/libs/inspecjs/src/generated_parsers/v_1_0/exec-jsonmin.ts: the types of
-- a minimal report, and the conversion of its text, whose reader JSON.parse and writer JSON.stringify are
-- arguments.
use security_scan.Prelude.{ℕ, String, Option, List, [], ◌∷◌}
use security_scan.Convert.{
  Value, Schema, a, u, o, r, any_type, null_type, undefined_type, text_type, number_type,
}
use security_scan.Convert.Transform.{Converted, find_type, read_as, write_as}

abbrev exec_jsonmin_type : Schema
exec_jsonmin_type =
    o
      (("controls", "controls", a (r "ExecJSONMINControl"))
        ∷ ("statistics", "statistics", r "Statistics")
        ∷ ("version", "version", text_type)
        ∷ [])
      any_type

abbrev min_control_type : Schema
min_control_type =
    o
      (("backtrace", "backtrace", u (undefined_type ∷ u (a text_type ∷ null_type ∷ []) ∷ []))
        ∷ ("code_desc", "code_desc", text_type)
        ∷ ("exception", "exception", u (undefined_type ∷ u (null_type ∷ text_type ∷ []) ∷ []))
        ∷ ("id", "id", text_type)
        ∷ ("message", "message", u (undefined_type ∷ u (null_type ∷ text_type ∷ []) ∷ []))
        ∷ ("profile_id", "profile_id", u (undefined_type ∷ u (null_type ∷ text_type ∷ []) ∷ []))
        ∷ ("profile_sha256", "profile_sha256", text_type)
        ∷ ("resource", "resource", u (undefined_type ∷ u (null_type ∷ text_type ∷ []) ∷ []))
        ∷ ("skip_message", "skip_message", u (undefined_type ∷ u (null_type ∷ text_type ∷ []) ∷ []))
        ∷ ("status", "status", text_type)
        ∷ [])
      any_type

abbrev statistics_type : Schema
statistics_type =
    o
      (("controls", "controls", u (undefined_type ∷ u (null_type ∷ r "StatisticHash" ∷ []) ∷ []))
        ∷ ("duration", "duration", u (undefined_type ∷ u (number_type ∷ null_type ∷ []) ∷ []))
        ∷ [])
      any_type

abbrev statistic_hash_type : Schema
statistic_hash_type =
    o
      (("failed", "failed", u (undefined_type ∷ u (null_type ∷ r "StatisticBlock" ∷ []) ∷ []))
        ∷ ("passed", "passed", u (undefined_type ∷ u (null_type ∷ r "StatisticBlock" ∷ []) ∷ []))
        ∷ ("skipped", "skipped", u (undefined_type ∷ u (null_type ∷ r "StatisticBlock" ∷ []) ∷ []))
        ∷ [])
      any_type

abbrev statistic_block_type : Schema
statistic_block_type = o (("total", "total", number_type) ∷ []) any_type

abbrev type_table : List (String × Schema)
type_table =
    ("ExecJsonmin", exec_jsonmin_type)
    ∷ ("ExecJSONMINControl", min_control_type)
    ∷ ("Statistics", statistics_type)
    ∷ ("StatisticHash", statistic_hash_type)
    ∷ ("StatisticBlock", statistic_block_type)
    ∷ []

unfoldable pub type_map : String → Option Schema
type_map name = find_type type_table name

-- More than the types nest: the references of the map make no cycle.
abbrev pub depth : ℕ
depth = 16

-- Convert.toExecJsonmin
abbrev pub to_exec_jsonmin : (String → Option Value) → String → Converted Value
to_exec_jsonmin = read_as type_map depth "ExecJsonmin"

-- Convert.execJsonminToJson
abbrev pub exec_jsonmin_to_json : (Value → String) → Value → Converted String
exec_jsonmin_to_json = write_as type_map depth "ExecJsonmin"
