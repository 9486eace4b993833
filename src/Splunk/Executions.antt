-- ===== src/Splunk/Executions.antt =====
-- get_execution of heimdall2-master/apps/frontend/src/utilities/splunk_util.ts on the events of one GUID,
-- which are what its search asks for.
use security_scan.Prelude.{◌≡◌, String, false, Option, none, some, List, [], ◌∷◌, In}
use security_scan.FileParse.{Parsers, convert_file}
use security_scan.Splunk.{UnknownPayload, ExecutionPayload, guid_of}
use security_scan.Splunk.Consolidation.{assembled}
use security_scan.Splunk.Client.{
  Settled, rejected, error_code, other_error, invalid_guid, as_execution,
}

abbrev pub SameGuid : String → List UnknownPayload → Type 0
SameGuid g ps = (p : UnknownPayload) → In p ps → guid_of p ≡ g

-- What is made of the report that the events give.
abbrev pub execution_of :
    {Exec Min Profile : Type 0}
    → Parsers Exec Min Profile
    → (ExecutionPayload → String)
    → Option ExecutionPayload
    → Settled Exec
execution_of parsers json_stringify none = rejected other_error
execution_of parsers json_stringify (some e) =
    as_execution (convert_file parsers (json_stringify e) false)

abbrev pub outcome :
    {Exec Min Profile : Type 0}
    → Parsers Exec Min Profile
    → (ExecutionPayload → String)
    → List UnknownPayload
    → Settled Exec
outcome parsers json_stringify [] = rejected (error_code invalid_guid)
outcome parsers json_stringify (p ∷ ps) = execution_of parsers json_stringify (assembled (p ∷ ps))

abbrev alone : Option ExecutionPayload → Option (List ExecutionPayload)
alone none = none
alone (some e) = some (e ∷ [])
