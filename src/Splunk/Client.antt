-- ===== src/Splunk/Client.antt =====
-- The class SplunkEndpoint and process_error of
-- heimdall2-master/apps/frontend/src/utilities/splunk_util.ts. What the server answers and what the parsers of
-- XML and JSON give are arguments; a promise is what it settles to. The delay between two checks is left
-- out.
use security_scan.Prelude.{
  ℕ, zero, suc, String, Bool, false, not, Option, none, some, List, [], ◌∷◌, str_eq, ◌==◌,
  if◌then◌else◌, Text, codes,
}
use security_scan.Filters.{includes_text}
use security_scan.FileParse.{
  Parsers, ConversionResult, convert_file, exec_json, exec_json_min, profile_json, errors,
}
use security_scan.Splunk.{
  UnknownPayload, header_event, profile_event, control_event, ExecutionPayload, ExecutionMetaInfo,
  consolidate_payloads,
}

pub data SplunkErrorCode : Type 0 where
  bad_network bad_url page_not_found bad_auth search_failed : SplunkErrorCode
  consolidation_failed schema_violation invalid_guid unknown_error : SplunkErrorCode

-- What the code throws: a TypeError with its message, a response with its status, a code, or an Error.
pub data Thrown : Type 0 where
  type_error : Text → Thrown
  response : ℕ → Thrown
  error_code : SplunkErrorCode → Thrown
  other_error : Thrown

unfoldable pub process_error : Thrown → SplunkErrorCode
unfolding includes_text
process_error (type_error message) =
    if includes_text (codes "NetworkError") message
    then bad_network
    else if includes_text (codes "not a valid URL") message
    then bad_url
    else unknown_error
process_error (response status) =
    if status == 401 then bad_auth else if status == 404 then page_not_found else unknown_error
process_error (error_code c) = c
process_error other_error = unknown_error

pub data Settled (A : Type 0) : Type 0 where
  resolved : A → Settled A
  rejected : Thrown → Settled A

abbrev pub and_then : {A B : Type 0} → Settled A → (A → Settled B) → Settled B
and_then (resolved a) next = next a
and_then (rejected e) next = rejected e

-- `.catch((error) => { throw process_error(error); })`
abbrev pub with_code : {A : Type 0} → Settled A → Settled A
with_code (resolved a) = resolved a
with_code (rejected e) = rejected (error_code (process_error e))

pub record Response : Type 0 where
  pub ok : Bool
  pub status : ℕ
  pub body : String

unfoldable pub process_response : Response → Settled String
unfolding process_error
process_response r =
    if not r.ok then rejected (error_code (process_error (response r.status))) else resolved r.body

-- check_auth
unfoldable pub check_auth : Settled Response → Settled (Unit {0})
unfolding process_error
check_auth (resolved r) =
    if not r.ok then rejected (error_code (process_error (response r.status))) else resolved tt
check_auth (rejected e) = rejected (error_code (process_error e))

pub data JobStatus : Type 0 where
  succeeded failed pending : JobStatus

-- The last key named dispatchState, with its text.
abbrev pub dispatch_state : Option String → List (String × Option String) → Option String
dispatch_state state [] = state
dispatch_state state ((name, value) ∷ keys) =
    dispatch_state (if str_eq name "dispatchState" then value else state) keys

-- `if (!state) state = 'FAILED'`
abbrev pub or_failed : Option String → String
or_failed none = "FAILED"
or_failed (some s) = if str_eq s "" then "FAILED" else s

unfoldable pub status_of_state : String → JobStatus
status_of_state state =
    if str_eq state "DONE" then succeeded else if str_eq state "FAILED" then failed else pending

-- The parsers: of the job id and of the keys of a job in XML, of the raw results, and of an event.
pub record Readers : Type 0 where
  pub sid_of : String → Settled String
  pub keys_of : String → Settled (List (String × Option String))
  pub raws_of : String → Settled (List String)
  pub parse_event : String → Option UnknownPayload

-- The answers of the server to the requests of a search. The checks of the job are counted from 0.
pub record Answers : Type 0 where
  pub on_create : Settled Response
  pub on_check : String → ℕ → Settled Response
  pub on_results : String → Settled Response

module _ (readers : Readers) (answers : Answers) where
  unfoldable pub create_search : Settled String
  unfolding process_response
  create_search = and_then (and_then answers.on_create process_response) readers.sid_of

  unfoldable pub check_job : String → ℕ → Settled JobStatus
  unfolding process_response status_of_state
  check_job job_id k = and_then (and_then (answers.on_check job_id k) process_response) (λ text.
      and_then (readers.keys_of text)
        (λ keys. resolved (status_of_state (or_failed (dispatch_state none keys)))))

  abbrev pub parse_events : List String → List UnknownPayload
  parse_events [] = []
  parse_events (v ∷ raws) = elim (readers.parse_event v) [
    | none ↦ parse_events raws
    | some e ↦ e ∷ parse_events raws
  ]

  unfoldable pub get_search_results : String → Settled (List UnknownPayload)
  unfolding process_response
  get_search_results job_id =
      and_then (and_then (answers.on_results job_id) process_response)
        (λ text. and_then (readers.raws_of text) (λ raws. resolved (parse_events raws)))

-- The loop of pend_job over its checks, from the check `k` on; nothing while the job is pending.
unfoldable pub pend_job : (ℕ → Settled JobStatus) → ℕ → ℕ → Option (Settled JobStatus)
pend_job check zero k = none
pend_job check (suc fuel) k =
    let rest = pend_job check fuel (suc k) in
    elim (check k) [
      | rejected e ↦ some (rejected e)
      | resolved s ↦ elim s [
        | succeeded ↦ some (resolved succeeded)
        | failed ↦ some (resolved failed)
        | pending ↦ rest
      ]
    ]

-- What follows the wait.
abbrev pub results_of_job : Readers → Answers → String → JobStatus → Settled (List UnknownPayload)
results_of_job readers answers job_id succeeded = get_search_results readers answers job_id
results_of_job readers answers job_id failed = rejected (error_code search_failed)
results_of_job readers answers job_id pending = get_search_results readers answers job_id

-- Nothing while the job is pending.
unfoldable pub hdf_event_search : Readers → Answers → ℕ → Option (Settled (List UnknownPayload))
unfolding create_search pend_job check_job get_search_results process_error
hdf_event_search readers answers fuel = elim (create_search readers answers) [
  | rejected e ↦ some (with_code (rejected e))
  | resolved job_id ↦ elim (pend_job (check_job readers answers job_id) fuel 0) [
    | none ↦ none
    | some job_state ↦ some (with_code (and_then job_state (results_of_job readers answers job_id)))
  ]
]

abbrev pub metas : List UnknownPayload → List ExecutionMetaInfo
metas [] = []
metas (header_event e ∷ ps) = e.meta ∷ metas ps
metas (profile_event p ∷ ps) = p.meta.file ∷ metas ps
metas (control_event c ∷ ps) = c.meta.file ∷ metas ps

-- fetch_execution_list, from the events of the search
unfoldable pub fetch_execution_list :
    Settled (List UnknownPayload) → Settled (List ExecutionMetaInfo)
fetch_execution_list events = and_then events (λ es. resolved (metas es))

-- `execs.length !== 1`
abbrev pub only_execution : Option (List ExecutionPayload) → Settled ExecutionPayload
only_execution none = rejected other_error
only_execution (some []) = rejected (error_code invalid_guid)
only_execution (some (e ∷ [])) = resolved e
only_execution (some (e ∷ f ∷ es)) = rejected (error_code invalid_guid)

-- `result['1_0_ExecJson']`; a conversion that throws is nothing
abbrev pub as_execution :
    {Exec Min Profile : Type 0} → Option (ConversionResult Exec Min Profile) → Settled Exec
as_execution none = rejected (error_code schema_violation)
as_execution (some (exec_json report)) = resolved report
as_execution (some (exec_json_min report)) = rejected (error_code schema_violation)
as_execution (some (profile_json p)) = rejected (error_code schema_violation)
as_execution (some errors) = rejected (error_code schema_violation)

-- get_execution, from the events of the search
unfoldable pub get_execution :
    {Exec Min Profile : Type 0}
    → Parsers Exec Min Profile
    → (ExecutionPayload → String)
    → Settled (List UnknownPayload)
    → Settled Exec
unfolding consolidate_payloads convert_file
get_execution parsers json_stringify events =
    and_then (and_then events (λ es. only_execution (consolidate_payloads es)))
      (λ full_event. as_execution (convert_file parsers (json_stringify full_event) false))
