-- ===== src/Tests/SplunkRuns.antt =====
-- Runs of the search for reports at concrete events.
use security_scan.Prelude.{
  ℕ, zero, suc, ◌<◌, ◌≡◌, ◌≢◌, refl, String, none, some, List, [], ◌∷◌, put_key, get_key, codes,
  arith,
}
use security_scan.FileParse.{Parsers}
use security_scan.Splunk.{
  ExecutionMetaInfo, ControlPayload, ProfilePayload, ExecutionPayload, UnknownPayload, header_event,
  profile_event, control_event, guid_of, group_item, map_hash, consolidate_file_payloads,
  consolidate_payloads,
}
use security_scan.Splunk.Grouping.{keys_from}
use security_scan.Splunk.Consolidation.{assembled_all, consolidate_payloads-assembled}
use security_scan.Splunk.Client.{
  Settled, resolved, rejected, other_error, response, type_error, bad_auth, bad_network, JobStatus,
  succeeded, pending, process_error, status_of_state, or_failed, dispatch_state, pend_job,
}
use security_scan.Filters.{includes_text}
use security_scan.Splunk.Jobs.{pend_job_settles}
use security_scan.Splunk.Executions.{outcome}

abbrev file_of : String → ExecutionMetaInfo
file_of guid = record {
  filename = "scan.json";
  filetype = "evaluation";
  guid = guid;
  parse_time = "";
  hdf_splunk_schema = "1.0";
}

abbrev header_of : String → ExecutionPayload
header_of guid = record { meta = file_of guid; profiles = []; rest = 0 }

abbrev profile_of : String → String → ProfilePayload
profile_of guid sha = record {
  meta = record { file = file_of guid; profile_sha256 = sha };
  controls = [];
  rest = 1;
}

abbrev control_of : String → String → String → ControlPayload
control_of guid sha id = record {
  meta = record { file = file_of guid; profile_sha256 = sha; start_time = ""; control_id = id };
  rest = 2;
}

-- Two files; the controls stand before what holds them, and one has no profile.
abbrev events : List UnknownPayload
events =
    control_event (control_of "g1" "ab" "V-1")
    ∷ profile_event (profile_of "g1" "ab")
    ∷ header_event (header_of "g2")
    ∷ control_event (control_of "g1" "cd" "V-2")
    ∷ header_event (header_of "g1")
    ∷ []

consolidated_run :
    consolidate_payloads events
    ≡ some (
        record (header_of "g1") {
          profiles =
              record (profile_of "g1" "ab") { controls = control_of "g1" "ab" "V-1" ∷ [] } ∷ [];
        }
        ∷ header_of "g2"
        ∷ [])
unfolding consolidate_payloads consolidate_file_payloads group_item map_hash put_key get_key
consolidated_run = refl

consolidate_payloads-assembled_example :
    consolidate_payloads events ≡ assembled_all events (keys_from guid_of [] events)
consolidate_payloads-assembled_example = consolidate_payloads-assembled events

-- A control has no header among the events of its file.
abbrev headless : List UnknownPayload
headless = control_event (control_of "g1" "ab" "V-1") ∷ []

abbrev parsers : Parsers String String String
parsers = record {
  to_exec_json = λ text. some text;
  to_exec_json_min = λ text. none;
  to_profile_json = λ text. none;
}

abbrev as_text : ExecutionPayload → String
as_text e = e.meta.guid

headless_run : outcome parsers as_text headless ≡ rejected other_error
headless_run = refl

error_run : process_error (response 401) ≡ bad_auth
unfolding process_error
error_run = refl

network_run : process_error (type_error (codes "a NetworkError")) ≡ bad_network
unfolding process_error includes_text
network_run = refl

-- Two checks find the job pending.
abbrev check : ℕ → Settled JobStatus
check zero = resolved pending
check (suc zero) = resolved pending
check (suc (suc n)) = resolved succeeded

check-before : (i : ℕ) → i < 2 → check i ≡ resolved pending
check-before zero h = refl
check-before (suc zero) h = refl
check-before (suc (suc i)) h = absurd (omega (arith, h))

check-done : check 2 ≢ resolved pending
check-done h = ground (arith, h)

pend_job_settles_example : pend_job check 3 0 ≡ some (check 2)
pend_job_settles_example = pend_job_settles check 2 3 check-before check-done (omega arith)

state_run :
    status_of_state
      (or_failed (dispatch_state none (("label", some "x") ∷ ("dispatchState", some "DONE") ∷ [])))
    ≡ succeeded
unfolding status_of_state
state_run = refl
