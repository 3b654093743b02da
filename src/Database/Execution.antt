-- ===== src/Database/Execution.antt =====
-- `FakeExecutionRepository` of src/conversation_agent/database/fake_execution.py: one action for
-- each method, over the staged tables.
pub mod Lifecycle
pub mod Finding
use safety_grounded_agent.Prelude.{
  ℕ, ◌+◌, String, Bool, true, false, not, ◌||◌, Option, none, some, List, [], ◌∷◌, ◌++◌, any,
  is_some, ◌==◌, string_has_eq, nat_has_eq, if◌then◌else◌,
}
use safety_grounded_agent.Dict.{get, put}
use safety_grounded_agent.Time.{Datetime}
use safety_grounded_agent.Database.Errors.{
  Error, Action, pure, raise, gets, or_raise, modify, raise_if, ◌>>=◌, ◌>>◌,
}
use safety_grounded_agent.Database.Records.{
  NewAgentRequest, NewAgentRun, NewAuditEvent, PersistedAgentRequestRef,
}
use safety_grounded_agent.Database.State.{ExecutionState, RequestItem}

-- The staged tables, and what the test harness gives each repository: the log of the calls and
-- the names of the calls that are to fail.
pub record Repository : Type 0 where
  pub state : ExecutionState
  pub operation_log : List String
  pub fail_operations : List String

-- `_record`
unfoldable pub log_operation : String → Action Repository Unit
log_operation operation = do
  modify (λ r. record r { operation_log = r.operation_log ++ operation ∷ [] })
  fail_operations ← gets (λ (r : Repository). r.fail_operations)
  raise_if (any (λ name. name == operation) fail_operations) Error.persistence_write

abbrev request_ref : NewAgentRequest → ℕ → PersistedAgentRequestRef
request_ref new database_id = record {
  database_id = database_id;
  request_id = new.request_id;
  status = new.status;
  trace_id = some new.trace_id;
  session_id = new.session_id;
}

abbrev add_request : NewAgentRequest → ExecutionState → ExecutionState
add_request new s = record s {
  next_request_id = s.next_request_id + 1;
  requests =
      put new.request_id
        (record {
          database_id = s.next_request_id;
          new_record = new;
          status = new.status;
          completed_at = new.completed_at;
          failure_code = new.failure_code;
        })
        s.requests;
}

-- `create_request` on the tables.
unfoldable pub insert_request : NewAgentRequest → Action ExecutionState PersistedAgentRequestRef
insert_request new s =
    (raise_if (is_some (get new.request_id s.requests)) Error.duplicate_request
        >> modify (add_request new)
        >> pure (request_ref new s.next_request_id))
      s

-- `get_request_for_update` on the tables.
unfoldable pub select_request : String → Action ExecutionState PersistedAgentRequestRef
select_request request_id = do
  item ← or_raise (← gets (λ s. get request_id s.requests)) Error.request_not_found
  raise_if (not (item.status == "in_progress")) Error.invalid_request_transition
  pure (record {
    database_id = item.database_id;
    request_id = request_id;
    status = item.status;
    trace_id = some item.new_record.trace_id;
    session_id = item.new_record.session_id;
  })

-- `create_run` on the tables: a request has one run.
unfoldable pub insert_run : NewAgentRun → Action ExecutionState ℕ
insert_run new s =
    (raise_if
          (is_some (get new.run_id s.runs)
            || any
                (λ e. e.1.new_record.original_request_record_id == new.original_request_record_id)
                s.runs)
          Error.persistence_conflict
        >> modify (λ s. record s {
          next_run_id = s.next_run_id + 1;
          runs = put new.run_id (record { database_id = s.next_run_id; new_record = new }) s.runs;
        })
        >> pure s.next_run_id)
      s

-- `_finalize`
unfoldable pub finalize :
    PersistedAgentRequestRef → String → Datetime → Option String → Action ExecutionState Unit
finalize request status completed_at failure_code = do
  item ← or_raise (← gets (λ s. get request.request_id s.requests)) Error.invalid_request_transition
  raise_if (not (item.status == "in_progress")) Error.invalid_request_transition
  modify (λ s. record s {
    requests =
        put request.request_id
          (record item {
            status = status;
            completed_at = some completed_at;
            failure_code = failure_code;
          })
          s.requests;
  })

-- `create_audit_event` on the tables.
unfoldable pub insert_audit : NewAuditEvent → Action ExecutionState ℕ
insert_audit new s =
    (raise_if (any (λ a. a.new_record.event_id == new.event_id) s.audits) Error.persistence_conflict
        >> modify (λ s. record s {
          next_audit_id = s.next_audit_id + 1;
          audits = s.audits ++ (record { database_id = s.next_audit_id; new_record = new }) ∷ [];
        })
        >> pure s.next_audit_id)
      s

-- A method: the call is logged, and it may be made to fail, before the tables are touched.
unfoldable pub logged : {A : Type 0} → String → Action ExecutionState A → Action Repository A
unfolding log_operation
logged operation body =
    log_operation operation >> λ r. let out = body r.state in (out.0, record r { state = out.1 })

unfoldable pub create_request : NewAgentRequest → Action Repository PersistedAgentRequestRef
unfolding logged insert_request
create_request new = logged "create_request" (insert_request new)

unfoldable pub get_request_for_update : String → Action Repository PersistedAgentRequestRef
unfolding logged select_request
get_request_for_update request_id = logged "get_request_for_update" (select_request request_id)

unfoldable pub create_run : NewAgentRun → Action Repository ℕ
unfolding logged insert_run
create_run new = logged "create_run" (insert_run new)

unfoldable pub finalize_request_completed :
    PersistedAgentRequestRef → Datetime → Action Repository Unit
unfolding logged finalize
finalize_request_completed request completed_at =
    logged "finalize_request_completed" (finalize request "completed" completed_at none)

unfoldable pub finalize_request_failed :
    PersistedAgentRequestRef → Datetime → String → Action Repository Unit
unfolding logged finalize
finalize_request_failed request completed_at failure_code =
    logged "finalize_request_failed" (finalize request "failed" completed_at (some failure_code))

unfoldable pub create_audit_event : NewAuditEvent → Action Repository ℕ
unfolding logged insert_audit
create_audit_event new = logged "create_audit_event" (insert_audit new)
