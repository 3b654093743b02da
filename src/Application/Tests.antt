-- ===== src/Application/Tests.antt =====
-- The services on small inputs.
use safety_grounded_agent.Prelude.{
  ℕ, ◌≡◌, ◌≢◌, ◌↔◌, refl, String, Bool, true, none, some, [], ◌∷◌, arith,
}
use safety_grounded_agent.Text.{codes}
use safety_grounded_agent.Time.{utc}
use safety_grounded_agent.Json.{null}
use safety_grounded_agent.Policy.Models.{decision, safe, hundredths}
use safety_grounded_agent.Authorization.Models.{Principal, AuthorizationDecision}
use safety_grounded_agent.Runtime.{RequestContext}
use safety_grounded_agent.Orchestration.Models.{OrchestrationResult, default_metadata}
use safety_grounded_agent.Database.Errors.{Error, Action, ok, err, rescue}
use safety_grounded_agent.Database.Records.{
  IdempotencyScope, IdempotencyClaimToken, PersistedAgentRequestRef,
}
use safety_grounded_agent.Database.Records.Checks.{default_policy}
use safety_grounded_agent.Database.State.{empty_state, IdempotencyItem, RequestItem}
use safety_grounded_agent.Database.Idempotency.{
  validate, require_time, has_owner, valid_version, terminal_state_ok,
}
use safety_grounded_agent.Database.Execution.{
  create_request, create_audit_event, create_run, finalize_request_failed,
  finalize_request_completed, get_request_for_update, select_request, logged, log_operation,
  insert_request, insert_audit, insert_run, finalize,
}
use safety_grounded_agent.Database.Claims.{
  claim, claim_new, claim_stored, claim_known, claim_same, claim_active, request_ref, new_item,
  assert_current_owner, complete_fenced,
}
use safety_grounded_agent.Database.UnitOfWork.{
  Factory, new_factory, with_uow, enter, leave, commit, on_claims, on_repository,
}
use safety_grounded_agent.Database.UnitOfWork.Transactions.{settled}
use safety_grounded_agent.Application.Models.{
  ApplicationResult, finished, crashed, IdempotentApplicationResult, result_of, executed, replayed,
}
use safety_grounded_agent.Application.Mappers.{Codec, map_request, request_fingerprint, require}
use safety_grounded_agent.Application.Idempotent.{
  Service, ReplayMapper, Call, Readings, owner, scope_of, claim_and_accept, answer_decision,
  accept_owner, finalize_reclaimed_owner, claim_request_of, request_record_of,
}
use safety_grounded_agent.Application.Execute.{
  accept, execute, initialization_error, conclude, finalize_result, finalize_failed,
}
use safety_grounded_agent.Application.Execute.Replays.{execute_replays}
use safety_grounded_agent.Application.Execute.Outcomes.{execute_raises_named, may_leave}
use safety_grounded_agent.Application.Durable
use safety_grounded_agent.Application.Durable.{Durable}
use safety_grounded_agent.Application.Durable.Outcomes.{execute_raises, is_service_error}
use safety_grounded_agent.Application.Gateway
use safety_grounded_agent.Application.Gateway.{
  Gateway, PersistenceMode, IdempotencyHeaderMode, returned, no_persistence,
}
use safety_grounded_agent.Application.Gateway.Exact.{with_key_exact, IsCalled}
use safety_grounded_agent.Application.Execute.Stale.{stale_execute}
use safety_grounded_agent.Application.Atomic.{accept_atomic, finalize_atomic}
use safety_grounded_agent.Application.Transactions.{
  publishes, claim_step, store_result, store_failure,
}

abbrev codec : Codec
codec = record { sha256 = λ _. "digest"; dumps = λ _. []; of_codes = λ _. "text" }

abbrev principal : Principal
principal = record {
  tenant_id = "tenant";
  organization_id = "org";
  user_id = "user";
  display_name = none;
  email = none;
  department_id = none;
  team_id = none;
  region_id = none;
  roles = [];
  groups = [];
  enabled = true;
}

abbrev authorization : AuthorizationDecision
authorization = record {
  allowed = true;
  code = "allowed";
  reason = "";
  permissions = [];
  resource_scopes = [];
}

abbrev context : String → RequestContext
context request_id = record {
  request_id = request_id;
  trace_id = "trace";
  session_id = "session";
  principal = principal;
  authorization = authorization;
  versions = record {
    application_version = "1";
    policy_version = "1";
    rag_contract_version = "1";
    crm_connector_version = "1";
    authorization_policy_version = "1";
  };
  received_at = utc 0;
  idempotency_key = some "key";
}

abbrev orchestration : OrchestrationResult
orchestration = record {
  session_id = "session";
  user_input = codes "hi";
  policy = decision safe "ok" (hundredths 72);
  intent_result = none;
  task_route = none;
  final_response = "hello";
  rag_result = none;
  citations = [];
  confidence = hundredths 60;
  trace = [];
  metadata = default_metadata (utc 0);
  timestamp = utc 0;
}

abbrev result : ApplicationResult
result = record { context = context "first"; orchestration = orchestration }

abbrev mapper : ReplayMapper
mapper = record {
  snapshot = λ _. ok null;
  restore = λ snapshot version c text at restored. ok result;
}

abbrev service : Service
service = record {
  codec = codec;
  policy = default_policy;
  replay_mapper = mapper;
  chat = λ request c task. finished result;
}

abbrev call : String → Call
call request_id = record {
  request = record { text = codes "hi"; task_override = none; session_id = none };
  context = context request_id;
  operation = "chat";
  idempotency_key = "key";
  forced_task = none;
}

-- Readings at an instant, with identifiers that begin alike.
abbrev readings : ℕ → String → String → Readings
readings now event run = record {
  accepted_at = utc now;
  claimed_at = utc now;
  reclaim_run_id = "reclaimed run";
  reclaim_event_id = "reclaimed event";
  accept_event_id = event;
  restored_at = utc 3;
  run_id = run;
  run_started_at = utc now;
  run_completed_at = utc now;
  finish_event_id = "finished";
  finished_at = utc now;
}

abbrev fresh : Factory
fresh = new_factory empty_state

abbrev first : Readings
first = readings 0 "event 1" "run 1"

accept_atomic_example :
    (
      (accept service (call "first") first fresh).0,
      (accept service (call "first") first fresh).1.state,
    )
    ≡ rescue initialization_error
        (λ _. settled publishes fresh (claim_step service (call "first") first fresh.state))
        fresh.state
accept_atomic_example = accept_atomic service (call "first") first fresh refl

abbrev scope : IdempotencyScope
scope = scope_of service (call "first")

abbrev token : IdempotencyClaimToken
token = record {
  idempotency_record_id = 1;
  scope = scope;
  owner_request_id = "first";
  claim_version = 1;
  claimed_at = utc 0;
  lease_expires_at = utc 60000000;
}

abbrev request : PersistedAgentRequestRef
request = record {
  database_id = 1;
  request_id = "first";
  status = "in_progress";
  trace_id = some "trace";
  session_id = some "session";
}

-- The factory once the first request is accepted.
abbrev accepted_factory : Factory
accepted_factory = (accept service (call "first") first fresh).1

accepted_test :
    accept service (call "first") first fresh ≡ (ok (owner token request), accepted_factory)
unfolding accept claim_and_accept answer_decision accept_owner map_request request_fingerprint claim
    claim_new with_uow enter leave commit on_claims on_repository create_request create_audit_event
    logged log_operation insert_request insert_audit
accepted_test = refl

-- While the first request runs, its lease ends and a second one takes the claim over.
abbrev takeover : Factory → Factory
takeover f = (accept service (call "second") (readings 61000000 "event 2" "run 2") f).1

stale_execute_example :
    ((execute service takeover (call "first") first fresh).0 ≡ err Error.persistence_finalization)
    × ((execute service takeover (call "first") first fresh).1.state
        ≡ (takeover accepted_factory).state)
unfolding accept claim_and_accept answer_decision accept_owner map_request request_fingerprint claim
    claim_new with_uow enter leave commit on_claims on_repository create_request create_audit_event
    logged log_operation insert_request insert_audit claim_stored claim_known claim_same
    claim_active request_ref validate require_time has_owner valid_version terminal_state_ok
    finalize_reclaimed_owner require create_run finalize_request_failed insert_run finalize
stale_execute_example =
    stale_execute service takeover (call "first") first fresh accepted_factory token request
      (record { allowed = refl; has_key = refl; accepted_utc = refl }) refl refl accepted_test refl
      (omega arith)

abbrev item : IdempotencyItem
item = new_item 1 (claim_request_of service (call "first") (utc 0)) (utc 0) (utc 60000000)

abbrev original : RequestItem
original = record {
  database_id = 1;
  new_record = request_record_of service (call "first") (utc 0);
  status = "in_progress";
  completed_at = none;
  failure_code = none;
}

abbrev answer : IdempotentApplicationResult
answer = record (result_of executed "first") {
  application_result = some result;
  claim_version = some 1;
}

-- The factory once the first request is answered.
abbrev concluded_factory : Factory
concluded_factory = (conclude service (call "first") first request token result accepted_factory).1

concluded_test :
    conclude service (call "first") first request token result accepted_factory
    ≡ (ok answer, concluded_factory)
unfolding accept claim_and_accept answer_decision accept_owner map_request request_fingerprint claim
    claim_new with_uow enter leave commit on_claims on_repository create_request create_audit_event
    logged log_operation insert_request insert_audit conclude finalize_result assert_current_owner
    get_request_for_update select_request create_run insert_run finalize_request_completed finalize
    complete_fenced
concluded_test = refl

abbrev again : Readings
again = readings 61000000 "event 3" "run 3"

execute_replays_example :
    (execute
      (record service { chat = λ request c task. crashed })
      (λ f. f)
      (call "again")
      again
      concluded_factory).0
    ≡ ok (record (result_of replayed "again") {
      original_request_id = some "first";
      application_result = some result;
    })
unfolding accept claim_and_accept answer_decision accept_owner map_request request_fingerprint claim
    claim_new with_uow enter leave commit on_claims on_repository create_request create_audit_event
    logged log_operation insert_request insert_audit conclude finalize_result assert_current_owner
    get_request_for_update select_request create_run insert_run finalize_request_completed finalize
    complete_fenced validate require_time has_owner valid_version terminal_state_ok
execute_replays_example =
    execute_replays service (λ request c task. crashed) (λ f. f) (call "first") (call "again") first
      again result result request token item "first" original answer accepted_factory
      concluded_factory refl (refl, refl) refl refl refl concluded_test
      (record {
        admitted = record { allowed = refl; has_key = refl; accepted_utc = refl };
        same_scope = refl;
        same_request = (refl, refl);
        in_time = omega arith;
        new_request = refl;
        new_event = refl;
        quiet = refl;
        commits = refl;
        answers = refl;
      })
      (λ snapshot made. refl)

finalize_atomic_example :
    ((
      (with_uow (finalize_result service first result request token) accepted_factory).0,
      (with_uow (finalize_result service first result request token) accepted_factory).1.state,
    )
      ≡ settled
          (λ _. true)
          accepted_factory
          (store_result service first result request token accepted_factory.state))
    × ((
      (with_uow
          (finalize_failed service first (context "first") "code" request token)
          accepted_factory).0,
      (with_uow
          (finalize_failed service first (context "first") "code" request token)
          accepted_factory).1.state,
    )
        ≡ settled
            (λ _. true)
            accepted_factory
            (store_failure service first
              (context "first")
              "code"
              request
              token
              accepted_factory.state))
unfolding accept claim_and_accept answer_decision accept_owner map_request request_fingerprint claim
    claim_new with_uow enter leave commit on_claims on_repository create_request create_audit_event
    logged log_operation insert_request insert_audit
finalize_atomic_example =
    finalize_atomic service first result (context "first") "code" request token accepted_factory
      refl

-- The commit of the acceptance is made to fail.
abbrev failing : Factory
failing = record fresh { fail_commit_attempts = 1 ∷ [] }

execute_raises_named_example : may_leave Error.request_initialization ≡ true
unfolding execute accept claim_and_accept answer_decision accept_owner map_request
    request_fingerprint claim claim_new with_uow enter leave commit on_claims on_repository
    create_request create_audit_event logged log_operation insert_request insert_audit
execute_raises_named_example =
    execute_raises_named service (λ f. f) (call "first") first failing Error.request_initialization
      refl

abbrev durable : Durable
durable = record { codec = codec; chat = λ request c task. crashed }

execute_raises_example : is_service_error Error.durable_application_execution ≡ true
unfolding Durable.execute Durable.accept_request Durable.end_run Durable.give_up
    Durable.finalize_failed map_request request_fingerprint with_uow enter leave commit
    on_repository create_request create_audit_event logged log_operation insert_request insert_audit
    get_request_for_update select_request create_run insert_run finalize_request_failed finalize
    require
execute_raises_example =
    execute_raises durable (λ f. f) (call "first") first fresh Error.durable_application_execution
      refl

-- A gateway over the idempotent service.
abbrev gateway : Gateway
gateway = record {
  persistence_mode = PersistenceMode.fake;
  header_mode = IdempotencyHeaderMode.required;
  durable = none;
  idempotent = some (execute service (λ f. f) (call "first") first);
}

with_key_exact_example :
    ((Gateway.execute gateway crashed (some "key") true fresh).0
      ≡ returned result (some "executed"))
    ↔ ((Bool.true ≡ true)
        × (gateway.persistence_mode ≢ no_persistence)
        × ((run : Action Factory IdempotentApplicationResult) × (gateway.idempotent ≡ some run)
            × ((got : IdempotentApplicationResult) × ((run fresh).0 ≡ ok got)
                × (got.application_result ≡ some result)
                × IsCalled got.outcome "executed")))
with_key_exact_example = with_key_exact gateway crashed "key" true fresh result "executed"
