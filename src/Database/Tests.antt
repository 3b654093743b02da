-- ===== src/Database/Tests.antt =====
-- The persistence layer on concrete tables and calls.
use safety_grounded_agent.Prelude.{
  ◌+◌, ◌≤◌, ◌≡◌, refl, ◌≢◌, ◌↔◌, String, true, false, none, some, List, [], ◌∷◌, arith,
  string_has_eq, nat_has_eq,
}
use safety_grounded_agent.Time.{utc, plus_seconds}
use safety_grounded_agent.Json.{Json}
use safety_grounded_agent.Database.Errors.{Error, ok, err}
use safety_grounded_agent.Database.Records.{
  NewAgentRequest, NewAgentRun, PersistedAgentRequestRef, IdempotencyScope, IdempotencyClaimRequest,
  IdempotencyClaimToken, active, scope_has_eq,
}
use safety_grounded_agent.Database.State.{
  ExecutionState, RequestItem, RunItem, IdempotencyItem, empty_state,
}
use safety_grounded_agent.Database.Idempotency.{
  validate, valid_version, has_owner, require_time, terminal_state_ok,
}
use safety_grounded_agent.Database.Idempotency.Spec.{IsWellFormed, validate_iff}
use safety_grounded_agent.Database.Execution.{Repository, finalize}
use safety_grounded_agent.Database.Execution.Lifecycle
use safety_grounded_agent.Database.Execution.Lifecycle.{IsFinal, perform_all-IsFinal, finalize_once}
use safety_grounded_agent.Database.Claims.{
  claim_new, claim, claim_stored, claim_known, claim_same, claim_active, stored, token_of, new_item,
  assert_current_owner, complete_fenced, fail_fenced,
}
use safety_grounded_agent.Database.Claims.Fencing.{version_of, granted, handed}
use safety_grounded_agent.Database.Claims.Ownership.{
  Owns, Call, claim_call, assert_call, complete_call, perform_all, version-perform_all, fenced_out,
}
use safety_grounded_agent.Database.Claims.Lease.{claim-Owns, lease_protects}
use safety_grounded_agent.Database.Claims.Replay.{Holds, replay_decision, complete_replay}
use safety_grounded_agent.Database.Records.Checks.{check_token}
use safety_grounded_agent.Database.Claims.Tokens.{claim_token_checked}
use safety_grounded_agent.Database.Claims.Invariant.{IsConsistent, perform_all-IsConsistent}
use safety_grounded_agent.Database.UnitOfWork.{Factory, new_factory, with_uow}
use safety_grounded_agent.Database.UnitOfWork.Accounting.{
  claims, commits, rolls_back, run, Balanced, with_uow-Balanced,
}
use safety_grounded_agent.Database.UnitOfWork.Outcomes.{
  once, outcome, fails_next, loses_next, commit_outcomes,
}

abbrev scope : IdempotencyScope
scope = record {
  tenant_id = "tenant";
  organization_id = "organization";
  principal_user_id = "user";
  operation = "chat";
  key_hash = "key";
}

abbrev asks : String → IdempotencyClaimRequest
asks owner = record {
  scope = scope;
  request_fingerprint = "fingerprint";
  fingerprint_version = 1;
  owner_request_id = owner;
  lease_duration_seconds = 60;
}

abbrev new_request : String → NewAgentRequest
new_request request_id = record {
  request_id = request_id;
  trace_id = "trace";
  session_id = none;
  operation = "chat";
  principal_user_id = "user";
  tenant_id = "tenant";
  organization_id = "organization";
  user_text_hash = "hash";
  user_text_length = 4;
  request_fingerprint = "fingerprint";
  fingerprint_version = 1;
  authorization_snapshot = Json.null;
  authorization_snapshot_schema_version = 1;
  created_at = utc 0;
  status = "in_progress";
  idempotency_key_hash = some "key";
  replayed_from_request_record_id = none;
  completed_at = none;
  failure_code = none;
}

abbrev request_item : RequestItem
request_item = record {
  database_id = 1;
  new_record = new_request "first";
  status = "in_progress";
  completed_at = none;
  failure_code = none;
}

abbrev new_run : NewAgentRun
new_run = record {
  run_id = "run";
  original_request_record_id = 1;
  session_id = none;
  status = "completed";
  routed_task = none;
  policy_outcome = none;
  result_snapshot = none;
  result_snapshot_schema_version = none;
  confidence = none;
  trace_snapshot = none;
  trace_snapshot_schema_version = none;
  rag_provider = none;
  started_at = utc 0;
  completed_at = utc 5;
}

abbrev run_item : RunItem
run_item = record { database_id = 7; new_record = new_run }

-- The first claim, whose lease runs to second 60.
abbrev item : IdempotencyItem
item = new_item 1 (asks "first") (utc 0) (plus_seconds (utc 0) 60)

abbrev token : IdempotencyClaimToken
token = token_of item scope

-- One request in progress, its run, and its claim.
abbrev state : ExecutionState
state = record empty_state {
  requests = ("first", request_item) ∷ [];
  runs = ("run", run_item) ∷ [];
  idempotency = (scope, item) ∷ [];
}

owns : Owns token state
unfolding assert_current_owner
owns = refl

-- After the lease a second claimant takes the claim over.
takes_over : granted (claim (asks "second") (utc 60000000) state).0 ≡ true
unfolding claim claim_stored claim_known claim_same claim_active validate valid_version has_owner
    require_time terminal_state_ok
takes_over = refl

abbrev between : List Call
between = assert_call token ∷ claim_call (asks "third") (utc 61000000) ∷ []

fenced_out_example :
    let after = perform_all between (claim (asks "second") (utc 60000000) state).1 in
    (complete_fenced token 7 Json.null 1 600 (utc 62000000) after
      ≡ (err Error.ownership_lost, after))
    × (fail_fenced token 600 (utc 62000000) after ≡ (err Error.ownership_lost, after))
fenced_out_example =
    fenced_out token (asks "second") (utc 60000000) state between 7 Json.null 1 600 (utc 62000000)
      owns refl takes_over

version-perform_all_example : version_of scope state ≤ version_of scope (perform_all between state)
version-perform_all_example = version-perform_all scope between state

claim-Owns_example :
    (t : IdempotencyClaimToken) × (handed (claim (asks "second") (utc 60000000) state).0 ≡ some t)
    × Owns t (claim (asks "second") (utc 60000000) state).1
    × (t.scope ≡ scope)
    × (t.owner_request_id ≡ "second")
    × (t.claim_version ≡ version_of scope state + 1)
    × (t.lease_expires_at ≡ plus_seconds (utc 60000000) 60)
claim-Owns_example = claim-Owns (asks "second") (utc 60000000) state takes_over

lease_protects_example :
    (granted (claim (asks "second") (utc 59000000) state).0 ≡ false)
    × ((claim (asks "second") (utc 59000000) state).1 ≡ state)
    × Owns token (claim (asks "second") (utc 59000000) state).1
lease_protects_example =
    lease_protects token (asks "second") (utc 59000000) state item owns refl refl refl

holds : Holds scope active item state
unfolding validate valid_version has_owner require_time terminal_state_ok
holds = (refl, refl)

complete_replay_example :
    let (done, s') = complete_fenced token 7 Json.null 1 600 (utc 5000000) state in
    (done ≡ ok tt)
    × (claim (asks "second") (utc 9000000) s' ≡ (ok (replay_decision 1 "first" Json.null 1), s'))
complete_replay_example =
    complete_replay token item 7 Json.null 1 600 (utc 5000000) (utc 9000000) (asks "second") state
      "run" "first" run_item request_item owns holds refl refl refl refl (refl, refl) (omega arith)

empty_IsConsistent : IsConsistent empty_state
empty_IsConsistent = record { accepted = λ k v found. cc found }

first_named : (asks "first").owner_request_id ≢ ""
first_named h = cc h

perform_all-IsConsistent_example : IsConsistent (
    perform_all
      (claim_call (asks "first") (utc 0) ∷ complete_call token 7 Json.null 1 600 (utc 5) ∷ [])
      empty_state)
perform_all-IsConsistent_example =
    perform_all-IsConsistent
      (claim_call (asks "first") (utc 0) ∷ complete_call token 7 Json.null 1 600 (utc 5) ∷ [])
      empty_state ((refl, first_named), (refl, tt)) empty_IsConsistent

validate_iff_example :
    (validate (stored item scope) ≡ ok active) ↔ IsWellFormed active (stored item scope)
validate_iff_example = validate_iff active (stored item scope)

abbrev harness : Repository
harness = record { state = state; operation_log = []; fail_operations = "create_run" ∷ [] }

abbrev reference : PersistedAgentRequestRef
reference = record {
  database_id = 1;
  request_id = "first";
  status = "in_progress";
  trace_id = some "trace";
  session_id = none;
}

abbrev final_item : RequestItem
final_item = record request_item { status = "completed"; completed_at = some (utc 5) }

not_running : final_item.status ≢ "in_progress"
not_running h = cc h

abbrev later_calls : List Lifecycle.Call
later_calls =
    Lifecycle.creates (new_request "first") ∷ Lifecycle.fails reference (utc 9) "timeout" ∷ []

finalize_once_example :
    ((finalize reference "completed" (utc 5) none state).0 ≡ ok tt)
    × IsFinal "first"
        (record request_item {
          status = "completed";
          completed_at = some (utc 5);
          failure_code = none;
        })
        (Lifecycle.perform_all later_calls
          (record harness { state = (finalize reference "completed" (utc 5) none state).1 })).state
finalize_once_example =
    finalize_once reference "completed" (utc 5) none harness request_item later_calls refl refl
      not_running

abbrev final_harness : Repository
final_harness = record harness { state = record state { requests = ("first", final_item) ∷ [] } }

perform_all-IsFinal_example :
    IsFinal "first" final_item (Lifecycle.perform_all later_calls final_harness).state
perform_all-IsFinal_example =
    perform_all-IsFinal "first" final_item later_calls final_harness (refl, not_running)

abbrev losing : Factory
losing = record (new_factory state) { ambiguous_commit_attempts = 1 ∷ [] }

with_uow-Balanced_example :
    Balanced losing
      (with_uow (run (claims (fail_fenced token 60 (utc 5)) ∷ commits ∷ rolls_back ∷ [])) losing).1
with_uow-Balanced_example =
    with_uow-Balanced (claims (fail_fenced token 60 (utc 5)) ∷ commits ∷ rolls_back ∷ []) losing

commit_outcomes_example :
    (
      (once (fail_fenced token 60 (utc 5)) losing).0,
      (once (fail_fenced token 60 (utc 5)) losing).1.state,
    )
    ≡ outcome
        (fail_fenced token 60 (utc 5) state).0
        (fails_next losing)
        (loses_next losing)
        state
        (fail_fenced token 60 (utc 5) state).1
commit_outcomes_example = commit_outcomes (fail_fenced token 60 (utc 5)) losing

token_handed : handed (claim (asks "first") (utc 0) empty_state).0 ≡ some token
unfolding claim claim_new
token_handed = refl

claim_token_checked_example : check_token token ≡ ok tt
claim_token_checked_example =
    claim_token_checked (asks "first") (utc 0) empty_state token token_handed refl
