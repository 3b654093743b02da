-- ===== src/Database/Claims.antt =====
-- `FakeIdempotencyRepository` of src/conversation_agent/database/fake_execution.py: claims, their
-- fencing and replay. A method that reads the database clock takes what the clock returned.
pub mod Fencing
pub mod Ownership
pub mod Lease
pub mod Replay
pub mod Invariant
pub mod Tokens
use safety_grounded_agent.Prelude.{
  ℕ, ◌+◌, String, Bool, true, false, not, ◌&&◌, ◌||◌, Option, none, some, [], ◌==◌, find?,
  string_has_eq, nat_has_eq, if◌then◌else◌,
}
use safety_grounded_agent.Dict.{get, put}
use safety_grounded_agent.Time.{Datetime, plus_seconds, at_or_before, later_than}
use safety_grounded_agent.Json.{Json}
use safety_grounded_agent.Database.Errors.{
  Error, Result, ok, err, Action, pure, raise, lift, gets, or_raise, modify, raise_if, ◌>>=◌, ◌>>◌,
}
use safety_grounded_agent.Database.Records.{
  IdempotencyScope, IdempotencyClaimRequest, IdempotencyClaimToken, IdempotencyClaimDecision,
  StoredIdempotencyRecord, PersistedAgentRequestRef, ClaimOutcome, IdempotencyStatus, active,
  completed, failed, status_value, decision_of, scope_has_eq,
}
use safety_grounded_agent.Database.State.{ExecutionState, IdempotencyItem, RequestItem, RunItem}
use safety_grounded_agent.Database.Idempotency.{validate}

-- `_new_item`
abbrev pub new_item : ℕ → IdempotencyClaimRequest → Datetime → Datetime → IdempotencyItem
new_item database_id request now lease = record {
  database_id = database_id;
  scope = request.scope;
  request_fingerprint = request.request_fingerprint;
  fingerprint_version = request.fingerprint_version;
  status = status_value active;
  claim_version = 1;
  owner_request_id = request.owner_request_id;
  claimed_at = now;
  lease_expires_at = lease;
  completed_run_record_id = none;
  response_snapshot = none;
  response_snapshot_version = none;
  created_at = now;
  updated_at = now;
  expires_at = lease;
}

-- What `_replace` makes of an item.
abbrev pub replaced :
    IdempotencyItem → IdempotencyClaimRequest → Datetime → Datetime → IdempotencyItem
replaced item request now lease = record item {
  request_fingerprint = request.request_fingerprint;
  fingerprint_version = request.fingerprint_version;
  status = status_value active;
  claim_version = item.claim_version + 1;
  owner_request_id = request.owner_request_id;
  claimed_at = now;
  lease_expires_at = lease;
  completed_run_record_id = none;
  response_snapshot = none;
  response_snapshot_version = none;
  updated_at = now;
  expires_at = lease;
}

-- `_stored`
abbrev pub stored : IdempotencyItem → IdempotencyScope → StoredIdempotencyRecord
stored item scope = record {
  database_id = item.database_id;
  scope = scope;
  request_fingerprint = item.request_fingerprint;
  fingerprint_version = item.fingerprint_version;
  status = item.status;
  claim_version = some item.claim_version;
  owner_request_id = some item.owner_request_id;
  claimed_at = some item.claimed_at;
  lease_expires_at = some item.lease_expires_at;
  completed_run_record_id = item.completed_run_record_id;
  response_snapshot = item.response_snapshot;
  response_snapshot_version = item.response_snapshot_version;
  expires_at = some item.expires_at;
}

-- `_token`
abbrev pub token_of : IdempotencyItem → IdempotencyScope → IdempotencyClaimToken
token_of item scope = record {
  idempotency_record_id = item.database_id;
  scope = scope;
  owner_request_id = item.owner_request_id;
  claim_version = item.claim_version;
  claimed_at = item.claimed_at;
  lease_expires_at = item.lease_expires_at;
}

-- `_request_ref`
unfoldable pub request_ref : String → ExecutionState → Result PersistedAgentRequestRef
request_ref request_id s = elim (get request_id s.requests) [
  | none ↦ err Error.invalid_idempotency_state
  | some item ↦ ok (record {
    database_id = item.database_id;
    request_id = request_id;
    status = item.status;
    trace_id = some item.new_record.trace_id;
    session_id = item.new_record.session_id;
  })
]

abbrev pub store_item : IdempotencyScope → IdempotencyItem → ExecutionState → ExecutionState
store_item scope item s = record s { idempotency = put scope item s.idempotency }

-- The scope has no record: it is acquired.
unfoldable pub claim_new :
    IdempotencyClaimRequest → Datetime → Action ExecutionState IdempotencyClaimDecision
claim_new request now s =
    let item =
      new_item s.next_idempotency_id request now
        (plus_seconds now request.lease_duration_seconds) in
    (
      ok (record (decision_of ClaimOutcome.acquired) {
        token = some (token_of item request.scope);
      }),
      store_item request.scope item (record s { next_idempotency_id = s.next_idempotency_id + 1 }),
    )

-- A finished claim has outlived its time: the record is acquired anew.
unfoldable pub reacquire :
    IdempotencyItem
    → IdempotencyClaimRequest
    → Datetime
    → Action ExecutionState IdempotencyClaimDecision
reacquire item request now s =
    let item' = replaced item request now (plus_seconds now request.lease_duration_seconds) in
    (
      ok (record (decision_of ClaimOutcome.acquired) {
        token = some (token_of item' request.scope);
        expired_reuse = true;
      }),
      store_item request.scope item' s,
    )

-- The claim is active: its lease runs, or it is taken over from an owner that is in progress.
unfoldable pub claim_active :
    IdempotencyItem
    → IdempotencyClaimRequest
    → Datetime
    → Action ExecutionState IdempotencyClaimDecision
unfolding request_ref
claim_active item request now s =
    if later_than item.lease_expires_at now
    then (
      ok (record (decision_of ClaimOutcome.in_progress) {
        token = some (token_of item request.scope);
      }),
      s,
    )
    else elim (request_ref item.owner_request_id s) [
      | err e ↦ (err e, s)
      | ok prior ↦
          if not (prior.status == "in_progress")
          then (err Error.invalid_idempotency_state, s)
          else let item' =
              replaced item request now (plus_seconds now request.lease_duration_seconds) in
            (
              ok (record (decision_of ClaimOutcome.reclaimed) {
                token = some (token_of item' request.scope);
                reclaimed_request = some prior;
              }),
              store_item request.scope item' s,
            )
    ]

-- The run that a completed claim names; an unset column is never equal to a run's number.
abbrev pub run_of : Option ℕ → ExecutionState → Option (String × RunItem)
run_of none s = none
run_of (some id) s = find? (λ e. e.1.database_id == id) s.runs

abbrev pub original_of : ℕ → ExecutionState → Option (String × RequestItem)
original_of id s = find? (λ e. e.1.database_id == id) s.requests

-- The claim is completed: its snapshot is replayed, if its run and its request are there.
unfoldable pub claim_completed : IdempotencyItem → ExecutionState → Result IdempotencyClaimDecision
claim_completed item s = elim (run_of item.completed_run_record_id s) [
  | none ↦ err Error.invalid_idempotency_state
  | some (run_key, run) ↦
      let original_id = run.new_record.original_request_record_id in
      elim (original_of original_id s) [
        | none ↦ err Error.invalid_idempotency_state
        | some (request_id, original) ↦ ok (record (decision_of ClaimOutcome.replay) {
          original_request_record_id = some original_id;
          original_request_id = some request_id;
          replay_snapshot = item.response_snapshot;
          replay_snapshot_version = item.response_snapshot_version;
        })
      ]
]

-- `not prior["failure_code"]` holds of `None` and of the empty text.
abbrev has_code : Option String → Bool
has_code none = false
has_code (some code) = not (code == "")

-- The claim has failed: the code of its owner's failure is reported.
unfoldable pub claim_failed : IdempotencyItem → ExecutionState → Result IdempotencyClaimDecision
claim_failed item s = elim (get item.owner_request_id s.requests) [
  | none ↦ err Error.invalid_idempotency_state
  | some prior ↦
      if not (prior.status == "failed") || not (has_code prior.failure_code)
      then err Error.invalid_idempotency_state
      else ok (record (decision_of ClaimOutcome.previous_failure) {
        previous_failure_code = prior.failure_code;
      })
]

-- The record is live, and the request asks for the same thing.
unfoldable pub claim_same :
    IdempotencyStatus
    → IdempotencyItem
    → IdempotencyClaimRequest
    → Datetime
    → Action ExecutionState IdempotencyClaimDecision
claim_same active item request now s = claim_active item request now s
claim_same completed item request now s = (claim_completed item s, s)
claim_same failed item request now s = (claim_failed item s, s)

abbrev pub is_terminal : IdempotencyStatus → Bool
is_terminal active = false
is_terminal _ = true

-- The scope has a record that the validator accepted.
unfoldable pub claim_known :
    IdempotencyStatus
    → IdempotencyItem
    → IdempotencyClaimRequest
    → Datetime
    → Action ExecutionState IdempotencyClaimDecision
claim_known status item request now s =
    if is_terminal status && at_or_before item.expires_at now
    then reacquire item request now s
    else if not (item.fingerprint_version == request.fingerprint_version)
    then (err Error.fingerprint_version, s)
    else if not (item.request_fingerprint == request.request_fingerprint)
    then (ok (decision_of ClaimOutcome.conflict), s)
    else claim_same status item request now s

unfoldable pub claim_stored :
    IdempotencyItem
    → IdempotencyClaimRequest
    → Datetime
    → Action ExecutionState IdempotencyClaimDecision
claim_stored item request now s = elim (validate (stored item request.scope)) [
  | err e ↦ (err e, s)
  | ok status ↦ claim_known status item request now s
]

unfoldable pub claim :
    IdempotencyClaimRequest → Datetime → Action ExecutionState IdempotencyClaimDecision
claim request now s = elim (get request.scope s.idempotency) [
  | none ↦ claim_new request now s
  | some item ↦ claim_stored item request now s
]

-- The four tests of `assert_current_owner`.
abbrev pub owned_by : IdempotencyItem → IdempotencyClaimToken → Bool
owned_by item token =
    item.status == status_value active
    && (item.owner_request_id == token.owner_request_id
        && item.claim_version == token.claim_version)

unfoldable pub assert_current_owner : IdempotencyClaimToken → Action ExecutionState Unit
assert_current_owner token s = elim (get token.scope s.idempotency) [
  | none ↦ (err Error.ownership_lost, s)
  | some item ↦ if owned_by item token then (ok tt, s) else (err Error.ownership_lost, s)
]

-- The row that `complete_fenced` writes.
abbrev pub completed_item : IdempotencyItem → ℕ → Json → ℕ → ℕ → Datetime → IdempotencyItem
completed_item item run_id snapshot snapshot_version replay_ttl_seconds now = record item {
  status = status_value completed;
  completed_run_record_id = some run_id;
  response_snapshot = some snapshot;
  response_snapshot_version = some snapshot_version;
  updated_at = now;
  expires_at = plus_seconds now replay_ttl_seconds;
}

-- The row that `fail_fenced` writes.
abbrev pub failed_item : IdempotencyItem → ℕ → Datetime → IdempotencyItem
failed_item item failure_ttl_seconds now = record item {
  status = status_value failed;
  completed_run_record_id = none;
  response_snapshot = none;
  response_snapshot_version = none;
  updated_at = now;
  expires_at = plus_seconds now failure_ttl_seconds;
}

unfoldable pub complete_fenced :
    IdempotencyClaimToken → ℕ → Json → ℕ → ℕ → Datetime → Action ExecutionState Unit
unfolding assert_current_owner
complete_fenced token run_id snapshot snapshot_version replay_ttl_seconds now = do
  assert_current_owner token
  item ← or_raise (← gets (λ s. get token.scope s.idempotency)) Error.key_error
  modify (
      store_item token.scope
        (completed_item item run_id snapshot snapshot_version replay_ttl_seconds now))

unfoldable pub fail_fenced : IdempotencyClaimToken → ℕ → Datetime → Action ExecutionState Unit
unfolding assert_current_owner
fail_fenced token failure_ttl_seconds now = do
  assert_current_owner token
  item ← or_raise (← gets (λ s. get token.scope s.idempotency)) Error.key_error
  modify (store_item token.scope (failed_item item failure_ttl_seconds now))
