-- ===== src/Application/Execute/Stored.antt =====
-- What the transaction that stores a result has done when it returned.
use safety_grounded_agent.Prelude.{
  ℕ, ◌≡◌, String, Option, none, some, inl, inr, arith, string_has_eq, nat_has_eq, Option-cases,
}
use safety_grounded_agent.Dict.{get, put}
use safety_grounded_agent.Time.{Datetime}
use safety_grounded_agent.Json.{Json}
use safety_grounded_agent.Database.Errors.{Result, ok, lift}
use safety_grounded_agent.Database.State.{ExecutionState, RequestItem, IdempotencyItem}
use safety_grounded_agent.Database.Records.{
  NewAgentRun, NewAuditEvent, PersistedAgentRequestRef, IdempotencyClaimToken, scope_has_eq,
}
use safety_grounded_agent.Database.Execution.{insert_run, insert_audit, select_request, finalize}
use safety_grounded_agent.Database.Execution.Finding.{bind_inv}
use safety_grounded_agent.Database.Claims.{
  assert_current_owner, complete_fenced, completed_item, store_item,
}
use safety_grounded_agent.Application.Models.{ApplicationResult}
use safety_grounded_agent.Application.Mappers.{completed_run}
use safety_grounded_agent.Application.Idempotent.{Service, Readings}
use safety_grounded_agent.Application.Execute.{result_audit}
use safety_grounded_agent.Application.Transactions.{store_result}

assert_inv :
    (token : IdempotencyClaimToken) (s t : ExecutionState) (a : Unit {0})
    → assert_current_owner token s ≡ (ok a, t)
    → t ≡ s
unfolding assert_current_owner
assert_inv token s t a h = ground (arith, h)

select_inv :
    (id : String) (s t : ExecutionState) (ref : PersistedAgentRequestRef)
    → select_request id s ≡ (ok ref, t)
    → (t ≡ s) × (ref.request_id ≡ id)
unfolding select_request
select_inv id s t ref h = ground (arith, h)

insert_run_inv :
    (new : NewAgentRun) (s t : ExecutionState) (id : ℕ)
    → insert_run new s ≡ (ok id, t)
    → (id ≡ s.next_run_id)
      × (get new.run_id s.runs ≡ none)
      × (t.runs ≡ put new.run_id (record { database_id = s.next_run_id; new_record = new }) s.runs)
      × (t.requests ≡ s.requests)
      × (t.idempotency ≡ s.idempotency)
unfolding insert_run
insert_run_inv new s t id h = ground (arith, h)

finalize_inv :
    (ref : PersistedAgentRequestRef) (status : String) (at : Datetime) (code : Option String)
    (s t : ExecutionState) (a : Unit {0})
    → finalize ref status at code s ≡ (ok a, t)
    → (old : RequestItem) × (get ref.request_id s.requests ≡ some old)
      × (t.requests
          ≡ put ref.request_id
              (record old { status = status; completed_at = some at; failure_code = code })
              s.requests)
      × (t.runs ≡ s.runs)
      × (t.idempotency ≡ s.idempotency)
unfolding finalize
finalize_inv ref status at code s t a h = elim (Option-cases (get ref.request_id s.requests)) [
  | inl e ↦ ground (arith, h, e)
  | inr (old, e) ↦ (old, e, ground (arith, h, e), ground (arith, h, e), ground (arith, h, e))
]

insert_audit_inv :
    (new : NewAuditEvent) (s t : ExecutionState) (id : ℕ)
    → insert_audit new s ≡ (ok id, t)
    → (t.requests ≡ s.requests) × (t.runs ≡ s.runs) × (t.idempotency ≡ s.idempotency)
unfolding insert_audit
insert_audit_inv new s t id h = ground (arith, h)

complete_inv :
    (token : IdempotencyClaimToken) (run : ℕ) (snapshot : Json) (version ttl : ℕ) (now : Datetime)
    (s t : ExecutionState) (a : Unit {0})
    → complete_fenced token run snapshot version ttl now s ≡ (ok a, t)
    → (item : IdempotencyItem) × (get token.scope s.idempotency ≡ some item)
      × (t ≡ store_item token.scope (completed_item item run snapshot version ttl now) s)
unfolding complete_fenced assert_current_owner
complete_inv token run snapshot version ttl now s t a h =
    elim (Option-cases (get token.scope s.idempotency)) [
      | inl e ↦ ground (arith, h, e)
      | inr (item, e) ↦ (item, e, ground (arith, h, e))
    ]

lift_inv :
    {A : Type 0} (r : Result A) (s t : ExecutionState) (a : A)
    → lift r s ≡ (ok a, t)
    → (r ≡ ok a) × (t ≡ s)
lift_inv r s t a h = ground (arith, h)

-- The run's record.
abbrev pub run_of_result :
    Service → Readings → ApplicationResult → PersistedAgentRequestRef → NewAgentRun
run_of_result service r result request =
    completed_run service.codec result request r.run_id r.run_started_at r.run_completed_at

-- The row of a request, once it is completed.
abbrev pub finished_row : Readings → RequestItem → RequestItem
finished_row r old = record old {
  status = "completed";
  completed_at = some r.run_completed_at;
  failure_code = none;
}

-- How the tables differ after the transaction, in what a replay reads.
pub record Stored (service : Service) (r : Readings) (result : ApplicationResult)
    (request : PersistedAgentRequestRef) (token : IdempotencyClaimToken) (s s' : ExecutionState)
    : Type 0 where
  pub snapshot : Json
  pub snapshotted : service.replay_mapper.snapshot result ≡ ok snapshot
  pub item : IdempotencyItem
  pub owned : get token.scope s.idempotency ≡ some item
  pub completed :
      s'.idempotency
      ≡ put token.scope
          (completed_item item s.next_run_id snapshot 1 service.policy.replay_ttl_seconds
            r.finished_at)
          s.idempotency
  pub fresh_run : get r.run_id s.runs ≡ none
  pub run_stored :
      s'.runs
      ≡ put r.run_id
          (record {
            database_id = s.next_run_id;
            new_record = run_of_result service r result request;
          })
          s.runs
  pub old : RequestItem
  pub known : get request.request_id s.requests ≡ some old
  pub finished : s'.requests ≡ put request.request_id (finished_row r old) s.requests

-- What each step did, put together.
assembled :
    (service : Service) (r : Readings) (result : ApplicationResult)
    (request locked : PersistedAgentRequestRef) (token : IdempotencyClaimToken) (run_id : ℕ)
    (snapshot : Json) (old : RequestItem) (item : IdempotencyItem)
    (s s1 s2 s3 s4 s5 s6 s' : ExecutionState)
    → s1 ≡ s
    → s2 ≡ s1
    → locked.request_id ≡ request.request_id
    → service.replay_mapper.snapshot result ≡ ok snapshot
    → s3 ≡ s2
    → run_id ≡ s3.next_run_id
    → get r.run_id s3.runs ≡ none
    → s4.runs
      ≡ put r.run_id
          (record {
            database_id = s3.next_run_id;
            new_record = run_of_result service r result request;
          })
          s3.runs
    → s4.requests ≡ s3.requests
    → s4.idempotency ≡ s3.idempotency
    → get locked.request_id s4.requests ≡ some old
    → s5.requests ≡ put locked.request_id (finished_row r old) s4.requests
    → s5.runs ≡ s4.runs
    → s5.idempotency ≡ s4.idempotency
    → s6.requests ≡ s5.requests
    → s6.runs ≡ s5.runs
    → s6.idempotency ≡ s5.idempotency
    → get token.scope s6.idempotency ≡ some item
    → s'
      ≡ store_item token.scope
          (completed_item item run_id snapshot 1 service.policy.replay_ttl_seconds r.finished_at)
          s6
    → Stored service r result request token s s'
assembled service r result request locked token run_id snapshot old item s s1 s2 s3 s4 s5 s6 s' at1
      at2 same snapshotted at3 numbered fresh runs4 requests4 claims4 known requests5 runs5 claims5
      requests6 runs6 claims6 owned at7 =
    record {
      snapshot = snapshot;
      snapshotted = snapshotted;
      item = item;
      owned = cc (at1, at2, at3, claims4, claims5, claims6, owned);
      completed = cc (at1, at2, at3, claims4, claims5, claims6, at7, numbered);
      fresh_run = cc (at1, at2, at3, fresh);
      run_stored = cc (at1, at2, at3, runs4, runs5, runs6, at7);
      old = old;
      known = cc (at1, at2, at3, requests4, same, known);
      finished = cc (at1, at2, at3, requests4, requests5, requests6, at7, same);
    }

pub store_result-Stored :
    (service : Service) (r : Readings) (result : ApplicationResult)
    (request : PersistedAgentRequestRef) (token : IdempotencyClaimToken) (s s' : ExecutionState)
    → store_result service r result request token s ≡ (ok tt, s')
    → Stored service r result request token s s'
unfolding store_result
store_result-Stored service r result request token s s' h =
    let (_, s1, e1, h1) = bind_inv (assert_current_owner token) _ s s' tt h in
    let (locked, s2, e2, h2) = bind_inv (select_request request.request_id) _ s1 s' tt h1 in
    let (snapshot, s3, e3, h3) =
      bind_inv (lift (service.replay_mapper.snapshot result)) _ s2 s' tt h2 in
    let (run_id, s4, e4, h4) =
      bind_inv (insert_run (run_of_result service r result request)) _ s3 s' tt h3 in
    let (_, s5, e5, h5) =
      bind_inv (finalize locked "completed" r.run_completed_at none) _ s4 s' tt h4 in
    let (_, s6, e6, h6) =
      bind_inv (insert_audit (result_audit service.codec result r)) _ s5 s' tt h5 in
    let at1 = assert_inv token s s1 _ e1 in
    let (at2, same) = select_inv request.request_id s1 s2 locked e2 in
    let (snapshotted, at3) = lift_inv (service.replay_mapper.snapshot result) s2 s3 snapshot e3 in
    let (numbered, fresh, runs4, requests4, claims4) = insert_run_inv _ s3 s4 run_id e4 in
    let (old, known, requests5, runs5, claims5) =
      finalize_inv locked "completed" r.run_completed_at none s4 s5 _ e5 in
    let (requests6, runs6, claims6) = insert_audit_inv _ s5 s6 _ e6 in
    let (item, owned, at7) = complete_inv token run_id snapshot 1 _ r.finished_at s6 s' tt h6 in
    assembled service r result request locked token run_id snapshot old item s s1 s2 s3 s4 s5 s6 s'
      at1 at2 same snapshotted at3 numbered fresh runs4 requests4 claims4 known requests5 runs5
      claims5 requests6 runs6 claims6 owned at7
