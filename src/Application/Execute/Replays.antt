-- ===== src/Application/Execute/Replays.antt =====
-- A request that was executed is answered from what was stored.
use safety_grounded_agent.Prelude.{
  ◌<◌, ◌≡◌, refl, sym, ap, ◌∙◌, true, false, String, Option, none, some, some_injective, [], any,
  arith, ◌==◌, string_has_eq, nat_has_eq, ==_self, inl, inr,
}
use safety_grounded_agent.Dict.{get, get-put_self}
use safety_grounded_agent.Time.{Offset, plus_seconds}
use safety_grounded_agent.Json.{Json}
use safety_grounded_agent.Database.Errors.{
  Error, Result, ok, err, Action, Result-cases, lift, pure, rescue, ◌>>◌,
}
use safety_grounded_agent.Database.State.{
  AuditItem, ExecutionState, RequestItem, RunItem, IdempotencyItem,
}
use safety_grounded_agent.Database.Records.{
  NewAgentRequest, NewAuditEvent, IdempotencyScope, PersistedAgentRequestRef, IdempotencyClaimToken,
  IdempotencyClaimDecision, active, scope_has_eq,
}
use safety_grounded_agent.Database.Execution.{insert_request, insert_audit}
use safety_grounded_agent.Database.Execution.Finding.{find_value, find-put_fresh, find-put_same}
use safety_grounded_agent.Database.Claims.{claim, run_of, original_of, completed_item}
use safety_grounded_agent.Database.Claims.Replay.{
  Holds, SameRequest, complete-accepted, claim_replays, replay_decision,
}
use safety_grounded_agent.Database.UnitOfWork.{Factory, with_uow}
use safety_grounded_agent.Database.UnitOfWork.Outcomes.{fails_next, loses_next}
use safety_grounded_agent.Database.UnitOfWork.Transactions.{settled}
use safety_grounded_agent.Runtime.{RequestContext}
use safety_grounded_agent.Orchestration.TaskRouter.{TaskName}
use safety_grounded_agent.Application.Models.{
  UserRequest, ApplicationResult, ChatOutcome, IdempotentApplicationResult, result_of, replayed,
}
use safety_grounded_agent.Application.Idempotent.{
  Service, Call, Readings, answered, now, claim_request_of, scope_of, restore_replay, replay_record,
}
use safety_grounded_agent.Application.Mappers.{map_request}
use safety_grounded_agent.Application.Mappers.Audit.{request_replayed}
use safety_grounded_agent.Application.Execute.{execute, proceed, conclude, finalize_result}
use safety_grounded_agent.Application.Execute.Stale.{Admitted}
use safety_grounded_agent.Application.Execute.Stored.{
  Stored, store_result-Stored, run_of_result, finished_row,
}
use safety_grounded_agent.Application.Atomic.{finalizes, accept_atomic}
use safety_grounded_agent.Application.Transactions.{
  store_result, claim_step, store_decision, store_replay,
}

settled_ok :
    (f : Factory) (x : Result (Unit {0}) × ExecutionState) (s : ExecutionState)
    → settled (λ _. true) f x ≡ (ok tt, s)
    → x ≡ (ok tt, s)
settled_ok f (ok a, t) s h = ground (arith, h)
settled_ok f (err e, t) s h = ground (arith, h)

-- A chain of a reading, a guarded unit of work and an answer returned: the unit of work did.
guarded_ok :
    {A B : Type 0} (t : Result A) (other : Error → Error) (work : Action Factory (Unit {0}))
    (x y : B) (f g : Factory)
    → (lift t >> rescue other work >> pure x) f ≡ (ok y, g)
    → work f ≡ (ok tt, g)
guarded_ok (ok a) other work x y f g h = elim (Result-cases (work f).0) [
  | inl (tt, e) ↦ ground (arith, e, h)
  | inr (failure, e) ↦ ground (arith, e, h)
]
guarded_ok (err e) other work x y f g h = ground (arith, h)

-- Where `conclude` returned, the transaction did.
conclude_ok :
    (service : Service) (call : Call) (r : Readings) (request : PersistedAgentRequestRef)
    (token : IdempotencyClaimToken) (result : ApplicationResult) (f g : Factory)
    (answer : IdempotentApplicationResult)
    → f.fail_operations ≡ []
    → conclude service call r request token result f ≡ (ok answer, g)
    → store_result service r result request token f.state ≡ (ok tt, g.state)
unfolding conclude
conclude_ok service call r request token result f g answer quiet h =
    let e = (finalizes service r request token f quiet).0 result in
    let done =
      guarded_ok (now r.run_completed_at) (λ _. Error.persistence_finalization)
        (with_uow (finalize_result service r result request token)) _ answer f g h in
    settled_ok f _ g.state
      (sym e ∙ ap (λ (out : Result (Unit {0}) × Factory). (out.0, out.1.state)) done)

module _ (service : Service) (r : Readings) (result : ApplicationResult)
    (request : PersistedAgentRequestRef) (token : IdempotencyClaimToken) (s s' : ExecutionState)
    (done : Stored service r result request token s s') where
  -- The run and the request that a replay looks for.
  run_found :
      find_value (λ (i : RunItem). i.database_id == s.next_run_id) s.runs ≡ none
      → run_of (some s.next_run_id) s'
        ≡ some (
          r.run_id,
          record {
            database_id = s.next_run_id;
            new_record = run_of_result service r result request;
          },
        )
  run_found nowhere = rw done.run_stored (
      find-put_fresh (λ (i : RunItem). i.database_id == s.next_run_id) r.run_id _ s.runs
        done.fresh_run nowhere (==_self s.next_run_id))

  original_found :
      (request_id : String) (original : RequestItem)
      → original_of request.database_id s ≡ some (request_id, original)
      → (original' : RequestItem) × (original_of request.database_id s'
          ≡ some (request_id, original'))
  original_found request_id original hit =
      let (original', e) =
        find-put_same (λ (i : RequestItem). i.database_id == request.database_id) request.request_id
          request_id (finished_row r done.old) done.old original s.requests done.known refl hit in
      (original', rw done.finished e)

insert_request_fresh :
    (new : NewAgentRequest) (s : ExecutionState)
    → get new.request_id s.requests ≡ none
    → (ref : PersistedAgentRequestRef) × ((insert_request new s).0 ≡ ok ref)
      × ((insert_request new s).1.audits ≡ s.audits)
unfolding insert_request
insert_request_fresh new s fresh = elim (Result-cases (insert_request new s).0) [
  | inl (ref, e) ↦ (ref, e, ground (arith, fresh))
  | inr (x, e) ↦ ground (arith, fresh, e)
]

insert_audit_fresh :
    (new : NewAuditEvent) (s : ExecutionState)
    → any (λ a. a.new_record.event_id == new.event_id) s.audits ≡ false
    → (insert_audit new s).0 ≡ ok s.next_audit_id
unfolding insert_audit
insert_audit_fresh new s fresh = ground (arith, fresh)

store_replay_ok :
    (service : Service) (call : Call) (r : Readings) (scope : IdempotencyScope)
    (d : IdempotencyClaimDecision) (restored : ApplicationResult) (s : ExecutionState)
    → restore_replay service.replay_mapper call r.accepted_at r.restored_at d ≡ ok restored
    → get call.context.request_id s.requests ≡ none
    → any (λ a. a.new_record.event_id == r.accept_event_id) s.audits ≡ false
    → (store_replay service call r scope d s).0
      ≡ ok (
          answered (record (result_of replayed call.context.request_id) {
            original_request_id = d.original_request_id;
            application_result = some restored;
          }))
unfolding store_replay
store_replay_ok service call r scope d restored s back fresh new =
    let new_record = replay_record service.codec call r scope d in
    let (ref, e, same) = insert_request_fresh new_record s (unfold map_request in fresh) in
    let event = request_replayed call.context r.accept_event_id call.operation r.accepted_at in
    let e' : (insert_audit event (insert_request new_record s).1).0 ≡ ok _ =
      insert_audit_fresh event (insert_request new_record s).1
        (ap (any (λ (a : AuditItem). a.new_record.event_id == r.accept_event_id)) same ∙ new) in
    ground (arith, back, e, e')

-- A later call for the same thing: it is admitted, it comes before the time to live is over, and its
-- identifiers are new.
pub record Repeats (service : Service) (again : Call) (r r' : Readings)
    (token : IdempotencyClaimToken) (item : IdempotencyItem) (g : Factory) : Type 0 where
  pub admitted : Admitted again r'
  pub same_scope : scope_of service again ≡ token.scope
  pub same_request : SameRequest item (claim_request_of service again r'.accepted_at)
  pub in_time :
      r'.claimed_at.instant < (plus_seconds r.finished_at service.policy.replay_ttl_seconds).instant
  pub new_request : get again.context.request_id g.state.requests ≡ none
  pub new_event : any (λ a. a.new_record.event_id == r'.accept_event_id) g.state.audits ≡ false
  pub quiet : g.fail_operations ≡ []
  pub commits : fails_next g ≡ false
  pub answers : loses_next g ≡ false

module _ (service : Service) (again : Call) (r r' : Readings) (result restored : ApplicationResult)
    (request : PersistedAgentRequestRef) (token : IdempotencyClaimToken) (item : IdempotencyItem)
    (request_id : String) (original : RequestItem) (s : ExecutionState) (g : Factory)
    (done : Stored service r result request token s g.state)
    (held : Holds token.scope active item s)
    (nowhere : find_value (λ (i : RunItem). i.database_id == s.next_run_id) s.runs ≡ none)
    (hit : original_of request.database_id s ≡ some (request_id, original))
    (utc : r.finished_at.utcoffset ≡ some (Offset.east 0))
    (repeats : Repeats service again r r' token item g) where
  -- The claim of the later call is answered by the snapshot.
  claim-again :
      claim (claim_request_of service again r'.accepted_at) r'.claimed_at g.state
      ≡ (ok (replay_decision request.database_id request_id done.snapshot 1), g.state)
  claim-again =
      let (original', e) =
        original_found service r result request token s g.state done request_id original hit in
      let same_item : done.item ≡ item = some_injective (sym done.owned ∙ held.0) in
      let item' =
        completed_item item s.next_run_id done.snapshot 1 service.policy.replay_ttl_seconds
          r.finished_at in
      let found : get token.scope g.state.idempotency ≡ some item' =
        rw (done.completed, same_item) (get-put_self token.scope item' s.idempotency) in
      let accepted =
        complete-accepted token.scope item s.next_run_id done.snapshot 1
          service.policy.replay_ttl_seconds r.finished_at held.1 utc in
      claim_replays (claim_request_of service again r'.accepted_at) r'.claimed_at g.state item'
        r.run_id request_id _ original' done.snapshot 1 (rw repeats.same_scope (found, accepted))
        repeats.same_request repeats.in_time
        (run_found service r result request token s g.state done nowhere) e refl refl

  -- The answer of a replay.
  abbrev replay_answer : IdempotentApplicationResult
  replay_answer = record (result_of replayed again.context.request_id) {
    original_request_id = some request_id;
    application_result = some restored;
  }

  -- The acceptance of the later call is that answer.
  claim_step-again :
      service.replay_mapper.restore done.snapshot 1 again.context again.request.text r'.accepted_at
          r'.restored_at
        ≡ ok restored
      → (claim_step service again r' g.state).0 ≡ ok (answered replay_answer)
  unfolding claim_step store_decision
  claim_step-again back = rw claim-again (
      store_replay_ok service again r' (scope_of service again)
        (replay_decision request.database_id request_id done.snapshot 1) restored g.state back
        repeats.new_request repeats.new_event)

  execute-again :
      (between : Factory → Factory)
      → service.replay_mapper.restore done.snapshot 1 again.context again.request.text
          r'.accepted_at r'.restored_at
        ≡ ok restored
      → (execute service between again r' g).0 ≡ ok replay_answer
  unfolding execute proceed
  execute-again between back =
      let e = accept_atomic service again r' g repeats.quiet in
      ground (
        arith,
        e,
        claim_step-again back,
        repeats.commits,
        repeats.answers,
        repeats.admitted.allowed,
        repeats.admitted.has_key,
        repeats.admitted.accepted_utc,
      )

-- A run was concluded, where no call of a repository is made to fail, while the token's claim was
-- active and accepted by the validator, the request was found under its number and the run's number was
-- free. Then a later call for the same thing (the same scope and fingerprint, within the time to live,
-- with new identifiers, its commit answered) is answered as a replay of the first request, whatever the
-- chat service of the later call would come to: if the mapper restores from the first result's snapshot, the
-- answer carries what it restores.
pub execute_replays :
    (service : Service) (chat : UserRequest → RequestContext → Option TaskName → ChatOutcome)
    (between : Factory → Factory) (call again : Call) (r r' : Readings)
    (result restored : ApplicationResult) (request : PersistedAgentRequestRef)
    (token : IdempotencyClaimToken) (item : IdempotencyItem) (request_id : String)
    (original : RequestItem) (answer : IdempotentApplicationResult) (f g : Factory)
    → f.fail_operations ≡ []
    → Holds token.scope active item f.state
    → find_value (λ (i : RunItem). i.database_id == f.state.next_run_id) f.state.runs ≡ none
    → original_of request.database_id f.state ≡ some (request_id, original)
    → r.finished_at.utcoffset ≡ some (Offset.east 0)
    → conclude service call r request token result f ≡ (ok answer, g)
    → Repeats (record service { chat = chat }) again r r' token item g
    → ((snapshot : Json)
        → service.replay_mapper.snapshot result ≡ ok snapshot
        → service.replay_mapper.restore snapshot 1 again.context again.request.text r'.accepted_at
            r'.restored_at
          ≡ ok restored)
    → (execute (record service { chat = chat }) between again r' g).0
      ≡ ok (record (result_of replayed again.context.request_id) {
        original_request_id = some request_id;
        application_result = some restored;
      })
execute_replays service chat between call again r r' result restored request token item request_id
      original answer f g quiet held nowhere hit utc concluded repeats law =
    let other : Service = record service { chat = chat } in
    let done = store_result-Stored other r result request token f.state g.state (
      conclude_ok other call r request token result f g answer quiet
        (unfold conclude finalize_result in concluded)) in
    execute-again other again r r' result restored request token item request_id original f.state g
      done held nowhere hit utc repeats between (law done.snapshot done.snapshotted)
