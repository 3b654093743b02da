-- ===== src/Database/Claims/Replay.antt =====
-- What a finished claim answers, and until when.
use safety_grounded_agent.Prelude.{
  ℕ, ◌<◌, String, ◌≡◌, refl, some, arith, ==_self, ap, string_has_eq, nat_has_eq,
}
use safety_grounded_agent.Dict.{get, get-put_self}
use safety_grounded_agent.Time.{Datetime, plus_seconds, Offset}
use safety_grounded_agent.Json.{Json}
use safety_grounded_agent.Database.Errors.{ok}
use safety_grounded_agent.Database.Records.{
  IdempotencyScope, IdempotencyClaimRequest, IdempotencyClaimToken, IdempotencyClaimDecision,
  ClaimOutcome, IdempotencyStatus, active, completed, scope_has_eq, decision_of,
}
use safety_grounded_agent.Database.State.{ExecutionState, IdempotencyItem, RunItem, RequestItem}
use safety_grounded_agent.Database.Idempotency.{validate}
use safety_grounded_agent.Database.Idempotency.Spec.{validate_iff}
use safety_grounded_agent.Database.Claims.{
  claim, claim_stored, claim_known, claim_same, claim_completed, stored, run_of, original_of,
  complete_fenced, store_item, completed_item,
}
use safety_grounded_agent.Database.Claims.Ownership.{Owns}

-- The record under a scope, accepted by the validator with a status.
abbrev pub Holds : IdempotencyScope → IdempotencyStatus → IdempotencyItem → ExecutionState → Type 0
Holds k status item s = (get k s.idempotency ≡ some item) × (validate (stored item k) ≡ ok status)

-- The request asks for what the record is about.
abbrev pub SameRequest : IdempotencyItem → IdempotencyClaimRequest → Type 0
SameRequest item r =
    (item.fingerprint_version ≡ r.fingerprint_version)
    × (item.request_fingerprint ≡ r.request_fingerprint)

-- An owned record that is accepted as active is accepted as completed once it is completed.
pub complete-accepted :
    (k : IdempotencyScope) (item : IdempotencyItem) (run : ℕ) (snapshot : Json) (version ttl : ℕ)
    (now : Datetime)
    → validate (stored item k) ≡ ok active
    → now.utcoffset ≡ some (Offset.east 0)
    → validate (stored (completed_item item run snapshot version ttl now) k) ≡ ok completed
complete-accepted k item run snapshot version ttl now accepted utc =
    let wf = (validate_iff active (stored item k)).0 accepted in
    (validate_iff completed _).1 (record {
      state = refl;
      version = wf.version;
      owner = wf.owner;
      claimed_at = wf.claimed_at;
      lease_expires_at = wf.lease_expires_at;
      expires_at = (plus_seconds now ttl, refl, utc);
      result = (ground arith, ground arith, ground arith);
    })

-- The decision of a replay.
abbrev pub replay_decision : ℕ → String → Json → ℕ → IdempotencyClaimDecision
replay_decision original_id request_id snapshot version = record (decision_of ClaimOutcome.replay) {
  original_request_record_id = some original_id;
  original_request_id = some request_id;
  replay_snapshot = some snapshot;
  replay_snapshot_version = some version;
}

complete_step :
    (t : IdempotencyClaimToken) (item : IdempotencyItem) (run : ℕ) (snapshot : Json)
    (version ttl : ℕ) (now : Datetime) (s : ExecutionState)
    → Owns t s
    → get t.scope s.idempotency ≡ some item
    → complete_fenced t run snapshot version ttl now s
      ≡ (ok tt, store_item t.scope (completed_item item run snapshot version ttl now) s)
unfolding complete_fenced
complete_step t item run snapshot version ttl now s owns found = ground arith

-- A completed record that is alive answers the same request with its snapshot.
pub claim_replays :
    (r : IdempotencyClaimRequest) (later : Datetime) (s : ExecutionState) (item : IdempotencyItem)
    (run_key request_id : String) (run_item : RunItem) (original : RequestItem) (snapshot : Json)
    (version : ℕ)
    → Holds r.scope completed item s
    → SameRequest item r
    → later.instant < item.expires_at.instant
    → run_of item.completed_run_record_id s ≡ some (run_key, run_item)
    → original_of run_item.new_record.original_request_record_id s ≡ some (request_id, original)
    → item.response_snapshot ≡ some snapshot
    → item.response_snapshot_version ≡ some version
    → claim r later s ≡ (
      ok (
          replay_decision run_item.new_record.original_request_record_id request_id snapshot
            version),
      s,
    )
unfolding claim claim_stored claim_known claim_same claim_completed
claim_replays r later s item run_key request_id run_item original snapshot version holds asks alive
      has_run has_original has_snapshot has_version =
    ground (arith, ==_self r.fingerprint_version, ==_self r.request_fingerprint)

-- What an owner completes, a later claim for the same request replays: until the time to live has
-- passed, the answer is the very snapshot, with the first request's identifier, and nothing changes.
pub complete_replay :
    (t : IdempotencyClaimToken) (item : IdempotencyItem) (run : ℕ) (snapshot : Json)
    (version ttl : ℕ) (now later : Datetime) (r : IdempotencyClaimRequest) (s : ExecutionState)
    (run_key request_id : String) (run_item : RunItem) (original : RequestItem)
    → Owns t s
    → Holds t.scope active item s
    → run_of (some run) s ≡ some (run_key, run_item)
    → original_of run_item.new_record.original_request_record_id s ≡ some (request_id, original)
    → now.utcoffset ≡ some (Offset.east 0)
    → r.scope ≡ t.scope
    → SameRequest item r
    → later.instant < (plus_seconds now ttl).instant
    → let (done, s') = complete_fenced t run snapshot version ttl now s in
      (done ≡ ok tt)
      × (claim r later s' ≡ (
        ok (
            replay_decision run_item.new_record.original_request_record_id request_id snapshot
              version),
        s',
      ))
complete_replay t item run snapshot version ttl now later r s run_key request_id run_item original
      owns holds has_run has_original utc same asks alive =
    let item' = completed_item item run snapshot version ttl now in
    let s' = store_item t.scope item' s in
    let step = complete_step t item run snapshot version ttl now s owns holds.0 in
    let held : Holds t.scope completed item' s' = (
      get-put_self t.scope item' s.idempotency,
      complete-accepted t.scope item run snapshot version ttl now holds.1 utc,
    ) in
    let replayed =
      claim_replays r later s' item' run_key request_id run_item original snapshot version
        (rw same held) asks alive has_run has_original refl refl in
    (ap (λ out. out.0) step, rw step replayed)
