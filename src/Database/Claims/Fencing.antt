-- ===== src/Database/Claims/Fencing.antt =====
-- Fencing of claims: versions only grow, a grant raises the version of its scope, and a token of an
-- older version can finish nothing, whatever calls come between.
use safety_grounded_agent.Prelude.{
  ℕ, ◌+◌, ◌≡◌, refl, inl, inr, Bool, true, false, Option, none, some, arith, Option-cases,
}
use safety_grounded_agent.Dict.{get, put}
use safety_grounded_agent.Time.{Datetime, plus_seconds}
use safety_grounded_agent.Database.Errors.{Result, ok, err, Result-cases}
use safety_grounded_agent.Database.Records.{
  IdempotencyScope, IdempotencyClaimRequest, IdempotencyClaimToken, IdempotencyClaimDecision,
  ClaimOutcome, IdempotencyStatus, status_value, active, completed, failed, scope_has_eq,
}
use safety_grounded_agent.Database.State.{ExecutionState, IdempotencyItem}
use safety_grounded_agent.Database.Idempotency.{validate}
use safety_grounded_agent.Database.Claims.{
  claim, claim_new, claim_stored, claim_known, claim_same, claim_active, claim_completed,
  claim_failed, reacquire, replaced, new_item, stored, token_of,
}

-- The version of an entry; a scope with no record has version 0.
abbrev pub item_version : Option IdempotencyItem → ℕ
item_version none = 0
item_version (some item) = item.claim_version

abbrev pub version_of : IdempotencyScope → ExecutionState → ℕ
version_of k s = item_version (get k s.idempotency)

-- The outcomes that hand out ownership.
abbrev pub grants : ClaimOutcome → Bool
grants ClaimOutcome.acquired = true
grants ClaimOutcome.reclaimed = true
grants _ = false

abbrev pub granted : Result IdempotencyClaimDecision → Bool
granted (ok d) = grants d.outcome
granted (err e) = false

-- The record that a grant over `item` stores.
abbrev renewed : IdempotencyItem → IdempotencyClaimRequest → Datetime → IdempotencyItem
renewed item request now =
    replaced item request now (plus_seconds now request.lease_duration_seconds)

-- The token that a claim hands out.
abbrev pub handed : Result IdempotencyClaimDecision → Option IdempotencyClaimToken
handed (ok d) = d.token
handed (err e) = none

module _ (request : IdempotencyClaimRequest) (now : Datetime) (s : ExecutionState) where
  -- `item` is stored under the scope, and its token handed out.
  abbrev pub Stores : Result IdempotencyClaimDecision × ExecutionState → IdempotencyItem → Type 0
  Stores out item =
      (handed out.0 ≡ some (token_of item request.scope))
      × (out.1.idempotency ≡ put request.scope item s.idempotency)

  -- The record of a grant: a new version, held by the claimant until its lease ends.
  pub record IsGrant (item : IdempotencyItem) : Type 0 where
    pub version : item.claim_version ≡ version_of request.scope s + 1
    pub owner : item.owner_request_id ≡ request.owner_request_id
    pub status : item.status ≡ status_value active
    pub lease : item.lease_expires_at ≡ plus_seconds now request.lease_duration_seconds
    pub claimed : item.claimed_at ≡ now
    pub expires : item.expires_at ≡ plus_seconds now request.lease_duration_seconds
    pub run : item.completed_run_record_id ≡ none
    pub snapshot : item.response_snapshot ≡ none
    pub snapshot_version : item.response_snapshot_version ≡ none
    pub fingerprint : item.request_fingerprint ≡ request.request_fingerprint
    pub fingerprint_version : item.fingerprint_version ≡ request.fingerprint_version

  claim_active-kept :
      (item : IdempotencyItem)
      → granted (claim_active item request now s).0 ≡ false
      → (claim_active item request now s).1 ≡ s
  unfolding claim_active
  claim_active-kept item h = ground arith

  claim_active-Stores :
      (item : IdempotencyItem)
      → granted (claim_active item request now s).0 ≡ true
      → Stores (claim_active item request now s) (renewed item request now)
  unfolding claim_active
  claim_active-Stores item h = ground arith

  claim_same-kept :
      (status : IdempotencyStatus) (item : IdempotencyItem)
      → granted (claim_same status item request now s).0 ≡ false
      → (claim_same status item request now s).1 ≡ s
  unfolding claim_same
  claim_same-kept active item h = claim_active-kept item h
  claim_same-kept completed item h = refl
  claim_same-kept failed item h = refl

  claim_same-Stores :
      (status : IdempotencyStatus) (item : IdempotencyItem)
      → granted (claim_same status item request now s).0 ≡ true
      → Stores (claim_same status item request now s) (renewed item request now)
  unfolding claim_same claim_completed claim_failed
  claim_same-Stores active item h = claim_active-Stores item h
  claim_same-Stores completed item h = ground arith
  claim_same-Stores failed item h = ground arith

  claim_known-kept :
      (status : IdempotencyStatus) (item : IdempotencyItem)
      → granted (claim_known status item request now s).0 ≡ false
      → (claim_known status item request now s).1 ≡ s
  unfolding claim_known reacquire
  claim_known-kept status item h = ground (arith, claim_same-kept status item)

  claim_known-Stores :
      (status : IdempotencyStatus) (item : IdempotencyItem)
      → granted (claim_known status item request now s).0 ≡ true
      → Stores (claim_known status item request now s) (renewed item request now)
  unfolding claim_known reacquire
  claim_known-Stores status item h = ground (arith, claim_same-Stores status item)

  claim_stored-kept :
      (item : IdempotencyItem)
      → granted (claim_stored item request now s).0 ≡ false
      → (claim_stored item request now s).1 ≡ s
  unfolding claim_stored
  claim_stored-kept item h = elim (Result-cases (validate (stored item request.scope))) [
    | inl (status, e) ↦ ground (arith, claim_known-kept status item)
    | inr (code, e) ↦ ground arith
  ]

  claim_stored-Stores :
      (item : IdempotencyItem)
      → granted (claim_stored item request now s).0 ≡ true
      → Stores (claim_stored item request now s) (renewed item request now)
  unfolding claim_stored
  claim_stored-Stores item h = elim (Result-cases (validate (stored item request.scope))) [
    | inl (status, e) ↦ ground (arith, claim_known-Stores status item)
    | inr (code, e) ↦ ground arith
  ]

  abbrev fresh : IdempotencyItem
  fresh =
      new_item s.next_idempotency_id request now (plus_seconds now request.lease_duration_seconds)

  -- A claim that grants nothing leaves every table as it was.
  pub claim-kept : granted (claim request now s).0 ≡ false → (claim request now s).1 ≡ s
  unfolding claim claim_new
  claim-kept h = elim (Option-cases (get request.scope s.idempotency)) [
    | inl free ↦ ground arith
    | inr (item, e) ↦ ground (arith, claim_stored-kept item)
  ]

  -- A claim that grants ownership stores a grant and hands out its token.
  pub claim-IsGrant :
      granted (claim request now s).0 ≡ true
      → (item : IdempotencyItem) × IsGrant item × Stores (claim request now s) item
  unfolding claim claim_new
  claim-IsGrant h = elim (Option-cases (get request.scope s.idempotency)) [
    | inl free ↦ (fresh, ground arith, (ground arith, ground arith))
    | inr (item, e) ↦ (
      renewed item request now,
      ground arith,
      (ground (arith, claim_stored-Stores item), ground (arith, claim_stored-Stores item)),
    )
  ]
