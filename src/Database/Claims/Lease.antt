-- ===== src/Database/Claims/Lease.antt =====
-- What a grant gives, and what protects it: the claimant owns its token, and while its lease runs no
-- other claim takes it away.
use safety_grounded_agent.Prelude.{
  ◌+◌, ◌≡◌, refl, inl, inr, true, false, some, arith, ==_self, eq_iff, sym, ap, ◌∙◌, string_has_eq,
  nat_has_eq,
}
use safety_grounded_agent.Dict.{get, get-put_self}
use safety_grounded_agent.Time.{Datetime, plus_seconds, later_than}
use safety_grounded_agent.Database.Errors.{ok, Result-cases}
use safety_grounded_agent.Database.Records.{
  IdempotencyScope, IdempotencyClaimRequest, IdempotencyClaimToken, IdempotencyStatus, active,
  scope_has_eq, status_value, status_of,
}
use safety_grounded_agent.Database.State.{ExecutionState, IdempotencyItem}
use safety_grounded_agent.Database.Idempotency.{validate}
use safety_grounded_agent.Database.Idempotency.Spec.{validate_iff, status_of-status_value}
use safety_grounded_agent.Database.Claims.{
  claim, claim_stored, claim_known, claim_same, claim_active, stored, token_of,
  assert_current_owner, owned_by,
}
use safety_grounded_agent.Database.Claims.Fencing.{
  version_of, granted, handed, claim-kept, claim-IsGrant,
}
use safety_grounded_agent.Database.Claims.Ownership.{Owns}

pub Owns-of :
    (t : IdempotencyClaimToken) (s : ExecutionState) (item : IdempotencyItem)
    → get t.scope s.idempotency ≡ some item
    → owned_by item t ≡ true
    → Owns t s
unfolding assert_current_owner
Owns-of t s item found owned = ground arith

owned_self :
    (item : IdempotencyItem) (k : IdempotencyScope)
    → item.status ≡ status_value active
    → owned_by item (token_of item k) ≡ true
owned_self item k h =
    ground (arith, ==_self item.owner_request_id, eq_iff item.status "in_progress")

-- A claim that grants ownership hands out a token that owns the claim: its version is new, it names
-- the claimant, and its lease runs for the time asked for.
pub claim-Owns :
    (r : IdempotencyClaimRequest) (now : Datetime) (s : ExecutionState)
    → granted (claim r now s).0 ≡ true
    → (t : IdempotencyClaimToken) × (handed (claim r now s).0 ≡ some t)
      × Owns t (claim r now s).1
      × (t.scope ≡ r.scope)
      × (t.owner_request_id ≡ r.owner_request_id)
      × (t.claim_version ≡ version_of r.scope s + 1)
      × (t.lease_expires_at ≡ plus_seconds now r.lease_duration_seconds)
claim-Owns r now s given =
    let (item, grant, (token, stored_at)) = claim-IsGrant r now s given in
    let after = (claim r now s).1 in
    let found : get r.scope after.idempotency ≡ some item =
      ap (get r.scope) stored_at ∙ get-put_self r.scope item s.idempotency in
    let owned = owned_self item r.scope grant.status in
    (
      token_of item r.scope,
      token,
      Owns-of (token_of item r.scope) after item found owned,
      refl,
      grant.owner,
      grant.version,
      grant.lease,
    )

-- The validator returns the status that the record names.
pub accepted_status :
    (item : IdempotencyItem) (k : IdempotencyScope) (status named : IdempotencyStatus)
    → validate (stored item k) ≡ ok status
    → item.status ≡ status_value named
    → status ≡ named
accepted_status item k status named accepted is_named =
    let wf = (validate_iff status (stored item k)).0 accepted in
    cc (
      status_of-status_value status,
      status_of-status_value named,
      ap status_of (sym wf.state ∙ is_named),
    )

known-not_granted :
    (item : IdempotencyItem) (r : IdempotencyClaimRequest) (now : Datetime) (s : ExecutionState)
    → later_than item.lease_expires_at now ≡ true
    → granted (claim_known active item r now s).0 ≡ false
unfolding claim_known claim_same claim_active
known-not_granted item r now s live = ground arith

-- A claim on an active record whose lease runs grants nothing.
live-not_granted :
    (r : IdempotencyClaimRequest) (now : Datetime) (s : ExecutionState) (item : IdempotencyItem)
    → get r.scope s.idempotency ≡ some item
    → item.status ≡ status_value active
    → later_than item.lease_expires_at now ≡ true
    → granted (claim r now s).0 ≡ false
unfolding claim claim_stored
live-not_granted r now s item found is_active live =
    elim (Result-cases (validate (stored item r.scope))) [
      | inr (e, refused) ↦ ground arith
      | inl (status, accepted) ↦ ground (
        arith,
        accepted_status item r.scope status active accepted is_active,
        known-not_granted item r now s live,
      )
    ]

-- While the lease of an active claim runs, no claim on its scope is granted or changes a table, and
-- its owner keeps it.
pub lease_protects :
    (t : IdempotencyClaimToken) (r : IdempotencyClaimRequest) (now : Datetime) (s : ExecutionState)
    (item : IdempotencyItem)
    → Owns t s
    → get t.scope s.idempotency ≡ some item
    → r.scope ≡ t.scope
    → later_than item.lease_expires_at now ≡ true
    → (granted (claim r now s).0 ≡ false) × ((claim r now s).1 ≡ s) × Owns t (claim r now s).1
unfolding assert_current_owner
lease_protects t r now s item owns found same live =
    let held : item.status ≡ status_value active =
      ground (arith, eq_iff item.status "in_progress") in
    let refused = live-not_granted r now s item (rw same found) held live in
    let unchanged = claim-kept r now s refused in (refused, unchanged, rw unchanged owns)
