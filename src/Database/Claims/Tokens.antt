-- ===== src/Database/Claims/Tokens.antt =====
-- The tokens that claims hand out pass the check of their own constructor, so that making one raises
-- nothing after a table was written.
use safety_grounded_agent.Prelude.{
  ◌≡◌, inl, inr, false, some, arith, Bool-cases, Option-cases, sym, ap, ◌∙◌, some_injective,
  string_has_eq, nat_has_eq,
}
use safety_grounded_agent.Dict.{get}
use safety_grounded_agent.Time.{Datetime}
use safety_grounded_agent.Database.Errors.{ok, Result-cases}
use safety_grounded_agent.Database.Records.{
  IdempotencyClaimRequest, IdempotencyClaimToken, IdempotencyStatus, active, completed, failed,
  scope_has_eq,
}
use safety_grounded_agent.Database.Records.Checks.{check_token}
use safety_grounded_agent.Database.State.{ExecutionState, IdempotencyItem}
use safety_grounded_agent.Database.Idempotency.{validate}
use safety_grounded_agent.Database.Idempotency.Spec.{validate_iff}
use safety_grounded_agent.Database.Claims.{
  claim, claim_new, claim_stored, claim_known, claim_same, claim_active, claim_completed,
  claim_failed, reacquire, stored, token_of,
}
use safety_grounded_agent.Database.Claims.Fencing.{granted, handed, claim-IsGrant}
use safety_grounded_agent.Database.Claims.Invariant.{IsUtc}

module _ (r : IdempotencyClaimRequest) (now : Datetime) (s : ExecutionState)
    (t : IdempotencyClaimToken) where
  active-shown :
      (item : IdempotencyItem)
      → handed (claim_active item r now s).0 ≡ some t
      → granted (claim_active item r now s).0 ≡ false
      → t ≡ token_of item r.scope
  unfolding claim_active
  active-shown item h g = ground arith

  same-shown :
      (status : IdempotencyStatus) (item : IdempotencyItem)
      → handed (claim_same status item r now s).0 ≡ some t
      → granted (claim_same status item r now s).0 ≡ false
      → t ≡ token_of item r.scope
  unfolding claim_same claim_completed claim_failed
  same-shown active item h g = active-shown item h g
  same-shown completed item h g = absurd (ground arith)
  same-shown failed item h g = absurd (ground arith)

  known-shown :
      (status : IdempotencyStatus) (item : IdempotencyItem)
      → handed (claim_known status item r now s).0 ≡ some t
      → granted (claim_known status item r now s).0 ≡ false
      → t ≡ token_of item r.scope
  unfolding claim_known reacquire
  known-shown status item h g = ground (arith, same-shown status item)

  -- A token that is only shown is that of the record, which the validator has accepted.
  shown :
      handed (claim r now s).0 ≡ some t
      → granted (claim r now s).0 ≡ false
      → (item : IdempotencyItem) × (status : IdempotencyStatus) × (validate (stored item r.scope)
          ≡ ok status)
        × (t ≡ token_of item r.scope)
  unfolding claim claim_new claim_stored
  shown h g = elim (Option-cases (get r.scope s.idempotency)) [
    | inl free ↦ absurd (ground arith)
    | inr (item, e) ↦ elim (Result-cases (validate (stored item r.scope))) [
      | inl (status, accepted) ↦ (item, status, accepted, ground (arith, known-shown status item))
      | inr (code, refused) ↦ absurd (ground arith)
    ]
  ]

  utc-checks : IsUtc t.claimed_at → IsUtc t.lease_expires_at → check_token t ≡ ok tt
  utc-checks claimed lease = ground arith

  -- A token that a claim hands out or shows passes the check of its constructor, where the clock is
  -- in UTC.
  pub claim_token_checked : handed (claim r now s).0 ≡ some t → IsUtc now → check_token t ≡ ok tt
  claim_token_checked h utc = elim (Bool-cases (granted (claim r now s).0)) [
    | inl given ↦
        let (item, grant, (token, _)) = claim-IsGrant r now s given in
        let t-eq : t ≡ token_of item r.scope = some_injective (sym h ∙ token) in
        utc-checks
          (ap (λ x. x.claimed_at.utcoffset) t-eq ∙ (ap (λ x. x.utcoffset) grant.claimed ∙ utc))
          (ap (λ x. x.lease_expires_at.utcoffset) t-eq ∙ (ap (λ x. x.utcoffset) grant.lease ∙ utc))
    | inr kept ↦
        let (item, status, accepted, t-eq) = shown h kept in
        let wf = (validate_iff status (stored item r.scope)).0 accepted in
        let (c, has_c, c_utc) = wf.claimed_at in
        let (l, has_l, l_utc) = wf.lease_expires_at in
        utc-checks
          (ap (λ x. x.claimed_at.utcoffset) t-eq
            ∙ (ap (λ x. x.utcoffset) (some_injective has_c) ∙ c_utc))
          (ap (λ x. x.lease_expires_at.utcoffset) t-eq
            ∙ (ap (λ x. x.utcoffset) (some_injective has_l) ∙ l_utc))
  ]
