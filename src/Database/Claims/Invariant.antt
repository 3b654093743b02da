-- ===== src/Database/Claims/Invariant.antt =====
-- Every record that the repository writes is one that its validator accepts.
use safety_grounded_agent.Prelude.{
  ℕ, ◌≡◌, refl, ◌≢◌, inl, inr, some, List, [], ◌∷◌, arith, Bool-cases, ap, All,
}
use safety_grounded_agent.Dict.{put, ForAll, ForAll-put}
use safety_grounded_agent.Time.{Datetime, plus_seconds, Offset}
use safety_grounded_agent.Json.{Json}
use safety_grounded_agent.Database.Errors.{ok}
use safety_grounded_agent.Database.Records.{
  IdempotencyScope, IdempotencyClaimRequest, IdempotencyClaimToken, IdempotencyStatus, active,
  completed, failed, scope_has_eq,
}
use safety_grounded_agent.Database.State.{ExecutionState, IdempotencyItem}
use safety_grounded_agent.Database.Idempotency.{validate}
use safety_grounded_agent.Database.Idempotency.Spec.{validate_iff}
use safety_grounded_agent.Database.Claims.{
  claim, stored, complete_fenced, fail_fenced, completed_item, failed_item,
}
use safety_grounded_agent.Database.Claims.Fencing.{granted, claim-kept, claim-IsGrant, IsGrant}
use safety_grounded_agent.Database.Claims.Ownership.{
  Call, claim_call, assert_call, complete_call, fail_call, perform, perform_all, state-assert,
  complete_cases, fail_cases,
}

abbrev pub IsUtc : Datetime → Type 0
IsUtc t = t.utcoffset ≡ some (Offset.east 0)

-- The validator accepts the record.
abbrev pub IsAccepted : IdempotencyScope → IdempotencyItem → Type 0
IsAccepted k item = (status : IdempotencyStatus) × (validate (stored item k) ≡ ok status)

pub record IsConsistent (s : ExecutionState) : Type 0 where
  pub accepted : ForAll IsAccepted s.idempotency

-- What the callers see to: the clock's values are in UTC, and a claimant has a name.
abbrev pub IsProper : Call → Type 0
IsProper (claim_call r now) = IsUtc now × (r.owner_request_id ≢ "")
IsProper (assert_call t) = Unit
IsProper (complete_call t run snapshot version ttl now) = IsUtc now
IsProper (fail_call t ttl now) = IsUtc now

module _ (k : IdempotencyScope) (item : IdempotencyItem) where
  -- Finishing an accepted record leaves an accepted one.
  completed-IsAccepted :
      (run : ℕ) (snapshot : Json) (version ttl : ℕ) (now : Datetime)
      → IsAccepted k item
      → IsUtc now
      → IsAccepted k (completed_item item run snapshot version ttl now)
  completed-IsAccepted run snapshot version ttl now (status, accepted) utc =
      let wf = (validate_iff status (stored item k)).0 accepted in
      (
        completed,
        (validate_iff completed _).1 (record {
          state = refl;
          version = wf.version;
          owner = wf.owner;
          claimed_at = wf.claimed_at;
          lease_expires_at = wf.lease_expires_at;
          expires_at = (plus_seconds now ttl, refl, utc);
          result = (ground arith, ground arith, ground arith);
        }),
      )

  failed-IsAccepted :
      (ttl : ℕ) (now : Datetime)
      → IsAccepted k item
      → IsUtc now
      → IsAccepted k (failed_item item ttl now)
  failed-IsAccepted ttl now (status, accepted) utc =
      let wf = (validate_iff status (stored item k)).0 accepted in
      (
        failed,
        (validate_iff failed _).1 (record {
          state = refl;
          version = wf.version;
          owner = wf.owner;
          claimed_at = wf.claimed_at;
          lease_expires_at = wf.lease_expires_at;
          expires_at = (plus_seconds now ttl, refl, utc);
          result = (refl, refl, refl);
        }),
      )

  grant-IsAccepted :
      (r : IdempotencyClaimRequest) (now : Datetime) (s : ExecutionState)
      → IsGrant r now s item
      → IsUtc now
      → r.owner_request_id ≢ ""
      → IsAccepted k item
  grant-IsAccepted r now s g utc named =
      let lease = plus_seconds now r.lease_duration_seconds in
      (
        active,
        (validate_iff active _).1 (record {
          state = g.status;
          version = (item.claim_version, refl, omega (arith, g.version));
          owner = (r.owner_request_id, ap some g.owner, named);
          claimed_at = (now, ap some g.claimed, utc);
          lease_expires_at = (lease, ap some g.lease, utc);
          expires_at = (lease, ap some g.expires, utc);
          result = (g.run, g.snapshot, g.snapshot_version);
        }),
      )

claim-IsConsistent :
    (r : IdempotencyClaimRequest) (now : Datetime) (s : ExecutionState)
    → IsUtc now
    → r.owner_request_id ≢ ""
    → IsConsistent s
    → IsConsistent (claim r now s).1
claim-IsConsistent r now s utc named h = elim (Bool-cases (granted (claim r now s).0)) [
  | inl given ↦
      let (item, grant, (_, stored_at)) = claim-IsGrant r now s given in
      record {
        accepted = rw stored_at (
            ForAll-put IsAccepted r.scope item s.idempotency h.accepted
              (grant-IsAccepted r.scope item r now s grant utc named));
      }
  | inr kept ↦ rw (claim-kept r now s kept) h
]

store-IsConsistent :
    (k : IdempotencyScope) (item : IdempotencyItem) (s : ExecutionState)
    → IsConsistent s
    → IsAccepted k item
    → IsConsistent (record s { idempotency = put k item s.idempotency })
store-IsConsistent k item s h accepted = record {
  accepted = ForAll-put IsAccepted k item s.idempotency h.accepted accepted;
}

complete-IsConsistent :
    (t : IdempotencyClaimToken) (run : ℕ) (snapshot : Json) (version ttl : ℕ) (now : Datetime)
    (s : ExecutionState)
    → IsUtc now
    → IsConsistent s
    → IsConsistent (complete_fenced t run snapshot version ttl now s).1
complete-IsConsistent t run snapshot version ttl now s utc h =
    elim (complete_cases t run snapshot version ttl now s) [
      | inl same ↦ rw same h
      | inr (item, found, e) ↦ rw e (
          store-IsConsistent t.scope (completed_item item run snapshot version ttl now) s h (
            completed-IsAccepted t.scope item run snapshot version ttl now
              (h.accepted t.scope item found) utc))
    ]

fail-IsConsistent :
    (t : IdempotencyClaimToken) (ttl : ℕ) (now : Datetime) (s : ExecutionState)
    → IsUtc now
    → IsConsistent s
    → IsConsistent (fail_fenced t ttl now s).1
fail-IsConsistent t ttl now s utc h = elim (fail_cases t ttl now s) [
  | inl same ↦ rw same h
  | inr (item, found, e) ↦ rw e (
      store-IsConsistent t.scope (failed_item item ttl now) s h
        (failed-IsAccepted t.scope item ttl now (h.accepted t.scope item found) utc))
]

perform-IsConsistent :
    (c : Call) (s : ExecutionState) → IsProper c → IsConsistent s → IsConsistent (perform c s)
unfolding perform
perform-IsConsistent (claim_call r now) s p h = claim-IsConsistent r now s p.0 p.1 h
perform-IsConsistent (assert_call t) s p h = rw (state-assert t s) h
perform-IsConsistent (complete_call t run snapshot version ttl now) s p h =
    complete-IsConsistent t run snapshot version ttl now s p h
perform-IsConsistent (fail_call t ttl now) s p h = fail-IsConsistent t ttl now s p h

-- Whatever sequence of proper calls is made, each record in the table is one that the validator
-- accepts, so no claim is refused for a malformed record that the repository itself wrote.
pub perform_all-IsConsistent :
    (cs : List Call) (s : ExecutionState)
    → All IsProper cs
    → IsConsistent s
    → IsConsistent (perform_all cs s)
unfolding perform_all
perform_all-IsConsistent [] s p h = h
perform_all-IsConsistent (c ∷ cs) s p h =
    perform_all-IsConsistent cs (perform c s) p.1 (perform-IsConsistent c s p.0 h)
