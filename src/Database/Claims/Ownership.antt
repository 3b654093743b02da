-- ===== src/Database/Claims/Ownership.antt =====
-- Who owns a claim, and for how long: what a grant gives, what a live lease protects, and what a
-- token of an older version can no longer do, whatever calls come between.
use safety_grounded_agent.Prelude.{
  ℕ, ◌+◌, ◌≤◌, ◌<◌, ◌≡◌, refl, ◌⊎◌, inl, inr, true, some, List, [], ◌∷◌, arith, ◌==◌, ne_of_false,
  Bool-cases, Option-cases, ap, string_has_eq,
}
use safety_grounded_agent.Dict.{get, put, get-put_self, get-put_ne}
use safety_grounded_agent.Time.{Datetime}
use safety_grounded_agent.Json.{Json}
use safety_grounded_agent.Database.Errors.{Error, ok, err}
use safety_grounded_agent.Database.Records.{
  IdempotencyScope, IdempotencyClaimRequest, IdempotencyClaimToken, scope_has_eq, scope_beq_iff,
}
use safety_grounded_agent.Database.State.{ExecutionState, IdempotencyItem}
use safety_grounded_agent.Database.Claims.{
  claim, assert_current_owner, owned_by, complete_fenced, fail_fenced, store_item, completed_item,
  failed_item,
}
use safety_grounded_agent.Database.Claims.Fencing.{
  version_of, item_version, granted, claim-kept, claim-IsGrant,
}

-- `assert_current_owner(token)` returns.
abbrev pub Owns : IdempotencyClaimToken → ExecutionState → Type 0
Owns t s = (assert_current_owner t s).0 ≡ ok tt

-- A token whose version the scope has left behind.
abbrev pub IsStale : IdempotencyClaimToken → ExecutionState → Type 0
IsStale t s = t.claim_version < version_of t.scope s

pub owner_version :
    (t : IdempotencyClaimToken) (s : ExecutionState)
    → Owns t s
    → version_of t.scope s ≡ t.claim_version
unfolding assert_current_owner
owner_version t s h = ground arith

pub stale_lost :
    (t : IdempotencyClaimToken) (s : ExecutionState)
    → IsStale t s
    → assert_current_owner t s ≡ (err Error.ownership_lost, s)
unfolding assert_current_owner
stale_lost t s h = ground arith

-- A call of the claims repository, with what the clock returns to it.
pub data Call : Type 0 where
  claim_call : IdempotencyClaimRequest → Datetime → Call
  assert_call : IdempotencyClaimToken → Call
  complete_call : IdempotencyClaimToken → ℕ → Json → ℕ → ℕ → Datetime → Call
  fail_call : IdempotencyClaimToken → ℕ → Datetime → Call

-- The tables after a call, whether it returned or raised.
unfoldable pub perform : Call → ExecutionState → ExecutionState
perform (claim_call r now) s = (claim r now s).1
perform (assert_call t) s = (assert_current_owner t s).1
perform (complete_call t run snapshot version ttl now) s =
    (complete_fenced t run snapshot version ttl now s).1
perform (fail_call t ttl now) s = (fail_fenced t ttl now s).1

unfoldable pub perform_all : List Call → ExecutionState → ExecutionState
unfolding perform
perform_all [] s = s
perform_all (c ∷ cs) s = perform_all cs (perform c s)

pub state-assert :
    (t : IdempotencyClaimToken) (s : ExecutionState) → (assert_current_owner t s).1 ≡ s
unfolding assert_current_owner
state-assert t s = ground arith

module _ (k : IdempotencyScope) (s : ExecutionState) where
  -- Finishing a claim keeps its version.
  version-put :
      (j : IdempotencyScope) (old new : IdempotencyItem)
      → get j s.idempotency ≡ some old
      → new.claim_version ≡ old.claim_version
      → item_version (get k (put j new s.idempotency)) ≡ version_of k s
  version-put j old new e v = elim (Bool-cases (j == k)) [
    | inl same ↦
        let j-eq-k : j ≡ k = (scope_beq_iff j k).0 same in
        rw (← j-eq-k) (rw (get-put_self j new s.idempotency) (rw e v))
    | inr other ↦ ap item_version (get-put_ne k j new s.idempotency (ne_of_false j k other))
  ]

  version_complete :
      (t : IdempotencyClaimToken) (run : ℕ) (snapshot : Json) (version ttl : ℕ) (now : Datetime)
      → version_of k (complete_fenced t run snapshot version ttl now s).1 ≡ version_of k s
  unfolding complete_fenced
  version_complete t run snapshot version ttl now =
      elim (Option-cases (get t.scope s.idempotency)) [
        | inl missing ↦ ground arith
        | inr (item, e) ↦ ground (
          arith,
          version-put t.scope item (completed_item item run snapshot version ttl now) e refl,
        )
      ]

  version-fail :
      (t : IdempotencyClaimToken) (ttl : ℕ) (now : Datetime)
      → version_of k (fail_fenced t ttl now s).1 ≡ version_of k s
  unfolding fail_fenced
  version-fail t ttl now = elim (Option-cases (get t.scope s.idempotency)) [
    | inl missing ↦ ground arith
    | inr (item, e) ↦ ground (arith, version-put t.scope item (failed_item item ttl now) e refl)
  ]

  -- No claim lowers the version of a scope, its own or another.
  pub version-claim :
      (r : IdempotencyClaimRequest) (now : Datetime)
      → version_of k s ≤ version_of k (claim r now s).1
  version-claim r now = elim (Bool-cases (granted (claim r now s).0)) [
    | inl given ↦
        let (item, grant, (_, stored_at)) = claim-IsGrant r now s given in
        elim (Bool-cases (r.scope == k)) [
          | inl same ↦
              let scope-eq-k : r.scope ≡ k = (scope_beq_iff r.scope k).0 same in
              rw (← scope-eq-k, stored_at)
                (rw (get-put_self r.scope item s.idempotency) (omega (arith, grant.version)))
          | inr other ↦ rw stored_at (
              rw (get-put_ne k r.scope item s.idempotency (ne_of_false r.scope k other))
                (omega arith))
        ]
    | inr kept ↦ rw (claim-kept r now s kept) (omega arith)
  ]

  version-perform : (c : Call) → version_of k s ≤ version_of k (perform c s)
  unfolding perform
  version-perform (claim_call r now) = version-claim r now
  version-perform (assert_call t) = rw (state-assert t s) (omega arith)
  version-perform (complete_call t run snapshot version ttl now) =
      omega (arith, version_complete t run snapshot version ttl now)
  version-perform (fail_call t ttl now) = omega (arith, version-fail t ttl now)

-- A fenced write leaves the tables alone, or it stores the finished record in place of the old.
pub complete_cases :
    (t : IdempotencyClaimToken) (run : ℕ) (snapshot : Json) (version ttl : ℕ) (now : Datetime)
    (s : ExecutionState)
    → ((complete_fenced t run snapshot version ttl now s).1 ≡ s)
      ⊎ ((item : IdempotencyItem) × (get t.scope s.idempotency ≡ some item)
          × ((complete_fenced t run snapshot version ttl now s).1
              ≡ store_item t.scope (completed_item item run snapshot version ttl now) s))
unfolding complete_fenced
complete_cases t run snapshot version ttl now s = elim (Option-cases (get t.scope s.idempotency)) [
  | inl missing ↦ inl (ground arith)
  | inr (item, e) ↦ elim (Bool-cases (owned_by item t)) [
    | inl owned ↦ inr (item, e, ground arith)
    | inr other ↦ inl (ground arith)
  ]
]

pub fail_cases :
    (t : IdempotencyClaimToken) (ttl : ℕ) (now : Datetime) (s : ExecutionState)
    → ((fail_fenced t ttl now s).1 ≡ s)
      ⊎ ((item : IdempotencyItem) × (get t.scope s.idempotency ≡ some item)
          × ((fail_fenced t ttl now s).1 ≡ store_item t.scope (failed_item item ttl now) s))
unfolding fail_fenced
fail_cases t ttl now s = elim (Option-cases (get t.scope s.idempotency)) [
  | inl missing ↦ inl (ground arith)
  | inr (item, e) ↦ elim (Bool-cases (owned_by item t)) [
    | inl owned ↦ inr (item, e, ground arith)
    | inr other ↦ inl (ground arith)
  ]
]

-- Over any sequence of calls, of any callers, the version of a scope never falls.
pub version-perform_all :
    (k : IdempotencyScope) (cs : List Call) (s : ExecutionState)
    → version_of k s ≤ version_of k (perform_all cs s)
unfolding perform_all
version-perform_all k [] s = omega arith
version-perform_all k (c ∷ cs) s =
    omega (arith, version-perform k s c, version-perform_all k cs (perform c s))

complete_stale :
    (t : IdempotencyClaimToken) (run : ℕ) (snapshot : Json) (version ttl : ℕ) (now : Datetime)
    (s : ExecutionState)
    → IsStale t s
    → complete_fenced t run snapshot version ttl now s ≡ (err Error.ownership_lost, s)
unfolding complete_fenced
complete_stale t run snapshot version ttl now s h = ground (arith, stale_lost t s h)

fail_stale :
    (t : IdempotencyClaimToken) (ttl : ℕ) (now : Datetime) (s : ExecutionState)
    → IsStale t s
    → fail_fenced t ttl now s ≡ (err Error.ownership_lost, s)
unfolding fail_fenced
fail_stale t ttl now s h = ground (arith, stale_lost t s h)

overtaken :
    (t : IdempotencyClaimToken) (r : IdempotencyClaimRequest) (now : Datetime) (s : ExecutionState)
    (cs : List Call)
    → Owns t s
    → r.scope ≡ t.scope
    → granted (claim r now s).0 ≡ true
    → IsStale t (perform_all cs (claim r now s).1)
overtaken t r now s cs owns same given =
    let (item, grant, (_, stored_at)) = claim-IsGrant r now s given in
    let raised : version_of r.scope (claim r now s).1 ≡ version_of r.scope s + 1 =
      rw stored_at (rw (get-put_self r.scope item s.idempotency) grant.version) in
    let after = perform_all cs (claim r now s).1 in
    let kept = version-perform_all r.scope cs (claim r now s).1 in
    let before_same = ap (λ k. version_of k s) same in
    let after_same = ap (λ k. version_of k after) same in
    omega (arith, raised, kept, owner_version t s owns, before_same, after_same)

-- Once a scope has been granted anew, the owner before can finish nothing, however many calls come
-- between: both ways to finish raise `IdempotencyOwnershipLostError` and change no table.
pub fenced_out :
    (t : IdempotencyClaimToken) (r : IdempotencyClaimRequest) (now : Datetime) (s : ExecutionState)
    (cs : List Call) (run : ℕ) (snapshot : Json) (version ttl : ℕ) (later : Datetime)
    → Owns t s
    → r.scope ≡ t.scope
    → granted (claim r now s).0 ≡ true
    → let after = perform_all cs (claim r now s).1 in
      (complete_fenced t run snapshot version ttl later after ≡ (err Error.ownership_lost, after))
      × (fail_fenced t ttl later after ≡ (err Error.ownership_lost, after))
fenced_out t r now s cs run snapshot version ttl later owns same given =
    let stale = overtaken t r now s cs owns same given in
    let after = perform_all cs (claim r now s).1 in
    (
      complete_stale t run snapshot version ttl later after stale,
      fail_stale t ttl later after stale,
    )
