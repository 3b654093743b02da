-- ===== src/Application/Gateway/Exact.antt =====
-- When the gateway answers with which code, and what it leaves alone.
use safety_grounded_agent.Prelude.{
  String, Bool, true, Option, none, some, ◌≡◌, ◌≢◌, refl, ◌⊎◌, inl, inr, ◌↔◌, arith, Option-cases,
}
use safety_grounded_agent.Database.Errors.{ok, Action, Result-cases}
use safety_grounded_agent.Database.UnitOfWork.{Factory}
use safety_grounded_agent.Application.Models.{
  ApplicationResult, IdempotentResultOutcome, ChatOutcome, IdempotentApplicationResult, executed,
  replayed, still_running, conflicting, failed_before,
}
use safety_grounded_agent.Application.Gateway.{
  Gateway, GatewayOutcome, returned, answer_of, with_key, execute, no_persistence,
}

-- The result that a request with a key is given, and its status.
abbrev pub HasResult : GatewayOutcome → ApplicationResult → String → Type 0
HasResult out result status = out ≡ returned result (some status)

-- How the answer's outcome is called.
abbrev pub IsCalled : IdempotentResultOutcome → String → Type 0
IsCalled outcome status =
    ((outcome ≡ executed) × (status ≡ "executed")) ⊎ ((outcome ≡ replayed) × (status ≡ "replayed"))

answer_of_exact :
    (o : IdempotentResultOutcome) (a : Option ApplicationResult)
    (answer : IdempotentApplicationResult) (result : ApplicationResult) (status : String)
    → answer.outcome ≡ o
    → answer.application_result ≡ a
    → HasResult (answer_of answer) result status
    → (answer.application_result ≡ some result) × IsCalled answer.outcome status
unfolding answer_of
answer_of_exact executed none answer result status e q h = ground (arith, e, q, h)
answer_of_exact executed (some a) answer result status e q h =
    (ground (arith, e, q, h), inl (ground (arith, e, q, h), ground (arith, e, q, h)))
answer_of_exact replayed none answer result status e q h = ground (arith, e, q, h)
answer_of_exact replayed (some a) answer result status e q h =
    (ground (arith, e, q, h), inr (ground (arith, e, q, h), ground (arith, e, q, h)))
answer_of_exact still_running a answer result status e q h = ground (arith, e, q, h)
answer_of_exact conflicting a answer result status e q h = ground (arith, e, q, h)
answer_of_exact failed_before a answer result status e q h = ground (arith, e, q, h)

answer_of_back :
    (answer : IdempotentApplicationResult) (result : ApplicationResult) (status : String)
    → answer.application_result ≡ some result
    → IsCalled answer.outcome status
    → HasResult (answer_of answer) result status
unfolding answer_of
answer_of_back answer result status has (inl (o, named)) = ground (arith, has, o, named)
answer_of_back answer result status has (inr (o, named)) = ground (arith, has, o, named)

-- A request with a key is given a result exactly when it may be replayed, the mode keeps data, and the
-- idempotent service is there and answers with that result as executed or as replayed; the status says
-- which of the two.
pub with_key_exact :
    (gateway : Gateway) (chat : ChatOutcome) (key : String) (compatible : Bool) (f : Factory)
    (result : ApplicationResult) (status : String)
    → HasResult (execute gateway chat (some key) compatible f).0 result status ↔ (
        (compatible ≡ true)
        × (gateway.persistence_mode ≢ no_persistence)
        × ((run : Action Factory IdempotentApplicationResult) × (gateway.idempotent ≡ some run)
            × ((answer : IdempotentApplicationResult) × ((run f).0 ≡ ok answer)
                × (answer.application_result ≡ some result)
                × IsCalled answer.outcome status)))
unfolding execute with_key
with_key_exact gateway chat key compatible f result status = (
  λ h. elim (Option-cases gateway.idempotent) [
    | inl absent ↦ ground (arith, absent, h)
    | inr (run, there) ↦ elim (Result-cases (run f).0) [
      | inr (e, raised) ↦ ground (arith, there, raised, h)
      | inl (answer, gave) ↦
          let (has, called) =
            answer_of_exact answer.outcome answer.application_result answer result status refl refl
              (ground (arith, there, gave, h)) in
          (ground (arith, h), ground (arith, h), (run, there, (answer, gave, has, called)))
    ]
  ],
  λ (may, keeps, (run, there, (answer, gave, has, called))).
      let e = answer_of_back answer result status has called in
      ground (arith, may, keeps, there, gave, e),
)
