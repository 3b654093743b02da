-- ===== src/Application/Execute/Outcomes.antt =====
-- Which exceptions leave the idempotent service.
use safety_grounded_agent.Prelude.{
  ◌≡◌, refl, ◌||◌, Bool, true, not, inl, inr, arith, Bool-cases, ◌==◌, string_has_eq, String,
}
use safety_grounded_agent.Database.Errors.{Error, ok, err, is_idempotency_error}
use safety_grounded_agent.Database.Records.{PersistedAgentRequestRef, IdempotencyClaimToken}
use safety_grounded_agent.Database.UnitOfWork.{Factory, with_uow}
use safety_grounded_agent.Application.Models.{ChatOutcome, finished, service_failed, crashed}
use safety_grounded_agent.Application.Mappers.{require}
use safety_grounded_agent.Application.Idempotent.{
  Service, Call, Readings, Accepted, owner, answered, claim_and_accept,
}
use safety_grounded_agent.Application.Raises.{
  Raises, bind-Raises, rescue-Raises, pure-Raises, modify-Raises, raise-Raises, lift-Raises,
  now-Raises, raise_if-Raises,
}
use safety_grounded_agent.Application.Durable.Outcomes.{is_service_error}
use safety_grounded_agent.Application.Execute.{
  execute, accept, proceed, run_owner, end_run, conclude, give_up, initialization_error,
}

-- The exceptions of the durable services, and the idempotency errors.
abbrev pub may_leave : Error → Bool
may_leave e = is_service_error e || is_idempotency_error e

initialization_may_leave : (e : Error) → may_leave (initialization_error e) ≡ true
initialization_may_leave e = elim (Bool-cases (is_idempotency_error e)) [
  | inl named ↦ ground (arith, named)
  | inr other ↦ ground (arith, other)
]

give_up-Raises :
    (service : Service) (call : Call) (r : Readings) (request : PersistedAgentRequestRef)
    (token : IdempotencyClaimToken) (code : String)
    → require code ≡ ok code
    → Raises may_leave (give_up service call r request token code)
unfolding give_up
give_up-Raises service call r request token code known =
    let t = may_leave in
    bind-Raises t
      (bind-Raises t (now-Raises t r.run_completed_at refl)
        (λ _. lift-Raises t (require code) (λ e raised. ground (arith, known, raised))))
      (λ _.
        bind-Raises t (rescue-Raises t (λ _. Error.persistence_finalization) _ (λ _. refl))
          (λ _. raise-Raises t Error.durable_application_execution refl))

end_run-Raises :
    (service : Service) (call : Call) (r : Readings) (request : PersistedAgentRequestRef)
    (token : IdempotencyClaimToken) (o : ChatOutcome)
    → Raises may_leave (end_run service call r token request o)
unfolding end_run conclude
end_run-Raises service call r request token (finished result) =
    let t = may_leave in
    bind-Raises t
      (bind-Raises t (now-Raises t r.run_completed_at refl)
        (λ _. rescue-Raises t (λ _. Error.persistence_finalization) _ (λ _. refl)))
      (λ _. pure-Raises t _)
end_run-Raises service call r request token service_failed =
    give_up-Raises service call r request token "application_service_failed"
      (unfold require in refl)
end_run-Raises service call r request token crashed =
    give_up-Raises service call r request token "coordinator_execution_failed"
      (unfold require in refl)

proceed-Raises :
    (service : Service) (between : Factory → Factory) (call : Call) (r : Readings) (a : Accepted)
    → Raises may_leave (proceed service between call r a)
unfolding proceed run_owner
proceed-Raises service between call r (owner token request) =
    let t = may_leave in
    bind-Raises t
      (bind-Raises t (now-Raises t r.run_started_at refl) (λ _. modify-Raises t between))
      (λ _.
        end_run-Raises service call r request token
          (service.chat call.request call.context call.forced_task))
proceed-Raises service between call r (answered result) = pure-Raises may_leave result

-- Whatever the repositories, the commits, the chat service, the replay mapper and other requests do: an
-- exception that leaves the idempotent service is the clock's `ValueError`, one of the durable services'
-- three, or an idempotency error.
pub execute_raises_named :
    (service : Service) (between : Factory → Factory) (call : Call) (r : Readings) (f : Factory)
    (e : Error)
    → (execute service between call r f).0 ≡ err e
    → may_leave e ≡ true
unfolding execute accept
execute_raises_named service between call r f e =
    let t = may_leave in
    (bind-Raises t
        (bind-Raises t
          (bind-Raises t
            (bind-Raises t
              (raise_if-Raises t (not call.context.authorization.allowed)
                Error.request_initialization refl)
              (λ _.
                raise_if-Raises t (call.idempotency_key == "") Error.request_initialization refl))
            (λ _. now-Raises t r.accepted_at refl))
          (λ _.
            rescue-Raises t initialization_error (with_uow (claim_and_accept service call r))
              initialization_may_leave))
        (proceed-Raises service between call r)).raises
      f e
