-- ===== src/Application/Durable/Outcomes.antt =====
-- Which exceptions leave the two durable services.
use safety_grounded_agent.Prelude.{◌≡◌, refl, Bool, true, false, String, arith}
use safety_grounded_agent.Database.Errors.{Error, ok, err}
use safety_grounded_agent.Database.Records.{PersistedAgentRequestRef}
use safety_grounded_agent.Database.UnitOfWork.{Factory, with_uow}
use safety_grounded_agent.Application.Models.{ChatOutcome, finished, service_failed, crashed}
use safety_grounded_agent.Application.Mappers.{require}
use safety_grounded_agent.Application.Idempotent.{Call, Readings}
use safety_grounded_agent.Application.Raises.{
  Raises, bind-Raises, rescue-Raises, pure-Raises, modify-Raises, raise-Raises, lift-Raises,
  now-Raises,
}
use safety_grounded_agent.Application.Durable
use safety_grounded_agent.Application.Durable.{Durable}

-- The exceptions that the durable service is to raise, and the clock's `ValueError`.
abbrev pub is_service_error : Error → Bool
is_service_error Error.value_error = true
is_service_error Error.request_initialization = true
is_service_error Error.durable_application_execution = true
is_service_error Error.persistence_finalization = true
is_service_error _ = false

give_up-Raises :
    (call : Call) (r : Readings) (request : PersistedAgentRequestRef) (code : String)
    → require code ≡ ok code
    → Raises is_service_error (Durable.give_up call r request code)
unfolding Durable.give_up
give_up-Raises call r request code known =
    let t = is_service_error in
    bind-Raises t
      (bind-Raises t (now-Raises t r.run_completed_at refl)
        (λ _. lift-Raises t (require code) (λ e raised. ground (arith, known, raised))))
      (λ _.
        bind-Raises t (rescue-Raises t (λ _. Error.persistence_finalization) _ (λ _. refl))
          (λ _. raise-Raises t Error.durable_application_execution refl))

end_run-Raises :
    (service : Durable) (call : Call) (r : Readings) (request : PersistedAgentRequestRef)
    (o : ChatOutcome)
    → Raises is_service_error (Durable.end_run service.codec call r request o)
unfolding Durable.end_run
end_run-Raises service call r request (finished result) =
    let t = is_service_error in
    bind-Raises t
      (bind-Raises t (now-Raises t r.run_completed_at refl)
        (λ _. rescue-Raises t (λ _. Error.persistence_finalization) _ (λ _. refl)))
      (λ _. pure-Raises t result)
end_run-Raises service call r request service_failed =
    give_up-Raises call r request "application_service_failed" (unfold require in refl)
end_run-Raises service call r request crashed =
    give_up-Raises call r request "coordinator_execution_failed" (unfold require in refl)

-- Whatever the repositories, the commits, the chat service and other requests do, and whatever the clocks
-- give: an exception that leaves the durable service is the clock's `ValueError` or one of its own three.
pub execute_raises :
    (service : Durable) (between : Factory → Factory) (call : Call) (r : Readings) (f : Factory)
    (e : Error)
    → (Durable.execute service between call r f).0 ≡ err e
    → is_service_error e ≡ true
unfolding Durable.execute
execute_raises service between call r f e =
    let t = is_service_error in
    (bind-Raises t
        (bind-Raises t (now-Raises t r.accepted_at refl) (λ _.
          rescue-Raises t (λ _. Error.request_initialization)
            (with_uow (Durable.accept_request service.codec call r)) (λ _. refl)))
        (λ request.
          bind-Raises t
            (bind-Raises t (now-Raises t r.run_started_at refl) (λ _. modify-Raises t between))
            (λ _.
              end_run-Raises service call r request
                (service.chat call.request call.context call.forced_task)))).raises
      f e
