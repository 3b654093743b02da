-- ===== src/Application/Gateway.antt =====
-- src/conversation_agent/application/execution_gateway.py: which service executes a request. The services
-- are actions over the factory of units of work; a mode that has none gives `none`.
pub mod Exact
use safety_grounded_agent.Prelude.{ℕ, String, Bool, Option, none, some, if◌then◌else◌}
use safety_grounded_agent.Database.Errors.{Error, ok, err, Action}
use safety_grounded_agent.Database.UnitOfWork.{Factory}
use safety_grounded_agent.Application.Models.{
  ApplicationResult, ChatOutcome, IdempotentApplicationResult, executed, replayed, still_running,
  conflicting, failed_before,
}

pub data PersistenceMode : Type 0 where
  postgres no_persistence fake : PersistenceMode

pub data IdempotencyHeaderMode : Type 0 where
  optional required : IdempotencyHeaderMode

pub record Gateway : Type 0 where
  pub persistence_mode : PersistenceMode
  pub header_mode : IdempotencyHeaderMode
  pub durable : Option (Action Factory ApplicationResult)
  pub idempotent : Option (Action Factory IdempotentApplicationResult)

-- What `execute` comes to: a result with its idempotency status, an `ExecutionGatewayError` with its code
-- and status code, or what a service raised or the chat service came to.
pub data GatewayOutcome : Type 0 where
  returned : ApplicationResult → Option String → GatewayOutcome
  refused : String → ℕ → GatewayOutcome
  service_raised : Error → GatewayOutcome
  chatted : ChatOutcome → GatewayOutcome

-- What is made of the answer of the idempotent service.
unfoldable pub answer_of : IdempotentApplicationResult → GatewayOutcome
answer_of answer = elim answer.outcome [
  | still_running ↦ refused "idempotency_request_in_progress" 409
  | conflicting ↦ refused "idempotency_key_conflict" 409
  | failed_before ↦ refused "idempotency_previous_failure" 409
  | executed ↦ elim answer.application_result [
    | none ↦ refused "invalid_idempotency_state" 500
    | some result ↦ returned result (some "executed")
  ]
  | replayed ↦ elim answer.application_result [
    | none ↦ refused "invalid_idempotency_state" 500
    | some result ↦ returned result (some "replayed")
  ]
]

-- The request has no key.
unfoldable pub without_key : Gateway → ChatOutcome → Factory → GatewayOutcome × Factory
without_key gateway chat f = elim gateway.header_mode [
  | required ↦ (refused "missing_idempotency_key" 400, f)
  | optional ↦ elim gateway.persistence_mode [
    | no_persistence ↦ (chatted chat, f)
    | _ ↦ elim gateway.durable [
      | none ↦ (refused "persistence_unavailable" 503, f)
      | some run ↦ elim (run f).0 [
        | ok result ↦ (returned result none, (run f).1)
        | err e ↦ (service_raised e, (run f).1)
      ]
    ]
  ]
]

-- The request has a key: the persistence mode must allow it, and the answer must be one to replay.
unfoldable pub with_key : Gateway → Bool → Factory → GatewayOutcome × Factory
unfolding answer_of
with_key gateway replay_compatible f =
    if replay_compatible
    then elim gateway.persistence_mode [
      | no_persistence ↦ (refused "idempotency_unavailable" 503, f)
      | _ ↦ elim gateway.idempotent [
        | none ↦ (refused "persistence_unavailable" 503, f)
        | some run ↦ elim (run f).0 [
          | ok answer ↦ (answer_of answer, (run f).1)
          | err e ↦ (service_raised e, (run f).1)
        ]
      ]
    ]
    else (refused "idempotency_not_supported_for_raw_response" 400, f)

-- `execute`
unfoldable pub execute :
    Gateway → ChatOutcome → Option String → Bool → Factory → GatewayOutcome × Factory
unfolding without_key with_key
execute gateway chat none replay_compatible f = without_key gateway chat f
execute gateway chat (some key) replay_compatible f = with_key gateway replay_compatible f
