-- ===== src/Application/Models.antt =====
-- src/conversation_agent/application/models.py and service.py, with the idempotent results of
-- src/conversation_agent/database/records.py.
use safety_grounded_agent.Prelude.{ℕ, String, Option, none}
use safety_grounded_agent.Text.{Text}
use safety_grounded_agent.Runtime.{RequestContext}
use safety_grounded_agent.Orchestration.TaskRouter.{TaskName}
use safety_grounded_agent.Orchestration.Models.{OrchestrationResult}

pub record UserRequest : Type 0 where
  pub text : Text
  pub task_override : Option TaskName
  pub session_id : Option String

pub record ApplicationResult : Type 0 where
  pub context : RequestContext
  pub orchestration : OrchestrationResult

-- What the thread that runs the chat service comes to; `service_failed` is an
-- `ApplicationExecutionError`, `crashed` any other exception.
pub data ChatOutcome : Type 0 where
  finished : ApplicationResult → ChatOutcome
  service_failed crashed : ChatOutcome

pub data IdempotentResultOutcome : Type 0 where
  executed replayed still_running conflicting failed_before : IdempotentResultOutcome

pub record IdempotentApplicationResult : Type 0 where
  pub outcome : IdempotentResultOutcome
  pub request_id : String
  pub application_result : Option ApplicationResult
  pub original_request_id : Option String
  pub claim_version : Option ℕ
  pub safe_failure_code : Option String

-- A result with the class's defaults.
abbrev pub result_of : IdempotentResultOutcome → String → IdempotentApplicationResult
result_of outcome request_id = record {
  outcome = outcome;
  request_id = request_id;
  application_result = none;
  original_request_id = none;
  claim_version = none;
  safe_failure_code = none;
}
