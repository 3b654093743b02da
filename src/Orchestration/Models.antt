-- ===== src/Orchestration/Models.antt =====
-- src/conversation_agent/orchestration/models.py, with `InteractionMetadata` of sales/models.py: the
-- trace of a request and what the coordinator returns.
use safety_grounded_agent.Prelude.{ℕ, String, Option, none, some, List, []}
use safety_grounded_agent.Text.{Text}
use safety_grounded_agent.Time.{Datetime}
use safety_grounded_agent.Json.{Json}
use safety_grounded_agent.Policy.Models.{Confidence, PolicyDecision}
use safety_grounded_agent.Rag.{RagResult}
use safety_grounded_agent.Orchestration.TaskRouter.{IntentResult, TaskRoute}

pub record OrchestrationRequestMetadata : Type 0 where
  pub request_id : String
  pub trace_id : String
  pub session_id : String

pub record AgentStep : Type 0 where
  pub step_name : String
  pub input_summary : Text
  pub output_summary : String
  pub confidence : Option Confidence
  pub latency_ms : ℕ
  pub tool_calls : List String
  pub warnings : List String

-- `AgentStep(step_name=…, output_summary=…, confidence=…)`, with the class's defaults.
abbrev pub agent_step : String → String → Confidence → AgentStep
agent_step step_name output_summary confidence = record {
  step_name = step_name;
  input_summary = [];
  output_summary = output_summary;
  confidence = some confidence;
  latency_ms = 0;
  tool_calls = [];
  warnings = [];
}

pub record InteractionMetadata : Type 0 where
  pub session_id : String
  pub intent : Option String
  pub intent_confidence : Option Confidence
  pub tools_called : List String
  pub llm_calls : ℕ
  pub input_tokens : ℕ
  pub output_tokens : ℕ
  pub cost_usd : ℕ
  pub latency_ms : ℕ
  pub timestamp : Datetime

-- `InteractionMetadata()`, at the time that the clock gives.
abbrev pub default_metadata : Datetime → InteractionMetadata
default_metadata now = record {
  session_id = "";
  intent = none;
  intent_confidence = none;
  tools_called = [];
  llm_calls = 0;
  input_tokens = 0;
  output_tokens = 0;
  cost_usd = 0;
  latency_ms = 0;
  timestamp = now;
}

pub record OrchestrationResult : Type 0 where
  pub session_id : String
  pub user_input : Text
  pub policy : PolicyDecision
  pub intent_result : Option IntentResult
  pub task_route : Option TaskRoute
  pub final_response : String
  pub rag_result : Option RagResult
  pub citations : List Json
  pub confidence : Confidence
  pub trace : List AgentStep
  pub metadata : InteractionMetadata
  pub timestamp : Datetime
