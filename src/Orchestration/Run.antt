-- ===== src/Orchestration/Run.antt =====
-- `Coordinator.run` of src/conversation_agent/orchestration/coordinator.py.
pub mod Guarded
mod Tests
use safety_grounded_agent.Prelude.{
  ℕ, String, Bool, true, false, not, Option, none, some, List, [], ◌∷◌, ◌++◌, map, min, ◌==◌,
  string_has_eq, if◌then◌else◌,
}
use safety_grounded_agent.Text.{Text, codes}
use safety_grounded_agent.Json.{Json}
use safety_grounded_agent.Policy.Models.{
  hundredths, PolicyDecision, is_blocked, is_uncertain, PolicyStatus,
}
use safety_grounded_agent.Policy.Engine.{rejection_message}
use safety_grounded_agent.Rag.{RagResult}
use safety_grounded_agent.Application.Mappers.{policy_status}
use safety_grounded_agent.Orchestration.TaskRouter.{
  IntentResult, intent_value, TaskName, TaskRoute, task_route, task_value,
}
use safety_grounded_agent.Orchestration.Models.{
  OrchestrationRequestMetadata, AgentStep, agent_step, OrchestrationResult, default_metadata,
}
use safety_grounded_agent.Orchestration.Words.{◌⊕◌, compact}
use safety_grounded_agent.Orchestration.Modules.{Coordinator, Timing, Executed}
use safety_grounded_agent.Orchestration.Coordinator.{execute_task, sources_of}

-- `_resolve_request_metadata`; the last argument is what is generated where no metadata is given, and
-- `none` the `ValueError`.
unfoldable pub resolve_request_metadata :
    Option String
    → Option OrchestrationRequestMetadata
    → OrchestrationRequestMetadata
    → Option OrchestrationRequestMetadata
resolve_request_metadata none (some m) made = some m
resolve_request_metadata (some session_id) (some m) made =
    if session_id == m.session_id then some m else none
resolve_request_metadata none none made = some made
resolve_request_metadata (some session_id) none made =
    some (record made { session_id = if session_id == "" then made.session_id else session_id })

module _ (c : Coordinator) (t : Timing) where
  abbrev policy_step : Text → PolicyDecision → AgentStep
  policy_step user_input d =
      record (agent_step "policy_engine" (policy_status d.status ⊕ ": " ⊕ d.reason) d.confidence) {
        input_summary = compact c.unicode.is_space user_input;
        latency_ms = t.policy_ms;
        warnings = d.warnings;
      }

  -- The result of a request that the policy blocks.
  unfoldable pub blocked_result :
      Text → OrchestrationRequestMetadata → PolicyDecision → OrchestrationResult
  blocked_result user_input m d = record {
    session_id = m.session_id;
    user_input = user_input;
    policy = d;
    intent_result = none;
    task_route = none;
    final_response = rejection_message d;
    rag_result = none;
    citations = [];
    confidence = d.confidence;
    trace = policy_step user_input d ∷ [];
    metadata = record (default_metadata t.finished_at) {
      session_id = m.session_id;
      intent = some "blocked";
      intent_confidence = some d.confidence;
      latency_ms = t.total_ms;
    };
    timestamp = t.finished_at;
  }

  abbrev pub routed : Text → IntentResult → Option TaskName → TaskRoute
  routed user_input intent none = c.route_task user_input (some intent)
  routed user_input intent (some task) = task_route task (hundredths 100) "命令显式指定执行任务"

  abbrev router_step : PolicyDecision → IntentResult → TaskRoute → AgentStep
  router_step d intent route =
      record (agent_step "router" ("task=" ⊕ task_value route.task ⊕ ": " ⊕ route.reason)
        route.confidence) {
          input_summary = codes ("intent=" ⊕ intent_value intent.intent);
          latency_ms = t.route_ms;
          warnings = if is_uncertain d then rejection_message d ∷ [] else [];
        }

  abbrev prefixed : PolicyDecision → String → String
  prefixed d response = if is_uncertain d then rejection_message d ⊕ "\n\n" ⊕ response else response

  -- The result of a request that was executed.
  unfoldable pub executed_result :
      Text
      → OrchestrationRequestMetadata
      → PolicyDecision
      → IntentResult
      → TaskRoute
      → Executed
      → OrchestrationResult
  executed_result user_input m d intent route e =
      let trace = policy_step user_input d ∷ router_step d intent route ∷ e.steps in
      record {
        session_id = m.session_id;
        user_input = user_input;
        policy = d;
        intent_result = some intent;
        task_route = some route;
        final_response = prefixed d e.response;
        rag_result = e.rag_result;
        citations = sources_of c e.rag_result;
        confidence = if is_uncertain d then min e.confidence d.confidence else e.confidence;
        trace = trace;
        metadata = record (default_metadata t.finished_at) {
          session_id = m.session_id;
          intent = some (intent_value intent.intent);
          intent_confidence = some intent.confidence;
          tools_called = map (λ (s : AgentStep). s.step_name) trace;
          latency_ms = t.total_ms;
        };
        timestamp = t.finished_at;
      }

  unfoldable pub run_allowed :
      Text
      → OrchestrationRequestMetadata
      → PolicyDecision
      → Option TaskName
      → Option OrchestrationResult
  unfolding execute_task executed_result
  run_allowed user_input m d task_override =
      let intent = c.route_intent user_input in
      let route = routed user_input intent task_override in
      elim (execute_task c user_input route.task m d.status t.task_ms) [
        | none ↦ none
        | some e ↦ some (executed_result user_input m d intent route e)
      ]

  -- `run`; `none` stands for an exception.
  unfoldable pub run :
      Text
      → Option String
      → Option TaskName
      → Option OrchestrationRequestMetadata
      → OrchestrationRequestMetadata
      → Option OrchestrationResult
  unfolding resolve_request_metadata blocked_result run_allowed
  run user_input session_id task_override request_metadata made =
      elim (resolve_request_metadata session_id request_metadata made) [
        | none ↦ none
        | some m ↦ elim (c.policy user_input) [
          | none ↦ none
          | some d ↦
              if is_blocked d
              then some (blocked_result user_input m d)
              else run_allowed user_input m d task_override
        ]
      ]
