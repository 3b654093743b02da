-- ===== src/Orchestration/Run/Tests.antt =====
-- The coordinator on small inputs.
use safety_grounded_agent.Prelude.{◌≡◌, refl, false, none, some, [], ◌∷◌}
use safety_grounded_agent.Text.{codes}
use safety_grounded_agent.Time.{utc}
use safety_grounded_agent.Policy.Models.{PolicyDecision, decision, uncertain, blocked, hundredths}
use safety_grounded_agent.Rag.{RagResult, RagProvider, answered, crashed}
use safety_grounded_agent.Orchestration.TaskRouter.{IntentResult, query, task_route, qa, email_task}
use safety_grounded_agent.Orchestration.Models.{OrchestrationRequestMetadata, OrchestrationResult}
use safety_grounded_agent.Orchestration.Modules.{Coordinator, Timing}
use safety_grounded_agent.Orchestration.Coordinator.{
  execute_task, run_qa, answer_of, format_rag_response, rag_steps,
}
use safety_grounded_agent.Orchestration.Run.{
  run, run_allowed, resolve_request_metadata, executed_result,
}
use safety_grounded_agent.Orchestration.Run.Guarded.{Refused, Guarded, blocked_run, run-Guarded}

abbrev intent : IntentResult
intent = record {
  intent = query;
  confidence = hundredths 80;
  reasoning = "";
  alternative_intents = [];
}

abbrev retrieved : RagResult
retrieved = record {
  answer = "answer";
  evidence = [];
  sources = [];
  confidence = hundredths 90;
  warnings = [];
  provider = RagProvider.local;
  diagnostics = [];
  raw_response = none;
}

-- Numbers are formatted as dots here.
abbrev coordinator : PolicyDecision → Coordinator
coordinator d = record {
  unicode = record {
    nfkc = λ c. c ∷ [];
    is_control = λ _. false;
    lower = λ c. c ∷ [];
    is_space = λ _. false;
    casefold = λ text. text;
  };
  policy = λ _. some d;
  route_intent = λ _. intent;
  route_task = λ text r. task_route qa (hundredths 75) "question";
  list_all = [];
  load = λ _. none;
  rag_client = λ q. answered retrieved;
  show = λ n. ".";
  decimals = λ n. ".";
  plain_float = λ n. ".";
  of_codes = λ text. "text";
  to_ms = λ n. n;
  source_id = λ v. none;
  title = λ v. none;
}

abbrev timing : Timing
timing = record { policy_ms = 1; route_ms = 2; task_ms = 3; total_ms = 6; finished_at = utc 0 }

abbrev metadata : OrchestrationRequestMetadata
metadata = record { request_id = "request"; trace_id = "trace"; session_id = "session" }

abbrev refusal : PolicyDecision
refusal = decision blocked "no" (hundredths 95)

abbrev doubt : PolicyDecision
doubt = decision uncertain "perhaps" (hundredths 65)

-- The same policy, and a retrieval that would crash.
abbrev crashing : Coordinator
crashing = record (coordinator refusal) { rag_client = λ q. crashed "RuntimeError" }

blocked_run_example :
    (o : OrchestrationResult) × (run
        (coordinator refusal)
        timing
        (codes "hi")
        none
        none
        (some metadata)
        metadata
      ≡ some o)
    × (run crashing timing (codes "hi") none (some email_task) (some metadata) metadata ≡ some o)
    × Refused refusal o
unfolding resolve_request_metadata
blocked_run_example =
    blocked_run (coordinator refusal) crashing timing (codes "hi") none none (some email_task)
      (some metadata) metadata metadata refusal refl refl refl refl refl

-- The result of an uncertain request.
abbrev doubtful : OrchestrationResult
doubtful =
    executed_result (coordinator doubt) timing (codes "hi") metadata doubt intent
      (task_route qa (hundredths 75) "question")
      (record {
        response = "answer\n\n置信度：.";
        rag_result = some retrieved;
        confidence = hundredths 90;
        steps = rag_steps (coordinator doubt) (codes "hi") retrieved;
      })

run-Guarded_example : Guarded (coordinator doubt) (codes "hi") metadata doubtful
unfolding run run_allowed resolve_request_metadata execute_task run_qa answer_of format_rag_response
run-Guarded_example =
    run-Guarded (coordinator doubt) timing (codes "hi") none none (some metadata) metadata metadata
      doubtful refl refl

-- The confidence of the retrieval is cut to that of the policy.
doubtful_test : doubtful.confidence ≡ hundredths 65
unfolding executed_result
doubtful_test = refl
