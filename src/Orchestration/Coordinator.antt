-- ===== src/Orchestration/Coordinator.antt =====
-- src/conversation_agent/orchestration/coordinator.py: the tasks that ask the knowledge base, and the choice
-- of the task.
use safety_grounded_agent.Prelude.{
  ℕ, String, not, ◌||◌, Option, none, some, List, [], ◌∷◌, ◌++◌, map, length, leb, ◌==◌,
  string_has_eq, if◌then◌else◌,
}
use safety_grounded_agent.Text.{Text, codes}
use safety_grounded_agent.Json.{Json, text, object_of}
use safety_grounded_agent.Policy.Models.{PolicyStatus}
use safety_grounded_agent.Policy.Stance.{strip}
use safety_grounded_agent.Rag.{Query, RagResult, RagCallDiagnostic, answered, client_error, crashed}
use safety_grounded_agent.Application.Mappers.{policy_status, provider_value}
use safety_grounded_agent.Orchestration.TaskRouter.{
  TaskName, qa, sales_analysis, weekly_report, podcast_task, email_task,
}
use safety_grounded_agent.Orchestration.Models.{OrchestrationRequestMetadata, AgentStep, agent_step}
use safety_grounded_agent.Orchestration.Words.{◌⊕◌, join, remove}
use safety_grounded_agent.Orchestration.Modules.{Coordinator, Executed, all_of, summary}
use safety_grounded_agent.Orchestration.Reports.{run_sales_analysis, run_weekly_report, run_email}

module _ (c : Coordinator) where
  abbrev source_line : Json → Option String
  source_line src = elim (c.source_id src) [
    | none ↦ none
    | some id ↦ elim (c.title src) [ none ↦ none | some title ↦ some ("- " ⊕ id ⊕ "：" ⊕ title) ]
  ]

  abbrev source_lines : List Json → Option (List String)
  source_lines [] = some []
  source_lines (src ∷ sources) = elim (all_of source_line (src ∷ sources)) [
    | none ↦ none
    | some lines ↦ some ("引用来源：" ∷ lines)
  ]

  abbrev warning_lines : List String → List String
  warning_lines [] = []
  warning_lines (w ∷ warnings) = ("提示：" ⊕ join "；" (w ∷ warnings)) ∷ []

  -- `_format_rag_response`
  unfoldable pub format_rag_response : RagResult → Option String
  format_rag_response result = elim (source_lines result.sources) [
    | none ↦ none
    | some lines ↦ some (
        join "\n" (
          result.answer
          ∷ ""
          ∷ ("置信度：" ⊕ c.decimals result.confidence)
          ∷ (lines ++ warning_lines result.warnings)))
  ]

  abbrev message_or : String → Option String → String
  message_or default none = default
  message_or default (some s) = if s == "" then default else s

  abbrev milliseconds : Option ℕ → ℕ
  milliseconds none = 0
  milliseconds (some microseconds) = microseconds

  -- The step of one diagnostic; the latency is rounded down as `int` does.
  abbrev diagnostic_step : Text → RagResult → RagCallDiagnostic → AgentStep
  diagnostic_step user_text result d = record {
    step_name = d.step_name;
    input_summary = summary c user_text;
    output_summary = message_or "RAG query completed" d.message;
    confidence = some (if d.success then result.confidence else 0);
    latency_ms = c.to_ms (milliseconds d.latency);
    tool_calls = if d.provider == "external" then "POST /query" ∷ [] else [];
    warnings = if not d.success || d.step_name == "local_rag_fallback" then result.warnings else [];
  }

  abbrev query_step : Text → RagResult → AgentStep
  query_step user_text result =
      record (agent_step "rag_query"
        ("provider="
          ⊕ provider_value result.provider
          ⊕ ", confidence="
          ⊕ c.plain_float result.confidence)
        result.confidence) { input_summary = summary c user_text; warnings = result.warnings }

  abbrev pub rag_steps : Text → RagResult → List AgentStep
  rag_steps user_text result =
      if leb (length result.diagnostics) 0
      then query_step user_text result ∷ []
      else map (diagnostic_step user_text result) result.diagnostics

  -- The query's metadata.
  abbrev pub query_metadata : OrchestrationRequestMetadata → String → PolicyStatus → Json
  query_metadata m task_type status = object_of (
      ("request_id", text m.request_id)
      ∷ ("trace_id", text m.trace_id)
      ∷ ("session_id", text m.session_id)
      ∷ ("task_type", text task_type)
      ∷ ("policy_status", text (policy_status status))
      ∷ [])

  abbrev pub query_of : Text → OrchestrationRequestMetadata → String → PolicyStatus → Query
  query_of user_text m task_type status = record {
    question = c.of_codes user_text;
    trace_id = some m.trace_id;
    metadata = some (query_metadata m task_type status);
  }

  -- The result is made an answer.
  unfoldable pub answer_of : Text → RagResult → Option Executed
  unfolding format_rag_response
  answer_of user_text result = elim (format_rag_response result) [
    | none ↦ none
    | some response ↦ some (record {
      response = response;
      rag_result = some result;
      confidence = result.confidence;
      steps = rag_steps user_text result;
    })
  ]

  -- `_run_qa`
  unfoldable pub run_qa :
      Text → OrchestrationRequestMetadata → String → PolicyStatus → Option Executed
  unfolding answer_of
  run_qa user_text m task_type status =
      elim (c.rag_client (query_of user_text m task_type status)) [
        | answered result ↦ answer_of user_text result
        | client_error error_type message ↦ none
        | crashed error_type ↦ none
      ]

  -- The title of a script: what is left of the text, or a default.
  unfoldable pub script_title : Text → String
  unfolding remove
  script_title user_text =
      elim (strip c.unicode (remove (codes "播客") 0 (remove (codes "生成") 0 user_text))) [
        | [] ↦ "企业采购趋势"
        | ch ∷ title ↦ c.of_codes (ch ∷ title)
      ]

  abbrev evidence_line : List Json → Option String
  evidence_line [] = some ""
  evidence_line (src ∷ sources) = elim (all_of c.source_id (src ∷ sources)) [
    | none ↦ none
    | some ids ↦ some ("\n引用素材：" ⊕ join ", " ids)
  ]

  abbrev script : String → String → String
  script title evidence = join "\n" (
      ("播客脚本：" ⊕ title)
      ∷ "开场：欢迎收听本期企业采购洞察。"
      ∷ "第一段：介绍业务背景和关键问题。"
      ∷ ("第二段：结合知识库证据展开分析。" ⊕ evidence)
      ∷ "结尾：总结行动建议，并提醒听众关注后续采购风险。"
      ∷ [])

  abbrev pub sources_of : Option RagResult → List Json
  sources_of none = []
  sources_of (some result) = result.sources

  -- `_run_podcast`
  unfoldable pub run_podcast : Text → OrchestrationRequestMetadata → PolicyStatus → Option Executed
  unfolding run_qa script_title
  run_podcast user_text m status = elim (run_qa user_text m "podcast_script" status) [
    | none ↦ none
    | some answer ↦ elim (evidence_line (sources_of answer.rag_result)) [
      | none ↦ none
      | some evidence ↦ some (record answer {
        response = script (script_title user_text) evidence;
        steps =
            answer.steps
            ++ agent_step "writer_module.podcast" "podcast_script_generated" answer.confidence ∷ [];
      })
    ]
  ]

  -- `_execute_task`
  unfoldable pub execute_task :
      Text → TaskName → OrchestrationRequestMetadata → PolicyStatus → ℕ → Option Executed
  unfolding run_qa run_podcast
  execute_task user_text task m status latency = elim task [
    | qa ↦ run_qa user_text m "qa" status
    | weekly_report ↦ some (run_weekly_report c latency)
    | podcast_task ↦ run_podcast user_text m status
    | email_task ↦ some (run_email c user_text latency)
    | sales_analysis ↦ some (run_sales_analysis c user_text latency)
  ]
