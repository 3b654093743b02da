-- ===== src/Orchestration/TaskRouter.antt =====
-- src/conversation_agent/orchestration/task_router.py: how a request is executed.
use safety_grounded_agent.Prelude.{
  String, Bool, true, false, Option, none, some, List, [], ◌∷◌, any, max, if◌then◌else◌,
}
use safety_grounded_agent.Text.{Text, codes, contains}
use safety_grounded_agent.Policy.Models.{Confidence, hundredths}
use safety_grounded_agent.Policy.Normalization.{Unicode}
use safety_grounded_agent.Policy.Stance.{strip}

pub data Intent : Type 0 where
  customer_intake meeting_note query email_draft report podcast_script : Intent

pub record IntentResult : Type 0 where
  pub intent : Intent
  pub confidence : Confidence
  pub reasoning : String
  pub alternative_intents : List Intent

-- `TaskName`
pub data TaskName : Type 0 where
  qa sales_analysis weekly_report podcast_task email_task : TaskName

-- `str(task)`
abbrev pub task_value : TaskName → String
task_value qa = "qa"
task_value sales_analysis = "sales_analysis"
task_value weekly_report = "weekly_report"
task_value podcast_task = "podcast_script"
task_value email_task = "email_draft"

-- `Intent.X.value`
abbrev pub intent_value : Intent → String
intent_value customer_intake = "customer_intake"
intent_value meeting_note = "meeting_note"
intent_value query = "query"
intent_value email_draft = "email_draft"
intent_value report = "report"
intent_value podcast_script = "podcast_script"

pub record TaskRoute : Type 0 where
  pub task : TaskName
  pub confidence : Confidence
  pub reason : String

abbrev pub task_route : TaskName → Confidence → String → TaskRoute
task_route task confidence reason = record { task = task; confidence = confidence; reason = reason }

abbrev pub report_signals : List String
report_signals = "周报" ∷ "报告" ∷ "汇总" ∷ "总结" ∷ "本周" ∷ "weekly" ∷ []

abbrev pub podcast_signals : List String
podcast_signals = "播客" ∷ "podcast" ∷ "脚本" ∷ "口播" ∷ []

abbrev pub qa_signals : List String
qa_signals =
    "知识" ∷ "依据" ∷ "政策" ∷ "SLA" ∷ "合同" ∷ "产品" ∷ "推荐" ∷ "为什么" ∷ "如何" ∷ "什么要求" ∷ "要求" ∷ "规则" ∷ []

-- `intent_result and intent_result.intent == Intent.EMAIL_DRAFT`
abbrev pub is_email : Option IntentResult → Bool
is_email none = false
is_email (some r) = elim r.intent [ email_draft ↦ true | _ ↦ false ]

-- `intent_result and intent_result.intent in {Intent.CUSTOMER_INTAKE, Intent.MEETING_NOTE}`
abbrev pub is_sales_input : Option IntentResult → Bool
is_sales_input none = false
is_sales_input (some r) = elim r.intent [ customer_intake ↦ true | meeting_note ↦ true | _ ↦ false ]

-- `max(0.7, intent_result.confidence)`, of a result that is there.
abbrev pub at_least_70 : Option IntentResult → Confidence
at_least_70 none = hundredths 70
at_least_70 (some r) = max (hundredths 70) r.confidence

module _ (u : Unicode) (lower : Text → Text) where
  -- `any(sig.lower() in value for sig in signals)`
  abbrev pub has_signal : Text → List String → Bool
  has_signal value signals = any (λ sig. contains value (lower (codes sig))) signals

  -- `(text or "").strip().lower()`
  abbrev pub routed_value : Text → Text
  routed_value text = lower (strip u text)

  -- `TaskRouter.route`
  unfoldable pub route : Text → Option IntentResult → TaskRoute
  unfolding contains
  route text intent_result =
      let value = routed_value text in
      if has_signal value report_signals
      then task_route weekly_report (hundredths 90) "命中报告/周报执行信号"
      else if has_signal value podcast_signals
      then task_route podcast_task (hundredths 90) "命中播客脚本执行信号"
      else if is_email intent_result
      then task_route email_task (at_least_70 intent_result) "邮件意图映射到邮件草稿任务"
      else if has_signal value qa_signals
      then task_route qa (hundredths 75) "命中知识问答执行信号"
      else if is_sales_input intent_result
      then task_route sales_analysis (at_least_70 intent_result) "销售输入映射到销售分析任务"
      else task_route sales_analysis (hundredths 65) "默认进入销售分析任务"
