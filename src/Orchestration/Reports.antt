-- ===== src/Orchestration/Reports.antt =====
-- The tasks of src/conversation_agent/orchestration/coordinator.py that read the customers, and the email.
use safety_grounded_agent.Prelude.{
  ℕ, String, Bool, false, not, ◌&&◌, Option, none, some, is_some, List, [], ◌∷◌, ◌++◌, any, filter,
  map, take, length, leb, ltb, ◌==◌, string_has_eq, if◌then◌else◌,
}
use safety_grounded_agent.Text.{Text, codes, contains}
use safety_grounded_agent.Policy.Models.{hundredths}
use safety_grounded_agent.Orchestration.Models.{agent_step}
use safety_grounded_agent.Orchestration.Words.{◌⊕◌, join, find_id}
use safety_grounded_agent.Orchestration.Modules.{Profile, Coordinator, Executed, summary}

module _ (c : Coordinator) where
  abbrev scored : Option (ℕ × String) → String
  scored none = "未评分"
  scored (some (score, level)) = c.show score ⊕ "(" ⊕ level ⊕ ")"

  abbrev profile_line : Profile → String
  profile_line p =
      "- "
      ⊕ p.customer_name
      ⊕ ": 阶段="
      ⊕ p.sales_stage
      ⊕ ", 成交="
      ⊕ scored p.deal_score
      ⊕ ", 健康="
      ⊕ scored p.health_score

  abbrev named_in : Text → Profile → Bool
  named_in user_text p =
      any (λ name. not (name == "") && contains user_text (codes name))
        (p.customer_name ∷ p.aliases)

  abbrev loaded : Option Text → List Profile
  loaded none = []
  loaded (some id) = elim (c.load id) [ none ↦ [] | some profile ↦ profile ∷ [] ]

  -- `_select_profiles`
  unfoldable pub select_profiles : Text → List Profile
  unfolding contains find_id
  select_profiles user_text = elim (filter (named_in user_text) c.list_all) [
    | [] ↦ loaded (find_id [] user_text)
    | p ∷ profiles ↦ p ∷ profiles
  ]

  abbrev chosen_profiles : Text → List Profile
  chosen_profiles user_text = elim (select_profiles user_text) [
    | [] ↦ take 5 c.list_all
    | p ∷ profiles ↦ p ∷ profiles
  ]

  -- `_run_sales_analysis`
  unfoldable pub run_sales_analysis : Text → ℕ → Executed
  unfolding select_profiles
  run_sales_analysis user_text latency =
      let profiles = chosen_profiles user_text in
      let confidence = if leb (length profiles) 0 then hundredths 35 else hundredths 72 in
      let hint = if leb (length profiles) 0 then "暂无客户数据。可先运行 seed 命令生成演示数据。" ∷ [] else [] in
      record {
        response = join "\n" ("销售分析结果：" ∷ (hint ++ map profile_line (take 5 profiles)));
        rag_result = none;
        confidence = confidence;
        steps =
            record (agent_step "sales_module" ("profiles=" ⊕ c.show (length profiles)) confidence) {
              input_summary = summary c user_text;
              latency_ms = latency;
            }
            ∷ [];
      }

  abbrev scores_high : Profile → Bool
  scores_high p = elim p.deal_score [ none ↦ false | some (score, _) ↦ leb 70 score ]

  -- `_run_weekly_report`
  unfoldable pub run_weekly_report : ℕ → Executed
  run_weekly_report latency =
      let profiles = c.list_all in
      let scored_count = length (filter (λ p. is_some p.deal_score) profiles) in
      let high = length (filter scores_high profiles) in
      let risks = length (filter (λ p. ltb 0 p.high_priority_risk_count) profiles) in
      let confidence = if leb (length profiles) 0 then hundredths 30 else hundredths 75 in
      record {
        response = join "\n" (
            "本周销售周报"
            ∷ ("- 客户总数：" ⊕ c.show (length profiles))
            ∷ ("- 已评分客户：" ⊕ c.show scored_count)
            ∷ ("- 高潜客户：" ⊕ c.show high)
            ∷ ("- 高风险客户：" ⊕ c.show risks)
            ∷ "下周建议：优先跟进高潜客户，针对高风险客户补充竞品对比和交付保障说明。"
            ∷ []);
        rag_result = none;
        confidence = confidence;
        steps =
            record (agent_step "writer_module.weekly_report"
              ("customers="
                ⊕ c.show (length profiles)
                ⊕ ", high="
                ⊕ c.show high
                ⊕ ", risks="
                ⊕ c.show risks)
              confidence) { input_summary = codes "weekly_report"; latency_ms = latency }
            ∷ [];
      }

  -- `_run_email`
  unfoldable pub run_email : Text → ℕ → Executed
  run_email user_text latency = record {
    response = join "\n" (
        "邮件草稿：" ∷ "尊敬的客户，您好！" ∷ "" ∷ "感谢您近期对采购方案的沟通与反馈。我们已根据当前需求整理后续跟进事项，建议安排一次短会确认预算、时间线和决策流程。"
        ∷ "" ∷ "如您方便，请告知本周可沟通时间。" ∷ "" ∷ "此致" ∷ "销售团队" ∷ []);
    rag_result = none;
    confidence = hundredths 68;
    steps =
        record (agent_step "writer_module.email" "email_draft_generated" (hundredths 68)) {
          input_summary = summary c user_text;
          latency_ms = latency;
        }
        ∷ [];
  }
