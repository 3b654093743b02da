-- ===== src/Policy/Rules.antt =====
-- src/conversation_agent/policy/rules.py: the catalog of business risks.
use safety_grounded_agent.Prelude.{ℕ, String, Bool, true, List, [], ◌∷◌, map}
use safety_grounded_agent.Text.{Text, codes}
use safety_grounded_agent.Policy.Models.{
  PolicyStatus, uncertain, blocked, RiskCategory, privacy_overreach, sensitive_attribute_inference,
  legal_financial_final_judgment, sales_misrepresentation, unsupported_business_claim,
  business_uncertain, RiskAction, request_private_customer_data, infer_sensitive_attribute,
  make_final_legal_judgment, guarantee_financial_return, make_absolute_delivery_commitment,
  guarantee_sales_outcome, fabricate_customer_case, fabricate_inventory, fabricate_certification,
  fabricate_delivery_record, request_business_confirmation, RiskSeverity, medium, high, critical,
}

abbrev pub risk_catalog_version : String
risk_catalog_version = "business_risk_catalog_v1"

-- `matcher_type`; `other` is any text that names neither matcher.
pub data Matcher : Type 0 where
  normalized_literal compact_literal other : Matcher

pub record RiskDetectorSpec : Type 0 where
  pub pattern_text : Text
  pub matcher_type : Matcher

pub record RiskRule : Type 0 where
  pub rule_id : String
  pub category : RiskCategory
  pub action : RiskAction
  pub severity : RiskSeverity
  pub status_hint : PolicyStatus
  pub detectors : List RiskDetectorSpec
  pub priority : ℕ
  pub reason : String
  pub enabled : Bool

abbrev pub literals : List String → List RiskDetectorSpec
literals = map (λ p. record { pattern_text = codes p; matcher_type = normalized_literal })

abbrev pub compact_literals : List String → List RiskDetectorSpec
compact_literals = map (λ p. record { pattern_text = codes p; matcher_type = compact_literal })

unfoldable pub business_risk_rules : List RiskRule
business_risk_rules =
    record {
      rule_id = "privacy_overreach.private_customer_data";
      category = privacy_overreach;
      action = request_private_customer_data;
      severity = critical;
      status_hint = blocked;
      detectors =
          literals
            ("私人住址" ∷ "家庭住址" ∷ "私人手机号" ∷ "私人联系方式" ∷ "家庭成员" ∷ "家庭收入" ∷ "私人财务状况" ∷ "个人银行流水" ∷ []);
      priority = 100;
      reason = "请求涉及客户隐私或越权查询。";
      enabled = true;
    }
    ∷ record {
      rule_id = "sensitive_attribute_inference.private_attribute";
      category = sensitive_attribute_inference;
      action = infer_sensitive_attribute;
      severity = critical;
      status_hint = blocked;
      detectors = literals ("宗教信仰" ∷ "政治倾向" ∷ "族群身份" ∷ "家庭收入" ∷ "私人财务状况" ∷ []);
      priority = 98;
      reason = "请求涉及敏感个人属性推断。";
      enabled = true;
    }
    ∷ record {
      rule_id = "legal_financial_final_judgment.absolute_legal";
      category = legal_financial_final_judgment;
      action = make_final_legal_judgment;
      severity = high;
      status_hint = blocked;
      detectors = literals ("一定合法" ∷ "绝对没有法律风险" ∷ "没有法律风险" ∷ "合同绝对没风险" ∷ []);
      priority = 96;
      reason = "请求要求代替专业人员作出最终法律判断。";
      enabled = true;
    }
    ∷ record {
      rule_id = "legal_financial_final_judgment.guaranteed_return";
      category = legal_financial_final_judgment;
      action = guarantee_financial_return;
      severity = high;
      status_hint = blocked;
      detectors = literals ("保证收益" ∷ "稳赚不赔" ∷ "绝对盈利" ∷ []);
      priority = 95;
      reason = "请求涉及不受支持的财务收益保证。";
      enabled = true;
    }
    ∷ record {
      rule_id = "sales_misrepresentation.absolute_delivery";
      category = sales_misrepresentation;
      action = make_absolute_delivery_commitment;
      severity = high;
      status_hint = blocked;
      detectors = compact_literals ("100%交付" ∷ "百分之百交付" ∷ "百分百交付" ∷ "绝不会延期" ∷ "百分之百按期交付" ∷ []);
      priority = 94;
      reason = "请求涉及无法证实的绝对交付承诺。";
      enabled = true;
    }
    ∷ record {
      rule_id = "sales_misrepresentation.guaranteed_outcome";
      category = sales_misrepresentation;
      action = guarantee_sales_outcome;
      severity = high;
      status_hint = blocked;
      detectors = literals ("保证一定中标" ∷ "保证中标" ∷ "一定中标" ∷ []);
      priority = 93;
      reason = "请求涉及无法证实的销售结果保证。";
      enabled = true;
    }
    ∷ record {
      rule_id = "unsupported_business_claim.fabricated_case";
      category = unsupported_business_claim;
      action = fabricate_customer_case;
      severity = high;
      status_hint = blocked;
      detectors = literals (
          "编造一个成功案例" ∷ "编造客户案例" ∷ "编造案例" ∷ "虚构一个标杆客户" ∷ "虚构一个成功案例" ∷ "虚构客户案例" ∷ "编一个客户案例"
          ∷ "编一个成功案例" ∷ "编一个案例" ∷ "帮我编一个" ∷ "假装我们做过" ∷ "随便写一个客户案例" ∷ []);
      priority = 92;
      reason = "请求涉及编造客户案例或业务事实。";
      enabled = true;
    }
    ∷ record {
      rule_id = "unsupported_business_claim.fabricated_inventory";
      category = unsupported_business_claim;
      action = fabricate_inventory;
      severity = high;
      status_hint = blocked;
      detectors = literals ("假装我们目前有充足库存" ∷ "假装有库存" ∷ "编造库存" ∷ "未确认库存写成事实" ∷ []);
      priority = 91;
      reason = "请求涉及编造库存事实。";
      enabled = true;
    }
    ∷ record {
      rule_id = "unsupported_business_claim.fabricated_certification";
      category = unsupported_business_claim;
      action = fabricate_certification;
      severity = high;
      status_hint = blocked;
      detectors = literals ("没有证据也写成已经获得认证" ∷ "编造认证" ∷ "虚构认证" ∷ []);
      priority = 90;
      reason = "请求涉及编造认证事实。";
      enabled = true;
    }
    ∷ record {
      rule_id = "unsupported_business_claim.fabricated_delivery_record";
      category = unsupported_business_claim;
      action = fabricate_delivery_record;
      severity = high;
      status_hint = blocked;
      detectors = literals ("编造交付记录" ∷ "虚构交付记录" ∷ []);
      priority = 89;
      reason = "请求涉及编造交付记录。";
      enabled = true;
    }
    ∷ record {
      rule_id = "business_uncertain.confirmation_required";
      category = business_uncertain;
      action = request_business_confirmation;
      severity = medium;
      status_hint = uncertain;
      detectors = literals (
          "合同有哪些需要法务确认" ∷ "合同风险点" ∷ "法务确认的风险点" ∷ "库存尚未确认" ∷ "库存不确定" ∷ "交付周期需要供应链进一步确认"
          ∷ "客户数据用于营销是否需要进一步确认" ∷ "这个承诺是否合适" ∷ "表述中提到了客户案例" ∷ "sla条款是否需要进一步确认" ∷ "交付周期比较紧" ∷ "交付周期紧"
          ∷ []);
      priority = 60;
      reason = "该业务结论需要进一步证据或授权确认。";
      enabled = true;
    }
    ∷ []
