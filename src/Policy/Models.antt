-- ===== src/Policy/Models.antt =====
-- src/conversation_agent/policy/models.py, with the thresholds of
-- policy/catalogs/resolution_thresholds_v1.py and the messages of policy/templates.py.
use safety_grounded_agent.Prelude.{ℕ, ◌*◌, ◌≤◌, length, String, Bool, true, false, List, []}
use safety_grounded_agent.Text.{Text}

-- A number between 0 and 1 in millionths; the program's own numbers have two decimals.
abbrev pub Confidence : Type 0
Confidence = ℕ

abbrev pub hundredths : ℕ → Confidence
hundredths n = 10000 * n

pub data PolicyStatus : Type 0 where
  safe uncertain blocked : PolicyStatus

pub record PolicyDecision : Type 0 where
  pub status : PolicyStatus
  pub reason : String
  pub matched_rules : List Text
  pub warnings : List String
  pub classifier_used : Bool
  pub confidence : Confidence

-- `PolicyDecision(status=…, reason=…, confidence=…)`, with the class's defaults.
abbrev pub decision : PolicyStatus → String → Confidence → PolicyDecision
decision status reason confidence = record {
  status = status;
  reason = reason;
  matched_rules = [];
  warnings = [];
  classifier_used = false;
  confidence = confidence;
}

abbrev pub is_blocked : PolicyDecision → Bool
is_blocked d = elim d.status [ blocked ↦ true | _ ↦ false ]

abbrev pub is_uncertain : PolicyDecision → Bool
is_uncertain d = elim d.status [ uncertain ↦ true | _ ↦ false ]

pub data RiskCategory : Type 0 where
  privacy_overreach sensitive_attribute_inference : RiskCategory
  legal_financial_final_judgment sales_misrepresentation : RiskCategory
  unsupported_business_claim business_uncertain : RiskCategory

-- `RiskCategory.X.value`
abbrev pub category_value : RiskCategory → String
category_value privacy_overreach = "privacy_overreach"
category_value sensitive_attribute_inference = "sensitive_attribute_inference"
category_value legal_financial_final_judgment = "legal_financial_final_judgment"
category_value sales_misrepresentation = "sales_misrepresentation"
category_value unsupported_business_claim = "unsupported_business_claim"
category_value business_uncertain = "business_uncertain"

pub data RiskAction : Type 0 where
  request_private_customer_data infer_sensitive_attribute make_final_legal_judgment : RiskAction
  guarantee_financial_return make_absolute_delivery_commitment : RiskAction
  guarantee_sales_outcome fabricate_customer_case fabricate_inventory : RiskAction
  fabricate_certification fabricate_delivery_record request_business_confirmation : RiskAction

-- `RiskAction.X.value`
abbrev pub action_value : RiskAction → String
action_value request_private_customer_data = "request_private_customer_data"
action_value infer_sensitive_attribute = "infer_sensitive_attribute"
action_value make_final_legal_judgment = "make_final_legal_judgment"
action_value guarantee_financial_return = "guarantee_financial_return"
action_value make_absolute_delivery_commitment = "make_absolute_delivery_commitment"
action_value guarantee_sales_outcome = "guarantee_sales_outcome"
action_value fabricate_customer_case = "fabricate_customer_case"
action_value fabricate_inventory = "fabricate_inventory"
action_value fabricate_certification = "fabricate_certification"
action_value fabricate_delivery_record = "fabricate_delivery_record"
action_value request_business_confirmation = "request_business_confirmation"

pub data RiskSeverity : Type 0 where
  low medium high critical : RiskSeverity

-- `RiskSeverity.X.value`
abbrev pub severity_value : RiskSeverity → String
severity_value low = "LOW"
severity_value medium = "MEDIUM"
severity_value high = "HIGH"
severity_value critical = "CRITICAL"

pub data DetectionSource : Type 0 where
  deterministic_rule regex_rule classifier : DetectionSource

pub data UserStance : Type 0 where
  request prohibit audit discuss quote unknown : UserStance

pub record TextSpan : Type 0 where
  pub start : ℕ
  pub end : ℕ
  pub text : Text

pub record RiskCandidate : Type 0 where
  pub candidate_id : Text
  pub rule_id : String
  pub category : RiskCategory
  pub action : RiskAction
  pub severity : RiskSeverity
  pub evidence_span : TextSpan
  pub source : DetectionSource
  pub confidence : Confidence
  pub priority : ℕ
  pub status_hint : PolicyStatus
  pub reason : String

-- The candidate's evidence ends inside the text.
abbrev pub IsInside : Text → RiskCandidate → Type 0
IsInside value c = c.evidence_span.end ≤ length value

pub record RiskStance : Type 0 where
  pub candidate_id : Text
  pub stance : UserStance
  pub confidence : Confidence
  pub reason_code : String
  pub source : String

pub record PolicyResolutionThresholds : Type 0 where
  pub discuss_safe_min_confidence : Confidence
  pub quote_safe_min_confidence : Confidence
  pub unknown_requires_uncertain : Bool

abbrev pub resolution_thresholds_v1 : PolicyResolutionThresholds
resolution_thresholds_v1 = record {
  discuss_safe_min_confidence = hundredths 90;
  quote_safe_min_confidence = hundredths 90;
  unknown_requires_uncertain = true;
}

abbrev pub blocked_message : PolicyDecision → String
blocked_message d = "该请求超出当前业务支持范围。我可以帮助改写为基于已验证资料、权限和合规边界的方案。"

abbrev pub uncertain_message : PolicyDecision → String
uncertain_message d = "该请求需要进一步证据、授权或专业人员确认；我可以先协助整理待确认事项。"
