-- ===== src/Policy/Engine.antt =====
-- src/conversation_agent/policy/engine.py: the engine, and what it makes of a classifier's answer.
-- `none` stands for an exception that leaves `decide`.
pub mod Fields
pub mod FailClosed
pub mod Decide
use safety_grounded_agent.Prelude.{
  ℕ, ◌*◌, String, Bool, true, false, not, ◌&&◌, ◌||◌, Option, none, some, List, [], ◌∷◌, map, leb,
  is_some, if◌then◌else◌, ◌==◌, string_has_eq,
}
use Prim.Native.String.{◌++◌}
use safety_grounded_agent.Text.{Text, codes}
use safety_grounded_agent.Json.{ℤ, pos, negsuc}
use safety_grounded_agent.Policy.Models.{
  Confidence, hundredths, PolicyStatus, safe, uncertain, blocked, PolicyDecision, decision,
  PolicyResolutionThresholds, RiskCategory, category_value, privacy_overreach,
  sensitive_attribute_inference, legal_financial_final_judgment, sales_misrepresentation,
  unsupported_business_claim, business_uncertain, fabricate_customer_case,
  request_business_confirmation, high, medium, blocked_message, uncertain_message, RiskCandidate,
}
use safety_grounded_agent.Policy.Rules.{RiskRule, RiskDetectorSpec, normalized_literal}
use safety_grounded_agent.Policy.Normalization.{
  Unicode, NormalizedPolicyText, normalize_policy_text,
}
use safety_grounded_agent.Policy.Candidates.{Digests, detect}
use safety_grounded_agent.Policy.Stance
use safety_grounded_agent.Policy.Stance.{StancePattern}
use safety_grounded_agent.Policy.Resolver

-- A `float` in millionths, or no finite number.
pub data FloatValue : Type 0 where
  millionths : ℤ → FloatValue
  not_finite : FloatValue

-- An item of a list, of which the code asks whether it is a `str`.
pub data Item : Type 0 where
  text_item : String → Item
  other_item : Item

-- A value of the classifier's dictionary, by the types that the code asks for.
pub data Value : Type 0 where
  text_value : String → Value
  bool_value : Bool → Value
  int_value : ℤ → Value
  float_value : FloatValue → Value
  list_value : List Item → Value
  other_value : Value

-- A dictionary, as the code reads it: `none` for a key that is missing.
pub record ClassifierDict : Type 0 where
  pub status : Option Value
  pub confidence : Option Value
  pub reason : Option Value
  pub matched_rules : Option Value
  pub warnings : Option Value

-- What a call of the classifier does: it raises, or it returns a decision (whose confidence may be
-- no finite number), a text, a dictionary or something else.
pub data ClassifierResult : Type 0 where
  raised : String → ClassifierResult
  a_decision : PolicyDecision → Bool → ClassifierResult
  a_text : String → ClassifierResult
  a_dict : ClassifierDict → ClassifierResult
  something_else : ClassifierResult

-- A coercion's result, or the name of the exception's class.
pub data Coerced {ℓ} (A : Type ℓ) : Type ℓ where
  fine : A → Coerced A
  raises : String → Coerced A

abbrev value_error : {A : Type 0} → Coerced A
value_error = raises "ValueError"

-- `status in {"SAFE", "UNCERTAIN", "BLOCKED"}`
abbrev pub status_named : String → Option PolicyStatus
status_named s =
    if s == "SAFE"
    then some safe
    else if s == "UNCERTAIN"
    then some uncertain
    else if s == "BLOCKED"
    then some blocked
    else none

-- `float(confidence)` where it is a finite number from 0 to 1; the `OverflowError` of an integer that no
-- float holds counts as a `ValueError`.
unfoldable pub unit_confidence : Value → Option Confidence
unit_confidence (int_value (pos n)) = if leb n 1 then some (1000000 * n) else none
unit_confidence (float_value (millionths (pos n))) = if leb n 1000000 then some n else none
unit_confidence _ = none

unfoldable pub all_texts : List Item → Option (List String)
all_texts [] = some []
all_texts (text_item s ∷ items) = elim (all_texts items) [
  | none ↦ none
  | some rest ↦ some (s ∷ rest)
]
all_texts (other_item ∷ items) = none

abbrev pub text_or : String → Option Value → Option String
text_or default none = some default
text_or default (some (text_value s)) = some s
text_or default (some _) = none

abbrev pub texts_or_empty : Option Value → Option (List String)
texts_or_empty none = some []
texts_or_empty (some (list_value items)) = all_texts items
texts_or_empty (some _) = none

abbrev pub confidence_or : Confidence → Option Value → Option Confidence
confidence_or default none = some default
confidence_or default (some v) = unit_confidence v

module _ (upper : String → String) where
  abbrev status_value_of : Option Value → Option PolicyStatus
  status_value_of (some (text_value s)) = status_named (upper s)
  status_value_of _ = none

  unfoldable pub coerce_dict : ClassifierDict → Coerced PolicyDecision
  unfolding all_texts unit_confidence
  coerce_dict result = elim (status_value_of result.status) [
    | none ↦ value_error
    | some status ↦ elim (confidence_or (hundredths 65) result.confidence) [
      | none ↦ value_error
      | some confidence ↦ elim (text_or "LLM fallback 分类" result.reason) [
        | none ↦ value_error
        | some reason ↦ elim (texts_or_empty result.matched_rules) [
          | none ↦ value_error
          | some matched ↦ elim (texts_or_empty result.warnings) [
            | none ↦ value_error
            | some warnings ↦ fine (record {
              status = status;
              reason = reason;
              matched_rules = map codes matched;
              warnings = warnings;
              classifier_used = true;
              confidence = confidence;
            })
          ]
        ]
      ]
    ]
  ]

  -- `_coerce_classifier_result(self._classifier(text))`
  unfoldable pub coerce_classifier_result : ClassifierResult → Coerced PolicyDecision
  unfolding coerce_dict
  coerce_classifier_result (raised name) = raises name
  coerce_classifier_result (a_decision d finite) =
      if finite then fine (record d { classifier_used = true }) else value_error
  coerce_classifier_result (a_text s) = elim (status_named (upper s)) [
    | none ↦ value_error
    | some status ↦
        fine (record (decision status "LLM fallback 分类" (hundredths 65)) { classifier_used = true })
  ]
  coerce_classifier_result (a_dict d) = coerce_dict d
  coerce_classifier_result something_else = raises "TypeError"

  -- The `try` and `except` around the classifier.
  unfoldable pub classify : ClassifierResult → PolicyDecision
  unfolding coerce_classifier_result
  classify result = elim (coerce_classifier_result result) [
    | fine d ↦ d
    | raises name ↦ record (decision uncertain "分类器不可用，已按保守策略处理。" 0) {
      warnings = ("classifier_error:" ++ name) ∷ [];
      classifier_used = true;
    }
  ]

-- The parts that an engine is built from.
pub record PolicyEngine : Type 0 where
  pub classifier : Option (Text → ClassifierResult)
  pub rules : List RiskRule
  pub catalog_version : String
  pub patterns : List StancePattern
  pub thresholds : PolicyResolutionThresholds

module _ (u : Unicode) (h : Digests) (upper : String → String) where
  unfoldable pub decide_unmatched : PolicyEngine → Text → PolicyDecision
  unfolding classify
  decide_unmatched engine text = elim engine.classifier [
    | none ↦ decision safe "未命中本地安全规则" (hundredths 72)
    | some run ↦ classify upper (run text)
  ]

  unfoldable pub decide_matched :
      PolicyEngine → NormalizedPolicyText → List RiskCandidate → Option PolicyDecision
  decide_matched engine normalized candidates =
      elim (Stance.resolve_stances u engine.patterns normalized candidates) [
        | none ↦ none
        | some stances ↦ Resolver.resolve engine.thresholds candidates stances
      ]

  unfoldable pub decide_text : PolicyEngine → Text → NormalizedPolicyText → Option PolicyDecision
  unfolding decide_unmatched decide_matched
  decide_text engine text normalized =
      elim (detect u h engine.catalog_version engine.rules normalized) [
        | none ↦ none
        | some [] ↦ some (decide_unmatched engine text)
        | some (c ∷ candidates) ↦ decide_matched engine normalized (c ∷ candidates)
      ]

  -- `PolicyEngine.decide`
  unfoldable pub decide : PolicyEngine → Text → Option PolicyDecision
  unfolding decide_text
  decide engine text =
      let normalized = normalize_policy_text u text in
      elim normalized.normalized [
        | [] ↦ some (decision safe "空输入不触发安全规则" (hundredths 50))
        | _ ∷ _ ↦ decide_text engine text normalized
      ]

-- `PolicyEngine.rejection_message`
unfoldable pub rejection_message : PolicyDecision → String
rejection_message d = elim d.status [
  | blocked ↦ blocked_message d
  | uncertain ↦ uncertain_message d
  | safe ↦ ""
]

-- The deprecated form of a rule; its negative patterns and examples are never read.
pub record PolicyRule : Type 0 where
  pub rule_id : String
  pub category : String
  pub status : PolicyStatus
  pub priority : ℕ
  pub patterns : List Text
  pub negative_patterns : List Text
  pub reason : String
  pub examples : List Text

-- `RiskCategory(value)`, or the category that the `except` gives.
abbrev pub category_of : String → RiskCategory
category_of s =
    if s == category_value privacy_overreach
    then privacy_overreach
    else if s == category_value sensitive_attribute_inference
    then sensitive_attribute_inference
    else if s == category_value legal_financial_final_judgment
    then legal_financial_final_judgment
    else if s == category_value sales_misrepresentation
    then sales_misrepresentation
    else if s == category_value unsupported_business_claim
    then unsupported_business_claim
    else business_uncertain

-- `_coerce_rule` of a deprecated rule; the other rules stay as they are.
unfoldable pub coerce_rule : PolicyRule → RiskRule
coerce_rule rule =
    let is_blocking : Bool = elim rule.status [ blocked ↦ true | _ ↦ false ] in
    record {
      rule_id = rule.rule_id;
      category = category_of rule.category;
      action = if is_blocking then fabricate_customer_case else request_business_confirmation;
      severity = if is_blocking then high else medium;
      status_hint = rule.status;
      detectors =
          map (λ p. record { pattern_text = p; matcher_type = normalized_literal }) rule.patterns;
      priority = rule.priority;
      reason = rule.reason;
      enabled = true;
    }
