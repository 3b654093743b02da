-- ===== src/Policy/Resolver.antt =====
-- src/conversation_agent/policy/resolver.py: the decision matrix. `none` stands for the `KeyError`
-- of a candidate that has no stance.
pub mod Filter
pub mod Top
pub mod Matrix
use Prim.Native.Nat.{Ordering}
use Prim.Native.String.{compare}
use safety_grounded_agent.Prelude.{
  ℕ, String, Bool, true, false, not, ◌&&◌, ◌||◌, Option, none, some, List, [], ◌∷◌, ◌++◌, map, any,
  ltb, leb, nat_eq, min, if◌then◌else◌, is_some,
}
use safety_grounded_agent.Text.{Text, codes, text_has_eq}
use safety_grounded_agent.Dict.{Dict, get, put}
use safety_grounded_agent.Policy.Models.{
  Confidence, hundredths, PolicyStatus, safe, uncertain, blocked, PolicyDecision, decision,
  RiskCategory, business_uncertain, category_value, RiskSeverity, low, medium, high, critical,
  severity_value, UserStance, request, discuss, quote, unknown, RiskCandidate, RiskStance,
  PolicyResolutionThresholds,
}

-- `{stance.candidate_id: stance for stance in stances}`: of two with one key the last stays.
abbrev add_stance : Dict Text RiskStance → RiskStance → Dict Text RiskStance
add_stance d s = put s.candidate_id s d

unfoldable pub index_from : Dict Text RiskStance → List RiskStance → Dict Text RiskStance
index_from d [] = d
index_from d (s ∷ stances) = index_from (add_stance d s) stances

abbrev pub by_candidate : List RiskStance → Dict Text RiskStance
by_candidate = index_from []

-- f"{candidate.category.value}:{candidate.evidence_span.text}"
abbrev pub matched_rule : RiskCandidate → Text
matched_rule c = codes (category_value c.category) ++ b':' ∷ c.evidence_span.text

abbrev pub is_high : RiskSeverity → Bool
is_high high = true
is_high critical = true
is_high _ = false

abbrev pub is_request : UserStance → Bool
is_request request = true
is_request _ = false

abbrev pub is_business : RiskCategory → Bool
is_business business_uncertain = true
is_business _ = false

-- `test and by_candidate[candidate.candidate_id].stance == UserStance.REQUEST`
abbrev pub requested_if : Bool → Dict Text RiskStance → RiskCandidate → Option Bool
requested_if false d c = some false
requested_if true d c = elim (get c.candidate_id d) [
  | none ↦ none
  | some s ↦ some (is_request s.stance)
]

abbrev pub is_high_request : Dict Text RiskStance → RiskCandidate → Option Bool
is_high_request d c = requested_if (is_high c.severity) d c

abbrev pub is_business_request : Dict Text RiskStance → RiskCandidate → Option Bool
is_business_request d c = requested_if (is_business c.category) d c

-- `[candidate for candidate in candidates if …]`
unfoldable pub high_requests :
    Dict Text RiskStance → List RiskCandidate → Option (List RiskCandidate)
high_requests d [] = some []
high_requests d (c ∷ candidates) = elim (is_high_request d c) [
  | none ↦ none
  | some keep ↦ elim (high_requests d candidates) [
    | none ↦ none
    | some rest ↦ some (if keep then c ∷ rest else rest)
  ]
]

-- `any(… for candidate in candidates)`, which stops at the first that is true.
unfoldable pub any_business_request : Dict Text RiskStance → List RiskCandidate → Option Bool
any_business_request d [] = some false
any_business_request d (c ∷ candidates) = elim (is_business_request d c) [
  | none ↦ none
  | some true ↦ some true
  | some false ↦ any_business_request d candidates
]

abbrev string_lt : String → String → Bool
string_lt a b = elim (compare a b) [ Ordering.lt ↦ true | _ ↦ false ]

abbrev string_same : String → String → Bool
string_same a b = elim (compare a b) [ Ordering.eq ↦ true | _ ↦ false ]

-- `key(a) < key(b)` for the key (priority, severity.value, rule_id).
unfoldable pub key_lt : RiskCandidate → RiskCandidate → Bool
key_lt a b =
    ltb a.priority b.priority
    || (nat_eq a.priority b.priority
        && (string_lt (severity_value a.severity) (severity_value b.severity)
            || (string_same (severity_value a.severity) (severity_value b.severity)
                && string_lt a.rule_id b.rule_id)))

-- `max(…, key=…)`: the first of the greatest.
unfoldable pub max_from : RiskCandidate → List RiskCandidate → RiskCandidate
max_from top [] = top
max_from top (c ∷ candidates) = max_from (if key_lt top c then c else top) candidates

unfoldable pub ambiguous : List Text → PolicyDecision
ambiguous matched = record (decision uncertain "风险表达的讨论或引用作用域不完整。" (hundredths 50)) {
  matched_rules = matched;
}

-- The test of the loop over the stances.
abbrev pub is_weak : PolicyResolutionThresholds → RiskStance → Bool
is_weak t s = elim s.stance [
  | discuss ↦ ltb s.confidence t.discuss_safe_min_confidence
  | quote ↦ ltb s.confidence t.quote_safe_min_confidence
  | _ ↦ false
]

abbrev pub is_unknown : RiskStance → Bool
is_unknown s = elim s.stance [ unknown ↦ true | _ ↦ false ]

-- `min((stance.confidence for stance in stances), default=0.9)`
unfoldable pub least_confidence : List RiskStance → Confidence
least_confidence [] = hundredths 90
least_confidence (s ∷ []) = s.confidence
least_confidence (s ∷ t ∷ stances) = min s.confidence (least_confidence (t ∷ stances))

-- The tests on the stances alone, which stand behind those on the candidates.
unfoldable pub resolve_stances :
    PolicyResolutionThresholds → List Text → List RiskStance → PolicyDecision
unfolding ambiguous
resolve_stances thresholds matched stances =
    if any is_unknown stances
    then record (decision uncertain "检测到风险表达，但无法可靠判断用户立场。" (hundredths 50)) {
      matched_rules = matched;
    }
    else if any (is_weak thresholds) stances
    then ambiguous matched
    else record (decision safe "风险表达处于禁止、审查、讨论或引用作用域。" (least_confidence stances)) {
      matched_rules = matched;
    }

unfoldable pub resolve :
    PolicyResolutionThresholds → List RiskCandidate → List RiskStance → Option PolicyDecision
resolve thresholds candidates stances =
    let d = by_candidate stances in
    let matched = map matched_rule candidates in
    elim (high_requests d candidates) [
      | none ↦ none
      | some (c ∷ rest) ↦ some (record (decision blocked (max_from c rest).reason (hundredths 99)) {
        matched_rules = matched;
      })
      | some [] ↦ elim (any_business_request d candidates) [
        | none ↦ none
        | some true ↦ some (record (decision uncertain "该业务结论需要进一步证据或授权确认。" (hundredths 85)) {
          matched_rules = matched;
        })
        | some false ↦ some (resolve_stances thresholds matched stances)
      ]
    ]
