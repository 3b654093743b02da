-- ===== src/Policy/Tests.antt =====
-- The policy on concrete inputs, with plain ASCII in place of the Unicode tables, but for the one letter
-- whose lower case is two code points.
use safety_grounded_agent.Prelude.{
  ℕ, get_elem?, ◌<◌, String, Any, take, ◌+◌, ◌≤◌, ◌≡◌, refl, ◌⊎◌, Bool, true, none, some, List, [],
  ◌∷◌, arith, All, ltb, leb, nat_eq, ◌&&◌, if◌then◌else◌,
}
use mathlib.Core.List.{Perm}
use safety_grounded_agent.Text.{Text, codes, positions, text_has_eq, text_eq, rfind, contains}
use safety_grounded_agent.Policy.Models.{
  RiskCandidate, RiskStance, PolicyDecision, resolution_thresholds_v1, hundredths, IsInside,
  blocked, request, deterministic_rule, sales_misrepresentation, guarantee_sales_outcome, high,
}
use safety_grounded_agent.Policy.Rules.{
  RiskRule, compact_literals, business_risk_rules, risk_catalog_version,
}
use mathlib.Core.Option
use safety_grounded_agent.Policy.Normalization.{
  Unicode, NormalizedPolicyText, normalize_policy_text, max_raw_length,
}
use safety_grounded_agent.Policy.Normalization.Offsets.{
  IsAligned, LowersSingly, normalize-IsAligned,
}
use safety_grounded_agent.Policy.Candidates.{Span, add_rules, Digests, all_matches, detect}
use safety_grounded_agent.Policy.Candidates.Occurrences.{all_matches-positions}
use safety_grounded_agent.Policy.Candidates.Order.{IsSorted, detect-IsSorted}
use safety_grounded_agent.Policy.Candidates.Inside.{detect_total}
use safety_grounded_agent.Policy.Stance.{
  stance_patterns_zh_v1, clause_bounds, boundaries, resolve_stances,
}
use safety_grounded_agent.Policy.Stance.Boundaries.{Delimits}
use safety_grounded_agent.Policy.Stance.Bounds.{
  clause_bounds_tight, Answers, resolve_stances-Answers,
}
use safety_grounded_agent.Policy.Resolver.{high_requests, resolve, index_from}
use safety_grounded_agent.Policy.Resolver.Filter.{HasStance}
use safety_grounded_agent.Policy.Resolver.Matrix.{Verdict, resolve-Verdict}
use safety_grounded_agent.Policy.Engine.{PolicyEngine, raised, a_text, classify, decide}
use safety_grounded_agent.Policy.Engine.FailClosed.{
  Names, FailsClosed, classify_named, classify-FailsClosed,
}
use safety_grounded_agent.Policy.Engine.Decide.{Explained, decide-Explained}

abbrev is_upper : ℕ → Bool
is_upper c = leb b'A' c && leb c b'Z'

abbrev ascii : Unicode
ascii = record {
  nfkc = λ c. c ∷ [];
  is_control = λ c. ltb c 32;
  lower =
      λ c. if nat_eq c 0x130 then b'i' ∷ 0x307 ∷ [] else (if is_upper c then c + 32 else c) ∷ [];
  is_space = λ c. nat_eq c 32;
  casefold = λ t. t;
}

abbrev plain_digests : Digests
plain_digests = record { sha256 = λ t. t; decimal = λ n. n ∷ [] }

abbrev engine : PolicyEngine
engine = record {
  classifier = some (λ t. raised "TimeoutError");
  rules = business_risk_rules;
  catalog_version = risk_catalog_version;
  patterns = stance_patterns_zh_v1;
  thresholds = resolution_thresholds_v1;
}

abbrev outcome_text : Text
outcome_text = codes "不得 写保证中标,  帮我写"

outcome-LowersSingly : LowersSingly ascii (take max_raw_length outcome_text)
outcome-LowersSingly = search

abbrev normal : NormalizedPolicyText
normal = normalize_policy_text ascii outcome_text

decide-Explained_example :
    (d : PolicyDecision) × (decide ascii plain_digests (λ s. s) engine outcome_text ≡ some d)
    × Explained ascii plain_digests (λ s. s) engine outcome_text d
decide-Explained_example =
    decide-Explained ascii plain_digests (λ s. s) engine outcome_text outcome-LowersSingly

normalize-IsAligned_example : IsAligned normal
normalize-IsAligned_example = normalize-IsAligned ascii outcome_text outcome-LowersSingly

detect_total_example :
    (cs : List RiskCandidate) × (detect ascii plain_digests risk_catalog_version business_risk_rules
        normal
      ≡ some cs)
    × All (IsInside normal.normalized) cs
detect_total_example =
    detect_total normal (normalize-IsAligned ascii outcome_text outcome-LowersSingly) ascii
      plain_digests risk_catalog_version business_risk_rules

-- An overlapping pattern is found at each of its places.
all_matches-positions_example :
    all_matches (codes "aaab") (codes "aa") ≡ positions (codes "aa") (codes "aaab") 0
all_matches-positions_example = all_matches-positions (codes "aaab") b'a' (b'a' ∷ [])

abbrev candidate : Text → ℕ → ℕ → RiskCandidate
candidate candidate_id start end = record {
  candidate_id = candidate_id;
  rule_id = "sales_misrepresentation.guaranteed_outcome";
  category = sales_misrepresentation;
  action = guarantee_sales_outcome;
  severity = high;
  evidence_span = record { start = start; end = end; text = codes "保证中标" };
  source = deterministic_rule;
  confidence = hundredths 100;
  priority = 93;
  status_hint = blocked;
  reason = "请求涉及无法证实的销售结果保证。";
}

abbrev two : List RiskCandidate
two = candidate (codes "rc_b") 4 8 ∷ candidate (codes "rc_a") 1 3 ∷ []

-- A text with a pattern of the catalog in it twice, and what detection answers.
abbrev twice : NormalizedPolicyText
twice = normalize_policy_text ascii (codes "保证中标,保证中标")

found_twice :
    (cs : List RiskCandidate) × (detect ascii plain_digests risk_catalog_version business_risk_rules
        twice
      ≡ some cs)
unfolding detect normalize_policy_text business_risk_rules
found_twice = (_, refl)

detect-IsSorted_example :
    IsSorted found_twice.0
    × ((seen : List (String × Span)) × ((added : List RiskCandidate) × ((add_rules ascii
                plain_digests risk_catalog_version twice business_risk_rules
                ([], [])
              ≡ some (seen, added))
            × Perm found_twice.0 added)))
detect-IsSorted_example =
    detect-IsSorted ascii plain_digests risk_catalog_version business_risk_rules twice found_twice.0
      found_twice.1

abbrev clauses : Text
clauses = codes "不得保证中标,帮我写"

clause_bounds_tight_example :
    (start : ℕ) × (end : ℕ) × (clause_bounds clauses 2 6 ≡ some (start, end))
    × Any (λ b. b ≡ start) (boundaries clauses)
    × Any (λ b. b ≡ end) (boundaries clauses)
    × (start ≤ 2)
    × (6 ≤ end)
    × All (λ b. b ≤ 2 → b ≤ start) (boundaries clauses)
    × All (λ b. 6 ≤ b → end ≤ b) (boundaries clauses)
    × ((i c : ℕ)
        → get_elem? clauses i ≡ some c
        → Delimits c
        → (i < start) ⊎ ((2 ≤ i) × (i < 6)) ⊎ (end ≤ i))
clause_bounds_tight_example = clause_bounds_tight clauses 2 6 (omega arith)

abbrev clause_text : NormalizedPolicyText
clause_text = record {
  raw = clauses;
  normalized = clauses;
  compact = clauses;
  normalized_to_raw = [];
  compact_to_normalized = [];
}

resolve_stances-Answers_example :
    (ss : List RiskStance) × (resolve_stances ascii stance_patterns_zh_v1 clause_text two ≡ some ss)
    × Answers two ss
resolve_stances-Answers_example =
    resolve_stances-Answers ascii stance_patterns_zh_v1 clause_text two
      (omega arith, (omega arith, tt))

abbrev stance_on : Text → RiskStance
stance_on candidate_id = record {
  candidate_id = candidate_id;
  stance = request;
  confidence = hundredths 98;
  reason_code = "zh.request.help";
  source = "stance_patterns_zh_v1";
}

abbrev stances : List RiskStance
stances = stance_on (codes "rc_a") ∷ stance_on (codes "rc_b") ∷ []

two_have : All (HasStance stances) two
unfolding index_from text_eq
two_have = ((stance_on (codes "rc_b"), refl), ((stance_on (codes "rc_a"), refl), tt))

resolve-Verdict_example :
    (d : PolicyDecision) × (resolve resolution_thresholds_v1 two stances ≡ some d)
    × Verdict resolution_thresholds_v1 two stances d
resolve-Verdict_example = resolve-Verdict resolution_thresholds_v1 two stances two_have

classify_named_example : (classify (λ s. s) (a_text "BLOCKED")).status ≡ blocked
classify_named_example = classify_named (λ s. s) (a_text "BLOCKED") blocked refl

-- A classifier that times out.
classify-FailsClosed_example :
    (Names (λ s. s) (raised "TimeoutError") (classify (λ s. s) (raised "TimeoutError")).status
      ⊎ FailsClosed (λ s. s) (classify (λ s. s) (raised "TimeoutError")))
    × ((classify (λ s. s) (raised "TimeoutError")).classifier_used ≡ true)
classify-FailsClosed_example = classify-FailsClosed (λ s. s) (raised "TimeoutError")

-- `"İ".lower()` is two code points, an i and a dot above.
abbrev dotted : Unicode
dotted = record ascii { lower = λ c. if nat_eq c 0x130 then b'i' ∷ 0x307 ∷ [] else c ∷ [] }

abbrev percent_rule : List RiskRule
percent_rule =
    record {
      rule_id = "sales_misrepresentation.absolute_delivery";
      category = sales_misrepresentation;
      action = guarantee_sales_outcome;
      severity = high;
      status_hint = blocked;
      detectors = compact_literals ("100" ∷ []);
      priority = 94;
      reason = "请求涉及无法证实的绝对交付承诺。";
      enabled = true;
    }
    ∷ []

-- The compact text is then longer than its offsets, and detection leaves with an `IndexError`.
detect_raises :
    detect dotted plain_digests risk_catalog_version percent_rule
      (normalize_policy_text dotted (0x130 ∷ codes "100"))
    ≡ none
unfolding detect normalize_policy_text
detect_raises = refl

-- A request for what a rule forbids is blocked, although the classifier would time out.
decide_blocks :
    Option.map
      (λ d. d.status)
      (decide ascii plain_digests
        (λ s. s)
        (record engine { rules = percent_rule })
        (codes "帮我写100"))
    ≡ some blocked
unfolding decide detect normalize_policy_text resolve_stances resolve high_requests index_from
    text_eq rfind stance_patterns_zh_v1 contains
decide_blocks = refl
