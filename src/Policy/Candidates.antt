-- ===== src/Policy/Candidates.antt =====
-- src/conversation_agent/policy/candidates.py: detection of risk candidates.
pub mod Occurrences
pub mod Inside
pub mod Order
use Prim.Native.Nat.{Ordering}
use Prim.Native.String.{compare}
use safety_grounded_agent.Prelude.{
  ℕ, suc, zero, ◌+◌, ◌-◌, String, Bool, true, false, not, ◌&&◌, ◌||◌, Option, none, some, List, [],
  ◌∷◌, ◌++◌, map, any, ltb, leb, nat_eq, length, take, get_elem?, if◌then◌else◌, ◌==◌,
  string_has_eq,
}
use safety_grounded_agent.Text.{Text, codes, all_from, slice}
use safety_grounded_agent.Policy.Models.{
  RiskCandidate, TextSpan, DetectionSource, deterministic_rule, hundredths, action_value,
}
use safety_grounded_agent.Policy.Rules.{
  RiskRule, RiskDetectorSpec, Matcher, normalized_literal, compact_literal,
}
use safety_grounded_agent.Policy.Normalization.{Unicode, NormalizedPolicyText}

-- What the code takes from `hashlib` and from the formatting of numbers: the hexadecimal digest of
-- a text, and `str` of a number.
pub record Digests : Type 0 where
  pub sha256 : Text → Text
  pub decimal : ℕ → Text

-- A place where a rule's pattern stands, from `start` to `end`.
abbrev pub Span : Type 0
Span = ℕ × ℕ

-- `compact_to_normalized[index]` and `compact_to_normalized[index + len(needle) - 1] + 1`; `none`
-- stands for the `IndexError`.
abbrev compact_span : NormalizedPolicyText → Text → ℕ → Option Span
compact_span text needle index = elim (get_elem? text.compact_to_normalized index) [
  | none ↦ none
  | some start ↦ elim (get_elem? text.compact_to_normalized (index + length needle - 1)) [
    | none ↦ none
    | some last ↦ some (start, last + 1)
  ]
]

unfoldable pub compact_spans : NormalizedPolicyText → Text → List ℕ → Option (List Span)
compact_spans text needle [] = some []
compact_spans text needle (index ∷ found) = elim (compact_span text needle index) [
  | none ↦ none
  | some span ↦ elim (compact_spans text needle found) [
    | none ↦ none
    | some rest ↦ some (span ∷ rest)
  ]
]

abbrev plain_span : Text → ℕ → Span
plain_span needle index = (index, index + length needle)

-- The matches of a needle that is not empty; a haystack has fewer than `length + 1` of them.
abbrev pub all_matches : Text → Text → List ℕ
all_matches haystack needle = all_from (suc (length haystack)) haystack needle 0

-- `_occurrences`
unfoldable pub occurrences : Unicode → NormalizedPolicyText → RiskDetectorSpec → Option (List Span)
unfolding compact_spans all_from
occurrences u text spec = elim (u.casefold spec.pattern_text) [
  | [] ↦ some []
  | c ∷ cs ↦ elim spec.matcher_type [
    | normalized_literal ↦ some (map (plain_span (c ∷ cs)) (all_matches text.normalized (c ∷ cs)))
    | compact_literal ↦ compact_spans text (c ∷ cs) (all_matches text.compact (c ∷ cs))
    | _ ↦ some []
  ]
]

-- `build_candidate_id`
unfoldable pub build_candidate_id : Digests → String → RiskRule → Text → Span → Text
build_candidate_id h catalog_version rule normalized_text (start, end) =
    let material =
      codes catalog_version
      ++ (0
          ∷ (codes rule.rule_id
              ++ (0
                  ∷ (codes (action_value rule.action)
                      ++ (0
                          ∷ (h.sha256 normalized_text
                              ++ (0 ∷ (h.decimal start ++ (0 ∷ h.decimal end))))))))) in
    codes "rc_" ++ take 24 (h.sha256 material)

unfoldable pub candidate_at :
    Digests → String → RiskRule → NormalizedPolicyText → Span → RiskCandidate
unfolding build_candidate_id
candidate_at h catalog_version rule text span = record {
  candidate_id = build_candidate_id h catalog_version rule text.normalized span;
  rule_id = rule.rule_id;
  category = rule.category;
  action = rule.action;
  severity = rule.severity;
  evidence_span = record {
    start = span.0;
    end = span.1;
    text = slice text.normalized span.0 span.1;
  };
  source = deterministic_rule;
  confidence = hundredths 100;
  priority = rule.priority;
  status_hint = rule.status_hint;
  reason = rule.reason;
}

-- The places that were seen, and the candidates so far.
abbrev pub Found : Type 0
Found = List (String × Span) × List RiskCandidate

abbrev pub same_place : String × Span → String × Span → Bool
same_place (r, (a, b)) (q, (c, d)) = r == q && (nat_eq a c && nat_eq b d)

abbrev pub is_seen : String × Span → List (String × Span) → Bool
is_seen place = any (same_place place)

module _ (u : Unicode) (h : Digests) (catalog_version : String) (text : NormalizedPolicyText) where
  unfoldable pub add_spans : RiskRule → List Span → Found → Found
  unfolding candidate_at
  add_spans rule [] found = found
  add_spans rule (span ∷ spans) (seen, candidates) = add_spans rule spans (
      if is_seen (rule.rule_id, span) seen then (seen, candidates) else (
        (rule.rule_id, span) ∷ seen,
        candidates ++ candidate_at h catalog_version rule text span ∷ [],
      ))

  unfoldable pub add_detectors : RiskRule → List RiskDetectorSpec → Found → Option Found
  unfolding occurrences add_spans
  add_detectors rule [] found = some found
  add_detectors rule (spec ∷ detectors) found = elim (occurrences u text spec) [
    | none ↦ none
    | some spans ↦ add_detectors rule detectors (add_spans rule spans found)
  ]

  unfoldable pub add_rules : List RiskRule → Found → Option Found
  unfolding add_detectors
  add_rules [] found = some found
  add_rules (rule ∷ rules) found = elim rule.enabled [
    | false ↦ add_rules rules found
    | true ↦ elim (add_detectors rule rule.detectors found) [
      | none ↦ none
      | some found' ↦ add_rules rules found'
    ]
  ]

-- The key of the sort: places in order, the greater priority first, then the names.
abbrev pub compare_then : Ordering → Bool → Bool
compare_then Ordering.lt later = true
compare_then Ordering.eq later = later
compare_then Ordering.gt later = false

abbrev pub compare_ℕ : ℕ → ℕ → Ordering
compare_ℕ a b = Prim.Native.Nat.compare a b

unfoldable pub key_before : RiskCandidate → RiskCandidate → Bool
key_before a b = compare_then (compare_ℕ a.evidence_span.start b.evidence_span.start) (
    compare_then (compare_ℕ a.evidence_span.end b.evidence_span.end) (
      compare_then (compare_ℕ b.priority a.priority) (
        compare_then (compare a.rule_id b.rule_id)
          (compare_then (compare (action_value a.action) (action_value b.action)) false))))

-- Python's `sorted` is stable: an element goes behind those that come before it, and before its equals
-- that stood later.
unfoldable pub insert_sorted : RiskCandidate → List RiskCandidate → List RiskCandidate
unfolding key_before
insert_sorted c [] = c ∷ []
insert_sorted c (d ∷ sorted) =
    let behind = d ∷ insert_sorted c sorted in if key_before d c then behind else c ∷ d ∷ sorted

unfoldable pub sort_candidates : List RiskCandidate → List RiskCandidate
unfolding insert_sorted
sort_candidates [] = []
sort_candidates (c ∷ candidates) = insert_sorted c (sort_candidates candidates)

-- `RiskCandidateDetector.detect`
unfoldable pub detect :
    Unicode → Digests → String → List RiskRule → NormalizedPolicyText → Option (List RiskCandidate)
unfolding add_rules sort_candidates
detect u h catalog_version rules text = elim (add_rules u h catalog_version text rules ([], [])) [
  | none ↦ none
  | some (seen, candidates) ↦ some (sort_candidates candidates)
]
