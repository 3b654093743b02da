-- ===== src/Policy/Stance.antt =====
-- src/conversation_agent/policy/stance.py, with the patterns of
-- policy/catalogs/stance_patterns_zh_v1.py: the user's stance on each candidate.
pub mod Boundaries
pub mod Bounds
use Prim.Native.Nat.{Ordering}
use Prim.Native.String.{compare}
use safety_grounded_agent.Prelude.{
  ℕ, suc, zero, ◌+◌, ◌-◌, String, Bool, true, false, not, ◌&&◌, ◌||◌, Option, none, some, List, [],
  ◌∷◌, ◌++◌, map, any, filter, ltb, leb, nat_eq, length, min, max, is_some, if◌then◌else◌, ◌==◌,
  string_has_eq, drop, take,
}
use safety_grounded_agent.Text.{
  Text, codes, find, rfind, contains, all_from, slice, starts_with, text_eq,
}
use safety_grounded_agent.Policy.Models.{
  Confidence, hundredths, uncertain, RiskAction, RiskCandidate, RiskStance, UserStance, request,
  prohibit, audit, discuss, quote, unknown, action_value,
}
use safety_grounded_agent.Policy.Normalization.{Unicode, NormalizedPolicyText}

abbrev pub stance_catalog_version : String
stance_catalog_version = "stance_patterns_zh_v1"

-- `matcher_type` of a stance pattern: only `prefix_literal` is told apart.
pub data StanceMatcher : Type 0 where
  prefix_literal clause_literal : StanceMatcher

pub record StancePattern : Type 0 where
  pub pattern_id : String
  pub stance : UserStance
  pub matcher_type : StanceMatcher
  pub pattern_text : Text
  pub confidence : Confidence
  pub priority : ℕ
  pub applies_to_actions : Option (List RiskAction)

abbrev pub stance_pattern :
    String → UserStance → StanceMatcher → String → Confidence → ℕ → StancePattern
stance_pattern pattern_id stance matcher_type literal confidence priority = record {
  pattern_id = pattern_id;
  stance = stance;
  matcher_type = matcher_type;
  pattern_text = codes literal;
  confidence = hundredths confidence;
  priority = priority;
  applies_to_actions = none;
}

unfoldable pub stance_patterns_zh_v1 : List StancePattern
stance_patterns_zh_v1 =
    stance_pattern "zh.prohibit.forbid" prohibit prefix_literal "禁止" 100 100
    ∷ stance_pattern "zh.prohibit.must_not" prohibit prefix_literal "不得" 100 100
    ∷ stance_pattern "zh.prohibit.do_not" prohibit prefix_literal "不要" 100 100
    ∷ stance_pattern "zh.audit.review" audit clause_literal "审核" 98 90
    ∷ stance_pattern "zh.audit.check" audit clause_literal "检查" 98 90
    ∷ stance_pattern "zh.audit.identify" audit clause_literal "识别" 96 88
    ∷ stance_pattern "zh.discuss.why" discuss clause_literal "为什么" 96 80
    ∷ stance_pattern "zh.discuss.risk" discuss clause_literal "有什么风险" 94 78
    ∷ stance_pattern "zh.request.help" request clause_literal "帮我" 98 70
    ∷ stance_pattern "zh.request.for_me" request clause_literal "替我" 98 70
    ∷ stance_pattern "zh.request.still" request clause_literal "还是" 96 72
    ∷ stance_pattern "zh.request.then_add" request clause_literal "再补" 96 72
    ∷ stance_pattern "zh.request.write_as" request clause_literal "写成" 94 68
    ∷ stance_pattern "zh.request.tell" request clause_literal "告诉" 94 68
    ∷ stance_pattern "zh.request.promise" request clause_literal "承诺" 94 68
    ∷ []

-- `_CLAUSE_DELIMITERS`
abbrev pub is_delimiter : ℕ → Bool
is_delimiter c = any (λ d. nat_eq c d) (b',' ∷ b'.' ∷ b'!' ∷ b'?' ∷ b';' ∷ 10 ∷ [])

-- `_TRANSITIONS`
abbrev pub transitions : List Text
transitions = codes "但是" ∷ codes "不过" ∷ codes "但" ∷ codes "然后" ∷ codes "随后" ∷ []

-- `_QUOTE_PAIRS`
abbrev pub quote_pairs : List (Text × Text)
quote_pairs =
    (0x201c ∷ [], 0x201d ∷ [])
    ∷ (0x22 ∷ [], 0x22 ∷ [])
    ∷ (0x27 ∷ [], 0x27 ∷ [])
    ∷ (0x2018 ∷ [], 0x2019 ∷ [])
    ∷ []

-- The boundaries that the delimiters set.
unfoldable pub delimiter_boundaries : ℕ → Text → List ℕ
delimiter_boundaries i [] = []
delimiter_boundaries i (c ∷ value) =
    let rest = delimiter_boundaries (suc i) value in
    if is_delimiter c then i ∷ suc i ∷ rest else rest

-- The loop over one transition, which goes on behind the whole transition.
unfoldable pub transition_boundaries : ℕ → Text → Text → ℕ → List ℕ
transition_boundaries zero value transition cursor = []
transition_boundaries (suc fuel) value transition cursor = elim (find value transition cursor) [
  | none ↦ []
  | some index ↦
      let behind = index + length transition in
      index ∷ behind ∷ transition_boundaries fuel value transition behind
]

unfoldable pub all_transition_boundaries : Text → List Text → List ℕ
unfolding transition_boundaries
all_transition_boundaries value [] = []
all_transition_boundaries value (t ∷ ts) =
    transition_boundaries (suc (length value)) value t 0 ++ all_transition_boundaries value ts

-- The set of boundaries, as a list in no order: only its maximum and minimum are asked for.
unfoldable pub boundaries : Text → List ℕ
unfolding delimiter_boundaries all_transition_boundaries
boundaries value =
    0 ∷ length value ∷ (delimiter_boundaries 0 value ++ all_transition_boundaries value transitions)

-- `max(boundary for boundary in ordered if boundary <= limit)`; 0 is always one.
unfoldable pub greatest_up_to : ℕ → List ℕ → ℕ
greatest_up_to limit [] = 0
greatest_up_to limit (b ∷ bs) =
    let rest = greatest_up_to limit bs in if leb b limit then max b rest else rest

-- `min(boundary for boundary in ordered if boundary >= limit)`; `none` is the `ValueError`.
unfoldable pub least_from : ℕ → List ℕ → Option ℕ
least_from limit [] = none
least_from limit (b ∷ bs) = elim (least_from limit bs) [
  | none ↦ if leb limit b then some b else none
  | some rest ↦ if leb limit b then some (min b rest) else some rest
]

-- `_clause_bounds`
unfoldable pub clause_bounds : Text → ℕ → ℕ → Option (ℕ × ℕ)
unfolding boundaries greatest_up_to least_from
clause_bounds value span_start span_end = elim (least_from span_end (boundaries value)) [
  | none ↦ none
  | some end ↦ some (greatest_up_to span_start (boundaries value), end)
]

abbrev sentence_marks : List ℕ
sentence_marks = b'.' ∷ b'!' ∷ b'?' ∷ b';' ∷ []

-- `max((value.rfind(mark, 0, stop) for mark in ".!?;"), default=-1) + 1`
unfoldable pub sentence_start : Text → ℕ → List ℕ → ℕ
sentence_start value stop [] = 0
sentence_start value stop (mark ∷ marks) =
    let rest = sentence_start value stop marks in
    elim (rfind value (mark ∷ []) stop) [ none ↦ rest | some i ↦ max (suc i) rest ]

-- `min((index for index in sentence_ends if index >= 0), default=len(value))`
unfoldable pub sentence_end : Text → ℕ → List ℕ → Option ℕ
sentence_end value start [] = none
sentence_end value start (mark ∷ marks) = elim (find value (mark ∷ []) start) [
  | none ↦ sentence_end value start marks
  | some i ↦ elim (sentence_end value start marks) [ none ↦ some i | some j ↦ some (min i j) ]
]

abbrev or_length : Text → Option ℕ → ℕ
or_length value none = length value
or_length value (some i) = i

-- `_quote_context`: what stands around a quotation of the span, in its sentence.
unfoldable pub quote_context : Text → ℕ → ℕ → List (Text × Text) → Option Text
unfolding sentence_start sentence_end
quote_context value span_start span_end [] = none
quote_context value span_start span_end ((opening, closing) ∷ pairs) =
    let next_pair = quote_context value span_start span_end pairs in
    elim (rfind value opening (span_start + 1)) [
      | none ↦ next_pair
      | some opening_index ↦ elim (find value closing span_end) [
        | none ↦ next_pair
        | some closing_index ↦ some (
            slice value (sentence_start value opening_index sentence_marks) opening_index
            ++ slice value (closing_index + 1)
                (or_length value (sentence_end value (closing_index + 1) sentence_marks)))
      ]
    ]

abbrev same_action : RiskAction → RiskAction → Bool
same_action a b = action_value a == action_value b

-- The tests of the loop over the patterns.
unfoldable pub pattern_matches : Text → ℕ → RiskCandidate → StancePattern → Bool
pattern_matches clause relative_start candidate p =
    elim p.applies_to_actions [
      | none ↦ true
      | some actions ↦ any (same_action candidate.action) actions
    ]
    && (contains clause p.pattern_text && elim p.matcher_type [
      | prefix_literal ↦ is_some (rfind clause p.pattern_text (relative_start + 1))
      | clause_literal ↦ true
    ])

-- `key(a) < key(b)` for the key (-priority, -confidence, pattern_id).
unfoldable pub pattern_before : StancePattern → StancePattern → Bool
pattern_before a b =
    ltb b.priority a.priority
    || (nat_eq a.priority b.priority
        && (ltb b.confidence a.confidence
            || (nat_eq a.confidence b.confidence
                && elim (compare a.pattern_id b.pattern_id) [ Ordering.lt ↦ true | _ ↦ false ])))

-- `sorted(matches, key=…)[0]`: the first of the least.
unfoldable pub first_pattern : StancePattern → List StancePattern → StancePattern
unfolding pattern_before
first_pattern best [] = best
first_pattern best (p ∷ ps) = first_pattern (if pattern_before p best then p else best) ps

abbrev pub risk_stance : RiskCandidate → UserStance → Confidence → String → RiskStance
risk_stance candidate stance confidence reason_code = record {
  candidate_id = candidate.candidate_id;
  stance = stance;
  confidence = confidence;
  reason_code = reason_code;
  source = stance_catalog_version;
}

module _ (u : Unicode) where
  unfoldable pub lstrip : Text → Text
  lstrip [] = []
  lstrip (c ∷ text) = let rest = lstrip text in if u.is_space c then rest else c ∷ text

  -- `text.rstrip()`
  unfoldable pub rstrip : Text → Text
  rstrip [] = []
  rstrip (c ∷ text) = elim (rstrip text) [
    | [] ↦ if u.is_space c then [] else c ∷ []
    | d ∷ rest ↦ c ∷ d ∷ rest
  ]

  -- `text.strip()`
  abbrev pub strip : Text → Text
  strip text = rstrip (lstrip text)

  abbrev ends_with : Text → Text → Bool
  ends_with text suffix =
      leb (length suffix) (length text)
      && starts_with suffix (drop (length text - length suffix) text)

  abbrev safe_markers : List Text
  safe_markers = codes "审核" ∷ codes "检查" ∷ codes "为什么" ∷ codes "为何" ∷ codes "违规" ∷ []

  abbrev request_markers : List Text
  request_markers =
      codes "帮我" ∷ codes "替我" ∷ codes "照着写" ∷ codes "照做" ∷ codes "还是" ∷ codes "再补" ∷ []

  -- `safe_scope and not request_scope` of the text around a quotation.
  unfoldable pub is_quoted_safely : Option Text → Bool
  is_quoted_safely none = false
  is_quoted_safely (some outer) =
      any (contains outer) safe_markers && not (any (contains outer) request_markers)

  -- The stance where no pattern matches.
  unfoldable pub unmatched_stance : Text → RiskCandidate → RiskStance
  unfolding rstrip lstrip
  unmatched_stance clause candidate =
      let direct =
        if text_eq (strip clause) candidate.evidence_span.text
          || ends_with (rstrip clause) candidate.evidence_span.text
        then risk_stance candidate request (hundredths 90) "direct_imperative"
        else risk_stance candidate unknown (hundredths 100) "stance_not_resolved" in
      elim candidate.status_hint [
        | uncertain ↦ risk_stance candidate request (hundredths 92) "business_confirmation_request"
        | _ ↦ direct
      ]

  unfoldable pub pattern_stance : List StancePattern → Text → RiskCandidate → RiskStance
  unfolding first_pattern unmatched_stance
  pattern_stance [] clause candidate = unmatched_stance clause candidate
  pattern_stance (p ∷ ps) clause candidate =
      let winner = first_pattern p ps in
      risk_stance candidate winner.stance winner.confidence winner.pattern_id

  -- `_resolve_one` once the clause's bounds are known.
  unfoldable pub stance_in_clause :
      List StancePattern → NormalizedPolicyText → RiskCandidate → ℕ → ℕ → RiskStance
  unfolding quote_context is_quoted_safely pattern_matches pattern_stance
  stance_in_clause patterns text candidate start end =
      let span = candidate.evidence_span in
      let clause = slice text.normalized start end in
      let matches = filter (pattern_matches clause (span.start - start) candidate) patterns in
      if is_quoted_safely (quote_context text.normalized span.start span.end quote_pairs)
      then risk_stance candidate quote (hundredths 98) "quoted_risk_scope"
      else pattern_stance matches clause candidate

  -- `_resolve_one`
  unfoldable pub resolve_one :
      List StancePattern → NormalizedPolicyText → RiskCandidate → Option RiskStance
  unfolding clause_bounds stance_in_clause
  resolve_one patterns text candidate =
      let span = candidate.evidence_span in
      elim (clause_bounds text.normalized span.start span.end) [
        | none ↦ none
        | some (start, end) ↦ some (stance_in_clause patterns text candidate start end)
      ]

  -- `DeterministicStanceResolver.resolve`
  unfoldable pub resolve_stances :
      List StancePattern → NormalizedPolicyText → List RiskCandidate → Option (List RiskStance)
  unfolding resolve_one
  resolve_stances patterns text [] = some []
  resolve_stances patterns text (c ∷ candidates) = elim (resolve_one patterns text c) [
    | none ↦ none
    | some s ↦ elim (resolve_stances patterns text candidates) [
      | none ↦ none
      | some rest ↦ some (s ∷ rest)
    ]
  ]
