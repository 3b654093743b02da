-- ===== src/Policy/Stance/Bounds.antt =====
-- A clause is the tightest stretch between boundaries that holds the evidence, and each candidate
-- has one stance.
use safety_grounded_agent.Prelude.{
  ℕ, ◌-◌, ◌≤◌, ◌≡◌, refl, inl, inr, some, List, [], ◌∷◌, length, arith, All, Option-cases,
  get_elem?, ◌<◌, filter, Any, ◌⊎◌,
}
use safety_grounded_agent.Text.{Text, slice}
use safety_grounded_agent.Policy.Models.{IsInside, RiskCandidate, RiskStance}
use safety_grounded_agent.Policy.Normalization.{Unicode, NormalizedPolicyText}
use safety_grounded_agent.Policy.Stance.{
  boundaries, greatest_up_to, least_from, clause_bounds, stance_in_clause, resolve_one,
  resolve_stances, StancePattern, pattern_stance, unmatched_stance, pattern_matches,
}
use safety_grounded_agent.Policy.Stance.Boundaries.{
  Delimits, greatest_up_to-le, greatest_up_to-ge, least_from-some, least_from-total, bounds-found,
  greatest-boundary, least_from-among, delimiter_place,
}

-- Of a span inside the text the clause is found: it goes from one boundary to another, it holds the span, and
-- between its ends and the span there stands no other boundary, and no delimiter: each stands before
-- the clause, inside the span, or behind the clause.
pub clause_bounds_tight :
    (value : Text) (span_start span_end : ℕ)
    → span_end ≤ length value
    → (start : ℕ) × (end : ℕ) × (clause_bounds value span_start span_end ≡ some (start, end))
      × Any (λ b. b ≡ start) (boundaries value)
      × Any (λ b. b ≡ end) (boundaries value)
      × (start ≤ span_start)
      × (span_end ≤ end)
      × All (λ b. b ≤ span_start → b ≤ start) (boundaries value)
      × All (λ b. span_end ≤ b → end ≤ b) (boundaries value)
      × ((i c : ℕ)
          → get_elem? value i ≡ some c
          → Delimits c
          → (i < start) ⊎ ((span_start ≤ i) × (i < span_end)) ⊎ (end ≤ i))
clause_bounds_tight value span_start span_end inside =
    elim (Option-cases (least_from span_end (boundaries value))) [
      | inl missing ↦ absurd (least_from-total value span_end inside missing)
      | inr (end, found) ↦
          let (low, tight) = least_from-some span_end (boundaries value) end found in
          (
            greatest_up_to span_start (boundaries value),
            end,
            bounds-found value span_start span_end end found,
            greatest-boundary value span_start,
            least_from-among span_end (boundaries value) end found,
            greatest_up_to-le span_start (boundaries value),
            low,
            greatest_up_to-ge span_start (boundaries value),
            tight,
            λ i c at d. delimiter_place value span_start span_end end i c tight at d,
          )
    ]

-- One stance for each candidate, in order and under its identifier.
abbrev pub Answers : List RiskCandidate → List RiskStance → Type 0
Answers [] [] = Unit
Answers (c ∷ cs) (s ∷ ss) = (s.candidate_id ≡ c.candidate_id) × Answers cs ss
Answers _ _ = ⊥

unmatched_stance-id :
    (u : Unicode) (clause : Text) (c : RiskCandidate)
    → (unmatched_stance u clause c).candidate_id ≡ c.candidate_id
unfolding unmatched_stance
unmatched_stance-id u clause c = ground arith

module _ (u : Unicode) (patterns : List StancePattern) (text : NormalizedPolicyText) where
  pattern_stance-id :
      (ps : List StancePattern) (clause : Text) (c : RiskCandidate)
      → (pattern_stance u ps clause c).candidate_id ≡ c.candidate_id
  unfolding pattern_stance
  pattern_stance-id [] clause c = unmatched_stance-id u clause c
  pattern_stance-id (p ∷ ps) clause c = refl

  resolve_one-total :
      (c : RiskCandidate)
      → IsInside text.normalized c
      → (s : RiskStance) × (resolve_one u patterns text c ≡ some s)
        × (s.candidate_id ≡ c.candidate_id)
  unfolding resolve_one stance_in_clause
  resolve_one-total c inside =
      let span = c.evidence_span in
      let (start, end, found, _, _, _, _, _, _, _) =
        clause_bounds_tight text.normalized span.start span.end inside in
      let clause = slice text.normalized start end in
      let matches = filter (pattern_matches clause (span.start - start) c) patterns in
      (
        stance_in_clause u patterns text c start end,
        ground arith,
        ground (arith, pattern_stance-id matches clause c),
      )

  stances-step :
      (c : RiskCandidate) (cs : List RiskCandidate) (s : RiskStance) (ss : List RiskStance)
      → resolve_one u patterns text c ≡ some s
      → resolve_stances u patterns text cs ≡ some ss
      → resolve_stances u patterns text (c ∷ cs) ≡ some (s ∷ ss)
  unfolding resolve_stances
  stances-step c cs s ss e es = ground arith

  -- Every candidate inside the text gets its stance; no exception is raised.
  pub resolve_stances-Answers :
      (cs : List RiskCandidate)
      → All (IsInside text.normalized) cs
      → (ss : List RiskStance) × (resolve_stances u patterns text cs ≡ some ss) × Answers cs ss
  resolve_stances-Answers [] inside = ([], unfold resolve_stances in refl, tt)
  resolve_stances-Answers (c ∷ cs) (inside_c, inside) =
      let (s, e, same) = resolve_one-total c inside_c in
      let (ss, es, answers) = resolve_stances-Answers cs inside in
      (s ∷ ss, stances-step c cs s ss e es, (same, answers))
