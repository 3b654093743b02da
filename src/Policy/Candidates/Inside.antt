-- ===== src/Policy/Candidates/Inside.antt =====
-- Each candidate's evidence lies inside the normalised text, and detection returns, if the offsets of
-- the compact text are aligned with it.
use safety_grounded_agent.Prelude.{
  ℕ, suc, zero, ◌+◌, ◌-◌, ◌≤◌, ◌<◌, String, ◌≡◌, refl, ◌≢◌, inl, inr, true, false, none, some, List,
  [], ◌∷◌, ◌++◌, map, length, get_elem?, arith, All, All-map, Bool-cases, Option-cases,
}
use safety_grounded_agent.Text.{Text, positions}
use safety_grounded_agent.Policy.Models.{IsInside, RiskCandidate}
use safety_grounded_agent.Policy.Rules.{
  RiskRule, RiskDetectorSpec, Matcher, normalized_literal, compact_literal,
}
use safety_grounded_agent.Policy.Normalization.{Unicode, NormalizedPolicyText}
use safety_grounded_agent.Policy.Normalization.Offsets.{IsAligned, Maps-counted, Maps-pointing}
use safety_grounded_agent.Policy.Candidates.{
  Digests, Span, Found, compact_spans, occurrences, candidate_at, add_spans, add_detectors,
  add_rules, all_matches, insert_sorted, sort_candidates, detect, key_before, is_seen, plain_span,
  compact_span,
}
use safety_grounded_agent.Policy.Candidates.Occurrences.{all_matches-positions, positions-inside}

abbrev Fits : NormalizedPolicyText → Span → Type 0
Fits text span = span.1 ≤ length text.normalized

get_elem?-total : (xs : List ℕ) (i : ℕ) → i < length xs → get_elem? xs i ≢ none
get_elem?-total [] i h e = absurd (omega arith)
get_elem?-total (x ∷ xs) zero h e = cc
get_elem?-total (x ∷ xs) (suc i) h e = get_elem?-total xs i (omega arith) e

get_elem?-All :
    (bound : ℕ) (xs : List ℕ) (i x : ℕ)
    → All (λ y. y < bound) xs
    → get_elem? xs i ≡ some x
    → x < bound
get_elem?-All bound [] i x h e = cc
get_elem?-All bound (y ∷ ys) zero x h e = ground arith
get_elem?-All bound (y ∷ ys) (suc i) x h e = get_elem?-All bound ys i x h.1 e

module _ (text : NormalizedPolicyText) (aligned : IsAligned text) where
  compact_span-total :
      (needle : Text) (i : ℕ)
      → 0 < length needle
      → i + length needle ≤ length text.compact
      → (span : Span) × (compact_span text needle i ≡ some span) × Fits text span
  compact_span-total needle i some_needle fits =
      let offsets = text.compact_to_normalized in
      let last_index = i + length needle - 1 in
      let counted = Maps-counted text.compact offsets text.normalized aligned.compact_maps in
      let pointing = Maps-pointing text.compact offsets text.normalized aligned.compact_maps in
      elim (Option-cases (get_elem? offsets i)) [
        | inl missing ↦ absurd (get_elem?-total offsets i (omega (arith, counted)) missing)
        | inr (start, e) ↦ elim (Option-cases (get_elem? offsets last_index)) [
          | inl missing ↦
              absurd (get_elem?-total offsets last_index (omega (arith, counted)) missing)
          | inr (last, f) ↦ (
            (start, last + 1),
            ground arith,
            omega
                (arith, get_elem?-All (length text.normalized) offsets last_index last pointing f),
          )
        ]
      ]

  compact_spans-total :
      (needle : Text) (found : List ℕ)
      → 0 < length needle
      → All (λ i. i + length needle ≤ length text.compact) found
      → (spans : List Span) × (compact_spans text needle found ≡ some spans) × All (Fits text) spans
  compact_spans-total needle [] some_needle fits = ([], unfold compact_spans in refl, tt)
  compact_spans-total needle (i ∷ found) some_needle (fits_i, fits) =
      let (span, e, inside) = compact_span-total needle i some_needle fits_i in
      let (spans, es, all_inside) = compact_spans-total needle found some_needle fits in
      (span ∷ spans, spans_step needle i found span spans e es, (inside, all_inside))
    where
      spans_step :
          (needle : Text) (i : ℕ) (found : List ℕ) (span : Span) (spans : List Span)
          → compact_span text needle i ≡ some span
          → compact_spans text needle found ≡ some spans
          → compact_spans text needle (i ∷ found) ≡ some (span ∷ spans)
      spans_step needle i found span spans e es = unfold compact_spans in ground arith

  plain-Fits :
      (needle : Text) (found : List ℕ)
      → All (λ i. i + length needle ≤ length text.normalized) found
      → All (Fits text) (map (plain_span needle) found)
  plain-Fits needle [] fits = tt
  plain-Fits needle (i ∷ found) (fits_i, fits) = (fits_i, plain-Fits needle found fits)

  matches-fit :
      (haystack : Text) (c : ℕ) (cs : Text)
      → All (λ i. i + length (c ∷ cs) ≤ length haystack) (all_matches haystack (c ∷ cs))
  matches-fit haystack c cs = rw (all_matches-positions haystack c cs) (
      All-map (λ i fits. from_zero i fits) (positions (c ∷ cs) haystack 0)
        (positions-inside (c ∷ cs) haystack 0))
    where
      from_zero :
          (i : ℕ)
          → i + length (c ∷ cs) ≤ 0 + length haystack
          → i + length (c ∷ cs) ≤ length haystack
      from_zero i fits = omega arith

  -- The occurrences of any pattern are found without an `IndexError`, inside the text.
  occurrences_of :
      (u : Unicode) (spec : RiskDetectorSpec) (needle : Text) (m : Matcher)
      → u.casefold spec.pattern_text ≡ needle
      → spec.matcher_type ≡ m
      → (spans : List Span) × (occurrences u text spec ≡ some spans) × All (Fits text) spans
  occurrences_of u spec [] m folded is_m = ([], unfold occurrences in ground arith, tt)
  occurrences_of u spec (c ∷ cs) normalized_literal folded is_m = (
    map (plain_span (c ∷ cs)) (all_matches text.normalized (c ∷ cs)),
    unfold occurrences in ground arith,
    plain-Fits (c ∷ cs) (all_matches text.normalized (c ∷ cs)) (matches-fit text.normalized c cs),
  )
  occurrences_of u spec (c ∷ cs) compact_literal folded is_m =
      let (spans, e, inside) =
        compact_spans-total (c ∷ cs) (all_matches text.compact (c ∷ cs)) (omega arith)
          (matches-fit text.compact c cs) in
      (spans, unfold occurrences in ground arith, inside)
  occurrences_of u spec (c ∷ cs) Matcher.other folded is_m =
      ([], unfold occurrences in ground arith, tt)

  module _ (u : Unicode) (h : Digests) (catalog_version : String) where
    -- One more candidate that lies inside.
    add_one :
        (rule : RiskRule) (span : Span) (cs : List RiskCandidate)
        → Fits text span
        → All (IsInside text.normalized) cs
        → All (IsInside text.normalized) (cs ++ candidate_at h catalog_version rule text span ∷ [])
    add_one rule span [] fits inside = (unfold candidate_at in fits, tt)
    add_one rule span (c ∷ cs) fits (inside_c, inside) =
        (inside_c, add_one rule span cs fits inside)

    add_spans_old :
        (rule : RiskRule) (span : Span) (spans : List Span) (seen : List (String × Span))
        (cs : List RiskCandidate)
        → is_seen (rule.rule_id, span) seen ≡ true
        → add_spans u h catalog_version text rule (span ∷ spans) (seen, cs)
          ≡ add_spans u h catalog_version text rule spans (seen, cs)
    unfolding add_spans
    add_spans_old rule span spans seen cs old = rw old

    add_spans_new :
        (rule : RiskRule) (span : Span) (spans : List Span) (seen : List (String × Span))
        (cs : List RiskCandidate)
        → is_seen (rule.rule_id, span) seen ≡ false
        → add_spans u h catalog_version text rule (span ∷ spans) (seen, cs)
          ≡ add_spans u h catalog_version text rule spans (
            (rule.rule_id, span) ∷ seen,
            cs ++ candidate_at h catalog_version rule text span ∷ [],
          )
    unfolding add_spans
    add_spans_new rule span spans seen cs new = rw new

    add_spans-IsInside :
        (rule : RiskRule) (spans : List Span) (found : Found)
        → All (Fits text) spans
        → All (IsInside text.normalized) found.1
        → All (IsInside text.normalized) (add_spans u h catalog_version text rule spans found).1
    add_spans-IsInside rule [] found fits inside = unfold add_spans in inside
    add_spans-IsInside rule (span ∷ spans) (seen, cs) (fits_span, fits) inside =
        elim (Bool-cases (is_seen (rule.rule_id, span) seen)) [
          | inl old ↦
              rw (add_spans_old rule span spans seen cs old)
                (add_spans-IsInside rule spans (seen, cs) fits inside)
          | inr new ↦ rw (add_spans_new rule span spans seen cs new) (
              add_spans-IsInside rule spans
                (
                  (rule.rule_id, span) ∷ seen,
                  cs ++ candidate_at h catalog_version rule text span ∷ [],
                )
                fits (add_one rule span cs fits_span inside))
        ]

    add_detectors-total :
        (rule : RiskRule) (detectors : List RiskDetectorSpec) (found : Found)
        → All (IsInside text.normalized) found.1
        → (found' : Found) × (add_detectors u h catalog_version text rule detectors found
            ≡ some found')
          × All (IsInside text.normalized) found'.1
    add_detectors-total rule [] found inside = (found, unfold add_detectors in refl, inside)
    add_detectors-total rule (spec ∷ detectors) found inside =
        let (spans, e, fits) =
          occurrences_of u spec (u.casefold spec.pattern_text) spec.matcher_type refl refl in
        let (found', es, inside') =
          add_detectors-total rule detectors (add_spans u h catalog_version text rule spans found)
            (add_spans-IsInside rule spans found fits inside) in
        (found', detectors_step spans e found' es, inside')
      where
        detectors_step :
            (spans : List Span)
            → occurrences u text spec ≡ some spans
            → (found' : Found)
            → add_detectors u h catalog_version text rule detectors
                (add_spans u h catalog_version text rule spans found)
              ≡ some found'
            → add_detectors u h catalog_version text rule (spec ∷ detectors) found ≡ some found'
        detectors_step spans e found' es = unfold add_detectors in ground (arith, e, es)

    rules_step :
        (rule : RiskRule) (rules : List RiskRule) (found found' : Found)
        → rule.enabled ≡ true
        → add_detectors u h catalog_version text rule rule.detectors found ≡ some found'
        → add_rules u h catalog_version text (rule ∷ rules) found
          ≡ add_rules u h catalog_version text rules found'
    unfolding add_rules
    rules_step rule rules found found' on e = ground arith

    rules_skip :
        (rule : RiskRule) (rules : List RiskRule) (found : Found)
        → rule.enabled ≡ false
        → add_rules u h catalog_version text (rule ∷ rules) found
          ≡ add_rules u h catalog_version text rules found
    unfolding add_rules
    rules_skip rule rules found off = rw off

    add_rules-total :
        (rules : List RiskRule) (found : Found)
        → All (IsInside text.normalized) found.1
        → (found' : Found) × (add_rules u h catalog_version text rules found ≡ some found')
          × All (IsInside text.normalized) found'.1
    add_rules-total [] found inside = (found, unfold add_rules in refl, inside)
    add_rules-total (rule ∷ rules) found inside = elim (Bool-cases rule.enabled) [
      | inl on ↦
          let (found', e, inside') = add_detectors-total rule rule.detectors found inside in
          rw (rules_step rule rules found found' on e) (add_rules-total rules found' inside')
      | inr off ↦ rw (rules_skip rule rules found off) (add_rules-total rules found inside)
    ]

    insert-IsInside_step :
        (c d : RiskCandidate) (cs : List RiskCandidate)
        → IsInside text.normalized c
        → IsInside text.normalized d
        → All (IsInside text.normalized) cs
        → All (IsInside text.normalized) (insert_sorted c cs)
        → All (IsInside text.normalized) (insert_sorted c (d ∷ cs))
    unfolding insert_sorted
    insert-IsInside_step c d cs inside_c inside_d inside behind =
        elim (Bool-cases (key_before d c)) [
          | inl after ↦ rw after (inside_d, behind)
          | inr before ↦ rw before (inside_c, (inside_d, inside))
        ]

    insert_sorted-IsInside :
        (c : RiskCandidate) (cs : List RiskCandidate)
        → IsInside text.normalized c
        → All (IsInside text.normalized) cs
        → All (IsInside text.normalized) (insert_sorted c cs)
    insert_sorted-IsInside c [] inside_c inside = unfold insert_sorted in (inside_c, tt)
    insert_sorted-IsInside c (d ∷ cs) inside_c (inside_d, inside) =
        insert-IsInside_step c d cs inside_c inside_d inside
          (insert_sorted-IsInside c cs inside_c inside)

    sort-IsInside_step :
        (c : RiskCandidate) (cs : List RiskCandidate)
        → All (IsInside text.normalized) (insert_sorted c (sort_candidates cs))
        → All (IsInside text.normalized) (sort_candidates (c ∷ cs))
    unfolding sort_candidates
    sort-IsInside_step c cs inside = inside

    sort_candidates-IsInside :
        (cs : List RiskCandidate)
        → All (IsInside text.normalized) cs
        → All (IsInside text.normalized) (sort_candidates cs)
    sort_candidates-IsInside [] inside = unfold sort_candidates in tt
    sort_candidates-IsInside (c ∷ cs) (inside_c, inside) = sort-IsInside_step c cs (
        insert_sorted-IsInside c (sort_candidates cs) inside_c (sort_candidates-IsInside cs inside))

    -- On a text whose compact form is aligned with it, detection by any rules returns, and each
    -- candidate's evidence ends inside the normalised text.
    pub detect_total :
        (rules : List RiskRule)
        → (cs : List RiskCandidate) × (detect u h catalog_version rules text ≡ some cs)
          × All (IsInside text.normalized) cs
    detect_total rules =
        let ((seen, cs), e, inside) = add_rules-total rules ([], []) tt in
        (sort_candidates cs, detect_step seen cs e, sort_candidates-IsInside cs inside)
      where
        detect_step :
            (seen : List (String × Span)) (cs : List RiskCandidate)
            → add_rules u h catalog_version text rules ([], []) ≡ some (seen, cs)
            → detect u h catalog_version rules text ≡ some (sort_candidates cs)
        detect_step seen cs e = unfold detect in ground arith
