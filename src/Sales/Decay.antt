-- ===== src/Sales/Decay.antt =====
-- How the health of a customer falls with the days since the last contact.
use safety_grounded_agent.Prelude.{
  ℕ, ◌+◌, ◌≤◌, ◌≡◌, refl, List, [], ◌∷◌, String, arith, All, All-map, Bool-cases, inl, inr, ltb,
}
use safety_grounded_agent.Dict.{Dict, get}
use safety_grounded_agent.Prelude.{string_has_eq}
use safety_grounded_agent.Json.{ℤ}
use safety_grounded_agent.Sales.Bounds.{in_range_le}
use safety_grounded_agent.Sales.{
  Threshold, insert_threshold, sort_thresholds, resolve, resolve_from, score_health, sum, filled,
  in_range, or_zero,
}

-- Each multiplier is at most the one before it.
abbrev pub Falling : ℕ → List Threshold → Type 0
Falling multiplier [] = Unit
Falling multiplier ((limit, next) ∷ thresholds) = (next ≤ multiplier) × Falling next thresholds

below_first :
    (multiplier : ℕ) (thresholds : List Threshold) (days : ℕ)
    → Falling multiplier thresholds
    → resolve_from multiplier thresholds days ≤ multiplier
unfolding resolve_from
below_first multiplier [] days falling = ground arith
below_first multiplier ((limit, next) ∷ thresholds) days (le, falling) =
    ground (arith, below_first next thresholds days falling)

resolve_antitone :
    (multiplier : ℕ) (thresholds : List Threshold) (days days' : ℕ)
    → Falling multiplier thresholds
    → days ≤ days'
    → resolve_from multiplier thresholds days' ≤ resolve_from multiplier thresholds days
unfolding resolve_from
resolve_antitone multiplier [] days days' falling le = ground arith
resolve_antitone multiplier ((limit, next) ∷ thresholds) days days' (drop, falling) le = ground (
  arith,
  resolve_antitone next thresholds days days' falling le,
  below_first next thresholds days' falling,
)

-- A threshold of no fewer days has no greater multiplier; the list is in any order.
abbrev pub Antitone : List Threshold → Type 0
Antitone thresholds = All (λ t. All (λ s. t.0 ≤ s.0 → s.1 ≤ t.1) thresholds) thresholds

-- The days rise.
abbrev IsSorted : List Threshold → Type 0
IsSorted [] = Unit
IsSorted (t ∷ []) = Unit
IsSorted (t ∷ s ∷ thresholds) = (t.0 ≤ s.0) × IsSorted (s ∷ thresholds)

All-insert :
    (P : Threshold → Type 0) (t : Threshold) (thresholds : List Threshold)
    → P t
    → All P thresholds
    → All P (insert_threshold t thresholds)
unfolding insert_threshold
All-insert P t [] p ps = (p, tt)
All-insert P t (s ∷ thresholds) p (q, qs) = elim (Bool-cases (ltb s.0 t.0)) [
  | inl behind ↦ rw behind (q, All-insert P t thresholds p qs)
  | inr before ↦ rw before (p, (q, qs))
]

All-sort :
    (P : Threshold → Type 0) (thresholds : List Threshold)
    → All P thresholds
    → All P (sort_thresholds thresholds)
unfolding sort_thresholds
All-sort P [] ps = tt
All-sort P (t ∷ thresholds) (p, ps) =
    All-insert P t (sort_thresholds thresholds) p (All-sort P thresholds ps)

sort-Antitone :
    (thresholds : List Threshold) → Antitone thresholds → Antitone (sort_thresholds thresholds)
sort-Antitone thresholds falls =
    All-sort _ thresholds (All-map (λ t below. All-sort _ thresholds below) thresholds falls)

insert-behind :
    (s t : Threshold) (thresholds : List Threshold)
    → s.0 ≤ t.0
    → IsSorted (s ∷ thresholds)
    → IsSorted (s ∷ insert_threshold t thresholds)
unfolding insert_threshold
insert-behind s t [] le sorted = (le, tt)
insert-behind s t (r ∷ thresholds) le (first, sorted) = elim (Bool-cases (ltb r.0 t.0)) [
  | inl behind ↦ rw behind (first, insert-behind r t thresholds (ground (arith, behind)) sorted)
  | inr before ↦ rw before (le, (ground (arith, before), sorted))
]

insert-IsSorted :
    (t : Threshold) (thresholds : List Threshold)
    → IsSorted thresholds
    → IsSorted (insert_threshold t thresholds)
unfolding insert_threshold
insert-IsSorted t [] sorted = tt
insert-IsSorted t (s ∷ thresholds) sorted = elim (Bool-cases (ltb s.0 t.0)) [
  | inl behind ↦ rw behind (insert-behind s t thresholds (ground (arith, behind)) sorted)
  | inr before ↦ rw before (ground (arith, before), sorted)
]

sort-IsSorted : (thresholds : List Threshold) → IsSorted (sort_thresholds thresholds)
unfolding sort_thresholds
sort-IsSorted [] = tt
sort-IsSorted (t ∷ thresholds) =
    insert-IsSorted t (sort_thresholds thresholds) (sort-IsSorted thresholds)

-- Of sorted thresholds each multiplier is at most the one before it.
sorted-Falling :
    (t : Threshold) (thresholds : List Threshold)
    → IsSorted (t ∷ thresholds)
    → Antitone (t ∷ thresholds)
    → Falling t.1 thresholds
sorted-Falling t [] sorted falls = tt
sorted-Falling t (s ∷ thresholds) (le, sorted) (below, later) =
    (below.1.0 le, sorted-Falling s thresholds sorted (All-map (λ a p. p.1) (s ∷ thresholds) later))

-- The multiplier is at most 1, and falls with the days.
resolve_le :
    (thresholds : List Threshold) (days : ℕ)
    → All (λ t. t.1 ≤ 100) thresholds
    → resolve thresholds days ≤ 100
unfolding resolve
resolve_le thresholds days small =
    taken_le 10 (sort_thresholds thresholds) days (omega arith) (All-sort _ thresholds small)
  where
    taken_le :
        (multiplier : ℕ) (thresholds : List Threshold) (days : ℕ)
        → multiplier ≤ 100
        → All (λ t. t.1 ≤ 100) thresholds
        → resolve_from multiplier thresholds days ≤ 100
    taken_le multiplier [] days low small = unfold resolve_from in low
    taken_le multiplier (t ∷ thresholds) days low (first, small) =
        unfold resolve_from in ground (arith, first, taken_le t.1 thresholds days first small)

resolve_falls :
    (thresholds : List Threshold) (days days' : ℕ)
    → Antitone thresholds
    → days ≤ days'
    → resolve thresholds days' ≤ resolve thresholds days
unfolding resolve
resolve_falls thresholds days days' falls le =
    loop_falls (sort_thresholds thresholds) days days' (sort-IsSorted thresholds)
      (sort-Antitone thresholds falls) le
  where
    loop_falls :
        (thresholds : List Threshold) (days days' : ℕ)
        → IsSorted thresholds
        → Antitone thresholds
        → days ≤ days'
        → resolve_from 10 thresholds days' ≤ resolve_from 10 thresholds days
    loop_falls [] days days' sorted falls le = unfold resolve_from in omega arith
    loop_falls (t ∷ thresholds) days days' sorted falls le =
        let falling = sorted-Falling t thresholds sorted falls in
        unfold resolve_from in
        ground (
          arith,
          resolve_antitone t.1 thresholds days days' falling le,
          below_first t.1 thresholds days' falling,
        )

sum_le :
    (most : ℕ) (dimensions : Dict String ℤ) (key_a key_b key_c key_d : String)
    → sum (filled most dimensions (key_a ∷ key_b ∷ key_c ∷ key_d ∷ [])) ≤ most + most + most + most
unfolding filled
sum_le most dimensions key_a key_b key_c key_d = omega (
  arith,
  in_range_le most (get key_a dimensions),
  in_range_le most (get key_b dimensions),
  in_range_le most (get key_c dimensions),
  in_range_le most (get key_d dimensions),
)

-- Where a threshold of no fewer days has no greater multiplier and none is above 1, and where rounding keeps
-- the order and never exceeds the value: the health of a customer is at most 100, its contact at most 20,
-- and with the same dimensions a longer time since the last contact gives no more health and leaves
-- the other dimensions. The thresholds stand in any order.
pub health_falls :
    (scaled : ℕ → ℕ → ℕ) (thresholds : List Threshold) (dimensions : Dict String ℤ) (days days' : ℕ)
    → ((n m m' : ℕ) → m ≤ m' → scaled n m ≤ scaled n m')
    → ((n m : ℕ) → m ≤ 100 → scaled n m ≤ n)
    → All (λ t. t.1 ≤ 100) thresholds
    → Antitone thresholds
    → days ≤ days'
    → let score = score_health scaled thresholds dimensions in
      ((score days).health_score ≤ 100)
      × ((score days).recent_contact ≤ 20)
      × ((score days').health_score ≤ (score days).health_score)
      × ((score days').other_dimensions ≡ (score days).other_dimensions)
unfolding score_health
health_falls scaled thresholds dimensions days days' keeps below small antitone le =
    let recent = or_zero (in_range 20 (get "recent_contact" dimensions)) in
    let most = below recent (resolve thresholds days) (resolve_le thresholds days small) in
    let value = in_range_le 20 (get "recent_contact" dimensions) in
    let others =
      sum_le 20 dimensions "responsiveness" "decision_maker_involvement" "need_clarity"
        "budget_timeline_clarity" in
    let falls =
      keeps recent (resolve thresholds days') (resolve thresholds days)
        (resolve_falls thresholds days days' antitone le) in
    (omega (arith, most, value, others), omega (arith, most, value), omega (arith, falls), refl)
