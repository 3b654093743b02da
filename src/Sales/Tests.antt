-- ===== src/Sales/Tests.antt =====
-- Scores of small examples.
use safety_grounded_agent.Prelude.{
  ℕ, ◌≤◌, ◌≡◌, refl, String, List, [], ◌∷◌, arith, min, map, ◌*◌, ◌-◌, leb, if◌then◌else◌,
}
use safety_grounded_agent.Dict.{Dict}
use safety_grounded_agent.Json.{Float, finite, ℤ, pos, negsuc}
use safety_grounded_agent.Sales.{
  DealLevel, Confidence, Floats, deal_score, raw_score, high, critical, default_thresholds,
  score_health, filled, missing, in_range, clamp, deal_level, confidence_of, sum, resolve,
  resolve_from, sort_thresholds, insert_threshold,
}
use safety_grounded_agent.Sales.Bounds.{Sound, deal_score-Sound}
use safety_grounded_agent.Sales.Decay.{health_falls}

-- Whole numbers in place of floats: products, sums and differences are exact.
abbrev part : Float → ℕ
part (finite (pos n) e) = n
part _ = 0

abbrev difference : ℕ → ℕ → ℤ
difference n m = if leb m n then pos (n - m) else negsuc (m - n - 1)

abbrev whole_of : Float → ℤ
whole_of (finite n e) = n
whole_of _ = pos 0

abbrev exact : Floats
exact = record {
  times = λ n w. finite (pos (n * part w)) (pos 0);
  total = λ ws. finite (pos (sum (map part ws))) (pos 0);
  minus = λ w n. finite (difference (part w) n) (pos 0);
  rounded = λ w. whole_of w;
}

abbrev weights : List Float
weights = let one = finite (pos 1) (pos 0) in one ∷ one ∷ one ∷ one ∷ one ∷ []

abbrev dimensions : Dict String ℤ
dimensions = ("need_clarity", pos 20) ∷ ("budget_fit", pos 130) ∷ ("urgency", negsuc 3) ∷ []

deal_score-Sound_example : Sound (deal_score exact weights dimensions [])
deal_score-Sound_example = deal_score-Sound exact weights dimensions []

deal_test : deal_score exact weights dimensions (critical ∷ high ∷ []) ≡ record {
  score = 0;
  level = DealLevel.c;
  dimensions = 20 ∷ 0 ∷ 0 ∷ 0 ∷ 0 ∷ [];
  risk_penalty = 25;
  confidence = Confidence.low_confidence;
  filled_dimensions = 1;
  total_dimensions = 5;
  missing_dimensions = "budget_fit" ∷ "decision_maker_access" ∷ "urgency" ∷ "engagement" ∷ [];
}
unfolding deal_score raw_score filled missing in_range clamp deal_level confidence_of
deal_test = refl

-- The decay after a long time is that of the last threshold.
decay_test : resolve default_thresholds 60 ≡ 30
unfolding resolve resolve_from sort_thresholds insert_threshold
decay_test = refl

-- `min` as a rounding of sorts: it keeps the order and never exceeds the value.
min_mono : (n m m' : ℕ) → m ≤ m' → min n m ≤ min n m'
min_mono n m m' le = omega arith

min_le : (n m : ℕ) → min n m ≤ n
min_le n m = omega arith

health_falls_example :
    ((score_health min ((3, 90) ∷ (1, 100) ∷ []) (("recent_contact", pos 18) ∷ []) 1).health_score
      ≤ 100)
    × ((score_health min
          ((3, 90) ∷ (1, 100) ∷ [])
          (("recent_contact", pos 18) ∷ [])
          1).recent_contact
        ≤ 20)
    × ((score_health min ((3, 90) ∷ (1, 100) ∷ []) (("recent_contact", pos 18) ∷ []) 2).health_score
        ≤ (score_health min
            ((3, 90) ∷ (1, 100) ∷ [])
            (("recent_contact", pos 18) ∷ [])
            1).health_score)
    × ((score_health min
          ((3, 90) ∷ (1, 100) ∷ [])
          (("recent_contact", pos 18) ∷ [])
          2).other_dimensions
        ≡ (score_health min
            ((3, 90) ∷ (1, 100) ∷ [])
            (("recent_contact", pos 18) ∷ [])
            1).other_dimensions)
health_falls_example =
    health_falls min ((3, 90) ∷ (1, 100) ∷ []) (("recent_contact", pos 18) ∷ []) 1 2
      (λ n m m' le. min_mono n m m' le) (λ n m le. min_le n m) (omega arith, (omega arith, tt))
      (
        ((λ _. omega arith), ((λ le. absurd (omega arith)), tt)),
        (((λ _. omega arith), ((λ _. omega arith), tt)), tt),
      )
      (omega arith)

-- The loop takes the thresholds by their days.
unsorted_test : resolve ((10, 90) ∷ (5, 50) ∷ []) 3 ≡ 50
unfolding resolve resolve_from sort_thresholds insert_threshold
unsorted_test = refl
