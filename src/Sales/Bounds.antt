-- ===== src/Sales/Bounds.antt =====
-- The ranges of the scores, and how the grades follow from them.
use safety_grounded_agent.Prelude.{
  ℕ, ◌+◌, ◌-◌, ◌≤◌, ◌<◌, ◌≡◌, refl, Option, none, some, String, List, [], ◌∷◌, length, map, All,
  arith,
}
use safety_grounded_agent.Dict.{Dict, get}
use safety_grounded_agent.Prelude.{string_has_eq}
use safety_grounded_agent.Json.{Float, ℤ, pos, negsuc}
use safety_grounded_agent.Sales.{
  sum, penalty, RiskLevel, DealLevel, c, b, a, s, DealScore, deal_score, raw_score, Floats,
  deal_level, deal_keys, filled, missing, in_range, or_zero, clamp, confidence_of, Confidence,
  high_confidence, medium_confidence, low_confidence,
}

pub in_range_le : (most : ℕ) (v : Option ℤ) → or_zero (in_range most v) ≤ most
unfolding in_range
in_range_le most none = ground arith
in_range_le most (some (pos n)) = ground arith
in_range_le most (some (negsuc n)) = ground arith

pub filled_le :
    (most : ℕ) (dimensions : Dict String ℤ) (keys : List String)
    → All (λ n. n ≤ most) (filled most dimensions keys)
unfolding filled
filled_le most dimensions [] = tt
filled_le most dimensions (key ∷ keys) =
    (in_range_le most (get key dimensions), filled_le most dimensions keys)

missing_le :
    (most : ℕ) (dimensions : Dict String ℤ) (keys : List String)
    → length (missing most dimensions keys) ≤ length keys
unfolding missing
missing_le most dimensions [] = ground arith
missing_le most dimensions (key ∷ keys) = ground (arith, missing_le most dimensions keys)

clamp_le : (n : ℤ) → clamp n ≤ 100
unfolding clamp
clamp_le (pos n) = ground arith
clamp_le (negsuc n) = ground arith

-- The range of the scores of a grade.
abbrev pub InGrade : DealLevel → ℕ → Type 0
InGrade c score = score ≤ 40
InGrade b score = (40 < score) × (score ≤ 60)
InGrade a score = (60 < score) × (score ≤ 80)
InGrade s score = 80 < score

-- What the number of missing dimensions says of the confidence.
abbrev pub IsConfident : Confidence → ℕ → Type 0
IsConfident high_confidence absent = absent ≤ 1
IsConfident medium_confidence absent = absent ≡ 2
IsConfident low_confidence absent = 3 ≤ absent

grade_of : (level : DealLevel) (score : ℕ) → deal_level score ≡ level → InGrade level score
unfolding deal_level
grade_of c score h = ground (arith, h)
grade_of b score h = (ground (arith, h), ground (arith, h))
grade_of a score h = (ground (arith, h), ground (arith, h))
grade_of s score h = ground (arith, h)

IsConfident-of :
    (confidence : Confidence) (absent : ℕ)
    → absent ≤ 5
    → confidence_of (5 - absent) ≡ confidence
    → IsConfident confidence absent
unfolding confidence_of
IsConfident-of high_confidence absent few h = ground (arith, h)
IsConfident-of medium_confidence absent few h = ground (arith, h)
IsConfident-of low_confidence absent few h = ground (arith, h)

-- A score as `DealScore` requires it, with the grade and the confidence that belong to it.
pub record Sound (d : DealScore) : Type 0 where
  pub bounded : d.score ≤ 100
  pub graded : InGrade d.level d.score
  pub dimensions_bounded : All (λ n. n ≤ 100) d.dimensions
  pub counted : d.filled_dimensions + length d.missing_dimensions ≡ d.total_dimensions
  pub confident : IsConfident d.confidence (length d.missing_dimensions)

-- Whatever dimensions and risks are given, also out of range or missing, whatever the weights are and
-- however floats are computed: the score of a deal is at most 100 and lies in the range of its grade, every dimension is
-- at most 100, the filled and the missing dimensions are five together, and the confidence is high
-- with at most one dimension missing, medium with two, and low with three or more.
pub deal_score-Sound :
    (floats : Floats) (weights : List Float) (dimensions : Dict String ℤ) (risks : List RiskLevel)
    → Sound (deal_score floats weights dimensions risks)
unfolding deal_score
deal_score-Sound floats weights dimensions risks =
    let few = missing_le 100 dimensions deal_keys in
    record {
      bounded = clamp_le _;
      graded =
          grade_of _
            (clamp (
              raw_score floats weights (filled 100 dimensions deal_keys) (sum (map penalty risks))))
            refl;
      dimensions_bounded = filled_le 100 dimensions deal_keys;
      counted = omega (arith, few);
      confident = IsConfident-of _ _ few refl;
    }
