-- ===== src/Sales.antt =====
-- src/conversation_agent/sales: the scores of a deal (scorer.py) and of a customer's health (health.py), with
-- their grades (models.py) and the decay of a contact (config.py). A multiplier and a weight are in
-- hundredths; the arithmetic of floats is a parameter. The texts that explain a score are left out.
pub mod Bounds
pub mod Decay
mod Tests
use safety_grounded_agent.Prelude.{
  ℕ, zero, suc, ◌+◌, ◌-◌, String, Bool, true, false, Option, none, some, List, [], ◌∷◌, ◌++◌, map,
  min, length, leb, ltb, if◌then◌else◌,
}
use safety_grounded_agent.Dict.{Dict, get}
use safety_grounded_agent.Json.{Float, ℤ, pos, negsuc}
use safety_grounded_agent.Prelude.{string_has_eq}

-- `sum(values)`
abbrev pub sum : List ℕ → ℕ
sum [] = 0
sum (n ∷ ns) = n + sum ns

pub data RiskLevel : Type 0 where
  low medium high critical : RiskLevel

-- `_RISK_PENALTY_MAP`
abbrev pub penalty : RiskLevel → ℕ
penalty low = 3
penalty medium = 6
penalty high = 10
penalty critical = 15

pub data DealLevel : Type 0 where
  c b a s : DealLevel

-- `DealLevel.from_score`
unfoldable pub deal_level : ℕ → DealLevel
deal_level score =
    if leb score 40 then c else if leb score 60 then b else if leb score 80 then a else s

pub data HealthStatus : Type 0 where
  cold warm healthy : HealthStatus

-- `HealthStatus.from_score`
unfoldable pub health_status : ℕ → HealthStatus
health_status score = if leb score 40 then cold else if leb score 70 then warm else healthy

-- A dimension that is given and in its range; the others count as missing.
unfoldable pub in_range : ℕ → Option ℤ → Option ℕ
in_range most (some (pos n)) = if leb n most then some n else none
in_range most _ = none

abbrev pub or_zero : Option ℕ → ℕ
or_zero none = 0
or_zero (some n) = n

abbrev pub deal_keys : List String
deal_keys = "need_clarity" ∷ "budget_fit" ∷ "decision_maker_access" ∷ "urgency" ∷ "engagement" ∷ []

-- The values of the dimensions, in the order of the keys.
unfoldable pub filled : ℕ → Dict String ℤ → List String → List ℕ
unfolding in_range
filled most dimensions [] = []
filled most dimensions (key ∷ keys) =
    or_zero (in_range most (get key dimensions)) ∷ filled most dimensions keys

-- The keys that count as missing.
unfoldable pub missing : ℕ → Dict String ℤ → List String → List String
unfolding in_range
missing most dimensions [] = []
missing most dimensions (key ∷ keys) =
    let rest = missing most dimensions keys in
    elim (in_range most (get key dimensions)) [ none ↦ key ∷ rest | some n ↦ rest ]

pub data Confidence : Type 0 where
  high_confidence medium_confidence low_confidence : Confidence

-- The ratio of the filled dimensions, of five, is at least 0.8, or at least 0.5.
unfoldable pub confidence_of : ℕ → Confidence
confidence_of filled_count =
    if leb 4 filled_count
    then high_confidence
    else if leb 3 filled_count
    then medium_confidence
    else low_confidence

-- `max(0, min(100, raw_score))`
unfoldable pub clamp : ℤ → ℕ
clamp (pos n) = min 100 n
clamp (negsuc n) = 0

pub record DealScore : Type 0 where
  pub score : ℕ
  pub level : DealLevel
  pub dimensions : List ℕ
  pub risk_penalty : ℕ
  pub confidence : Confidence
  pub filled_dimensions : ℕ
  pub total_dimensions : ℕ
  pub missing_dimensions : List String

-- The arithmetic of floats that the score is computed with: `n * x`, the sum of a list, `x - n` and
-- `round`.
pub record Floats : Type 0 where
  pub times : ℕ → Float → Float
  pub total : List Float → Float
  pub minus : Float → ℕ → Float
  pub rounded : Float → ℤ

abbrev weighted_by : Floats → List ℕ → List Float → List Float
weighted_by floats [] weights = []
weighted_by floats (n ∷ values) [] = []
weighted_by floats (n ∷ values) (w ∷ weights) = floats.times n w ∷ weighted_by floats values weights

-- `round(weighted - risk_penalty)`
unfoldable pub raw_score : Floats → List Float → List ℕ → ℕ → ℤ
raw_score floats weights values risk_penalty =
    floats.rounded (floats.minus (floats.total (weighted_by floats values weights)) risk_penalty)

-- `DealScorer.score`; the weights stand in the order of the dimensions.
unfoldable pub deal_score : Floats → List Float → Dict String ℤ → List RiskLevel → DealScore
unfolding filled missing confidence_of raw_score clamp deal_level
deal_score floats weights dimensions risks =
    let values = filled 100 dimensions deal_keys in
    let absent = missing 100 dimensions deal_keys in
    let risk_penalty = sum (map penalty risks) in
    let score = clamp (raw_score floats weights values risk_penalty) in
    record {
      score = score;
      level = deal_level score;
      dimensions = values;
      risk_penalty = risk_penalty;
      confidence = confidence_of (5 - length absent);
      filled_dimensions = 5 - length absent;
      total_dimensions = 5;
      missing_dimensions = absent;
    }

-- The days up to which a multiplier, in hundredths, holds.
abbrev pub Threshold : Type 0
Threshold = ℕ × ℕ

-- The default of `HealthTimeDecay.thresholds`.
abbrev pub default_thresholds : List Threshold
default_thresholds = (1, 100) ∷ (3, 90) ∷ (7, 70) ∷ (14, 50) ∷ (30, 30) ∷ []

-- The loop of `resolve`, over sorted thresholds, with the multiplier so far.
unfoldable pub resolve_from : ℕ → List Threshold → ℕ → ℕ
resolve_from multiplier [] days = multiplier
resolve_from multiplier ((limit, next) ∷ thresholds) days =
    let rest = resolve_from next thresholds days in if leb days limit then next else rest

-- `sorted(self.thresholds, key=lambda x: x.days)`: equal days stay in their order.
unfoldable pub insert_threshold : Threshold → List Threshold → List Threshold
insert_threshold t [] = t ∷ []
insert_threshold t (first ∷ sorted) =
    let behind = first ∷ insert_threshold t sorted in
    if ltb first.0 t.0 then behind else t ∷ first ∷ sorted

unfoldable pub sort_thresholds : List Threshold → List Threshold
unfolding insert_threshold
sort_thresholds [] = []
sort_thresholds (t ∷ thresholds) = insert_threshold t (sort_thresholds thresholds)

-- `HealthTimeDecay.resolve`
unfoldable pub resolve : List Threshold → ℕ → ℕ
unfolding sort_thresholds resolve_from
resolve thresholds days = resolve_from 10 (sort_thresholds thresholds) days

abbrev pub health_keys : List String
health_keys =
    "responsiveness" ∷ "decision_maker_involvement" ∷ "need_clarity" ∷ "budget_timeline_clarity"
    ∷ []

pub record HealthScore : Type 0 where
  pub health_score : ℕ
  pub status : HealthStatus
  pub recent_contact : ℕ
  pub other_dimensions : List ℕ

-- `HealthScorer.score`; `scaled n m` is `round(n * m)` for a multiplier `m`.
unfoldable pub score_health : (ℕ → ℕ → ℕ) → List Threshold → Dict String ℤ → ℕ → HealthScore
unfolding filled resolve health_status
score_health scaled thresholds dimensions days =
    let recent =
      scaled (or_zero (in_range 20 (get "recent_contact" dimensions))) (resolve thresholds days) in
    let others = filled 20 dimensions health_keys in
    let total = recent + sum others in
    record {
      health_score = total;
      status = health_status total;
      recent_contact = recent;
      other_dimensions = others;
    }
