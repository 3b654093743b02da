-- ===== src/Policy/Engine/Decide.antt =====
-- The engine's whole decision: it always returns, and each decision has one of three grounds.
use mathlib.Core.Path.{subst}
use safety_grounded_agent.Prelude.{
  ℕ, take, String, ◌≡◌, refl, ◌⊎◌, inl, inr, some, List, [], ◌∷◌, arith, All, Bool-cases, ◌==◌, sym,
  ◌∙◌, ne_of_false,
}
use safety_grounded_agent.Text.{Text, text_has_eq, text_eq_iff}
use safety_grounded_agent.Dict.{Dict, get, put, get-put_self, get-put_ne}
use safety_grounded_agent.Policy.Models.{
  PolicyDecision, decision, safe, RiskCandidate, RiskStance, IsInside, hundredths,
}
use safety_grounded_agent.Policy.Normalization.{
  Unicode, NormalizedPolicyText, normalize_policy_text, max_raw_length,
}
use safety_grounded_agent.Policy.Normalization.Offsets.{LowersSingly, normalize-IsAligned}
use safety_grounded_agent.Policy.Candidates.{Digests, detect}
use safety_grounded_agent.Policy.Candidates.Inside.{detect_total}
use safety_grounded_agent.Policy.Stance
use safety_grounded_agent.Policy.Stance.Bounds.{Answers, resolve_stances-Answers}
use safety_grounded_agent.Policy.Resolver.{index_from, resolve}
use safety_grounded_agent.Policy.Resolver.Matrix.{Verdict, resolve-Verdict}
use safety_grounded_agent.Policy.Engine.{
  PolicyEngine, decide_unmatched, decide_matched, decide_text, decide,
}

List-cases : (xs : Text) → (xs ≡ []) ⊎ ((x : ℕ) × (ys : Text) × (xs ≡ x ∷ ys))
List-cases [] = inl refl
List-cases (x ∷ xs) = inr (x, xs, refl)

abbrev Finds : Text → Dict Text RiskStance → Type 0
Finds k d = (s : RiskStance) × (get k d ≡ some s)

put-Finds :
    (k j : Text) (s : RiskStance) (d : Dict Text RiskStance) → Finds k d → Finds k (put j s d)
put-Finds k j s d (t, found) = elim (Bool-cases (j == k)) [
  | inl same ↦
      subst (λ i. Finds k (put i s d)) (sym ((text_eq_iff j k).0 same)) (s, get-put_self k s d)
  | inr other ↦ (t, get-put_ne k j s d (λ q. ne_of_false j k other q) ∙ found)
]

index_from-keeps :
    (k : Text) (ss : List RiskStance) (d : Dict Text RiskStance)
    → Finds k d
    → Finds k (index_from d ss)
unfolding index_from
index_from-keeps k [] d found = found
index_from-keeps k (s ∷ ss) d found =
    index_from-keeps k ss (put s.candidate_id s d) (put-Finds k s.candidate_id s d found)

-- A candidate that was answered is found among the stances.
index_from-Finds :
    (cs : List RiskCandidate) (ss : List RiskStance) (d : Dict Text RiskStance)
    → Answers cs ss
    → All (λ c. Finds c.candidate_id (index_from d ss)) cs
index_from-Finds [] [] d a = tt
index_from-Finds [] (s ∷ ss) d a = elim a [ ]
index_from-Finds (c ∷ cs) [] d a = elim a [ ]
index_from-Finds (c ∷ cs) (s ∷ ss) d (same, a) =
    index_step c cs s ss d
      (index_from-keeps c.candidate_id ss (put s.candidate_id s d) (own s c d same))
      (index_from-Finds cs ss (put s.candidate_id s d) a)
  where
    own :
        (s : RiskStance) (c : RiskCandidate) (d : Dict Text RiskStance)
        → s.candidate_id ≡ c.candidate_id
        → Finds c.candidate_id (put s.candidate_id s d)
    own s c d same =
        subst (λ i. Finds i (put s.candidate_id s d)) same (s, get-put_self s.candidate_id s d)

    index_step :
        (c : RiskCandidate) (cs : List RiskCandidate) (s : RiskStance) (ss : List RiskStance)
        (d : Dict Text RiskStance)
        → Finds c.candidate_id (index_from (put s.candidate_id s d) ss)
        → All (λ c. Finds c.candidate_id (index_from (put s.candidate_id s d) ss)) cs
        → All (λ c. Finds c.candidate_id (index_from d (s ∷ ss))) (c ∷ cs)
    index_step c cs s ss d first rest = unfold index_from in (first, rest)

-- Why the engine decides as it does.
pub data Explained (u : Unicode) (h : Digests) (upper : String → String) (engine : PolicyEngine)
    (text : Text) (d : PolicyDecision) : Type 0 where
  -- nothing is left of the text
  empty_text :
      (normalize_policy_text u text).normalized ≡ []
      → d ≡ decision safe "空输入不触发安全规则" (hundredths 50)
      → Explained u h upper engine text d
  -- no rule matches: the classifier is asked, if there is one
  unmatched :
      detect u h engine.catalog_version engine.rules (normalize_policy_text u text) ≡ some []
      → d ≡ decide_unmatched u h upper engine text
      → Explained u h upper engine text d
  -- the matrix decides on the candidates and their stances
  matched :
      (c : RiskCandidate) (cs : List RiskCandidate) (ss : List RiskStance)
      → detect u h engine.catalog_version engine.rules (normalize_policy_text u text)
        ≡ some (c ∷ cs)
      → Stance.resolve_stances u engine.patterns (normalize_policy_text u text) (c ∷ cs) ≡ some ss
      → Verdict engine.thresholds (c ∷ cs) ss d
      → Explained u h upper engine text d

-- The matrix's part: whatever the candidates are, if they lie inside the text.
matched-Explained :
    (u : Unicode) (h : Digests) (upper : String → String) (engine : PolicyEngine) (text : Text)
    (c : RiskCandidate) (cs : List RiskCandidate)
    → detect u h engine.catalog_version engine.rules (normalize_policy_text u text) ≡ some (c ∷ cs)
    → All (IsInside (normalize_policy_text u text).normalized) (c ∷ cs)
    → (d : PolicyDecision) × (decide_text u h upper engine text (normalize_policy_text u text)
        ≡ some d)
      × Explained u h upper engine text d
matched-Explained u h upper engine text c cs found inside =
    let normalized = normalize_policy_text u text in
    let (ss, answered, answers) =
      resolve_stances-Answers u engine.patterns normalized (c ∷ cs) inside in
    let (d, resolved, verdict) =
      resolve-Verdict engine.thresholds (c ∷ cs) ss (index_from-Finds (c ∷ cs) ss [] answers) in
    (d, returned normalized ss d found answered resolved, matched c cs ss found answered verdict)
  where
    returned :
        (normalized : NormalizedPolicyText) (ss : List RiskStance) (d : PolicyDecision)
        → detect u h engine.catalog_version engine.rules normalized ≡ some (c ∷ cs)
        → Stance.resolve_stances u engine.patterns normalized (c ∷ cs) ≡ some ss
        → resolve engine.thresholds (c ∷ cs) ss ≡ some d
        → decide_text u h upper engine text normalized ≡ some d
    returned normalized ss d found answered resolved =
        unfold decide_text decide_matched in ground (arith, found, answered, resolved)

text-Explained :
    (u : Unicode) (h : Digests) (upper : String → String) (engine : PolicyEngine) (text : Text)
    (cs : List RiskCandidate)
    → detect u h engine.catalog_version engine.rules (normalize_policy_text u text) ≡ some cs
    → All (IsInside (normalize_policy_text u text).normalized) cs
    → (d : PolicyDecision) × (decide_text u h upper engine text (normalize_policy_text u text)
        ≡ some d)
      × Explained u h upper engine text d
text-Explained u h upper engine text [] found inside = (
  decide_unmatched u h upper engine text,
  unfold decide_text in ground (arith, found),
  unmatched found refl,
)
text-Explained u h upper engine text (c ∷ cs) found inside =
    matched-Explained u h upper engine text c cs found inside

-- Where each code point that the text, cut to its length limit, decomposes to is one code point in lower case
-- too, the engine returns a decision for the text, and the decision has its ground: the text is empty; or no rule matches and the decision is the
-- default or what becomes of the classifier's answer; or rules match, and then the decision is the
-- matrix's verdict on the candidates and their stances, in which the classifier has no part.
pub decide-Explained :
    (u : Unicode) (h : Digests) (upper : String → String) (engine : PolicyEngine) (text : Text)
    → LowersSingly u (take max_raw_length text)
    → (d : PolicyDecision) × (decide u h upper engine text ≡ some d)
      × Explained u h upper engine text d
decide-Explained u h upper engine text singly =
    let normalized = normalize_policy_text u text in
    let (cs, found, inside) =
      detect_total normalized (normalize-IsAligned u text singly) u h engine.catalog_version
        engine.rules in
    let (d, returned, explained) = text-Explained u h upper engine text cs found inside in
    elim (List-cases normalized.normalized) [
      | inl nothing ↦ (
        decision safe "空输入不触发安全规则" (hundredths 50),
        unfold decide in ground (arith, nothing),
        empty_text nothing refl,
      )
      | inr (k, ks, something) ↦
          (d, unfold decide in ground (arith, something, returned), explained)
    ]
