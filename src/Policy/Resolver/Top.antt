-- ===== src/Policy/Resolver/Top.antt =====
-- The candidate that `max` picks among the high requests.
use mathlib.Core.Path.{subst}
use safety_grounded_agent.Prelude.{
  ◌≤◌, ◌≡◌, inl, inr, true, false, List, [], ◌∷◌, All, arith, sym, Bool-cases,
}
use safety_grounded_agent.Text.{text_has_eq}
use safety_grounded_agent.Policy.Models.{RiskCandidate}
use safety_grounded_agent.Policy.Resolver.{key_lt, max_from}

key_lt-true : (a b : RiskCandidate) → key_lt a b ≡ true → a.priority ≤ b.priority
unfolding key_lt
key_lt-true a b h = ground arith

key_lt-false : (a b : RiskCandidate) → key_lt a b ≡ false → b.priority ≤ a.priority
unfolding key_lt
key_lt-false a b h = ground arith

step_lt :
    (top c : RiskCandidate) (cs : List RiskCandidate)
    → key_lt top c ≡ true
    → max_from top (c ∷ cs) ≡ max_from c cs
unfolding max_from
step_lt top c cs h = rw h

step_ge :
    (top c : RiskCandidate) (cs : List RiskCandidate)
    → key_lt top c ≡ false
    → max_from top (c ∷ cs) ≡ max_from top cs
unfolding max_from
step_ge top c cs h = rw h

-- The candidate that `max` picks has the greatest priority, and what all have, it has.
abbrev pub IsBelow : RiskCandidate → List RiskCandidate → Type 0
IsBelow m = All (λ c. c.priority ≤ m.priority)

pub max_from-priority :
    (top : RiskCandidate) (cs : List RiskCandidate) → IsBelow (max_from top cs) (top ∷ cs)
max_from-priority top [] = unfold max_from in (omega arith, tt)
max_from-priority top (c ∷ cs) = elim (Bool-cases (key_lt top c)) [
  | inl less ↦
      let (first, rest) = max_from-priority c cs in
      let up = key_lt-true top c less in
      subst (λ m. IsBelow m (top ∷ c ∷ cs)) (sym (step_lt top c cs less))
        (omega arith, (first, rest))
  | inr more ↦
      let (first, rest) = max_from-priority top cs in
      let down = key_lt-false top c more in
      subst (λ m. IsBelow m (top ∷ c ∷ cs)) (sym (step_ge top c cs more))
        (first, (omega arith, rest))
]

pub max_from-keeps :
    (P : RiskCandidate → Type 0) (top : RiskCandidate) (cs : List RiskCandidate)
    → P top
    → All P cs
    → P (max_from top cs)
unfolding max_from
max_from-keeps P top [] p a = p
max_from-keeps P top (c ∷ cs) p (q, a) = elim (Bool-cases (key_lt top c)) [
  | inl less ↦ rw less (max_from-keeps P c cs q a)
  | inr more ↦ rw more (max_from-keeps P top cs p a)
]
