-- ===== src/Policy/Resolver/Filter.antt =====
-- The questions that the decision matrix asks of the candidates: which are requested, and what the
-- filter keeps.
use safety_grounded_agent.Prelude.{
  ℕ, ◌≤◌, ◌≡◌, refl, ◌≢◌, ◌↔◌, inl, inr, Bool, true, false, none, some, List, [], ◌∷◌, All, All-map,
  Any, here, there, arith, ap, Option-cases,
}
use safety_grounded_agent.Text.{text_has_eq}
use safety_grounded_agent.Dict.{get}
use safety_grounded_agent.Policy.Models.{
  RiskCategory, business_uncertain, request, RiskCandidate, RiskStance,
}
use safety_grounded_agent.Policy.Resolver.{
  by_candidate, is_high, is_business, requested_if, high_requests, any_business_request,
}

-- The candidate has a stance, so `by_candidate[…]` raises no `KeyError`.
abbrev pub HasStance : List RiskStance → RiskCandidate → Type 0
HasStance stances c = (s : RiskStance) × (get c.candidate_id (by_candidate stances) ≡ some s)

-- The user asks for what the candidate names.
abbrev pub IsRequested : List RiskStance → RiskCandidate → Type 0
IsRequested stances c =
    (s : RiskStance) × (get c.candidate_id (by_candidate stances) ≡ some s) × (s.stance ≡ request)

-- A risk of high or critical severity that the user asks for.
abbrev pub IsHighRequest : List RiskStance → RiskCandidate → Type 0
IsHighRequest stances c = (is_high c.severity ≡ true) × IsRequested stances c

-- A business conclusion that the user asks for and that needs confirmation.
abbrev pub IsBusinessRequest : List RiskStance → RiskCandidate → Type 0
IsBusinessRequest stances c = (c.category ≡ business_uncertain) × IsRequested stances c

module _ (stances : List RiskStance) where
  IsRequested-true :
      (gate : Bool) (c : RiskCandidate)
      → requested_if gate (by_candidate stances) c ≡ some true
      → (gate ≡ true) × IsRequested stances c
  IsRequested-true false c h = cc
  IsRequested-true true c h = elim (Option-cases (get c.candidate_id (by_candidate stances))) [
    | inl missing ↦ absurd (ground arith)
    | inr (s, found) ↦ (refl, (s, found, ground arith))
  ]

  IsRequested-false :
      (gate : Bool) (c : RiskCandidate)
      → requested_if gate (by_candidate stances) c ≡ some false
      → gate ≡ true
      → ¬ IsRequested stances c
  IsRequested-false gate c h g (s, found, asked) = ground arith

  requested-total :
      (gate : Bool) (c : RiskCandidate)
      → HasStance stances c
      → requested_if gate (by_candidate stances) c ≢ none
  requested-total gate c (s, found) h = ground arith

  -- What the filter keeps is asked for and comes from the list, and it misses nothing.
  pub record Filtered (cs hs : List RiskCandidate) : Type 0 where
    pub asked : All (IsHighRequest stances) hs
    pub members : All (λ h. Any (λ c. c ≡ h) cs) hs
    pub covers :
        (n : ℕ)
        → All (λ h. h.priority ≤ n) hs
        → All (λ c. IsHighRequest stances c → c.priority ≤ n) cs
    pub nonempty : Any (IsHighRequest stances) cs → hs ≢ []

  keep :
      (c : RiskCandidate) (cs hs : List RiskCandidate)
      → IsHighRequest stances c
      → Filtered cs hs
      → Filtered (c ∷ cs) (c ∷ hs)
  keep c cs hs asks f = record {
    asked = (asks, f.asked);
    members = (here refl, All-map (λ h m. there m) hs f.members);
    covers = λ n (below, rest). (λ _. below, f.covers n rest);
    nonempty = λ _ e. cc e;
  }

  skip :
      (c : RiskCandidate) (cs hs : List RiskCandidate)
      → ¬ IsHighRequest stances c
      → Filtered cs hs
      → Filtered (c ∷ cs) hs
  skip c cs hs not_asked f = record {
    asked = f.asked;
    members = All-map (λ h m. there m) hs f.members;
    covers = λ n rest. (λ asks. absurd (not_asked asks), f.covers n rest);
    nonempty = some_later;
  }
    where
      some_later : Any (IsHighRequest stances) (c ∷ cs) → hs ≢ []
      some_later (here asks) = absurd (not_asked asks)
      some_later (there later) = f.nonempty later

  pub high_requests-Filtered :
      (cs : List RiskCandidate)
      → All (HasStance stances) cs
      → (hs : List RiskCandidate) × (high_requests (by_candidate stances) cs ≡ some hs)
        × Filtered cs hs
  unfolding high_requests
  high_requests-Filtered [] has = (
    [],
    refl,
    record {
      asked = tt;
      members = tt;
      covers = λ n _. tt;
      nonempty = λ none_there. elim none_there [ ];
    },
  )
  high_requests-Filtered (c ∷ cs) (has_c, has) =
      let (hs, e, f) = high_requests-Filtered cs has in
      elim (Option-cases (requested_if (is_high c.severity) (by_candidate stances) c)) [
        | inl missing ↦ absurd (requested-total (is_high c.severity) c has_c missing)
        | inr (true, asks) ↦
            (c ∷ hs, ground arith, keep c cs hs (IsRequested-true (is_high c.severity) c asks) f)
        | inr (false, lacks) ↦ (
          hs,
          ground arith,
          skip c cs hs
              (λ (severe, asked). IsRequested-false (is_high c.severity) c lacks severe asked) f,
        )
      ]

  -- The second question of the matrix.
  pub business-exact :
      (cs : List RiskCandidate)
      → All (HasStance stances) cs
      → (b : Bool) × (any_business_request (by_candidate stances) cs ≡ some b)
        × ((b ≡ true) ↔ Any (IsBusinessRequest stances) cs)
  unfolding any_business_request
  business-exact [] has = (false, refl, (λ h. cc h, λ none_there. elim none_there [ ]))
  business-exact (c ∷ cs) (has_c, has) =
      elim (Option-cases (requested_if (is_business c.category) (by_candidate stances) c)) [
        | inl missing ↦ absurd (requested-total (is_business c.category) c has_c missing)
        | inr (true, asks) ↦
            let (gate, asked) = IsRequested-true (is_business c.category) c asks in
            (true, ground arith, (λ _. here (business_of c.category gate, asked), λ _. refl))
        | inr (false, lacks) ↦
            let (b, e, exact) = business-exact cs has in
            (b, ground arith, (λ h. there (exact.0 h), later b lacks exact.1))
      ]
    where
      business_of : (k : RiskCategory) → is_business k ≡ true → k ≡ business_uncertain
      business_of k h = ground arith

      later :
          (b : Bool)
          → requested_if (is_business c.category) (by_candidate stances) c ≡ some false
          → (Any (IsBusinessRequest stances) cs → b ≡ true)
          → Any (IsBusinessRequest stances) (c ∷ cs)
          → b ≡ true
      later b lacks rest (here (k, asked)) =
          absurd (IsRequested-false (is_business c.category) c lacks (ap is_business k) asked)
      later b lacks rest (there a) = rest a
