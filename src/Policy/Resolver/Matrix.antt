-- ===== src/Policy/Resolver/Matrix.antt =====
-- The decision matrix, read from the outside: when a request is blocked, when it is safe, and
-- whose reason a block gives.
use mathlib.Core.Path.{subst}
use safety_grounded_agent.Prelude.{
  ◌≤◌, ◌≡◌, refl, ◌≢◌, ◌↔◌, ◌⊎◌, inl, inr, false, some, List, [], ◌∷◌, map, any, All, Any, Any-map,
  arith, sym, Bool-cases,
}
use safety_grounded_agent.Text.{Text, text_has_eq}
use safety_grounded_agent.Policy.Models.{
  safe, uncertain, blocked, PolicyDecision, decision, RiskCandidate, RiskStance,
  PolicyResolutionThresholds, hundredths,
}
use safety_grounded_agent.Policy.Resolver.{
  by_candidate, high_requests, max_from, is_weak, is_unknown, resolve_stances, resolve,
  matched_rule,
}
use safety_grounded_agent.Policy.Resolver.Filter.{
  HasStance, IsHighRequest, IsBusinessRequest, Filtered, high_requests-Filtered, business-exact,
}
use safety_grounded_agent.Policy.Resolver.Top.{max_from-priority, max_from-keeps}

-- The verdict of the later tests is never a block, and is safe exactly when no stance is unknown or
-- too weak.
stances_not_blocked :
    (t : PolicyResolutionThresholds) (matched : List Text) (stances : List RiskStance)
    → (resolve_stances t matched stances).status ≢ blocked
unfolding resolve_stances
stances_not_blocked t matched stances h = ground arith

stances_safe :
    (t : PolicyResolutionThresholds) (matched : List Text) (stances : List RiskStance)
    → ((resolve_stances t matched stances).status ≡ safe)
      ↔ ((any is_unknown stances ≡ false) × (any (is_weak t) stances ≡ false))
unfolding resolve_stances
stances_safe t matched stances = (λ h. (ground arith, ground arith), λ h. ground arith)

stances-rules :
    (t : PolicyResolutionThresholds) (matched : List Text) (stances : List RiskStance)
    → (resolve_stances t matched stances).matched_rules ≡ matched
unfolding resolve_stances
stances-rules t matched stances = ground arith

-- What the resolver decides once each candidate has a stance.
pub record Verdict (t : PolicyResolutionThresholds) (cs : List RiskCandidate)
    (stances : List RiskStance) (d : PolicyDecision) : Type 0 where
  pub blocks : (d.status ≡ blocked) ↔ Any (IsHighRequest stances) cs
  pub is_safe : (d.status ≡ safe) ↔ (
      (¬ Any (IsHighRequest stances) cs)
      × (¬ Any (IsBusinessRequest stances) cs)
      × (any is_unknown stances ≡ false)
      × (any (is_weak t) stances ≡ false))
  pub reason :
      (d.status ≢ blocked)
      ⊎ ((top : RiskCandidate) × Any (λ c. c ≡ top) cs
          × IsHighRequest stances top
          × (d.reason ≡ top.reason)
          × All (λ c. IsHighRequest stances c → c.priority ≤ top.priority) cs)
  pub rules : d.matched_rules ≡ map matched_rule cs

module _ (t : PolicyResolutionThresholds) (stances : List RiskStance)
    (cs : List RiskCandidate) where
  -- Some candidate is a high request: the first of the greatest gives the reason.
  blocks-Verdict :
      (c : RiskCandidate) (hs : List RiskCandidate)
      → Filtered stances cs (c ∷ hs)
      → Verdict t cs stances (record (decision blocked (max_from c hs).reason (hundredths 99)) {
        matched_rules = map matched_rule cs;
      })
  blocks-Verdict c hs f =
      let top = max_from c hs in
      let asks = max_from-keeps (IsHighRequest stances) c hs f.asked.0 f.asked.1 in
      let place = max_from-keeps (λ h. Any (λ c. c ≡ h) cs) c hs f.members.0 f.members.1 in
      let high = Any-map (λ x e. subst (IsHighRequest stances) (sym e) asks) cs place in
      record {
        blocks = (λ _. high, λ _. refl);
        is_safe = (λ h. cc h, λ h. absurd (h.0 high));
        reason = inr (top, place, asks, refl, f.covers top.priority (max_from-priority c hs));
        rules = refl;
      }

  business-Verdict :
      (d : PolicyDecision)
      → d.status ≡ uncertain
      → d.matched_rules ≡ map matched_rule cs
      → ¬ Any (IsHighRequest stances) cs
      → Any (IsBusinessRequest stances) cs
      → Verdict t cs stances d
  business-Verdict d is_uncertain rules none_high business = record {
    blocks = (λ h. cc, λ a. absurd (none_high a));
    is_safe = (λ h. cc, λ h. absurd (h.1 business));
    reason = inl (λ h. cc);
    rules = rules;
  }

  stances-Verdict :
      ¬ Any (IsHighRequest stances) cs
      → ¬ Any (IsBusinessRequest stances) cs
      → Verdict t cs stances (resolve_stances t (map matched_rule cs) stances)
  stances-Verdict none_high none_business =
      let quiet = stances_not_blocked t (map matched_rule cs) stances in
      let exact = stances_safe t (map matched_rule cs) stances in
      record {
        blocks = (λ h. absurd (quiet h), λ a. absurd (none_high a));
        is_safe = (
          λ h. let (known, strong) = exact.0 h in (none_high, none_business, known, strong),
          λ h. exact.1 (h.2, h.3),
        );
        reason = inl quiet;
        rules = stances-rules t (map matched_rule cs) stances;
      }

  resolve_from :
      (hs : List RiskCandidate)
      → high_requests (by_candidate stances) cs ≡ some hs
      → Filtered stances cs hs
      → All (HasStance stances) cs
      → (d : PolicyDecision) × (resolve t cs stances ≡ some d) × Verdict t cs stances d
  unfolding resolve
  resolve_from (c ∷ hs) e f has = (_, ground arith, blocks-Verdict c hs f)
  resolve_from [] e f has =
      let none_high : ¬ Any (IsHighRequest stances) cs = λ a. f.nonempty a refl in
      let (b, asked, exact) = business-exact stances cs has in
      elim (Bool-cases b) [
        | inl yes_b ↦ (
          record (decision uncertain "该业务结论需要进一步证据或授权确认。" (hundredths 85)) {
            matched_rules = map matched_rule cs;
          },
          ground arith,
          business-Verdict _ refl refl none_high (exact.0 yes_b),
        )
        | inr no_b ↦ (
          resolve_stances t (map matched_rule cs) stances,
          ground arith,
          stances-Verdict none_high (λ a. ground (arith, exact.1 a)),
        )
      ]

-- When each candidate has a stance, the resolver returns. It blocks exactly when the user asks for
-- some risk of high or critical severity, whatever else the text holds; the reason is then that of
-- such a risk with the greatest priority. It is safe exactly when no such risk and no business
-- conclusion is asked for, no stance is unknown, and no discussion or quotation is too weak. All
-- matched rules are reported in each case.
pub resolve-Verdict :
    (t : PolicyResolutionThresholds) (cs : List RiskCandidate) (stances : List RiskStance)
    → All (HasStance stances) cs
    → (d : PolicyDecision) × (resolve t cs stances ≡ some d) × Verdict t cs stances d
resolve-Verdict t cs stances has =
    let (hs, e, f) = high_requests-Filtered stances cs has in resolve_from t stances cs hs e f has
