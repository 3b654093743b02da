-- ===== src/Rag/Fallback.antt =====
-- What is told of a failed call of the external service: its answer is never passed off as a full one.
use safety_grounded_agent.Prelude.{
  ℕ, ◌≤◌, String, ◌≡◌, refl, ◌≢◌, ◌⊎◌, inl, inr, Bool, true, false, Option, none, some, List, [],
  ◌∷◌, map, All, drop, get_elem?, arith, string_has_eq,
}
use safety_grounded_agent.Policy.Models.{hundredths}
use safety_grounded_agent.Rag.{
  RagCallDiagnostic, fallback, no_provider, RagResult, Query, answered, client_error, RagClient,
  FallbackRagClient, failure, renamed, degraded, unavailable, recover, query,
}

-- A result that says that the external service has failed, and how.
pub record IsDegraded (failed : RagCallDiagnostic) (r : RagResult) : Type 0 where
  pub confidence : r.confidence ≤ hundredths 55
  pub provider : (r.provider ≡ fallback) ⊎ (r.provider ≡ no_provider)
  pub warned : r.warnings ≢ []
  pub reported : get_elem? r.diagnostics 0 ≡ some failed
  pub labelled : All (λ d. d.step_name ≡ "local_rag_fallback") (drop 1 r.diagnostics)

-- The fallback, where there is one, answers the query.
abbrev pub FallbackAnswers : FallbackRagClient → Query → Type 0
FallbackAnswers client q = elim client.fallback_client [
  | none ↦ Unit
  | some local_client ↦ (r : RagResult) × (local_client q ≡ answered r)
]

renamed-All :
    (ds : List RagCallDiagnostic) → All (λ d. d.step_name ≡ "local_rag_fallback") (map renamed ds)
renamed-All [] = tt
renamed-All (d ∷ ds) = (refl, renamed-All ds)

degraded-IsDegraded :
    (failed : RagCallDiagnostic) (r : RagResult) → IsDegraded failed (degraded failed r)
unfolding degraded
degraded-IsDegraded failed r = record {
  confidence = omega arith;
  provider = inl refl;
  warned = λ h. cc h;
  reported = refl;
  labelled = renamed-All r.diagnostics;
}

unavailable-IsDegraded :
    (failed : RagCallDiagnostic) (message : String) → IsDegraded failed (unavailable failed message)
unavailable-IsDegraded failed message = record {
  confidence = omega arith;
  provider = inr refl;
  warned = λ h. cc h;
  reported = refl;
  labelled = tt;
}

recover-IsDegraded :
    (primary : RagClient) (fallback_client : Option RagClient) (enabled : Bool) (q : Query)
    (error_type message : String) (latency : ℕ)
    → (let client : FallbackRagClient = record {
      primary = primary;
      fallback_client = fallback_client;
      fallback_enabled = enabled;
    } in
        FallbackAnswers client q
        → (r : RagResult) × (recover client q error_type message latency ≡ answered r)
          × IsDegraded (failure error_type message latency) r)
unfolding recover
recover-IsDegraded primary none enabled q error_type message latency a =
    let failed = failure error_type message latency in
    (unavailable failed message, refl, unavailable-IsDegraded failed message)
recover-IsDegraded primary (some local_client) true q error_type message latency (r, e) =
    let failed = failure error_type message latency in
    (degraded failed r, rw e refl, degraded-IsDegraded failed r)
recover-IsDegraded primary (some local_client) false q error_type message latency a =
    let failed = failure error_type message latency in
    (unavailable failed message, refl, unavailable-IsDegraded failed message)

query-step :
    (client : FallbackRagClient) (q : Query) (error_type message : String) (latency : ℕ)
    → client.primary q ≡ client_error error_type message
    → query client latency q ≡ recover client q error_type message latency
unfolding query
query-step client q error_type message latency h = ground arith

-- When the external service fails with a client error, and the fallback, where there is one, answers,
-- then the client answers: with a confidence of at most 0.55, under the provider of the fallback
-- or of none, with a warning, with the failed call as the first diagnostic and the others named as
-- the fallback's.
pub query-IsDegraded :
    (client : FallbackRagClient) (q : Query) (error_type message : String) (latency : ℕ)
    → client.primary q ≡ client_error error_type message
    → FallbackAnswers client q
    → (r : RagResult) × (query client latency q ≡ answered r)
      × IsDegraded (failure error_type message latency) r
query-IsDegraded client q error_type message latency h a =
    rw (query-step client q error_type message latency h) (
      recover-IsDegraded client.primary client.fallback_client client.fallback_enabled q error_type
        message latency a)
