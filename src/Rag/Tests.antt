-- ===== src/Rag/Tests.antt =====
-- The fallback at a service that times out.
use safety_grounded_agent.Prelude.{◌≡◌, refl, true, none, some, [], ◌∷◌, string_has_eq}
use safety_grounded_agent.Policy.Models.{hundredths}
use safety_grounded_agent.Rag.{
  local, fallback, RagResult, Query, answered, client_error, FallbackRagClient, failure, query,
  create_rag_client, degraded, fallback_warning,
}
use safety_grounded_agent.Rag.Fallback.{IsDegraded, query-IsDegraded}

abbrev local_result : RagResult
local_result = record {
  answer = "answer";
  evidence = [];
  sources = [];
  confidence = hundredths 80;
  warnings = [];
  provider = local;
  diagnostics = [];
  raw_response = none;
}

abbrev timing_out : FallbackRagClient
timing_out = record {
  primary = λ q. client_error "timeout" "no answer";
  fallback_client = some (λ q. answered local_result);
  fallback_enabled = true;
}

abbrev question : Query
question = record { question = "SLA"; trace_id = none; metadata = none }

query-IsDegraded_example :
    (r : RagResult) × (query timing_out 7 question ≡ answered r)
    × IsDegraded (failure "timeout" "no answer" 7) r
query-IsDegraded_example =
    query-IsDegraded timing_out question "timeout" "no answer" 7 refl (local_result, refl)

-- The factory's client does the same.
created_falls_back :
    create_rag_client
      (λ q. answered local_result)
      (λ url timeout q. client_error "timeout" "no answer")
      7
      (record { provider = "external"; base_url = "url"; timeout = 5; fallback_to_local = true })
      question
    ≡ answered (record local_result {
      provider = fallback;
      confidence = hundredths 55;
      warnings = fallback_warning ∷ [];
      diagnostics = failure "timeout" "no answer" 7 ∷ [];
    })
unfolding create_rag_client degraded
created_falls_back = refl
