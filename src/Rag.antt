-- ===== src/Rag.antt =====
-- src/conversation_agent/rag: the client that falls back, and the factory (factory.py), with the
-- results of models.py and the errors of base.py. Evidence, sources and raw responses pass through
-- these files unread.
pub mod Fallback
mod Tests
use safety_grounded_agent.Prelude.{
  ℕ, String, Bool, true, false, ◌&&◌, ◌==◌, string_has_eq, Option, none, some, List, [], ◌∷◌, map,
  min, if◌then◌else◌,
}
use safety_grounded_agent.Json.{Json}
use safety_grounded_agent.Policy.Models.{Confidence, hundredths}

-- The latency is in microseconds.
pub record RagCallDiagnostic : Type 0 where
  pub step_name : String
  pub provider : String
  pub success : Bool
  pub error_type : Option String
  pub message : Option String
  pub latency : Option ℕ

pub data RagProvider : Type 0 where
  external local fallback no_provider : RagProvider

pub record RagResult : Type 0 where
  pub answer : String
  pub evidence : List Json
  pub sources : List Json
  pub confidence : Confidence
  pub warnings : List String
  pub provider : RagProvider
  pub diagnostics : List RagCallDiagnostic
  pub raw_response : Option Json

pub record Query : Type 0 where
  pub question : String
  pub trace_id : Option String
  pub metadata : Option Json

-- What a query comes to: a result, a `RagClientError` with its type and message, or another exception.
pub data Outcome : Type 0 where
  answered : RagResult → Outcome
  client_error : String → String → Outcome
  crashed : String → Outcome

-- The protocol `RagClient`, of clients whose answer depends on the query alone.
abbrev pub RagClient : Type 0
RagClient = Query → Outcome

pub record FallbackRagClient : Type 0 where
  pub primary : RagClient
  pub fallback_client : Option RagClient
  pub fallback_enabled : Bool

abbrev pub fallback_warning : String
fallback_warning = "External RAG unavailable; used local keyword fallback."

-- The diagnostic of the failed call, with its type, its message and its latency.
abbrev pub failure : String → String → ℕ → RagCallDiagnostic
failure error_type message latency = record {
  step_name = "external_rag_query";
  provider = "external";
  success = false;
  error_type = some error_type;
  message = some message;
  latency = some latency;
}

-- `d.model_copy(update={"step_name": "local_rag_fallback"})`
abbrev pub renamed : RagCallDiagnostic → RagCallDiagnostic
renamed d = record d { step_name = "local_rag_fallback" }

-- What becomes of the fallback's result.
unfoldable pub degraded : RagCallDiagnostic → RagResult → RagResult
degraded failed result = record result {
  provider = fallback;
  confidence = min result.confidence (hundredths 55);
  warnings = fallback_warning ∷ result.warnings;
  diagnostics = failed ∷ map renamed result.diagnostics;
}

-- The result where there is no fallback.
abbrev pub unavailable : RagCallDiagnostic → String → RagResult
unavailable failed message = record {
  answer = "外部 RAG 服务暂不可用，且未启用本地 fallback。";
  evidence = [];
  sources = [];
  confidence = hundredths 15;
  warnings = message ∷ [];
  provider = no_provider;
  diagnostics = failed ∷ [];
  raw_response = none;
}

abbrev degraded_outcome : RagCallDiagnostic → Outcome → Outcome
degraded_outcome failed (answered result) = answered (degraded failed result)
degraded_outcome failed (client_error error_type message) = client_error error_type message
degraded_outcome failed (crashed name) = crashed name

-- The `except` of `query`.
unfoldable pub recover : FallbackRagClient → Query → String → String → ℕ → Outcome
unfolding degraded
recover client q error_type message latency =
    let failed = failure error_type message latency in
    elim client.fallback_client [
      | none ↦ answered (unavailable failed message)
      | some local_client ↦
          if client.fallback_enabled
          then degraded_outcome failed (local_client q)
          else answered (unavailable failed message)
    ]

-- `FallbackRagClient.query`; the latency is what the clock gives.
unfoldable pub query : FallbackRagClient → ℕ → RagClient
unfolding recover
query client latency q = elim (client.primary q) [
  | answered result ↦ answered result
  | client_error error_type message ↦ recover client q error_type message latency
  | crashed name ↦ crashed name
]

-- The configuration, the timeout in microseconds.
pub record RagServiceConfig : Type 0 where
  pub provider : String
  pub base_url : String
  pub timeout : ℕ
  pub fallback_to_local : Bool

-- `create_rag_client(config)`, for the local client and the constructor of the external one.
unfoldable pub create_rag_client :
    RagClient → (String → ℕ → RagClient) → ℕ → RagServiceConfig → RagClient
unfolding query
create_rag_client local_client external_client latency config =
    if config.provider == "local"
    then local_client
    else query
        (record {
          primary = external_client config.base_url config.timeout;
          fallback_client = if config.fallback_to_local then some local_client else none;
          fallback_enabled = config.fallback_to_local;
        })
        latency
