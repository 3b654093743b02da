-- ===== src/Application/Mappers.antt =====
-- src/conversation_agent/application/persistence_mappers.py: the records that are stored for a
-- request, its run and its audit events. The mappings are frozen by `_object`, which keeps their
-- contents. Every time is checked to be in UTC before it comes here, as the constructors require.
pub mod Audit
use safety_grounded_agent.Prelude.{
  ℕ, String, Bool, true, false, not, Option, none, some, List, [], ◌∷◌, ◌++◌, any, map, length,
  ◌==◌, string_has_eq, if◌then◌else◌, leb, is_some,
}
use safety_grounded_agent.Text.{Text, codes}
use safety_grounded_agent.Time.{Datetime}
use safety_grounded_agent.Json.{
  Json, Items, nil, cons, Fields, end, field, name, ℤ, pos, array_of, object_of, text_or_null, null,
  whole, texts,
}
use safety_grounded_agent.Policy.Models.{PolicyStatus, safe, uncertain, blocked, is_blocked}
use safety_grounded_agent.Rag.{RagResult, RagProvider, external, local, fallback, no_provider}
use safety_grounded_agent.Runtime.{RequestContext}
use safety_grounded_agent.Orchestration.TaskRouter.{TaskRoute, task_value}
use safety_grounded_agent.Orchestration.Models.{OrchestrationResult, AgentStep}
use safety_grounded_agent.Authorization.Models.{ResourceScope}
use safety_grounded_agent.Database.Errors.{Error, Result, ok, err}
use safety_grounded_agent.Database.Records.{NewAgentRequest, NewAgentRun, PersistedAgentRequestRef}
use safety_grounded_agent.Application.Models.{ApplicationResult}

abbrev pub request_fingerprint_version : ℕ
request_fingerprint_version = 2

abbrev pub failure_codes : List String
failure_codes =
    "application_service_failed" ∷ "coordinator_execution_failed" ∷ "duplicate_request_id"
    ∷ "invalid_request_transition" ∷ "request_persistence_failed" ∷ "result_persistence_failed"
    ∷ "idempotency_lease_reclaimed" ∷ []

-- `FailureCodeMapper.require`
unfoldable pub require : String → Result String
require code =
    if any (λ approved. approved == code) failure_codes then ok code else err Error.value_error

-- `decision.status`
abbrev pub policy_status : PolicyStatus → String
policy_status safe = "SAFE"
policy_status uncertain = "UNCERTAIN"
policy_status blocked = "BLOCKED"

-- `rag_result.provider`
abbrev pub provider_value : RagProvider → String
provider_value external = "external"
provider_value local = "local"
provider_value fallback = "fallback"
provider_value no_provider = "none"

abbrev pub provider_of : Option RagResult → Option String
provider_of none = none
provider_of (some rag) = some (provider_value rag.provider)

abbrev pub routed_task : Option TaskRoute → Option String
routed_task none = none
routed_task (some route) = some (task_value route.task)

-- `rag_result is not None and rag_result.provider == "fallback"`
abbrev fallback_used : Option RagResult → Bool
fallback_used none = false
fallback_used (some rag) = provider_value rag.provider == "fallback"

abbrev scope_object : ResourceScope → Json
scope_object scope = object_of (
    ("resource_ids", texts scope.resource_ids)
    ∷ ("resource_type", Json.text scope.resource_type)
    ∷ ("scope_type", Json.text scope.scope_type)
    ∷ [])

-- What decides whether two requests ask for the same thing.
abbrev pub fingerprint_payload :
    RequestContext → String → String → Option String → Option String → Json
fingerprint_payload context operation user_text_hash task_override request_session_id = object_of (
    ("fingerprint_version", whole request_fingerprint_version)
    ∷ ("operation", Json.text operation)
    ∷ ("organization_id", Json.text context.principal.organization_id)
    ∷ ("principal_user_id", Json.text context.principal.user_id)
    ∷ ("request_session_id", text_or_null request_session_id)
    ∷ ("task_override", text_or_null task_override)
    ∷ ("tenant_id", Json.text context.principal.tenant_id)
    ∷ ("user_text_hash", Json.text user_text_hash)
    ∷ [])

abbrev authorization_snapshot : RequestContext → Json
authorization_snapshot context = object_of (
    ("allowed", Json.boolean context.authorization.allowed)
    ∷ ("authorization_policy_version", Json.text context.versions.authorization_policy_version)
    ∷ ("code", Json.text context.authorization.code)
    ∷ ("permissions", texts context.authorization.permissions)
    ∷ ("resource_scopes", array_of (map scope_object context.authorization.resource_scopes))
    ∷ [])

-- What a stored request may say besides: its status, and of a replay the original and the end.
pub record Disposition : Type 0 where
  pub idempotency_key_hash : Option String
  pub status : String
  pub replayed_from_request_record_id : Option ℕ
  pub completed_at : Option Datetime

-- The defaults of the keyword arguments.
abbrev pub plain : Disposition
plain = record {
  idempotency_key_hash = none;
  status = "in_progress";
  replayed_from_request_record_id = none;
  completed_at = none;
}

-- SHA-256 of the UTF-8 bytes, the canonical `json.dumps`, and the text of a list of code points.
pub record Codec : Type 0 where
  pub sha256 : Text → String
  pub dumps : Json → Text
  pub of_codes : Text → String

module _ (c : Codec) where
  -- `fingerprint = _sha256_text(canonical)`
  unfoldable pub request_fingerprint :
      RequestContext → String → Text → Option String → Option String → String
  request_fingerprint context operation user_text task_override request_session_id = c.sha256 (
      c.dumps (
        fingerprint_payload context operation (c.sha256 user_text) task_override
          request_session_id))

  -- `RequestPersistenceMapper.map`
  unfoldable pub map_request :
      RequestContext
      → String
      → Text
      → Option String
      → Option String
      → Datetime
      → Disposition
      → NewAgentRequest
  unfolding request_fingerprint
  map_request context operation user_text task_override request_session_id created_at d = record {
    request_id = context.request_id;
    trace_id = context.trace_id;
    session_id = some context.session_id;
    operation = operation;
    principal_user_id = context.principal.user_id;
    tenant_id = context.principal.tenant_id;
    organization_id = context.principal.organization_id;
    user_text_hash = c.sha256 user_text;
    user_text_length = length user_text;
    request_fingerprint =
        request_fingerprint context operation user_text task_override request_session_id;
    fingerprint_version = request_fingerprint_version;
    authorization_snapshot = authorization_snapshot context;
    authorization_snapshot_schema_version = 1;
    created_at = created_at;
    status = d.status;
    idempotency_key_hash = d.idempotency_key_hash;
    replayed_from_request_record_id = d.replayed_from_request_record_id;
    completed_at = d.completed_at;
    failure_code = none;
  }

  abbrev pub run_status : OrchestrationResult → String
  run_status o = if is_blocked o.policy then "blocked" else "completed"

  abbrev result_snapshot : OrchestrationResult → Json
  result_snapshot o = object_of (
      ("answer_length", whole (length (codes o.final_response)))
      ∷ ("answer_sha256", Json.text (c.sha256 (codes o.final_response)))
      ∷ ("citation_count", whole (length o.citations))
      ∷ ("has_citations", Json.boolean (not (leb (length o.citations) 0)))
      ∷ ("outcome", Json.text (run_status o))
      ∷ (
        "result_kind",
        Json.text (if is_blocked o.policy then "policy_refusal" else "agent_result"),
      )
      ∷ [])

  abbrev trace_snapshot : ApplicationResult → Json
  trace_snapshot result =
      let o = result.orchestration in
      object_of (
        ("fallback_used", Json.boolean (fallback_used o.rag_result))
        ∷ ("matched_rule_ids", texts (map c.of_codes o.policy.matched_rules))
        ∷ ("policy_outcome", Json.text (policy_status o.policy.status))
        ∷ ("policy_version", Json.text result.context.versions.policy_version)
        ∷ ("rag_provider", text_or_null (provider_of o.rag_result))
        ∷ ("rag_used", Json.boolean (is_some o.rag_result))
        ∷ ("routed_task", text_or_null (routed_task o.task_route))
        ∷ ("stage_names", texts (map (λ (s : AgentStep). s.step_name) o.trace))
        ∷ [])

  -- `RunPersistenceMapper.completed`
  abbrev pub completed_run :
      ApplicationResult → PersistedAgentRequestRef → String → Datetime → Datetime → NewAgentRun
  completed_run result request run_id started_at completed_at =
      let o = result.orchestration in
      record {
        run_id = run_id;
        original_request_record_id = request.database_id;
        session_id = some result.context.session_id;
        status = run_status o;
        routed_task = routed_task o.task_route;
        policy_outcome = some (policy_status o.policy.status);
        result_snapshot = some (result_snapshot o);
        result_snapshot_schema_version = some 1;
        confidence = some o.confidence;
        trace_snapshot = some (trace_snapshot result);
        trace_snapshot_schema_version = some 1;
        rag_provider = provider_of o.rag_result;
        started_at = started_at;
        completed_at = completed_at;
      }

-- A run that failed, with the session that it belongs to.
abbrev failed_in :
    Option String → PersistedAgentRequestRef → String → String → Datetime → Datetime → NewAgentRun
failed_in session_id request run_id failure_code started_at completed_at = record {
  run_id = run_id;
  original_request_record_id = request.database_id;
  session_id = session_id;
  status = "failed";
  routed_task = none;
  policy_outcome = none;
  result_snapshot = none;
  result_snapshot_schema_version = none;
  confidence = none;
  trace_snapshot =
      some (
        object_of
          (("failure_code", Json.text failure_code) ∷ ("outcome", Json.text "failed") ∷ []));
  trace_snapshot_schema_version = some 1;
  rag_provider = none;
  started_at = started_at;
  completed_at = completed_at;
}

-- `RunPersistenceMapper.failed`
abbrev pub failed_run :
    RequestContext → PersistedAgentRequestRef → String → String → Datetime → Datetime → NewAgentRun
failed_run context request run_id failure_code started_at completed_at =
    failed_in (some context.session_id) request run_id failure_code started_at completed_at

-- `RunPersistenceMapper.lease_reclaimed`
abbrev pub reclaimed_run : PersistedAgentRequestRef → String → Datetime → NewAgentRun
reclaimed_run request run_id event_time =
    failed_in request.session_id request run_id "idempotency_lease_reclaimed" event_time event_time
