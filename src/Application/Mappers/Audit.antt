-- ===== src/Application/Mappers/Audit.antt =====
-- `AuditPersistenceMapper` of src/conversation_agent/application/persistence_mappers.py.
use safety_grounded_agent.Prelude.{ℕ, String, Bool, true, Option, some, List, [], ◌∷◌, map}
use safety_grounded_agent.Text.{Text}
use safety_grounded_agent.Time.{Datetime}
use safety_grounded_agent.Json.{Json, object_of, text_or_null, whole_or_null, whole, texts}
use safety_grounded_agent.Runtime.{RequestContext}
use safety_grounded_agent.Database.Records.{NewAuditEvent, PersistedAgentRequestRef}
use safety_grounded_agent.Application.Models.{ApplicationResult}
use safety_grounded_agent.Application.Mappers.{provider_of, routed_task}

abbrev payload_version : String × Json
payload_version = ("audit_payload_version", whole 1)

-- `_event`
abbrev event :
    RequestContext → String → String → String → List (String × Json) → Datetime → NewAuditEvent
event context event_id event_type outcome details created_at = record {
  event_id = event_id;
  request_id = some context.request_id;
  trace_id = some context.trace_id;
  tenant_id = context.principal.tenant_id;
  organization_id = context.principal.organization_id;
  event_type = event_type;
  principal_user_id = some context.principal.user_id;
  outcome = outcome;
  details_json = some (object_of details);
  created_at = created_at;
}

-- What `request_accepted` is told of the claim; the fields are the optional arguments.
pub record ClaimDetails : Type 0 where
  pub idempotency_outcome : Option String
  pub claim_version : Option ℕ
  pub reclaimed : Bool
  pub expired_reuse : Bool

abbrev pub request_accepted :
    RequestContext → String → String → Datetime → ClaimDetails → NewAuditEvent
request_accepted context event_id operation created_at d =
    event context event_id "request_accepted" "accepted"
      (payload_version
        ∷ ("operation", Json.text operation)
        ∷ ("idempotency_outcome", text_or_null d.idempotency_outcome)
        ∷ ("claim_version", whole_or_null d.claim_version)
        ∷ ("reclaimed", Json.boolean d.reclaimed)
        ∷ ("expired_reuse", Json.boolean d.expired_reuse)
        ∷ [])
      created_at

abbrev pub request_completed : ApplicationResult → String → String → Datetime → NewAuditEvent
request_completed result event_id run_id created_at =
    event result.context event_id "request_completed" "completed"
      (payload_version
        ∷ ("rag_provider", text_or_null (provider_of result.orchestration.rag_result))
        ∷ ("run_id", Json.text run_id)
        ∷ ("task", text_or_null (routed_task result.orchestration.task_route))
        ∷ [])
      created_at

abbrev pub policy_blocked :
    (Text → String) → ApplicationResult → String → String → Datetime → NewAuditEvent
policy_blocked of_codes result event_id run_id created_at =
    event result.context event_id "policy_blocked" "blocked"
      (payload_version
        ∷ ("matched_rule_ids", texts (map of_codes result.orchestration.policy.matched_rules))
        ∷ ("policy_version", Json.text result.context.versions.policy_version)
        ∷ ("run_id", Json.text run_id)
        ∷ [])
      created_at

abbrev pub request_failed : RequestContext → String → String → String → Datetime → NewAuditEvent
request_failed context event_id run_id failure_code created_at =
    event context event_id "request_failed" "failed"
      (payload_version
        ∷ ("failure_code", Json.text failure_code)
        ∷ ("run_id", Json.text run_id)
        ∷ [])
      created_at

abbrev pub request_replayed : RequestContext → String → String → Datetime → NewAuditEvent
request_replayed context event_id operation created_at =
    event context event_id "request_completed" "replayed"
      (payload_version
        ∷ ("operation", Json.text operation)
        ∷ ("idempotency_outcome", Json.text "replayed")
        ∷ ("replayed", Json.boolean true)
        ∷ [])
      created_at

abbrev pub lease_reclaimed :
    RequestContext → PersistedAgentRequestRef → String → String → ℕ → Datetime → NewAuditEvent
lease_reclaimed context old_request event_id run_id claim_version created_at =
    record (event context event_id "request_failed" "failed"
      (payload_version
        ∷ ("failure_code", Json.text "idempotency_lease_reclaimed")
        ∷ ("idempotency_outcome", Json.text "reclaimed")
        ∷ ("claim_version", whole claim_version)
        ∷ ("reclaimed", Json.boolean true)
        ∷ ("run_id", Json.text run_id)
        ∷ [])
      created_at) { request_id = some old_request.request_id; trace_id = old_request.trace_id }
