-- ===== src/Runtime.antt =====
-- src/conversation_agent/runtime/models.py: the trusted context of a request.
use safety_grounded_agent.Prelude.{
  String, Bool, true, ◌&&◌, not, Option, none, some, any, is_some, ◌==◌, string_has_eq, ◌||◌,
  if◌then◌else◌,
}
use safety_grounded_agent.Time.{Datetime}
use safety_grounded_agent.Authorization.Models.{
  Principal, AuthorizationDecision, ResourceScope, is_identifier,
}

-- The versions that are stored with a request; those of the models are left out.
pub record RuntimeVersionSnapshot : Type 0 where
  pub application_version : String
  pub policy_version : String
  pub rag_contract_version : String
  pub crm_connector_version : String
  pub authorization_policy_version : String

pub record RequestContext : Type 0 where
  pub request_id : String
  pub trace_id : String
  pub session_id : String
  pub principal : Principal
  pub authorization : AuthorizationDecision
  pub versions : RuntimeVersionSnapshot
  pub received_at : Datetime
  pub idempotency_key : Option String

-- `_non_empty_idempotency_key`
abbrev non_empty_key : Option String → Bool
non_empty_key none = true
non_empty_key (some key) = not (key == "")

-- The scope stands outside the principal's boundary.
abbrev crosses : Principal → ResourceScope → Bool
crosses principal scope =
    not (scope.tenant_id == principal.tenant_id)
    || not (scope.organization_id == principal.organization_id)

-- `RequestContext(…)`, of texts whose outer white space is gone and a time in UTC; `none` stands for a
-- validation error. The length of the key is not looked at.
unfoldable pub request_context : RequestContext → Option RequestContext
request_context c =
    if is_identifier c.request_id
      && (is_identifier c.trace_id
          && (is_identifier c.session_id
              && (is_some c.received_at.utcoffset
                  && (non_empty_key c.idempotency_key
                      && not (any (crosses c.principal) c.authorization.resource_scopes)))))
    then some c
    else none
