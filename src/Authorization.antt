-- ===== src/Authorization.antt =====
-- src/conversation_agent/authorization: roles, permissions and the decision on a route, with the
-- principal of src/conversation_agent/identity/models.py.
pub mod Models
pub mod Members
pub mod Decisions
mod Tests
use safety_grounded_agent.Prelude.{
  String, Bool, true, false, not, Option, none, some, List, [], ◌∷◌, ◌++◌, any, filter, ◌==◌,
  string_has_eq, if◌then◌else◌,
}
use safety_grounded_agent.Authorization.Models.{
  Principal, ResourceScope, resource_scope, AuthorizationDecision, authorization_decision,
  put_sorted,
}

-- `ROLE_PERMISSIONS.get(role, ())`, each set as a list.
unfoldable pub role_permissions : String → List String
role_permissions role =
    if role == "agent_user"
    then "chat:invoke" ∷ "qa:invoke" ∷ "rag:read" ∷ "crm:read" ∷ []
    else if role == "knowledge_user"
    then "qa:invoke" ∷ "rag:read" ∷ []
    else if role == "sales_user"
    then "chat:invoke" ∷ "rag:read" ∷ "crm:read" ∷ []
    else if role == "debug_viewer"
    then "raw_response:view" ∷ []
    else []

-- `permissions.update(granted)`, on the sorted set.
unfoldable pub update : List String → List String → List String
update permissions [] = permissions
update permissions (p ∷ granted) = put_sorted p (update permissions granted)

-- The loop of `effective_permissions` over the principal's roles.
unfoldable pub permissions_of : List String → List String
unfolding update
permissions_of [] = []
permissions_of (role ∷ roles) = update (permissions_of roles) (role_permissions role)

-- `AuthorizationService.effective_permissions`
abbrev pub effective_permissions : Principal → List String
effective_permissions principal = permissions_of principal.roles

-- `required.difference(permissions)`
abbrev pub missing_from : List String → List String → List String
missing_from permissions = filter (λ p. not (any (λ q. q == p) permissions))

-- The decision once the scope is made.
unfoldable pub authorize_in : ResourceScope → Principal → List String → Option AuthorizationDecision
unfolding permissions_of
authorize_in scope principal required =
    let permissions = effective_permissions principal in
    if not principal.enabled
    then authorization_decision false "denied_disabled_principal"
        "The authenticated principal is disabled." permissions (scope ∷ [])
    else elim (missing_from permissions required) [
      | _ ∷ _ ↦
          authorization_decision false "denied_missing_permission"
            "The principal lacks permissions required by this route." permissions (scope ∷ [])
      | [] ↦ authorization_decision true "allowed" "" permissions (scope ∷ [])
    ]

-- `AuthorizationService.authorize`; `none` stands for a validation error.
unfoldable pub authorize : Principal → List String → Option AuthorizationDecision
unfolding authorize_in
authorize principal required =
    elim (resource_scope principal.tenant_id principal.organization_id "organization"
      "organization") [ none ↦ none | some scope ↦ authorize_in scope principal required ]
