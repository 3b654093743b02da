-- ===== src/Authorization/Tests.antt =====
-- Authorization on concrete principals.
use safety_grounded_agent.Prelude.{◌≡◌, refl, ◌↔◌, true, none, some, [], ◌∷◌, string_has_eq}
use safety_grounded_agent.Authorization.Models.{
  Principal, AuthorizationDecision, put_sorted, sorted_set, stable_values,
}
use safety_grounded_agent.Authorization.{authorize, permissions_of, role_permissions}
use safety_grounded_agent.Authorization.Members.{Mem}
use safety_grounded_agent.Authorization.Decisions.{
  Granted, IsPermitted, authorize-IsPermitted, permissions_of-Granted,
}

abbrev reader : Principal
reader = record {
  tenant_id = "tenant";
  organization_id = "organization";
  user_id = "user";
  display_name = none;
  email = none;
  department_id = none;
  team_id = none;
  region_id = none;
  roles = "debug_viewer" ∷ "knowledge_user" ∷ [];
  groups = [];
  enabled = true;
}

authorize-IsPermitted_example :
    (d : AuthorizationDecision) × (authorize reader ("rag:read" ∷ "chat:invoke" ∷ []) ≡ some d)
    × ((d.allowed ≡ true) ↔ IsPermitted reader ("rag:read" ∷ "chat:invoke" ∷ []))
authorize-IsPermitted_example =
    authorize-IsPermitted reader ("rag:read" ∷ "chat:invoke" ∷ []) (refl, refl)

permissions_of-Granted_example :
    Mem "rag:read" (permissions_of ("debug_viewer" ∷ "knowledge_user" ∷ []))
    ↔ Granted ("debug_viewer" ∷ "knowledge_user" ∷ []) "rag:read"
permissions_of-Granted_example =
    permissions_of-Granted ("debug_viewer" ∷ "knowledge_user" ∷ []) "rag:read"

-- The permissions come out sorted, each once.
permissions_sorted :
    permissions_of ("agent_user" ∷ "knowledge_user" ∷ [])
    ≡ "chat:invoke" ∷ "crm:read" ∷ "qa:invoke" ∷ "rag:read" ∷ []
unfolding permissions_of role_permissions put_sorted
permissions_sorted = refl

stable_test : stable_values (λ s. s) ("b" ∷ "a" ∷ "b" ∷ []) ≡ some ("a" ∷ "b" ∷ [])
unfolding stable_values sorted_set
stable_test = refl

blank_test : stable_values (λ s. s) ("b" ∷ "" ∷ []) ≡ none
unfolding stable_values sorted_set
blank_test = refl
