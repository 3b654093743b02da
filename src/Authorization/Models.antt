-- ===== src/Authorization/Models.antt =====
-- The models of src/conversation_agent/authorization/models.py and
-- src/conversation_agent/identity/models.py. `none` stands for a validation error.
use Prim.Native.String.{compare}
use Prim.Native.Nat.{Ordering}
use safety_grounded_agent.Prelude.{
  String, Bool, not, ◌&&◌, Option, none, some, List, [], ◌∷◌, any, length, leb, ◌==◌, string_has_eq,
  if◌then◌else◌,
}
use safety_grounded_agent.Text.{codes}

-- `Field(min_length=1, max_length=128)`, of a text whose outer white space is gone.
abbrev pub is_identifier : String → Bool
is_identifier s = leb 1 (length (codes s)) && leb (length (codes s)) 128

pub record Principal : Type 0 where
  pub tenant_id : String
  pub organization_id : String
  pub user_id : String
  pub display_name : Option String
  pub email : Option String
  pub department_id : Option String
  pub team_id : Option String
  pub region_id : Option String
  pub roles : List String
  pub groups : List String
  pub enabled : Bool

-- `value` of a set that is kept as a sorted list.
unfoldable pub put_sorted : String → List String → List String
put_sorted p [] = p ∷ []
put_sorted p (q ∷ qs) =
    let behind = q ∷ put_sorted p qs in
    if p == q then q ∷ qs else elim (compare p q) [ Ordering.lt ↦ p ∷ q ∷ qs | _ ↦ behind ]

-- `sorted({item.strip() for item in value})`
unfoldable pub sorted_set : (String → String) → List String → List String
unfolding put_sorted
sorted_set strip [] = []
sorted_set strip (item ∷ items) = put_sorted (strip item) (sorted_set strip items)

-- `_stable_values`, `_stable_permissions` and `_stable_ids`, of a list of texts.
unfoldable pub stable_values : (String → String) → List String → Option (List String)
unfolding sorted_set
stable_values strip items =
    let values = sorted_set strip items in if any (λ v. v == "") values then none else some values

-- The scopes' resource identifiers are never given by the service.
pub record ResourceScope : Type 0 where
  pub tenant_id : String
  pub organization_id : String
  pub resource_type : String
  pub scope_type : String
  pub resource_ids : List String

-- `ResourceScope(tenant_id=…, organization_id=…, resource_type=…, scope_type=…)`
unfoldable pub resource_scope : String → String → String → String → Option ResourceScope
resource_scope tenant_id organization_id resource_type scope_type =
    if is_identifier tenant_id
      && (is_identifier organization_id
          && (is_identifier resource_type
              && any (λ s. s == scope_type)
                  ("self" ∷ "team" ∷ "department" ∷ "region" ∷ "organization" ∷ [])))
    then some (record {
      tenant_id = tenant_id;
      organization_id = organization_id;
      resource_type = resource_type;
      scope_type = scope_type;
      resource_ids = [];
    })
    else none

pub record AuthorizationDecision : Type 0 where
  pub allowed : Bool
  pub code : String
  pub reason : String
  pub permissions : List String
  pub resource_scopes : List ResourceScope

-- `_decision_invariants`
abbrev pub decision_invariants : AuthorizationDecision → Bool
decision_invariants d =
    if d.allowed then d.code == "allowed" else not (d.code == "allowed") && not (d.reason == "")

-- `AuthorizationDecision(…)`; its permissions are sorted and stripped already.
unfoldable pub authorization_decision :
    Bool → String → String → List String → List ResourceScope → Option AuthorizationDecision
authorization_decision allowed code reason permissions resource_scopes =
    let made : AuthorizationDecision = record {
      allowed = allowed;
      code = code;
      reason = reason;
      permissions = permissions;
      resource_scopes = resource_scopes;
    } in
    if is_identifier code && decision_invariants made then some made else none
