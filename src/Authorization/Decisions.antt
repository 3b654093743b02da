-- ===== src/Authorization/Decisions.antt =====
-- When a route is allowed: role-based access is exact, and every decision passes its own validators.
use safety_grounded_agent.Prelude.{
  String, ◌≡◌, refl, ◌↔◌, ◌⊎◌, inl, inr, true, false, some, List, [], ◌∷◌, any, arith, Any, here,
  there, All, Bool-cases, ◌==◌, string_has_eq,
}
use safety_grounded_agent.Authorization.Models.{
  Principal, ResourceScope, resource_scope, AuthorizationDecision, authorization_decision,
  put_sorted, is_identifier,
}
use safety_grounded_agent.Authorization.Members.{Mem, put_sorted-Mem, any-Mem}
use safety_grounded_agent.Authorization.{
  role_permissions, update, permissions_of, effective_permissions, missing_from, authorize_in,
  authorize,
}

-- Some role of the list grants the permission.
abbrev pub Granted : List String → String → Type 0
Granted roles p = Any (λ role. Mem p (role_permissions role)) roles

update_step :
    (granted : List String) (p q : String) (old : List String)
    → Mem p (update old (q ∷ granted)) ↔ Mem p (put_sorted q (update old granted))
unfolding update
update_step granted p q old = (λ m. m, λ m. m)

update-Mem_to :
    (old granted : List String) (p : String)
    → Mem p (update old granted)
    → Mem p old ⊎ Mem p granted
update-Mem_to old [] p m = inl (unfold update in m)
update-Mem_to old (q ∷ granted) p m =
    elim ((put_sorted-Mem q p (update old granted)).0 ((update_step granted p q old).0 m)) [
      | inl new ↦ inr (here new)
      | inr rest ↦ elim (update-Mem_to old granted p rest) [
        | inl known ↦ inl known
        | inr later ↦ inr (there later)
      ]
    ]

update-Mem_from :
    (old granted : List String) (p : String)
    → Mem p old ⊎ Mem p granted
    → Mem p (update old granted)
update-Mem_from old [] p (inl known) = unfold update in known
update-Mem_from old [] p (inr m) = elim m [ ]
update-Mem_from old (q ∷ granted) p m =
    (update_step granted p q old).1
      ((put_sorted-Mem q p (update old granted)).1 (held m (update-Mem_from old granted p)))
  where
    held :
        Mem p old ⊎ Mem p (q ∷ granted)
        → (Mem p old ⊎ Mem p granted → Mem p (update old granted))
        → (q ≡ p) ⊎ Mem p (update old granted)
    held (inl known) rest = inr (rest (inl known))
    held (inr (here same)) rest = inl same
    held (inr (there later)) rest = inr (rest (inr later))

permissions_of_step :
    (role : String) (roles : List String) (p : String)
    → Mem p (permissions_of (role ∷ roles))
      ↔ Mem p (update (permissions_of roles) (role_permissions role))
unfolding permissions_of
permissions_of_step role roles p = (λ m. m, λ m. m)

permissions_of-Granted_to :
    (roles : List String) (p : String) → Mem p (permissions_of roles) → Granted roles p
permissions_of-Granted_to [] p m = absurd (unfold permissions_of in elim m [ ])
permissions_of-Granted_to (role ∷ roles) p m =
    elim (update-Mem_to (permissions_of roles) (role_permissions role) p
      ((permissions_of_step role roles p).0 m)) [
        | inl known ↦ there (permissions_of-Granted_to roles p known)
        | inr granted ↦ here granted
      ]

permissions_of-Granted_from :
    (roles : List String) (p : String) → Granted roles p → Mem p (permissions_of roles)
permissions_of-Granted_from [] p g = elim g [ ]
permissions_of-Granted_from (role ∷ roles) p g = (permissions_of_step role roles p).1 (
    update-Mem_from (permissions_of roles) (role_permissions role) p
      (held g (permissions_of-Granted_from roles p)))
  where
    held :
        Granted (role ∷ roles) p
        → (Granted roles p → Mem p (permissions_of roles))
        → Mem p (permissions_of roles) ⊎ Mem p (role_permissions role)
    held (here granted) rest = inr granted
    held (there later) rest = inl (rest later)

-- The effective permissions are those that some role grants.
pub permissions_of-Granted :
    (roles : List String) (p : String) → Mem p (permissions_of roles) ↔ Granted roles p
permissions_of-Granted roles p =
    (permissions_of-Granted_to roles p, permissions_of-Granted_from roles p)

missing_none :
    (roles required : List String)
    → missing_from (permissions_of roles) required ≡ []
    → All (Granted roles) required
missing_none roles [] h = tt
missing_none roles (p ∷ required) h = elim (Bool-cases (any (λ q. q == p) (permissions_of roles))) [
  | inl held ↦ (
    (permissions_of-Granted roles p).0 ((any-Mem p (permissions_of roles)).0 held),
    missing_none roles required (ground arith),
  )
  | inr lacks ↦ absurd (ground arith)
]

none_missing :
    (roles required : List String)
    → All (Granted roles) required
    → missing_from (permissions_of roles) required ≡ []
none_missing roles [] g = refl
none_missing roles (p ∷ required) (g, gs) = ground (
  arith,
  (any-Mem p (permissions_of roles)).1 ((permissions_of-Granted roles p).1 g),
  none_missing roles required gs,
)

-- What the decision of an enabled principal's request rests on.
abbrev pub IsPermitted : Principal → List String → Type 0
IsPermitted principal required = (principal.enabled ≡ true) × All (Granted principal.roles) required

-- The identifiers that `Principal` admits.
abbrev pub HasIdentifiers : Principal → Type 0
HasIdentifiers p = (is_identifier p.tenant_id ≡ true) × (is_identifier p.organization_id ≡ true)

abbrev organization_scope : Principal → ResourceScope
organization_scope p = record {
  tenant_id = p.tenant_id;
  organization_id = p.organization_id;
  resource_type = "organization";
  scope_type = "organization";
  resource_ids = [];
}

scope-total :
    (p : Principal)
    → HasIdentifiers p
    → resource_scope p.tenant_id p.organization_id "organization" "organization"
      ≡ some (organization_scope p)
unfolding resource_scope
scope-total p (tenant, organization) = rw (tenant, organization) refl

authorize-scoped :
    (p : Principal) (required : List String)
    → HasIdentifiers p
    → authorize p required ≡ authorize_in (organization_scope p) p required
unfolding authorize
authorize-scoped p required valid = ground (arith, scope-total p valid)

disabled :
    (s : ResourceScope) (p : Principal) (required : List String)
    → p.enabled ≡ false
    → (d : AuthorizationDecision) × (authorize_in s p required ≡ some d) × (d.allowed ≡ false)
unfolding authorize_in authorization_decision
disabled s p required off = (
  record {
    allowed = false;
    code = "denied_disabled_principal";
    reason = "The authenticated principal is disabled.";
    permissions = effective_permissions p;
    resource_scopes = s ∷ [];
  },
  rw off refl,
  refl,
)

denied :
    (s : ResourceScope) (p : Principal) (required : List String) (q : String) (qs : List String)
    → p.enabled ≡ true
    → missing_from (permissions_of p.roles) required ≡ q ∷ qs
    → (d : AuthorizationDecision) × (authorize_in s p required ≡ some d) × (d.allowed ≡ false)
unfolding authorize_in authorization_decision
denied s p required q qs on missing = (
  record {
    allowed = false;
    code = "denied_missing_permission";
    reason = "The principal lacks permissions required by this route.";
    permissions = effective_permissions p;
    resource_scopes = s ∷ [];
  },
  rw (on, missing) refl,
  refl,
)

granted :
    (s : ResourceScope) (p : Principal) (required : List String)
    → p.enabled ≡ true
    → missing_from (permissions_of p.roles) required ≡ []
    → (d : AuthorizationDecision) × (authorize_in s p required ≡ some d) × (d.allowed ≡ true)
unfolding authorize_in authorization_decision
granted s p required on missing = (
  record {
    allowed = true;
    code = "allowed";
    reason = "";
    permissions = effective_permissions p;
    resource_scopes = s ∷ [];
  },
  rw (on, missing) refl,
  refl,
)

List-cases : (xs : List String) → (xs ≡ []) ⊎ ((y : String) × (ys : List String) × (xs ≡ y ∷ ys))
List-cases [] = inl refl
List-cases (y ∷ ys) = inr (y, ys, refl)

-- A principal with identifiers that the models admit gets a decision that passes its own validators. It
-- allows exactly when the principal is enabled and each required permission is granted by one of its
-- roles.
pub authorize-IsPermitted :
    (p : Principal) (required : List String)
    → HasIdentifiers p
    → (d : AuthorizationDecision) × (authorize p required ≡ some d)
      × ((d.allowed ≡ true) ↔ IsPermitted p required)
authorize-IsPermitted p required valid =
    rw (authorize-scoped p required valid) (elim (Bool-cases p.enabled) [
      | inr off ↦
          let (d, e, forbids) = disabled (organization_scope p) p required off in
          (d, e, (λ h. cc (h, forbids), λ (on, _). cc (on, off)))
      | inl on ↦ elim (List-cases (missing_from (permissions_of p.roles) required)) [
        | inl nothing ↦
            let (d, e, allows) = granted (organization_scope p) p required on nothing in
            (d, e, (λ _. (on, missing_none p.roles required nothing), λ _. allows))
        | inr (q, qs, some_missing) ↦
            let (d, e, forbids) = denied (organization_scope p) p required q qs on some_missing in
            (
              d,
              e,
              (
                λ h. cc (h, forbids),
                λ (_, all_granted). cc (some_missing, none_missing p.roles required all_granted),
              ),
            )
      ]
    ])
