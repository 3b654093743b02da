-- ===== src/Application/Replay/Tests.antt =====
-- The snapshot mapper on small inputs.
use safety_grounded_agent.Prelude.{
  String, ◌≡◌, ◌↔◌, ◌⊎◌, refl, true, false, Option, none, some, [], ◌∷◌,
}
use safety_grounded_agent.Text.{codes}
use safety_grounded_agent.Time.{utc}
use safety_grounded_agent.Json.{
  Json, object_of, items_of, array_of, whole, float, finite, infinite, pos,
}
use safety_grounded_agent.Policy.Models.{PolicyDecision, decision, safe, hundredths}
use safety_grounded_agent.Runtime.{RequestContext}
use safety_grounded_agent.Orchestration.Models.{OrchestrationResult, default_metadata, agent_step}
use safety_grounded_agent.Database.Errors.{Error, ok, err}
use safety_grounded_agent.Application.Models.{ApplicationResult}
use safety_grounded_agent.Application.Replay.{
  Library, safe_json, safe_items, safe_fields, allowed_key, snapshot_of, payload_of, restore,
  orchestration_of,
}
use safety_grounded_agent.Application.Replay.Safe.{
  listed, listed_items, listed_fields, Within, IsPlain, safe_json_exact,
}

-- A secret two levels down.
abbrev nested : Json
nested = object_of (("a", array_of (object_of (("token", whole 1) ∷ []) ∷ [])) ∷ [])

safe_json_exact_example :
    ((safe_json (λ s. s) nested ≡ ok (listed nested))
      ↔ ((w : Json) → Within w nested → IsPlain (λ s. s) w))
    × ((safe_json (λ s. s) nested ≡ ok (listed nested))
        ⊎ (safe_json (λ s. s) nested ≡ err Error.replay_snapshot))
safe_json_exact_example = safe_json_exact (λ s. s) nested

nested_test : safe_json (λ s. s) nested ≡ err Error.replay_snapshot
unfolding safe_json safe_items safe_fields allowed_key
nested_test = refl

infinite_test : safe_json (λ s. s) (float (infinite false)) ≡ err Error.replay_snapshot
unfolding safe_json
infinite_test = refl

abbrev allowed : PolicyDecision
allowed = decision safe "ok" (hundredths 72)

abbrev context : RequestContext
context = record {
  request_id = "request";
  trace_id = "trace";
  session_id = "other session";
  principal = record {
    tenant_id = "tenant";
    organization_id = "org";
    user_id = "user";
    display_name = none;
    email = none;
    department_id = none;
    team_id = none;
    region_id = none;
    roles = [];
    groups = [];
    enabled = true;
  };
  authorization = record {
    allowed = true;
    code = "allowed";
    reason = "";
    permissions = [];
    resource_scopes = [];
  };
  versions = record {
    application_version = "1";
    policy_version = "1";
    rag_contract_version = "1";
    crm_connector_version = "1";
    authorization_policy_version = "1";
  };
  received_at = utc 0;
  idempotency_key = none;
}

abbrev orchestration : OrchestrationResult
orchestration = record {
  session_id = "session";
  user_input = codes "hi";
  policy = allowed;
  intent_result = none;
  task_route = none;
  final_response = "hello";
  rag_result = none;
  citations = object_of (("source_id", Json.tuple (items_of (whole 1 ∷ []))) ∷ []) ∷ [];
  confidence = hundredths 60;
  trace = [];
  metadata = default_metadata (utc 0);
  timestamp = utc 0;
}

-- A text, if the value is one.
abbrev text_of : Json → Option String
text_of (Json.text s) = some s
text_of _ = none

abbrev library : Library
library = record {
  lower = λ s. s;
  of_codes = λ _. "rule";
  confidence_float = λ n. finite (pos n) (pos 0);
  latency_float = λ n. finite (pos n) (pos 0);
  encoded_length = λ _. 100;
  reloaded = λ v. v;
  as_policy = λ _. some allowed;
  as_intent = λ _. none;
  as_route = λ _. none;
  as_rag = λ _. none;
  as_text = text_of;
  as_citations = λ _. some [];
  as_confidence = λ _. some (hundredths 60);
}

abbrev result : ApplicationResult
result = record { context = context; orchestration = orchestration }

abbrev stored : Json
stored = listed (payload_of library orchestration)

-- The tuple among the sources comes back as a list.
stored_test : snapshot_of library 262144 result ≡ ok stored
unfolding snapshot_of safe_json safe_items safe_fields allowed_key listed listed_items listed_fields
stored_test = refl

-- What is restored has its metadata's time from the clock.
restored_test :
    restore library stored 1 context (codes "again") (utc 5) (utc 6)
    ≡ ok (record {
      context = context;
      orchestration = record orchestration {
        session_id = "other session";
        user_input = codes "again";
        citations = [];
        trace =
            agent_step "idempotency_replay" "A persisted result was replayed." (hundredths 60) ∷ [];
        metadata = default_metadata (utc 6);
        timestamp = utc 5;
      };
    })
unfolding restore orchestration_of listed listed_items listed_fields
restored_test = refl

-- A payload that is too long is refused.
oversized_test : snapshot_of library 99 result ≡ err Error.replay_snapshot
unfolding snapshot_of safe_json safe_items safe_fields allowed_key
oversized_test = refl
