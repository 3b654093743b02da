-- ===== src/Application/Replay.antt =====
-- src/conversation_agent/application/idempotency_mappers.py: what of a result may be stored for a replay,
-- and the result that is restored from it.
pub mod Safe
pub mod Storable
mod Tests
use safety_grounded_agent.Prelude.{
  ℕ, suc, zero, nat_has_eq, String, Bool, true, false, not, ◌||◌, Option, none, some, List, [], ◌∷◌,
  any, map, ltb, ◌==◌, string_has_eq, if◌then◌else◌,
}
use safety_grounded_agent.Text.{Text}
use safety_grounded_agent.Time.{Datetime}
use safety_grounded_agent.Json.{
  Json, null, boolean, integer, float, text, array, tuple, object, other, Float, finite, infinite,
  not_a_number, Items, nil, cons, Fields, end, field, Key, name, no_string, ℤ, pos, whole, texts,
  array_of, object_of, text_or_null,
}
use safety_grounded_agent.Policy.Models.{Confidence, PolicyDecision}
use safety_grounded_agent.Rag.{RagResult, RagCallDiagnostic}
use safety_grounded_agent.Runtime.{RequestContext}
use safety_grounded_agent.Orchestration.TaskRouter.{
  IntentResult, TaskRoute, intent_value, task_value, Intent,
}
use safety_grounded_agent.Orchestration.Models.{OrchestrationResult, agent_step, default_metadata}
use safety_grounded_agent.Database.Errors.{Error, Result, ok, err}
use safety_grounded_agent.Application.Models.{ApplicationResult}
use safety_grounded_agent.Application.Mappers.{policy_status, provider_value}
use safety_grounded_agent.Application.Idempotent.{ReplayMapper}

abbrev pub forbidden_keys : List String
forbidden_keys =
    "raw_response" ∷ "debug" ∷ "token" ∷ "jwt" ∷ "claims" ∷ "email" ∷ "prompt" ∷ "authorization"
    ∷ "security_trace" ∷ []

abbrev snapshot_error : {A : Type 0} → Result A
snapshot_error = err Error.replay_snapshot

-- The key is a text, and not a forbidden one, however it is written.
unfoldable pub allowed_key : (String → String) → Key → Bool
allowed_key lower (name key) = not (any (λ forbidden. forbidden == lower key) forbidden_keys)
allowed_key lower no_string = false

-- `_safe_json`
unfoldable mutual
  unfolding allowed_key

  pub safe_json : (String → String) → Json → Result Json
  safe_json lower null = ok null
  safe_json lower (boolean b) = ok (boolean b)
  safe_json lower (integer n) = ok (integer n)
  safe_json lower (float (finite m e)) = ok (float (finite m e))
  safe_json lower (float (infinite negative)) = snapshot_error
  safe_json lower (float not_a_number) = snapshot_error
  safe_json lower (text s) = ok (text s)
  safe_json lower (array items) = elim (safe_items lower items) [
    | ok safe ↦ ok (array safe)
    | err e ↦ err e
  ]
  safe_json lower (tuple items) = elim (safe_items lower items) [
    | ok safe ↦ ok (array safe)
    | err e ↦ err e
  ]
  safe_json lower (object fields) = elim (safe_fields lower fields) [
    | ok safe ↦ ok (object safe)
    | err e ↦ err e
  ]
  safe_json lower other = snapshot_error

  pub safe_items : (String → String) → Items → Result Items
  safe_items lower nil = ok nil
  safe_items lower (cons v items) = elim (safe_json lower v) [
    | err e ↦ err e
    | ok safe ↦ elim (safe_items lower items) [ ok rest ↦ ok (cons safe rest) | err e ↦ err e ]
  ]

  pub safe_fields : (String → String) → Fields → Result Fields
  safe_fields lower end = ok end
  safe_fields lower (field key v fields) = elim (allowed_key lower key) [
    | false ↦ snapshot_error
    | true ↦ elim (safe_json lower v) [
      | err e ↦ err e
      | ok safe ↦ elim (safe_fields lower fields) [
        | ok rest ↦ ok (field key safe rest)
        | err e ↦ err e
      ]
    ]
  ]

-- Python's `json` and the models' validators, with the float of a confidence and of a latency.
-- `reloaded v` is `json.loads(json.dumps(v, …))`, and `encoded_length` the length of its bytes; a validator gives
-- `none` where it raises.
pub record Library : Type 0 where
  pub lower : String → String
  pub of_codes : Text → String
  pub confidence_float : Confidence → Float
  pub latency_float : ℕ → Float
  pub encoded_length : Json → ℕ
  pub reloaded : Json → Json
  pub as_policy : Json → Option PolicyDecision
  pub as_intent : Json → Option IntentResult
  pub as_route : Json → Option TaskRoute
  pub as_rag : Json → Option RagResult
  pub as_text : Json → Option String
  pub as_citations : Json → Option (List Json)
  pub as_confidence : Json → Option Confidence

abbrev pub optional {ℓ} : {A : Type ℓ} → (A → Json) → Option A → Json
optional dump none = null
optional dump (some a) = dump a

module _ (lib : Library) where
  abbrev pub policy_payload : PolicyDecision → Json
  policy_payload d = object_of (
      ("status", Json.text (policy_status d.status))
      ∷ ("reason", Json.text d.reason)
      ∷ ("matched_rules", texts (map lib.of_codes d.matched_rules))
      ∷ ("warnings", texts d.warnings)
      ∷ ("classifier_used", boolean d.classifier_used)
      ∷ ("confidence", float (lib.confidence_float d.confidence))
      ∷ [])

  -- `intent_result.model_dump(mode="json")`
  abbrev pub intent_payload : IntentResult → Json
  intent_payload r = object_of (
      ("intent", Json.text (intent_value r.intent))
      ∷ ("confidence", float (lib.confidence_float r.confidence))
      ∷ ("reasoning", Json.text r.reasoning)
      ∷ ("alternative_intents", texts (map intent_value r.alternative_intents))
      ∷ [])

  -- `task_route.model_dump(mode="json")`
  abbrev pub route_payload : TaskRoute → Json
  route_payload r = object_of (
      ("task", Json.text (task_value r.task))
      ∷ ("confidence", float (lib.confidence_float r.confidence))
      ∷ ("reason", Json.text r.reason)
      ∷ [])

  abbrev diagnostic_payload : RagCallDiagnostic → Json
  diagnostic_payload d = object_of (
      ("step_name", Json.text d.step_name)
      ∷ ("provider", Json.text d.provider)
      ∷ ("success", boolean d.success)
      ∷ ("error_type", text_or_null d.error_type)
      ∷ ("message", text_or_null d.message)
      ∷ ("latency_ms", optional (λ n. float (lib.latency_float n)) d.latency)
      ∷ [])

  -- `_rag_payload`; an item of the evidence is the object of its six fields. The items and the sources
  -- are filtered with the rest of the payload, which refuses them with the same error.
  abbrev pub rag_payload : RagResult → Json
  rag_payload rag = object_of (
      ("answer", Json.text rag.answer)
      ∷ ("evidence", array_of rag.evidence)
      ∷ ("sources", array_of rag.sources)
      ∷ ("confidence", float (lib.confidence_float rag.confidence))
      ∷ ("warnings", texts rag.warnings)
      ∷ ("provider", Json.text (provider_value rag.provider))
      ∷ ("diagnostics", array_of (map diagnostic_payload rag.diagnostics))
      ∷ [])

  abbrev pub payload_of : OrchestrationResult → Json
  payload_of o = object_of (
      ("snapshot_schema_version", whole 1)
      ∷ ("policy", policy_payload o.policy)
      ∷ ("intent_result", optional intent_payload o.intent_result)
      ∷ ("task_route", optional route_payload o.task_route)
      ∷ ("final_response", Json.text o.final_response)
      ∷ ("rag_result", optional rag_payload o.rag_result)
      ∷ ("citations", array_of o.citations)
      ∷ ("confidence", float (lib.confidence_float o.confidence))
      ∷ [])

  -- `map`
  unfoldable pub snapshot_of : ℕ → ApplicationResult → Result Json
  unfolding safe_json
  snapshot_of max_bytes result = elim (safe_json lib.lower (payload_of result.orchestration)) [
    | err e ↦ err e
    | ok payload ↦
        if ltb max_bytes (lib.encoded_length payload)
        then snapshot_error
        else ok (lib.reloaded payload)
  ]

-- `snapshot.get(key)`
abbrev pub get_field : String → Fields → Option Json
get_field key end = none
get_field key (field (name k) v fields) = if k == key then some v else get_field key fields
get_field key (field no_string v fields) = get_field key fields

-- `value != REPLAY_SNAPSHOT_VERSION` fails of 1, of `True` and of 1.0.
abbrev is_one : Option Json → Bool
is_one (some (integer (pos (suc zero)))) = true
is_one (some (boolean b)) = b
is_one (some (float (finite (pos (suc zero)) (pos zero)))) = true
is_one _ = false

-- The validator of a field that may be missing or `None`.
abbrev pub validated {ℓ} : {A : Type ℓ} → (Json → Option A) → Option Json → Option (Option A)
validated validate none = some none
validated validate (some null) = some none
validated validate (some v) = elim (validate v) [ none ↦ none | some a ↦ some (some a) ]

-- The validator of a field that must be there.
abbrev pub needed {ℓ} : {A : Type ℓ} → (Json → Option A) → Option Json → Option A
needed validate none = none
needed validate (some v) = validate v

-- `snapshot.get("citations", [])`
abbrev pub citations_or_empty : Option Json → Json
citations_or_empty none = array nil
citations_or_empty (some v) = v

module _ (lib : Library) where
  -- What is made of the snapshot in the `try`; the metadata's time is its own default. `none` is a `KeyError`, a `TypeError` or a `ValueError`.
  unfoldable pub orchestration_of :
      Fields → RequestContext → Text → Datetime → Datetime → Option OrchestrationResult
  orchestration_of fields context user_text replayed_at restored_at =
      elim (needed lib.as_policy (get_field "policy" fields)) [
        | none ↦ none
        | some policy ↦ elim (validated lib.as_intent (get_field "intent_result" fields)) [
          | none ↦ none
          | some intent ↦ elim (validated lib.as_route (get_field "task_route" fields)) [
            | none ↦ none
            | some route ↦ elim (validated lib.as_rag (get_field "rag_result" fields)) [
              | none ↦ none
              | some rag ↦ elim (needed lib.as_text (get_field "final_response" fields)) [
                | none ↦ none
                | some response ↦ elim (needed lib.as_confidence (get_field "confidence" fields)) [
                  | none ↦ none
                  | some confidence ↦
                      elim (lib.as_citations (citations_or_empty (get_field "citations" fields))) [
                        | none ↦ none
                        | some citations ↦ some (record {
                          session_id = context.session_id;
                          user_input = user_text;
                          policy = policy;
                          intent_result = intent;
                          task_route = route;
                          final_response = response;
                          rag_result = rag;
                          citations = citations;
                          confidence = confidence;
                          trace =
                              agent_step "idempotency_replay" "A persisted result was replayed."
                                confidence
                              ∷ [];
                          metadata = default_metadata restored_at;
                          timestamp = replayed_at;
                        })
                      ]
                ]
              ]
            ]
          ]
        ]
      ]

  -- `restore`; `restored_at` is what the clock of the metadata's default gives. A snapshot that is no
  -- object is refused by `dict(…)` before.
  unfoldable pub restore :
      Json → ℕ → RequestContext → Text → Datetime → Datetime → Result ApplicationResult
  unfolding orchestration_of
  restore (object fields) version context user_text replayed_at restored_at =
      if not (version == 1)
      then err Error.unsupported_snapshot_version
      else if not (is_one (get_field "snapshot_schema_version" fields))
      then snapshot_error
      else elim (orchestration_of fields context user_text replayed_at restored_at) [
        | none ↦ snapshot_error
        | some orchestration ↦ ok (record { context = context; orchestration = orchestration })
      ]
  restore _ version context user_text replayed_at restored_at = err Error.value_error

-- `ReplaySnapshotMapper(max_bytes=…)`
abbrev pub replay_mapper : Library → ℕ → ReplayMapper
replay_mapper lib max_bytes = record { snapshot = snapshot_of lib max_bytes; restore = restore lib }
