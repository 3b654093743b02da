-- ===== src/Application/Chat.antt =====
-- src/conversation_agent/application/service.py, and the building of a request's context in
-- src/conversation_agent/runtime/builder.py, on identifiers without outer
-- white space. A generated identifier and the clock's value are arguments.
use safety_grounded_agent.Prelude.{
  String, Option, none, some, ◌&&◌, ◌==◌, string_has_eq, if◌then◌else◌, ◌≡◌, Bool, true, false,
  arith, ==_self,
}
use safety_grounded_agent.Time.{Datetime}
use safety_grounded_agent.Authorization.Models.{Principal, AuthorizationDecision, is_identifier}
use safety_grounded_agent.Runtime.{RequestContext, RuntimeVersionSnapshot, request_context}
use safety_grounded_agent.Orchestration.TaskRouter.{TaskName}
use safety_grounded_agent.Orchestration.Models.{OrchestrationRequestMetadata, OrchestrationResult}
use safety_grounded_agent.Orchestration.Modules.{Coordinator, Timing}
use safety_grounded_agent.Orchestration.Run.{run, resolve_request_metadata}
use safety_grounded_agent.Orchestration.Run.Guarded.{Guarded, run-Guarded}
use safety_grounded_agent.Application.Models.{
  UserRequest, ApplicationResult, ChatOutcome, finished, service_failed, crashed,
}
use safety_grounded_agent.Application.Idempotent.{or_else}

-- What `build` generates where it is given nothing.
record Generated : Type 0 where
  pub request_id : String
  pub trace_id : String
  pub session_id : String
  pub received_at : Datetime

-- `given or self._id_factory()`
abbrev or_made : Option String → String → String
or_made none made = made
or_made (some s) made = if s == "" then made else s

abbrev or_clock : Option Datetime → Datetime → Datetime
or_clock none made = made
or_clock (some t) made = t

-- `RequestContextBuilder.build`; `none` is a validation error.
unfoldable build :
    RuntimeVersionSnapshot
    → Generated
    → Principal
    → AuthorizationDecision
    → Option Datetime
    → Option String
    → Option String
    → Option String
    → Option String
    → Option RequestContext
unfolding request_context
build versions made principal authorization received_at session_id request_id trace_id key =
    request_context (record {
      request_id = or_made request_id made.request_id;
      trace_id = or_made trace_id made.trace_id;
      session_id = or_made session_id made.session_id;
      principal = principal;
      authorization = authorization;
      versions = versions;
      received_at = or_clock received_at made.received_at;
      idempotency_key = key;
    })

-- The context's metadata for the coordinator.
abbrev metadata_of : RequestContext → OrchestrationRequestMetadata
metadata_of context = record {
  request_id = context.request_id;
  trace_id = context.trace_id;
  session_id = context.session_id;
}

abbrev wrapped : RequestContext → Option OrchestrationResult → ChatOutcome
wrapped context none = service_failed
wrapped context (some result) = finished (record { context = context; orchestration = result })

-- `execute_with_context`; the metadata is validated before the `try`. What the coordinator would generate
-- without metadata is not used.
unfoldable execute_with_context :
    Coordinator → Timing → UserRequest → RequestContext → Option TaskName → ChatOutcome
unfolding run
execute_with_context c t request context forced_task =
    if is_identifier context.request_id
      && (is_identifier context.trace_id && is_identifier context.session_id)
    then wrapped context (
        run c t request.text (some context.session_id) (or_else forced_task request.task_override)
          (some (metadata_of context)) (metadata_of context))
    else crashed

past_guard :
    (valid : Bool) (out : ChatOutcome) (result : ApplicationResult)
    → (if valid then out else crashed) ≡ finished result
    → out ≡ finished result
past_guard true out result h = h
past_guard false out result h = ground (arith, h)

wrapped_result :
    (context : RequestContext) (o : Option OrchestrationResult) (result : ApplicationResult)
    → wrapped context o ≡ finished result
    → (result.context ≡ context) × (o ≡ some result.orchestration)
wrapped_result context none result h = ground (arith, h)
wrapped_result context (some x) result h = (ground (arith, h), ground (arith, h))

-- The context's session is the metadata's, so the coordinator finds no conflict.
metadata-resolved :
    (context : RequestContext)
    → resolve_request_metadata
        (some context.session_id)
        (some (metadata_of context))
        (metadata_of context)
      ≡ some (metadata_of context)
unfolding resolve_request_metadata
metadata-resolved context = ground (arith, ==_self context.session_id)

-- Where the service has a result, it stands beside the context that it was given, and it is the result
-- of the coordinator for this request, guarded by the policy as every such result.
chat-Guarded :
    (c : Coordinator) (t : Timing) (request : UserRequest) (context : RequestContext)
    (forced_task : Option TaskName) (result : ApplicationResult)
    → execute_with_context c t request context forced_task ≡ finished result
    → (result.context ≡ context) × Guarded c request.text (metadata_of context) result.orchestration
unfolding execute_with_context
chat-Guarded c t request context forced_task result h =
    let m = metadata_of context in
    let (same, ran) = wrapped_result context _ result (past_guard _ _ result h) in
    (
      same,
      run-Guarded c t request.text (some context.session_id)
          (or_else forced_task request.task_override) (some m) m m result.orchestration
          (metadata-resolved context) ran,
    )
