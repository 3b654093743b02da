-- ===== src/Orchestration/Run/Guarded.antt =====
-- What the policy's decision does to the result of the coordinator, and where its citations come from.
use mathlib.Core.Path.{subst}
use safety_grounded_agent.Prelude.{
  ℕ, ◌≤◌, String, ◌≡◌, refl, ap, ◌∙◌, ◌⊎◌, inl, inr, Bool, true, false, Option, none, some, [],
  length, arith, Option-cases, Bool-cases, some_injective, if◌then◌else◌,
}
use safety_grounded_agent.Text.{Text}
use safety_grounded_agent.Policy.Models.{
  PolicyDecision, PolicyStatus, safe, uncertain, blocked, is_blocked, is_uncertain, blocked_message,
  uncertain_message,
}
use safety_grounded_agent.Policy.Engine.{rejection_message}
use safety_grounded_agent.Rag.{RagResult, Outcome, answered, client_error, crashed}
use safety_grounded_agent.Orchestration.TaskRouter.{
  TaskName, IntentResult, TaskRoute, qa, weekly_report, podcast_task, email_task, sales_analysis,
}
use safety_grounded_agent.Orchestration.Models.{OrchestrationRequestMetadata, OrchestrationResult}
use safety_grounded_agent.Orchestration.Words.{◌⊕◌}
use safety_grounded_agent.Orchestration.Modules.{Coordinator, Timing, Executed}
use safety_grounded_agent.Orchestration.Reports.{run_weekly_report, run_email, run_sales_analysis}
use safety_grounded_agent.Orchestration.Coordinator.{
  execute_task, run_qa, run_podcast, query_of, answer_of,
}
use safety_grounded_agent.Orchestration.Run.{
  run, run_allowed, resolve_request_metadata, blocked_result, executed_result, routed,
}

-- The outcome of a blocked request: the refusal, with one step and without any module's work.
pub record Refused (d : PolicyDecision) (o : OrchestrationResult) : Type 0 where
  pub response : o.final_response ≡ blocked_message d
  pub no_intent : o.intent_result ≡ none
  pub no_route : o.task_route ≡ none
  pub no_retrieval : o.rag_result ≡ none
  pub no_citations : o.citations ≡ []
  pub one_step : length o.trace ≡ 1
  pub confidence : o.confidence ≡ d.confidence

-- A request that the policy blocks, of metadata that do not conflict, is answered by the refusal, and two
-- coordinators that share the policy and the tests on white space answer it alike, whatever their
-- routers, their stores and their retrieval do and whatever tasks are asked for: nothing behind the policy
-- has a part in the answer.
pub blocked_run :
    (c c' : Coordinator) (t : Timing) (user_input : Text) (session_id : Option String)
    (task task' : Option TaskName) (given : Option OrchestrationRequestMetadata)
    (made m : OrchestrationRequestMetadata) (d : PolicyDecision)
    → c'.policy ≡ c.policy
    → c'.unicode ≡ c.unicode
    → resolve_request_metadata session_id given made ≡ some m
    → c.policy user_input ≡ some d
    → d.status ≡ blocked
    → (o : OrchestrationResult) × (run c t user_input session_id task given made ≡ some o)
      × (run c' t user_input session_id task' given made ≡ some o)
      × Refused d o
unfolding run blocked_result rejection_message
blocked_run c c' t user_input session_id task task' given made m d same_policy same_unicode resolved
      decided status =
    let decided' : c'.policy user_input ≡ some d =
      ap (λ (p : Text → Option PolicyDecision). p user_input) same_policy ∙ decided in
    (
      blocked_result c t user_input m d,
      ground (arith, resolved, decided, status),
      ground (arith, resolved, decided', status, same_unicode),
      record {
        response = ground (arith, status);
        no_intent = refl;
        no_route = refl;
        no_retrieval = refl;
        no_citations = refl;
        one_step = refl;
        confidence = refl;
      },
    )

module _ (c : Coordinator) (user_input : Text) (m : OrchestrationRequestMetadata)
    (status : PolicyStatus) where
  -- What a task that was executed has retrieved: nothing, or the answer of the retrieval client to this
  -- request's query, with the confidence of that answer.
  abbrev pub IsGrounded : Executed → Type 0
  IsGrounded e =
      (e.rag_result ≡ none)
      ⊎ ((result : RagResult) × (task_type : String) × (e.rag_result ≡ some result)
          × (e.confidence ≡ result.confidence)
          × (c.rag_client (query_of c user_input m task_type status) ≡ answered result))

  answer_of-keeps :
      (result : RagResult) (e : Executed)
      → answer_of c user_input result ≡ some e
      → (e.rag_result ≡ some result) × (e.confidence ≡ result.confidence)
  unfolding answer_of
  answer_of-keeps result e h = ground (arith, h)

  run_qa_step :
      (task_type : String) (o : Outcome) (e : Executed)
      → c.rag_client (query_of c user_input m task_type status) ≡ o
      → run_qa c user_input m task_type status ≡ some e
      → (result : RagResult) × (e.rag_result ≡ some result)
        × (e.confidence ≡ result.confidence)
        × (c.rag_client (query_of c user_input m task_type status) ≡ answered result)
  unfolding run_qa
  run_qa_step task_type (answered result) e q h =
      let (p, p') = answer_of-keeps result e (ground (arith, q, h)) in (result, p, p', q)
  run_qa_step task_type (client_error kind message) e q h = ground (arith, q, h)
  run_qa_step task_type (crashed kind) e q h = ground (arith, q, h)

  run_qa-IsGrounded :
      (task_type : String) (e : Executed)
      → run_qa c user_input m task_type status ≡ some e
      → IsGrounded e
  run_qa-IsGrounded task_type e h =
      let (result, p, p', q) = run_qa_step task_type _ e refl h in inr (result, task_type, p, p', q)

  podcast-keeps :
      (answer e : Executed)
      → run_qa c user_input m "podcast_script" status ≡ some answer
      → run_podcast c user_input m status ≡ some e
      → (e.rag_result ≡ answer.rag_result) × (e.confidence ≡ answer.confidence)
  unfolding run_podcast
  podcast-keeps answer e q h = ground (arith, q, h)

  run_podcast-IsGrounded :
      (e : Executed) → run_podcast c user_input m status ≡ some e → IsGrounded e
  unfolding run_podcast
  run_podcast-IsGrounded e h = elim (Option-cases (run_qa c user_input m "podcast_script" status)) [
    | inl q ↦ ground (arith, q, h)
    | inr (answer, q) ↦
        let (result, p, p', sent) = run_qa_step "podcast_script" _ answer refl q in
        let (r, r') = podcast-keeps answer e q h in
        inr (result, "podcast_script", r ∙ p, r' ∙ p', sent)
  ]

  execute_task-IsGrounded :
      (task : TaskName) (latency : ℕ) (e : Executed)
      → execute_task c user_input task m status latency ≡ some e
      → IsGrounded e
  unfolding execute_task run_weekly_report run_email run_sales_analysis
  execute_task-IsGrounded qa latency e h = run_qa-IsGrounded "qa" e h
  execute_task-IsGrounded podcast_task latency e h = run_podcast-IsGrounded e h
  execute_task-IsGrounded weekly_report latency e h = inl (ground (arith, h))
  execute_task-IsGrounded email_task latency e h = inl (ground (arith, h))
  execute_task-IsGrounded sales_analysis latency e h = inl (ground (arith, h))

-- What is certain of a result that the coordinator returns.
pub record Guarded (c : Coordinator) (user_input : Text) (m : OrchestrationRequestMetadata)
    (o : OrchestrationResult) : Type 0 where
  pub decided : c.policy user_input ≡ some o.policy
  pub capped : (o.policy.status ≡ safe) ⊎ (o.confidence ≤ o.policy.confidence)
  pub warned :
      (o.policy.status ≡ safe)
      ⊎ (o.final_response ≡ blocked_message o.policy)
      ⊎ ((answer : String) × (o.final_response ≡ uncertain_message o.policy ⊕ "\n\n" ⊕ answer))
  pub grounded :
      ((o.rag_result ≡ none) × (o.citations ≡ []))
      ⊎ ((result : RagResult) × (task_type : String) × (o.rag_result ≡ some result)
          × (o.citations ≡ result.sources)
          × (o.confidence ≤ result.confidence)
          × (c.rag_client (query_of c user_input m task_type o.policy.status) ≡ answered result))

is_blocked_status :
    (d : PolicyDecision) (s : PolicyStatus)
    → d.status ≡ s
    → is_blocked d ≡ true
    → d.status ≡ blocked
is_blocked_status d blocked q h = q
is_blocked_status d safe q h = ground (arith, q, h)
is_blocked_status d uncertain q h = ground (arith, q, h)

blocked-Guarded :
    (c : Coordinator) (t : Timing) (user_input : Text) (m : OrchestrationRequestMetadata)
    (d : PolicyDecision)
    → c.policy user_input ≡ some d
    → d.status ≡ blocked
    → Guarded c user_input m (blocked_result c t user_input m d)
unfolding blocked_result rejection_message
blocked-Guarded c t user_input m d decided status = record {
  decided = decided;
  capped = inr (omega arith);
  warned = inr (inl (ground (arith, status)));
  grounded = inl (refl, refl);
}

if_true : {A : Type 0} (b : Bool) (x y : A) → b ≡ true → (if b then x else y) ≡ x
if_true true x y h = refl
if_true false x y h = cc h

uncertain_rejection :
    (d : PolicyDecision) → d.status ≡ uncertain → rejection_message d ≡ uncertain_message d
unfolding rejection_message
uncertain_rejection d q = ground (arith, q)

uncertain_response :
    (c : Coordinator) (t : Timing) (user_input : Text) (m : OrchestrationRequestMetadata)
    (d : PolicyDecision) (intent : IntentResult) (route : TaskRoute) (e : Executed)
    → d.status ≡ uncertain
    → (executed_result c t user_input m d intent route e).final_response
      ≡ uncertain_message d ⊕ "\n\n" ⊕ e.response
unfolding executed_result
uncertain_response c t user_input m d intent route e q =
    if_true (is_uncertain d) (rejection_message d ⊕ "\n\n" ⊕ e.response) e.response
      (ground (arith, q))
    ∙ ap (λ (s : String). s ⊕ "\n\n" ⊕ e.response) (uncertain_rejection d q)

executed-Guarded :
    (c : Coordinator) (t : Timing) (user_input : Text) (m : OrchestrationRequestMetadata)
    (d : PolicyDecision) (intent : IntentResult) (route : TaskRoute) (e : Executed)
    (status : PolicyStatus)
    → d.status ≡ status
    → (is_blocked d ≡ false)
    → c.policy user_input ≡ some d
    → IsGrounded c user_input m d.status e
    → Guarded c user_input m (executed_result c t user_input m d intent route e)
unfolding executed_result rejection_message
executed-Guarded c t user_input m d intent route e blocked q passed decided g =
    ground (arith, q, passed)
executed-Guarded c t user_input m d intent route e safe q passed decided g = record {
  decided = decided;
  capped = inl q;
  warned = inl q;
  grounded = elim g [
    | inl p ↦ inl (p, rw p refl)
    | inr (result, task_type, p, p', sent) ↦
        inr (result, task_type, p, rw p refl, ground (arith, p', q), sent)
  ];
}
executed-Guarded c t user_input m d intent route e uncertain q passed decided g = record {
  decided = decided;
  capped = inr (ground (arith, q));
  warned = inr (inr (e.response, uncertain_response c t user_input m d intent route e q));
  grounded = elim g [
    | inl p ↦ inl (p, rw p refl)
    | inr (result, task_type, p, p', sent) ↦
        inr (result, task_type, p, rw p refl, ground (arith, p', q), sent)
  ];
}

-- Whatever the modules do, a result that the coordinator returns carries the policy's decision. Unless
-- that is SAFE, its confidence is at most the decision's, and its response is the refusal, or begins with the
-- warning of an uncertain request. It cites nothing unless the retrieval client answered this
-- request's query, sent with the policy's status: then it cites that answer's sources, and is
-- at most as confident as that answer.
pub run-Guarded :
    (c : Coordinator) (t : Timing) (user_input : Text) (session_id : Option String)
    (task : Option TaskName) (given : Option OrchestrationRequestMetadata)
    (made m : OrchestrationRequestMetadata) (o : OrchestrationResult)
    → resolve_request_metadata session_id given made ≡ some m
    → run c t user_input session_id task given made ≡ some o
    → Guarded c user_input m o
unfolding run run_allowed
run-Guarded c t user_input session_id task given made m o resolved h =
    elim (Option-cases (c.policy user_input)) [
      | inl q ↦ ground (arith, resolved, q, h)
      | inr (d, q) ↦ elim (Bool-cases (is_blocked d)) [
        | inl closed ↦
            let e : blocked_result c t user_input m d ≡ o =
              some_injective (ground (arith, resolved, q, h, closed)) in
            subst (Guarded c user_input m) (e)
              (blocked-Guarded c t user_input m d q (is_blocked_status d d.status refl closed))
        | inr passed ↦
            let intent = c.route_intent user_input in
            let route = routed c t user_input intent task in
            elim (Option-cases (execute_task c user_input route.task m d.status t.task_ms)) [
              | inl none_made ↦ ground (arith, resolved, q, h, passed, none_made)
              | inr (e, made_e) ↦
                  let same : executed_result c t user_input m d intent route e ≡ o =
                    some_injective (ground (arith, resolved, q, h, passed, made_e)) in
                  subst (Guarded c user_input m) (same) (
                    executed-Guarded c t user_input m d intent route e d.status refl passed q (
                      execute_task-IsGrounded c user_input m d.status route.task t.task_ms e
                        made_e))
            ]
      ]
    ]
