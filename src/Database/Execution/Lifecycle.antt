-- ===== src/Database/Execution/Lifecycle.antt =====
-- The life of a request: it is finalised once, and then no call changes it.
use safety_grounded_agent.Prelude.{
  String, ◌≡◌, refl, ◌≢◌, inl, inr, true, false, Option, none, some, List, [], ◌∷◌, any, is_some,
  arith, Bool-cases, Option-cases, ◌==◌, string_has_eq, nat_has_eq, eq_iff, sym, ◌∙◌, ap,
  some_injective,
}
use safety_grounded_agent.Dict.{get, put, get-put_self, get-put_ne}
use safety_grounded_agent.Time.{Datetime}
use safety_grounded_agent.Database.Errors.{ok, Action}
use safety_grounded_agent.Database.Records.{
  NewAgentRequest, NewAgentRun, NewAuditEvent, PersistedAgentRequestRef,
}
use safety_grounded_agent.Database.State.{ExecutionState, RequestItem}
use safety_grounded_agent.Database.Execution.{
  Repository, log_operation, logged, insert_request, select_request, insert_run, finalize,
  insert_audit, create_request, get_request_for_update, create_run, finalize_request_completed,
  finalize_request_failed, create_audit_event,
}

-- A call of a repository.
pub data Call : Type 0 where
  creates : NewAgentRequest → Call
  selects : String → Call
  runs : NewAgentRun → Call
  completes : PersistedAgentRequestRef → Datetime → Call
  fails : PersistedAgentRequestRef → Datetime → String → Call
  audits : NewAuditEvent → Call

-- The repository after a call, whether it returned or raised.
unfoldable pub perform : Call → Repository → Repository
unfolding create_request get_request_for_update create_run finalize_request_completed
    finalize_request_failed create_audit_event
perform (creates new) r = (create_request new r).1
perform (selects request_id) r = (get_request_for_update request_id r).1
perform (runs new) r = (create_run new r).1
perform (completes request at) r = (finalize_request_completed request at r).1
perform (fails request at code) r = (finalize_request_failed request at code r).1
perform (audits new) r = (create_audit_event new r).1

unfoldable pub perform_all : List Call → Repository → Repository
unfolding perform
perform_all [] r = r
perform_all (c ∷ cs) r = perform_all cs (perform c r)

-- The request is there, and it is no longer in progress.
abbrev pub IsFinal : String → RequestItem → ExecutionState → Type 0
IsFinal request_id item s = (get request_id s.requests ≡ some item) × (item.status ≢ "in_progress")

module _ (request_id : String) (item : RequestItem) where
  abbrev Keeps : {A : Type 0} → Action ExecutionState A → Type 0
  Keeps body = (s : ExecutionState) → IsFinal request_id item s → IsFinal request_id item (body s).1

  -- What a method's body keeps, the method keeps: the log is another matter.
  logged-Keeps :
      {A : Type 0} (operation : String) (body : Action ExecutionState A) (r : Repository)
      → Keeps body
      → IsFinal request_id item r.state
      → IsFinal request_id item (logged operation body r).1.state
  unfolding logged log_operation
  logged-Keeps operation body r keeps final =
      elim (Bool-cases (any (λ name. name == operation) r.fail_operations)) [
        | inl failing ↦ rw failing final
        | inr going ↦ rw going (keeps r.state final)
      ]

  insert_request-Keeps : (new : NewAgentRequest) → Keeps (insert_request new)
  unfolding insert_request
  insert_request-Keeps new s (found, final) =
      elim (Bool-cases (is_some (get new.request_id s.requests))) [
        | inl there_is ↦ rw there_is (found, final)
        | inr free ↦
            rw free (get-put_ne request_id new.request_id _ s.requests (other free) ∙ found, final)
      ]
    where
      other : is_some (get new.request_id s.requests) ≡ false → new.request_id ≡ request_id → ⊥
      other free same = ground arith

  select_request-Keeps : (id : String) → Keeps (select_request id)
  unfolding select_request
  select_request-Keeps id s (found, final) = elim (Option-cases (get id s.requests)) [
    | inl missing ↦ (ground arith, final)
    | inr (it, e) ↦ (ground arith, final)
  ]

  insert_run-Keeps : (new : NewAgentRun) → Keeps (insert_run new)
  unfolding insert_run
  insert_run-Keeps new s (found, final) = (ground arith, final)

  insert_audit-Keeps : (new : NewAuditEvent) → Keeps (insert_audit new)
  unfolding insert_audit
  insert_audit-Keeps new s (found, final) = (ground arith, final)

  finalize-Keeps :
      (request : PersistedAgentRequestRef) (status : String) (at : Datetime) (code : Option String)
      → Keeps (finalize request status at code)
  unfolding finalize
  finalize-Keeps request status at code s (found, final) =
      elim (Option-cases (get request.request_id s.requests)) [
        | inl missing ↦ (ground arith, final)
        | inr (it, e) ↦ elim (Bool-cases (it.status == "in_progress")) [
          | inr closed ↦ (ground arith, final)
          | inl still ↦
              let it' = record it {
                status = status;
                completed_at = some at;
                failure_code = code;
              } in
              (
                ground (
                  arith,
                  get-put_ne request_id request.request_id it' s.requests (other it e still)
                      ∙ found,
                ),
                final,
              )
        ]
      ]
    where
      other :
          (it : RequestItem)
          → get request.request_id s.requests ≡ some it
          → (it.status == "in_progress") ≡ true
          → request.request_id ≡ request_id
          → ⊥
      other it e still same =
          let is_item : some it ≡ some item = sym e ∙ (ap (λ k. get k s.requests) same ∙ found) in
          let it-eq-item : it ≡ item = some_injective is_item in
          final (sym (ap (λ i. i.status) it-eq-item) ∙ (eq_iff it.status "in_progress").0 still)

  perform-Keeps :
      (c : Call) (r : Repository)
      → IsFinal request_id item r.state
      → IsFinal request_id item (perform c r).state
  unfolding perform create_request get_request_for_update create_run finalize_request_completed
      finalize_request_failed create_audit_event
  perform-Keeps (creates new) r final =
      logged-Keeps "create_request" (insert_request new) r (insert_request-Keeps new) final
  perform-Keeps (selects id) r final =
      logged-Keeps "get_request_for_update" (select_request id) r (select_request-Keeps id) final
  perform-Keeps (runs new) r final =
      logged-Keeps "create_run" (insert_run new) r (insert_run-Keeps new) final
  perform-Keeps (completes request at) r final =
      logged-Keeps "finalize_request_completed" (finalize request "completed" at none) r
        (finalize-Keeps request "completed" at none) final
  perform-Keeps (fails request at code) r final =
      logged-Keeps "finalize_request_failed" (finalize request "failed" at (some code)) r
        (finalize-Keeps request "failed" at (some code)) final
  perform-Keeps (audits new) r final =
      logged-Keeps "create_audit_event" (insert_audit new) r (insert_audit-Keeps new) final

  -- A request that is no longer in progress stays as it is, with its status, its time of completion and its
  -- failure code, whatever calls of the repository follow, and whether they return or raise.
  pub perform_all-IsFinal :
      (cs : List Call) (r : Repository)
      → IsFinal request_id item r.state
      → IsFinal request_id item (perform_all cs r).state
  unfolding perform_all
  perform_all-IsFinal [] r final = final
  perform_all-IsFinal (c ∷ cs) r final =
      perform_all-IsFinal cs (perform c r) (perform-Keeps c r final)

finalize-step :
    (request : PersistedAgentRequestRef) (status : String) (at : Datetime) (code : Option String)
    (s : ExecutionState) (item : RequestItem)
    → get request.request_id s.requests ≡ some item
    → item.status ≡ "in_progress"
    → finalize request status at code s ≡ (
      ok tt,
      record s {
        requests =
            put request.request_id
              (record item { status = status; completed_at = some at; failure_code = code })
              s.requests;
      },
    )
unfolding finalize
finalize-step request status at code s item found going =
    ground (arith, (eq_iff item.status "in_progress").1 going)

-- A request in progress is finalised by the first of the calls that reaches the table: the call
-- returns, and after any further calls the request has the status, the time and the code that this call
-- gave it. The status given is not that of a request in progress.
pub finalize_once :
    (request : PersistedAgentRequestRef) (status : String) (at : Datetime) (code : Option String)
    (r : Repository) (item : RequestItem) (cs : List Call)
    → get request.request_id r.state.requests ≡ some item
    → item.status ≡ "in_progress"
    → status ≢ "in_progress"
    → ((finalize request status at code r.state).0 ≡ ok tt)
      × IsFinal request.request_id
          (record item { status = status; completed_at = some at; failure_code = code })
          (perform_all cs (record r { state = (finalize request status at code r.state).1 })).state
finalize_once request status at code r item cs found going ends =
    let item' = record item { status = status; completed_at = some at; failure_code = code } in
    rw (finalize-step request status at code r.state item found going) (
      refl,
      perform_all-IsFinal request.request_id item' cs
          (record r {
            state = record r.state { requests = put request.request_id item' r.state.requests };
          })
          (get-put_self request.request_id item' r.state.requests, ends),
    )
