-- ===== src/Database/UnitOfWork/Transactions.antt =====
-- A unit of work as a transaction over the tables: the calls in its body act on the staged tables
-- alone, and its end publishes them at once or not at all. The rules follow the body's steps.
use safety_grounded_agent.Prelude.{
  ◌+◌, ◌≡◌, ◌∙◌, ap, refl, inl, inr, Bool, true, false, String, List, [], Option, none, some, arith,
  if◌then◌else◌,
}
use safety_grounded_agent.Database.Errors.{
  Error, Result, ok, err, Action, Result-cases, pure, lift, or_raise, ◌>>=◌, ◌>>◌,
}
use safety_grounded_agent.Database.State.{ExecutionState}
use safety_grounded_agent.Database.Execution.{logged, log_operation}
use safety_grounded_agent.Database.UnitOfWork.{
  Factory, UnitOfWork, create, enter, leave, commit, rollback, on_repository, on_claims, with_uow,
}
use safety_grounded_agent.Database.UnitOfWork.Outcomes.{fails_next, loses_next}

-- A unit of work that has been entered and not ended, where no call of a repository is made to fail.
abbrev pub opened : Factory → List String → ExecutionState → UnitOfWork
opened f log s = record {
  factory = record f { operation_log = log; fail_operations = [] };
  staged = some s;
  entered = true;
  finished = false;
}

-- What is seen of a transaction: the caller's result and the tables that the factory then has. A
-- transaction that raises leaves the tables; one with nothing to publish does too; else the commit may
-- fail, or its answer may be lost.
abbrev pub settled :
    {A : Type 0} → (A → Bool) → Factory → Result A × ExecutionState → Result A × ExecutionState
settled publishes f (err e, s) = (err e, f.state)
settled publishes f (ok a, s) =
    if publishes a
    then (if fails_next f
        then (err Error.persistence_write, f.state)
        else if loses_next f
        then (err Error.persistence_write, s)
        else (ok a, s))
    else (ok a, f.state)

module _ (f : Factory) where
  -- A part of a body that acts on the staged tables as `step` does.
  pub record Implements {A : Type 0} (part : Action UnitOfWork A) (step : Action ExecutionState A)
      : Type 0 where
    pub acts :
        (log : List String) (s : ExecutionState)
        → (log' : List String) × (part (opened f log s) ≡ ((step s).0, opened f log' (step s).1))

  -- The rest of a body, with its commit or its rollback.
  pub record Ends {A : Type 0} (publishes : A → Bool) (rest : Action UnitOfWork A)
      (step : Action ExecutionState A) : Type 0 where
    pub settles :
        (log : List String) (s : ExecutionState)
        → ((rest (opened f log s)).0, (leave (rest (opened f log s)).1).factory.state)
          ≡ settled publishes f (step s)

  pub on_repository-Implements :
      {A : Type 0} (operation : String) (step : Action ExecutionState A)
      → Implements (on_repository (logged operation step)) step
  unfolding on_repository logged log_operation
  on_repository-Implements operation step = record { acts = λ log s. (_, refl) }

  pub on_claims-Implements :
      {A : Type 0} (step : Action ExecutionState A) → Implements (on_claims step) step
  unfolding on_claims
  on_claims-Implements step = record { acts = λ log s. (log, refl) }

  pub lift-Implements : {A : Type 0} (r : Result A) → Implements (lift r) (lift r)
  lift-Implements r = record { acts = λ log s. (log, refl) }

  pub or_raise-Implements :
      {A : Type 0} (o : Option A) (e : Error) → Implements (or_raise o e) (or_raise o e)
  or_raise-Implements none e = record { acts = λ log s. (log, refl) }
  or_raise-Implements (some a) e = record { acts = λ log s. (log, refl) }

  pub if-Implements :
      {A : Type 0} (b : Bool) {part other : Action UnitOfWork A}
      {step other_step : Action ExecutionState A}
      → Implements part step
      → Implements other other_step
      → Implements (if b then part else other) (if b then step else other_step)
  if-Implements true h k = h
  if-Implements false h k = k

  pub bind-Implements :
      {A B : Type 0} {part : Action UnitOfWork A} {step : Action ExecutionState A}
      {next : A → Action UnitOfWork B} {next_step : A → Action ExecutionState B}
      → Implements part step
      → ((a : A) → Implements (next a) (next_step a))
      → Implements (part >>= next) (step >>= next_step)
  bind-Implements {step} h k = record {
    acts = λ log s.
        let (log', e) = h.acts log s in
        elim (Result-cases (step s).0) [
          | inl (a, q) ↦ let (log2, e2) = (k a).acts log' (step s).1 in (log2, rw (e, q) e2)
          | inr (e', q) ↦ (log', rw (e, q) refl)
        ];
  }

  pub bind-Ends :
      {A B : Type 0} {publishes : B → Bool} {part : Action UnitOfWork A}
      {step : Action ExecutionState A} {next : A → Action UnitOfWork B}
      {next_step : A → Action ExecutionState B}
      → Implements part step
      → ((a : A) → Ends publishes (next a) (next_step a))
      → Ends publishes (part >>= next) (step >>= next_step)
  bind-Ends {step} h k = record {
    settles = λ log s.
        let (log', e) = h.acts log s in
        elim (Result-cases (step s).0) [
          | inl (a, q) ↦ rw (e, q) ((k a).settles log' (step s).1)
          | inr (e', q) ↦ rw (e, q) (unfold leave in refl)
        ];
  }

  -- A body that ends with its commit.
  pub last-Ends :
      {part : Action UnitOfWork (Unit {0})} {step : Action ExecutionState (Unit {0})}
      → Implements part step
      → Ends (λ _. true) (part >> commit) step
  unfolding commit leave
  last-Ends {step} h = record {
    settles = λ log s.
        let (log', e) = h.acts log s in
        elim (Result-cases (step s).0) [
          | inl (a, q) ↦ ground (arith, e)
          | inr (e', q) ↦ ground (arith, e)
        ];
  }

  pub commit-Ends :
      {A : Type 0} (publishes : A → Bool) (a : A)
      → publishes a ≡ true
      → Ends publishes (commit >> pure a) (pure a)
  unfolding commit leave
  commit-Ends publishes a h = record { settles = λ log s. ground arith }

  pub rollback-Ends :
      {A : Type 0} (publishes : A → Bool) (a : A)
      → publishes a ≡ false
      → Ends publishes (rollback >> pure a) (pure a)
  unfolding rollback leave
  rollback-Ends publishes a h = record { settles = λ log s. rw h refl }

-- The factory, once a unit of work of it is entered.
abbrev begun : Factory → Factory
begun f = record f {
  created_uow_count = f.created_uow_count + 1;
  active_uow_count = f.active_uow_count + 1;
}

entered_lem :
    (f : Factory)
    → f.fail_operations ≡ []
    → enter (create f) ≡ (ok tt, opened (begun f) f.operation_log f.state)
unfolding enter
entered_lem f quiet = ground (arith, quiet)

settled-begun :
    {A : Type 0} (publishes : A → Bool) (f : Factory) (r : Result A × ExecutionState)
    → settled publishes (begun f) r ≡ settled publishes f r
settled-begun publishes f (ok a, s) = refl
settled-begun publishes f (err e, s) = refl

-- A body whose end settles a transaction makes a unit of work that does.
pub with_uow-Ends :
    {A : Type 0} (publishes : A → Bool) (body : Action UnitOfWork A)
    (step : Action ExecutionState A) (f : Factory)
    → f.fail_operations ≡ []
    → ((g : Factory) → Ends g publishes body step)
    → ((with_uow body f).0, (with_uow body f).1.state) ≡ settled publishes f (step f.state)
unfolding with_uow enter
with_uow-Ends publishes body step f quiet ends =
    ap (λ (u : UnitOfWork). ((body u).0, (leave (body u).1).factory.state))
      (ap (λ (out : Result Unit × UnitOfWork). out.1) (entered_lem f quiet))
    ∙ ((ends (begun f)).settles f.operation_log f.state ∙ settled-begun publishes f (step f.state))
