-- ===== src/Database/UnitOfWork.antt =====
-- `FakeExecutionUnitOfWorkFactory` and the units of work that it makes
-- (src/conversation_agent/database/fake_execution.py): staging, commit, rollback, and a commit
-- whose acknowledgement is lost.
pub mod Accounting
pub mod Outcomes
pub mod Transactions
use safety_grounded_agent.Prelude.{
  ℕ, ◌+◌, ◌-◌, String, Bool, true, false, not, ◌&&◌, ◌||◌, Option, none, some, List, [], any, ◌==◌,
  nat_has_eq, is_some, if◌then◌else◌,
}
use safety_grounded_agent.Database.Errors.{
  Error, ok, err, Action, pure, raise, raise_if, modify, gets, ◌>>=◌, ◌>>◌,
}
use safety_grounded_agent.Database.State.{ExecutionState, empty_state}
use safety_grounded_agent.Database.Execution.{Repository}

pub record Factory : Type 0 where
  pub state : ExecutionState
  pub active_uow_count : ℕ
  pub created_uow_count : ℕ
  pub committed_uow_count : ℕ
  pub rolled_back_uow_count : ℕ
  pub commit_attempt_count : ℕ
  pub fail_commit_attempts : List ℕ
  pub ambiguous_commit_attempts : List ℕ
  pub ambiguous_commit_count : ℕ
  pub fail_operations : List String
  pub operation_log : List String

-- `FakeExecutionUnitOfWorkFactory(state)`
abbrev pub new_factory : ExecutionState → Factory
new_factory state = record {
  state = state;
  active_uow_count = 0;
  created_uow_count = 0;
  committed_uow_count = 0;
  rolled_back_uow_count = 0;
  commit_attempt_count = 0;
  fail_commit_attempts = [];
  ambiguous_commit_attempts = [];
  ambiguous_commit_count = 0;
  fail_operations = [];
  operation_log = [];
}

-- A unit of work, with the factory that it shares with the others.
pub record UnitOfWork : Type 0 where
  pub factory : Factory
  pub staged : Option ExecutionState
  pub entered : Bool
  pub finished : Bool

-- `factory()`
abbrev pub create : Factory → UnitOfWork
create f = record {
  factory = record f { created_uow_count = f.created_uow_count + 1 };
  staged = none;
  entered = false;
  finished = false;
}

-- `__aenter__`
unfoldable pub enter : Action UnitOfWork Unit
enter u = if u.entered then (err Error.not_active, u) else (
  ok tt,
  record u {
    entered = true;
    staged = some u.factory.state;
    factory = record u.factory { active_uow_count = u.factory.active_uow_count + 1 };
  },
)

-- `__aexit__`, which lets the exception through.
unfoldable pub leave : UnitOfWork → UnitOfWork
leave u = record u {
  finished = true;
  factory = record u.factory {
    rolled_back_uow_count =
        if u.finished then u.factory.rolled_back_uow_count else u.factory.rolled_back_uow_count + 1;
    active_uow_count = u.factory.active_uow_count - 1;
  };
}

-- The first test of `commit`, `rollback` and of the properties that give the repositories.
abbrev pub is_active : UnitOfWork → Bool
is_active u = u.entered && not u.finished

abbrev commit_staged : ExecutionState → ℕ → Action UnitOfWork Unit
commit_staged staged attempt u =
    let f = record u.factory { commit_attempt_count = attempt } in
    if any (λ n. n == attempt) f.fail_commit_attempts
    then (
      err Error.persistence_write,
      record u {
        finished = true;
        factory = record f { rolled_back_uow_count = f.rolled_back_uow_count + 1 };
      },
    )
    else if any (λ n. n == attempt) f.ambiguous_commit_attempts
    then (
      err Error.persistence_write,
      record u {
        finished = true;
        factory = record f {
          state = staged;
          ambiguous_commit_count = f.ambiguous_commit_count + 1;
        };
      },
    )
    else (
      ok tt,
      record u {
        finished = true;
        factory = record f { state = staged; committed_uow_count = f.committed_uow_count + 1 };
      },
    )

unfoldable pub commit : Action UnitOfWork Unit
commit u = elim u.staged [
  | none ↦ (err Error.not_active, u)
  | some staged ↦
      if not (is_active u)
      then (err Error.not_active, u)
      else commit_staged staged (u.factory.commit_attempt_count + 1) u
]

unfoldable pub rollback : Action UnitOfWork Unit
rollback u = if not (is_active u) then (err Error.not_active, u) else (
  ok tt,
  record u {
    finished = true;
    factory = record u.factory { rolled_back_uow_count = u.factory.rolled_back_uow_count + 1 };
  },
)

-- A call of the repository that `execution_repository` gives.
unfoldable pub on_repository : {A : Type 0} → Action Repository A → Action UnitOfWork A
on_repository call u = elim u.staged [
  | none ↦ (err Error.not_active, u)
  | some staged ↦
      if not (is_active u)
      then (err Error.not_active, u)
      else let out = call (record {
        state = staged;
        operation_log = u.factory.operation_log;
        fail_operations = u.factory.fail_operations;
      }) in
        (
          out.0,
          record u {
            staged = some out.1.state;
            factory = record u.factory { operation_log = out.1.operation_log };
          },
        )
]

-- A call of the repository that `idempotency_repository` gives.
unfoldable pub on_claims : {A : Type 0} → Action ExecutionState A → Action UnitOfWork A
on_claims call u = elim u.staged [
  | none ↦ (err Error.not_active, u)
  | some staged ↦
      if not (is_active u)
      then (err Error.not_active, u)
      else let out = call staged in (out.0, record u { staged = some out.1 })
]

-- `async with factory() as uow: body`
unfoldable pub with_uow : {A : Type 0} → Action UnitOfWork A → Action Factory A
unfolding enter leave
with_uow body f = let out = (enter >> body) (create f) in (out.0, (leave out.1).factory)
