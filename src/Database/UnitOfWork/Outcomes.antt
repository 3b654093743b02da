-- ===== src/Database/UnitOfWork/Outcomes.antt =====
-- The three ways in which the commit of a unit of work goes out.
use safety_grounded_agent.Prelude.{ℕ, ◌+◌, ◌≡◌, Bool, true, false, any, arith, ◌==◌, nat_has_eq}
use safety_grounded_agent.Database.Errors.{Error, Result, ok, err, Action, ◌>>◌}
use safety_grounded_agent.Database.State.{ExecutionState}
use safety_grounded_agent.Database.UnitOfWork.{Factory, enter, leave, commit, on_claims, with_uow}

-- The attempt that the next commit is, and whether the harness makes it fail or lose its answer.
abbrev pub next_attempt : Factory → ℕ
next_attempt f = f.commit_attempt_count + 1

abbrev pub fails_next : Factory → Bool
fails_next f = any (λ n. n == next_attempt f) f.fail_commit_attempts

abbrev pub loses_next : Factory → Bool
loses_next f = any (λ n. n == next_attempt f) f.ambiguous_commit_attempts

-- What a unit of work comes to that calls the repository once and commits.
abbrev pub once : Action ExecutionState Unit → Action Factory Unit
once call = with_uow (on_claims call >> commit)

-- What the caller gets and which tables the factory then has: after the call's result, whether the
-- commit fails, whether its answer is lost, with the tables before and after the call.
abbrev pub outcome :
    Result (Unit {0})
    → Bool
    → Bool
    → ExecutionState
    → ExecutionState
    → Result (Unit {0}) × ExecutionState
outcome (err e) fails loses before after = (err e, before)
outcome (ok _) true loses before after = (err Error.persistence_write, before)
outcome (ok _) false true before after = (err Error.persistence_write, after)
outcome (ok _) false false before after = (ok tt, after)

-- A unit of work that makes one call of the idempotency repository and then commits. If the call raises,
-- its exception leaves and the tables are as before. If the commit fails, a persistence error
-- leaves and the tables are as before. If only the commit's answer is lost, the same error leaves, but
-- the tables are those that the call made. Otherwise nothing is raised, and they are those too.
pub commit_outcomes :
    (call : Action ExecutionState Unit) (f : Factory)
    → ((once call f).0, (once call f).1.state)
      ≡ outcome (call f.state).0 (fails_next f) (loses_next f) f.state (call f.state).1
unfolding with_uow enter leave on_claims commit
commit_outcomes call f = ground arith
