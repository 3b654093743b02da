-- ===== src/Database/UnitOfWork/Accounting.antt =====
-- The books of the factory: each unit of work ends in one way, and what it staged is seen only if
-- its commit took place.
use safety_grounded_agent.Prelude.{
  suc, ◌+◌, ◌≡◌, refl, ◌⊎◌, inl, inr, true, false, List, [], ◌∷◌, any, arith, Bool-cases, ◌==◌,
  nat_has_eq,
}
use safety_grounded_agent.Database.Errors.{ok, Result-cases, Action, then_run}
use safety_grounded_agent.Database.State.{ExecutionState}
use safety_grounded_agent.Database.Execution.{Repository}
use safety_grounded_agent.Database.UnitOfWork.{
  Factory, UnitOfWork, create, enter, leave, commit, rollback, on_repository, on_claims, with_uow,
}

-- What the body of an `async with` does to the unit of work: calls of its repositories, which may do
-- anything to the tables and may raise, commits and rollbacks.
pub data Operation : Type 0 where
  repository : Action Repository Unit → Operation
  claims : Action ExecutionState Unit → Operation
  commits rolls_back : Operation

unfoldable pub perform : Operation → Action UnitOfWork Unit
unfolding on_repository on_claims commit rollback
perform (repository call) = on_repository call
perform (claims call) = on_claims call
perform commits = commit
perform rolls_back = rollback

-- The first exception leaves the body.
unfoldable pub run : List Operation → Action UnitOfWork Unit
run [] u = (ok tt, u)
run (o ∷ operations) u = then_run (perform o u).0 (λ _. run operations) (perform o u).1

-- A commit took place, with or without an answer, or the tables are the same.
abbrev pub IsPublished : Factory → Factory → Type 0
IsPublished f g =
    (g.committed_uow_count + g.ambiguous_commit_count
      ≡ suc (f.committed_uow_count + f.ambiguous_commit_count))
    ⊎ (g.state ≡ f.state)

-- How a unit of work's factory stands to the one it was made by.
record Books (f : Factory) (u : UnitOfWork) : Type 0 where
  entered : u.entered ≡ true
  active : u.factory.active_uow_count ≡ suc f.active_uow_count
  created : u.factory.created_uow_count ≡ f.created_uow_count
  while_open :
      u.finished ≡ false
      → (u.factory.state ≡ f.state)
        × (u.factory.committed_uow_count ≡ f.committed_uow_count)
        × (u.factory.rolled_back_uow_count ≡ f.rolled_back_uow_count)
        × (u.factory.ambiguous_commit_count ≡ f.ambiguous_commit_count)
  once_closed :
      u.finished ≡ true
      → (u.factory.committed_uow_count + u.factory.rolled_back_uow_count
            + u.factory.ambiguous_commit_count
          ≡ suc (f.committed_uow_count + f.rolled_back_uow_count + f.ambiguous_commit_count))
        × IsPublished f u.factory

module _ (f : Factory) where
  on_repository-Books :
      (call : Action Repository Unit) (u : UnitOfWork)
      → Books f u
      → Books f (on_repository call u).1
  unfolding on_repository
  on_repository-Books call u b = record {
    entered = ground (arith, b.entered);
    active = ground (arith, b.active);
    created = ground (arith, b.created);
    while_open = λ h.
        let (p, q, r, s) = b.while_open (ground arith) in
        (ground arith, ground arith, ground arith, ground arith);
    once_closed = λ h.
        let (p, q) = b.once_closed (ground arith) in
        (
          ground arith,
          elim q [ inl e ↦ inl (ground (arith, e)) | inr e ↦ inr (ground (arith, e)) ],
        );
  }

  on_claims-Books :
      (call : Action ExecutionState Unit) (u : UnitOfWork)
      → Books f u
      → Books f (on_claims call u).1
  unfolding on_claims
  on_claims-Books call u b = record {
    entered = ground (arith, b.entered);
    active = ground (arith, b.active);
    created = ground (arith, b.created);
    while_open = λ h.
        let (p, q, r, s) = b.while_open (ground arith) in
        (ground arith, ground arith, ground arith, ground arith);
    once_closed = λ h.
        let (p, q) = b.once_closed (ground arith) in
        (
          ground arith,
          elim q [ inl e ↦ inl (ground (arith, e)) | inr e ↦ inr (ground (arith, e)) ],
        );
  }

  rollback-Books : (u : UnitOfWork) → Books f u → Books f (rollback u).1
  unfolding rollback
  rollback-Books u b = record {
    entered = ground (arith, b.entered);
    active = ground (arith, b.active);
    created = ground (arith, b.created);
    while_open = λ h. ground (arith, b.while_open);
    once_closed = λ h. elim (Bool-cases u.finished) [
      | inl over ↦
          let (sum, kept) = b.once_closed over in
          (
            ground (arith, sum),
            elim kept [ inl e ↦ inl (ground (arith, e)) | inr e ↦ inr (ground (arith, e)) ],
          )
      | inr going ↦ let (p, q, r, s) = b.while_open going in (ground arith, inr (ground arith))
    ];
  }

  commit-Books : (u : UnitOfWork) → Books f u → Books f (commit u).1
  unfolding commit
  commit-Books u b = record {
    entered = ground (arith, b.entered);
    active = ground (arith, b.active);
    created = ground (arith, b.created);
    while_open = λ h. ground (arith, b.while_open);
    once_closed = λ h. elim (Bool-cases u.finished) [
      | inl over ↦
          let (sum, kept) = b.once_closed over in
          (
            ground (arith, sum),
            elim kept [ inl e ↦ inl (ground (arith, e)) | inr e ↦ inr (ground (arith, e)) ],
          )
      | inr going ↦
          let (p, q, r, s) = b.while_open going in
          elim (Bool-cases
            (any (λ n. n == u.factory.commit_attempt_count + 1) u.factory.fail_commit_attempts)) [
              | inl fails ↦ (ground arith, inr (ground arith))
              | inr lives ↦ (ground arith, inl (ground arith))
            ]
    ];
  }

  perform-Books : (o : Operation) (u : UnitOfWork) → Books f u → Books f (perform o u).1
  unfolding perform
  perform-Books (repository call) u b = on_repository-Books call u b
  perform-Books (claims call) u b = on_claims-Books call u b
  perform-Books commits u b = commit-Books u b
  perform-Books rolls_back u b = rollback-Books u b

  run_step :
      (o : Operation) (operations : List Operation) (u : UnitOfWork)
      → Books f (perform o u).1
      → Books f (run operations (perform o u).1).1
      → Books f (run (o ∷ operations) u).1
  unfolding run
  run_step o operations u stopped went = elim (Result-cases (perform o u).0) [
    | inl (_, e) ↦ rw e went
    | inr (_, e) ↦ rw e stopped
  ]

  run-Books :
      (operations : List Operation) (u : UnitOfWork) → Books f u → Books f (run operations u).1
  run-Books [] u b = unfold run in b
  run-Books (o ∷ operations) u b =
      let after = perform-Books o u b in
      run_step o operations u after (run-Books operations (perform o u).1 after)

-- What stands in the books once the `async with` is left.
pub record Balanced (f g : Factory) : Type 0 where
  pub nothing_active : g.active_uow_count ≡ f.active_uow_count
  pub one_created : g.created_uow_count ≡ suc f.created_uow_count
  pub one_ending :
      g.committed_uow_count + g.rolled_back_uow_count + g.ambiguous_commit_count
      ≡ suc (f.committed_uow_count + f.rolled_back_uow_count + f.ambiguous_commit_count)
  pub all_or_nothing : IsPublished f g

leave-Balanced :
    (f : Factory) (u : UnitOfWork) → Books (create f).factory u → Balanced f (leave u).factory
unfolding leave
leave-Balanced f u b = elim (Bool-cases u.finished) [
  | inl over ↦
      let (sum, kept) = b.once_closed over in
      record {
        nothing_active = ground (arith, b.active);
        one_created = ground (arith, b.created);
        one_ending = ground (arith, sum);
        all_or_nothing = kept;
      }
  | inr going ↦
      let (p, q, r, s) = b.while_open going in
      record {
        nothing_active = ground (arith, b.active);
        one_created = ground (arith, b.created);
        one_ending = ground arith;
        all_or_nothing = inr (ground arith);
      }
]

enter-Books : (f : Factory) → Books (create f).factory (enter (create f)).1
unfolding enter
enter-Books f = record {
  entered = refl;
  active = ground arith;
  created = refl;
  while_open = λ h. (refl, refl, refl, refl);
  once_closed = λ h. cc h;
}

-- Whatever the body of a unit of work does, whether it returns or raises: when it is left, no unit of work
-- more is active than before; it was created, and it ended in exactly one way, by a commit, by a rollback
-- or by a commit whose acknowledgement was lost; and without a commit the factory's tables are as before.
pub with_uow-Balanced :
    (operations : List Operation) (f : Factory) → Balanced f (with_uow (run operations) f).1
with_uow-Balanced operations f = with_uow_step (
    leave-Balanced f (run operations (enter (create f)).1).1
      (run-Books (create f).factory operations (enter (create f)).1 (enter-Books f)))
  where
    with_uow_step :
        Balanced f (leave (run operations (enter (create f)).1).1).factory
        → Balanced f (with_uow (run operations) f).1
    with_uow_step balanced = unfold with_uow enter in balanced
