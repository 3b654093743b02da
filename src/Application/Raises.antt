-- ===== src/Application/Raises.antt =====
-- Which exceptions may leave an action, followed along its steps.
use safety_grounded_agent.Prelude.{◌≡◌, Bool, true, false, inl, inr, arith}
use safety_grounded_agent.Time.{Datetime}
use safety_grounded_agent.Database.Errors.{
  Error, Result, err, Action, Result-cases, pure, raise, lift, modify, rescue, raise_if, ◌>>=◌,
}
use safety_grounded_agent.Database.UnitOfWork.{Factory}
use safety_grounded_agent.Application.Idempotent.{now}

-- Whatever the action raises passes the test.
pub record Raises {A : Type 0} (test : Error → Bool) (m : Action Factory A) : Type 0 where
  pub raises : (s : Factory) (e : Error) → (m s).0 ≡ err e → test e ≡ true

module _ (test : Error → Bool) where
  pub bind-Raises :
      {A B : Type 0} {m : Action Factory A} {k : A → Action Factory B}
      → Raises test m
      → ((a : A) → Raises test (k a))
      → Raises test (m >>= k)
  bind-Raises {m} h hk = record {
    raises = λ s e raised. elim (Result-cases (m s).0) [
      | inl (a, q) ↦ (hk a).raises (m s).1 e (ground (arith, q, raised))
      | inr (x, q) ↦ h.raises s e (ground (arith, q, raised))
    ];
  }

  pub rescue-Raises :
      {A : Type 0} (other : Error → Error) (m : Action Factory A)
      → ((e : Error) → test (other e) ≡ true)
      → Raises test (rescue other m)
  rescue-Raises other m h = record {
    raises = λ s e raised. elim (Result-cases (m s).0) [
      | inl (a, q) ↦ ground (arith, q, raised)
      | inr (x, q) ↦ ground (arith, q, raised, h x)
    ];
  }

  pub pure-Raises : {A : Type 0} (a : A) → Raises test (pure a)
  pure-Raises a = record { raises = λ s e raised. cc raised }

  pub modify-Raises : (f : Factory → Factory) → Raises test (modify f)
  modify-Raises f = record { raises = λ s e raised. cc raised }

  pub raise-Raises : {A : Type 0} (e : Error) → test e ≡ true → Raises {A = A} test (raise e)
  raise-Raises e h = record { raises = λ s x raised. ground (arith, h, raised) }

  pub lift-Raises :
      {A : Type 0} (r : Result A) → ((e : Error) → r ≡ err e → test e ≡ true) → Raises test (lift r)
  lift-Raises r h = record { raises = λ s e raised. h e raised }

  pub raise_if-Raises : (b : Bool) (e : Error) → test e ≡ true → Raises test (raise_if b e)
  raise_if-Raises true e h = record { raises = λ s x raised. ground (arith, h, raised) }
  raise_if-Raises false e h = record { raises = λ s x raised. cc raised }

  pub now-Raises : (t : Datetime) → test Error.value_error ≡ true → Raises test (lift (now t))
  now-Raises t h = lift-Raises (now t) (λ e raised. ground (arith, h, raised))
