-- ===== src/Database/Errors.antt =====
-- src/conversation_agent/database/errors.py: the exceptions, and code that may raise them.
use safety_grounded_agent.Prelude.{◌≡◌, refl, ◌⊎◌, inl, inr, Bool, true, false, Option, none, some}

-- One constructor for each class that is raised; `not_active` is the `RuntimeError` of a unit of
-- work, `value_error` a `ValueError`, `key_error` a `KeyError` and `assertion_failed` an
-- `AssertionError`.
pub data Error : Type 0 where
  persistence_write persistence_conflict duplicate_request request_not_found : Error
  invalid_request_transition fingerprint_version ownership_lost : Error
  invalid_idempotency_state replay_snapshot unsupported_snapshot_version : Error
  not_active value_error key_error assertion_failed : Error
  request_initialization durable_application_execution persistence_finalization : Error

-- `isinstance(exc, IdempotencyError)`
abbrev pub is_idempotency_error : Error → Bool
is_idempotency_error Error.fingerprint_version = true
is_idempotency_error Error.ownership_lost = true
is_idempotency_error Error.invalid_idempotency_state = true
is_idempotency_error Error.replay_snapshot = true
is_idempotency_error Error.unsupported_snapshot_version = true
is_idempotency_error _ = false

pub data Result {ℓ} (A : Type ℓ) : Type ℓ where
  ok : A → Result A
  err : Error → Result A

pub Result-cases {ℓ} :
    {A : Type ℓ} (r : Result A) → ((a : A) × (r ≡ ok a)) ⊎ ((e : Error) × (r ≡ err e))
Result-cases (ok a) = inl (a, refl)
Result-cases (err e) = inr (e, refl)

-- A call that may write to `S` and may raise: what was written before a raise stays written.
abbrev pub Action {ℓ} : Type ℓ → Type ℓ → Type ℓ
Action S A = S → Result A × S

module _ {ℓ} {S A : Type ℓ} where
  abbrev pub pure : A → Action S A
  pure a s = (ok a, s)

  abbrev pub raise : Error → Action S A
  raise e s = (err e, s)

  abbrev pub lift : Result A → Action S A
  lift r s = (r, s)

  abbrev pub gets : (S → A) → Action S A
  gets f s = (ok (f s), s)

  abbrev pub or_raise : Option A → Error → Action S A
  or_raise none e = raise e
  or_raise (some a) e = pure a

module _ {ℓ} {S : Type ℓ} where
  abbrev pub modify : (S → S) → Action S (Unit {ℓ})
  modify f s = (ok tt, f s)

  abbrev pub raise_if : Bool → Error → Action S (Unit {ℓ})
  raise_if true e = raise e
  raise_if false e = pure tt

infixl 5 ◌>>=◌ ◌>>◌
module _ {ℓ} {S A B : Type ℓ} where
  abbrev pub then_run : Result A → (A → Action S B) → Action S B
  then_run (ok a) f s = f a s
  then_run (err e) f s = (err e, s)

  abbrev pub ◌>>=◌ : Action S A → (A → Action S B) → Action S B
  ◌>>=◌ m f s = then_run (m s).0 f (m s).1

  abbrev pub ◌>>◌ : Action S A → Action S B → Action S B
  ◌>>◌ m k s = then_run (m s).0 (λ _. k) (m s).1

-- `try: … except Exception as exc: raise …`
module _ {ℓ} {A : Type ℓ} where
  abbrev pub map_error : (Error → Error) → Result A → Result A
  map_error other (ok a) = ok a
  map_error other (err e) = err (other e)

module _ {ℓ} {S A : Type ℓ} where
  abbrev pub rescue : (Error → Error) → Action S A → Action S A
  rescue other m s = (map_error other (m s).0, (m s).1)
