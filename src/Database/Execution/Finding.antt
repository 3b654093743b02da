-- ===== src/Database/Execution/Finding.antt =====
-- Where a record is found by its number, after a new record or a new version of one is stored
-- (src/conversation_agent/database/fake_execution.py), and what a chain of calls that returned has done.
use safety_grounded_agent.Prelude.{
  ◌≡◌, Bool, true, Option, none, some, [], ◌∷◌, find?, inl, inr, arith, Eq, ◌==◌, nat_has_eq,
  Bool-cases,
}
use safety_grounded_agent.Dict.{Dict, get, put}
use safety_grounded_agent.Database.Errors.{ok, Action, Result-cases, ◌>>=◌}

-- A chain that returned: its first part did, and then the rest.
pub bind_inv {ℓ} :
    {S A B : Type ℓ} (m : Action S A) (k : A → Action S B) (s s' : S) (b : B)
    → (m >>= k) s ≡ (ok b, s')
    → (a : A) × (t : S) × (m s ≡ (ok a, t)) × (k a t ≡ (ok b, s'))
bind_inv m k s s' b h = elim (Result-cases (m s).0) [
  | inl (a, e) ↦ (a, (m s).1, ground (arith, e), ground (arith, e, h))
  | inr (x, e) ↦ ground (arith, e, h)
]

module _ {ℓ κ} {K : Type ℓ} {V : Type κ} ⦃e : Eq K⦄ (test : V → Bool) where
  -- The first entry whose value passes the test.
  abbrev pub find_value : Dict K V → Option (K × V)
  find_value d = find? (λ entry. test entry.1) d

  pub find-put_fresh :
      (k : K) (v : V) (d : Dict K V)
      → get k d ≡ none
      → find_value d ≡ none
      → test v ≡ true
      → find_value (put k v d) ≡ some (k, v)
  find-put_fresh k v [] fresh nowhere passes = ground arith
  find-put_fresh k v ((j, w) ∷ d) fresh nowhere passes = elim (Bool-cases (j == k)) [
    | inl same ↦ ground arith
    | inr other ↦ elim (Bool-cases (test w)) [
      | inl hit ↦ ground arith
      | inr miss ↦ ground (arith, find-put_fresh k v d (ground arith) (ground arith) passes)
    ]
  ]

  -- The new value passes the test as the old one did: the entry of the same key is found.
  pub find-put_same :
      (k j : K) (v w found : V) (d : Dict K V)
      → get k d ≡ some w
      → test v ≡ test w
      → find_value d ≡ some (j, found)
      → (found' : V) × (find_value (put k v d) ≡ some (j, found'))
  find-put_same k j v w found [] known alike hit = ground arith
  find-put_same k j v w found ((i, x) ∷ d) known alike hit = elim (Bool-cases (i == k)) [
    | inl same ↦ elim (Bool-cases (test x)) [
      | inl here ↦ (v, ground arith)
      | inr miss ↦ (found, ground arith)
    ]
    | inr other ↦ elim (Bool-cases (test x)) [
      | inl here ↦ (found, ground arith)
      | inr miss ↦
          let (found', e') = find-put_same k j v w found d (ground arith) alike (ground arith) in
          (found', ground (arith, e'))
    ]
  ]
