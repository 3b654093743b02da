-- ===== src/Dict.antt =====
-- Python's `dict`: an association list in insertion order, for keys with an equality test.
use mathlib.Core.Path.{subst₂}
use safety_grounded_agent.Prelude.{
  ◌≡◌, sym, ap, ◌∙◌, Option, none, some, inl, inr, List, [], ◌∷◌, arith, Eq, ◌==◌, ==_self,
  ne_of_false, some_injective, Bool-cases, if◌then◌else◌,
}

abbrev pub Dict {ℓ κ} : Type ℓ → Type κ → Type (ℓ ⊔ κ)
Dict K V = List (K × V)

module _ {ℓ κ} {K : Type ℓ} {V : Type κ} ⦃e : Eq K⦄ where
  -- `d.get(k)`
  abbrev pub get : K → Dict K V → Option V
  get k [] = none
  get k ((j, v) ∷ d) = if j == k then some v else get k d

  -- `d[k] = v`: a new key comes last, a known one keeps its place.
  abbrev pub put : K → V → Dict K V → Dict K V
  put k v [] = (k, v) ∷ []
  put k v ((j, w) ∷ d) = if j == k then (j, v) ∷ d else (j, w) ∷ put k v d

  -- A new value under a known key leaves the others alone, and the other way round.
  pub get-put_self : (k : K) (v : V) (d : Dict K V) → get k (put k v d) ≡ some v
  get-put_self k v [] = ground (arith, ==_self k)
  get-put_self k v ((j, w) ∷ d) = elim (Bool-cases (j == k)) [
    | inl same ↦ ground arith
    | inr other ↦ ground (arith, get-put_self k v d)
  ]

  pub get-put_ne : (j k : K) (v : V) (d : Dict K V) → (k ≡ j → ⊥) → get j (put k v d) ≡ get j d
  get-put_ne j k v [] ne = ground (arith, e.agrees k j)
  get-put_ne j k v ((i, w) ∷ d) ne =
      ground (arith, get-put_ne j k v d ne, e.agrees i k, e.agrees i j, e.agrees k j)

  -- Every entry that a key finds.
  abbrev pub ForAll {μ} : (K → V → Type μ) → Dict K V → Type (ℓ ⊔ κ ⊔ μ)
  ForAll P d = (k : K) (v : V) → get k d ≡ some v → P k v

  pub ForAll-put {μ} :
      (P : K → V → Type μ) (k : K) (v : V) (d : Dict K V)
      → ForAll P d
      → P k v
      → ForAll P (put k v d)
  ForAll-put P k v d h p j w found = elim (Bool-cases (k == j)) [
    | inl same ↦
        let k-eq-j : k ≡ j = (e.agrees k j).0 same in
        let v-eq-w : v ≡ w =
          some_injective (sym (get-put_self k v d) ∙ ap (λ i. get i (put k v d)) k-eq-j ∙ found) in
        subst₂ P k-eq-j v-eq-w p
    | inr other ↦ h j w (sym (get-put_ne j k v d (λ q. ne_of_false k j other q)) ∙ found)
  ]
