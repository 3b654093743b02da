-- ===== src/Text/Search.antt =====
-- What `find` and `rfind` return, and that a loop over `find` visits every occurrence once.
use safety_grounded_agent.Prelude.{
  ℕ, suc, zero, ◌+◌, ◌-◌, ◌≤◌, ◌<◌, ◌≡◌, refl, none, some, List, [], ◌∷◌, arith, length, drop,
  Bool-cases, Option-cases, inl, inr, ap, ◌∙◌, le→leb,
}
use safety_grounded_agent.Text.{Text, starts_with, find_at, find, all_from, positions}

module _ {ℓ} {A : Type ℓ} where
  pub drop-nil : (n : ℕ) → drop {A = A} n [] ≡ []
  drop-nil zero = refl
  drop-nil (suc n) = refl

  pub drop-drop : (a b : ℕ) (xs : List A) → drop a (drop b xs) ≡ drop (b + a) xs
  drop-drop a zero xs = ap (λ n. drop n xs) (omega arith)
  drop-drop a (suc b) [] = rw drop-nil (rw drop-nil refl)
  drop-drop a (suc b) (x ∷ xs) = drop-drop a b xs ∙ ap (λ n. drop n (x ∷ xs)) (step b a)
    where
      step : (b a : ℕ) → suc (b + a) ≡ suc b + a
      step b a = omega arith

  pub length-drop : (n : ℕ) (xs : List A) → length (drop n xs) ≡ length xs - n
  length-drop zero xs = omega arith
  length-drop (suc n) [] = omega arith
  length-drop (suc n) (x ∷ xs) = omega (arith, length-drop n xs)

module _ (c : ℕ) (cs : Text) where
  abbrev needle : Text
  needle = c ∷ cs

  find_at-none : (text : Text) (i : ℕ) → find_at needle text i ≡ none → positions needle text i ≡ []
  unfolding find_at positions
  find_at-none [] i h = refl
  find_at-none (d ∷ text) i h = ground (arith, find_at-none text (suc i))

  -- The first place found heads the list of all places, and the rest come after it.
  find_at-some :
      (text : Text) (i j : ℕ)
      → find_at needle text i ≡ some j
      → (i ≤ j)
        × (j < i + length text)
        × (positions needle text i ≡ j ∷ positions needle (drop (suc (j - i)) text) (suc j))
  unfolding find_at positions
  find_at-some [] i j h = cc
  find_at-some (d ∷ text) i j h = elim (Bool-cases (starts_with needle (d ∷ text))) [
    | inl here ↦
        let i-eq-j : i ≡ j = ground arith in
        let at_zero : j - i ≡ 0 = omega arith in
        (omega arith, omega arith, rw at_zero (ground arith))
    | inr later ↦
        let (low, high, split) = find_at-some text (suc i) j (ground arith) in
        let past : j - i ≡ suc (j - suc i) = omega arith in
        (omega arith, omega arith, rw past (ground arith))
  ]

  -- The loop `while (index := text.find(needle, cursor)) >= 0: …; cursor = index + 1`, on fuel,
  -- collects every place once it has more fuel than there are places left.
  pub loop_positions :
      (text : Text) (fuel cursor : ℕ)
      → cursor ≤ length text
      → length text < fuel + cursor
      → all_from fuel text needle cursor ≡ positions needle (drop cursor text) cursor
  unfolding all_from find
  loop_positions text zero cursor low enough = absurd (omega arith)
  loop_positions text (suc fuel) cursor low enough =
      elim (Option-cases (find_at needle (drop cursor text) cursor)) [
        | inl missing ↦
            ground (
              arith,
              le→leb cursor (length text) low,
              find_at-none (drop cursor text) cursor missing,
            )
        | inr (j, found) ↦
            let (after, before, split) = find_at-some (drop cursor text) cursor j found in
            let inside : suc j ≤ length text = omega (arith, length-drop cursor text) in
            let again : drop (suc (j - cursor)) (drop cursor text) ≡ drop (suc j) text =
              drop-drop (suc (j - cursor)) cursor text
              ∙ ap (λ n. drop n text) (shift cursor j after) in
            let rest = loop_positions text fuel (suc j) inside (omega arith) in
            ground (arith, le→leb cursor (length text) low, split, again, rest)
      ]
    where
      shift : (a b : ℕ) → a ≤ b → a + suc (b - a) ≡ suc b
      shift a b h = omega arith
