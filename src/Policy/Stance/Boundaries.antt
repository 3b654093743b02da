-- ===== src/Policy/Stance/Boundaries.antt =====
-- The boundaries of clauses: the greatest up to a place, the least from a place, and the delimiters.
use mathlib.Core.Path.{subst}
use native.Mathlib.Nat.{le_trans}
use safety_grounded_agent.Prelude.{
  ℕ, ◌≤◌, ◌≡◌, refl, ◌≢◌, inl, inr, none, some, List, [], ◌∷◌, length, arith, All, All-map,
  Option-cases, Bool-cases, false, ap, some_injective, get_elem?, ◌<◌, ◌+◌, ◌++◌, suc, zero, true,
  Any, here, there, Any-map, sym, ◌∙◌, ◌⊎◌, leb,
}
use safety_grounded_agent.Text.{Text}
use safety_grounded_agent.Policy.Stance.{
  delimiter_boundaries, is_delimiter, boundaries, greatest_up_to, least_from, clause_bounds,
}

pub greatest_up_to-le : (limit : ℕ) (bs : List ℕ) → greatest_up_to limit bs ≤ limit
unfolding greatest_up_to
greatest_up_to-le limit [] = omega arith
greatest_up_to-le limit (b ∷ bs) = ground (arith, greatest_up_to-le limit bs)

pub greatest_up_to-ge :
    (limit : ℕ) (bs : List ℕ) → All (λ b. b ≤ limit → b ≤ greatest_up_to limit bs) bs
greatest_up_to-ge limit [] = tt
greatest_up_to-ge limit (b ∷ bs) = (
  λ h. unfold greatest_up_to in ground arith,
  All-map (λ c below h. unfold greatest_up_to in ground (arith, below h)) bs
      (greatest_up_to-ge limit bs),
)

-- There is no minimum only where no boundary is that great.
least_from-none :
    (limit : ℕ) (bs : List ℕ) → least_from limit bs ≡ none → All (λ b. ¬ (limit ≤ b)) bs
least_from-none limit [] h = tt
least_from-none limit (b ∷ bs) h = (
  λ q. unfold least_from in ground arith,
  least_from-none limit bs (unfold least_from in ground arith),
)

head_alone :
    (limit b : ℕ) (bs : List ℕ) (least : ℕ)
    → least_from limit bs ≡ none
    → least_from limit (b ∷ bs) ≡ some least
    → (limit ≤ least) × (limit ≤ b → least ≤ b)
unfolding least_from
head_alone limit b bs least missing h = (ground arith, λ q. ground arith)

head_joined :
    (limit b : ℕ) (bs : List ℕ) (least rest : ℕ)
    → least_from limit bs ≡ some rest
    → least_from limit (b ∷ bs) ≡ some least
    → limit ≤ rest
    → (limit ≤ least) × (limit ≤ b → least ≤ b) × (least ≤ rest)
unfolding least_from
head_joined limit b bs least rest found h low = (ground arith, λ q. ground arith, ground arith)

pub least_from-some :
    (limit : ℕ) (bs : List ℕ) (least : ℕ)
    → least_from limit bs ≡ some least
    → (limit ≤ least) × All (λ b. limit ≤ b → least ≤ b) bs
least_from-some limit [] least h = absurd (unfold least_from in ground arith)
least_from-some limit (b ∷ bs) least h = elim (Option-cases (least_from limit bs)) [
  | inl missing ↦
      let (low, first) = head_alone limit b bs least missing h in
      (low, (first, All-map (λ c below q. absurd (below q)) bs (least_from-none limit bs missing)))
  | inr (rest, found) ↦
      let (rest_low, tight) = least_from-some limit bs rest found in
      let (low, first, under) = head_joined limit b bs least rest found h rest_low in
      (low, (first, All-map (λ c below q. le_trans under (below q)) bs tight))
]

-- The text's end is a boundary, so the clause of a span inside the text has an end.
pub least_from-total :
    (value : Text) (limit : ℕ) → limit ≤ length value → least_from limit (boundaries value) ≢ none
unfolding boundaries
least_from-total value limit inside h =
    absurd ((least_from-none limit (boundaries value) h).1.0 inside)

pub bounds-found :
    (value : Text) (span_start span_end end : ℕ)
    → least_from span_end (boundaries value) ≡ some end
    → clause_bounds value span_start span_end
      ≡ some (greatest_up_to span_start (boundaries value), end)
unfolding clause_bounds
bounds-found value span_start span_end end found = ground arith

greatest_cases :
    (limit b : ℕ) (bs : List ℕ)
    → (b ≡ greatest_up_to limit (b ∷ bs))
      ⊎ (greatest_up_to limit (b ∷ bs) ≡ greatest_up_to limit bs)
unfolding greatest_up_to
greatest_cases limit b bs = elim (Bool-cases (leb b limit)) [
  | inr above ↦ inr (ground (arith, above))
  | inl below ↦ elim (Bool-cases (leb b (greatest_up_to limit bs))) [
    | inl less ↦ inr (ground (arith, below, less))
    | inr more ↦ inl (ground (arith, below, more))
  ]
]

-- The maximum is 0 or one of the boundaries.
greatest_up_to-among :
    (limit : ℕ) (bs : List ℕ)
    → (greatest_up_to limit bs ≡ 0) ⊎ Any (λ b. b ≡ greatest_up_to limit bs) bs
greatest_up_to-among limit [] = inl (unfold greatest_up_to in refl)
greatest_up_to-among limit (b ∷ bs) = elim (greatest_cases limit b bs) [
  | inl here_it ↦ inr (here here_it)
  | inr same ↦ elim (greatest_up_to-among limit bs) [
    | inl nothing ↦ inl (same ∙ nothing)
    | inr later ↦ inr (there (Any-map (λ c e. e ∙ sym same) bs later))
  ]
]

least_cases :
    (limit b : ℕ) (bs : List ℕ) (least : ℕ)
    → least_from limit (b ∷ bs) ≡ some least
    → (b ≡ least) ⊎ (least_from limit bs ≡ some least)
unfolding least_from
least_cases limit b bs least h = elim (Option-cases (least_from limit bs)) [
  | inl missing ↦ inl (ground (arith, missing, h))
  | inr (rest, found) ↦ elim (Bool-cases (leb limit b)) [
    | inr below ↦ inr (ground (arith, found, below, h))
    | inl above ↦ elim (Bool-cases (leb b rest)) [
      | inl less ↦ inl (ground (arith, found, above, less, h))
      | inr more ↦ inr (ground (arith, found, above, more, h))
    ]
  ]
]

pub least_from-among :
    (limit : ℕ) (bs : List ℕ) (least : ℕ)
    → least_from limit bs ≡ some least
    → Any (λ b. b ≡ least) bs
least_from-among limit [] least h = absurd (unfold least_from in ground arith)
least_from-among limit (b ∷ bs) least h = elim (least_cases limit b bs least h) [
  | inl first ↦ here first
  | inr later ↦ there (least_from-among limit bs least later)
]

pub greatest-boundary :
    (value : Text) (limit : ℕ)
    → Any (λ b. b ≡ greatest_up_to limit (boundaries value)) (boundaries value)
unfolding boundaries
greatest-boundary value limit = elim (greatest_up_to-among limit (boundaries value)) [
  | inl nothing ↦ here (sym nothing)
  | inr among ↦ among
]

-- A comma, a full stop, an exclamation or question mark, a semicolon or a line feed, in plain form.
abbrev pub Delimits : ℕ → Type 0
Delimits c = Any (λ d. c ≡ d) (44 ∷ 46 ∷ 33 ∷ 63 ∷ 59 ∷ 10 ∷ [])

Delimits-known : (c : ℕ) → Delimits c → is_delimiter c ≡ true
Delimits-known c (here e) = ground (arith, e)
Delimits-known c (there (here e)) = ground (arith, e)
Delimits-known c (there (there (here e))) = ground (arith, e)
Delimits-known c (there (there (there (here e)))) = ground (arith, e)
Delimits-known c (there (there (there (there (here e))))) = ground (arith, e)
Delimits-known c (there (there (there (there (there (here e)))))) = ground (arith, e)
Delimits-known c (there (there (there (there (there (there a)))))) = elim a [ ]

All-left : (P : ℕ → Type 0) (xs ys : List ℕ) → All P (xs ++ ys) → All P xs
All-left P [] ys all = tt
All-left P (x ∷ xs) ys (p, all) = (p, All-left P xs ys all)

delimiters_here :
    (j e : ℕ) (value : Text)
    → is_delimiter e ≡ true
    → delimiter_boundaries j (e ∷ value) ≡ j ∷ suc j ∷ delimiter_boundaries (suc j) value
unfolding delimiter_boundaries
delimiters_here j e value d = ground (arith, d)

delimiters_later :
    (j e : ℕ) (value : Text)
    → is_delimiter e ≡ false
    → delimiter_boundaries j (e ∷ value) ≡ delimiter_boundaries (suc j) value
unfolding delimiter_boundaries
delimiters_later j e value d = ground (arith, d)

-- What holds of all boundaries holds before and behind each delimiter.
at_delimiter :
    (P : ℕ → Type 0) (j : ℕ) (value : Text) (i k c : ℕ)
    → k ≡ j + i
    → All P (delimiter_boundaries j value)
    → get_elem? value i ≡ some c
    → is_delimiter c ≡ true
    → P k × P (suc k)
at_delimiter P j [] i k c same all at d = cc
at_delimiter P j (e ∷ value) zero k c same all at d =
    let known : is_delimiter e ≡ true = ap is_delimiter (some_injective at) ∙ d in
    let (first, (second, _)) = subst (All P) (delimiters_here j e value known) all in
    let back : j ≡ k = omega (arith, same) in (subst P back first, subst P (ap suc back) second)
at_delimiter P j (e ∷ value) (suc i) k c same all at d =
    at_delimiter P (suc j) value i k c (omega (arith, same))
      (elim (Bool-cases (is_delimiter e)) [
        | inl here_too ↦ (subst (All P) (delimiters_here j e value here_too) all).1.1
        | inr other ↦ subst (All P) (delimiters_later j e value other) all
      ])
      at d

around_delimiter :
    (P : ℕ → Type 0) (value : Text) (i c : ℕ)
    → All P (boundaries value)
    → get_elem? value i ≡ some c
    → Delimits c
    → P i × P (suc i)
unfolding boundaries
around_delimiter P value i c (_, (_, all)) at d =
    at_delimiter P 0 value i i c (omega arith) (All-left P (delimiter_boundaries 0 value) _ all) at
      (Delimits-known c d)

pub delimiter_place :
    (value : Text) (span_start span_end end i c : ℕ)
    → All (λ b. span_end ≤ b → end ≤ b) (boundaries value)
    → get_elem? value i ≡ some c
    → Delimits c
    → (i < greatest_up_to span_start (boundaries value))
      ⊎ ((span_start ≤ i) × (i < span_end))
      ⊎ (end ≤ i)
delimiter_place value span_start span_end end i c tight at d =
    let (_, below) =
      around_delimiter _ value i c (greatest_up_to-ge span_start (boundaries value)) at d in
    let (above, _) = around_delimiter _ value i c tight at d in
    elim (Bool-cases (leb span_end i)) [
      | inl behind ↦ inr (inr (ground (arith, behind, above)))
      | inr inside ↦ elim (Bool-cases (leb span_start i)) [
        | inl within ↦ inr (inl (ground (arith, within), ground (arith, inside)))
        | inr before ↦ inl (ground (arith, before, below))
      ]
    ]
