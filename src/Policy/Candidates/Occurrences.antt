-- ===== src/Policy/Candidates/Occurrences.antt =====
-- What detection finds: the matches of each pattern lie inside the text, and sorting loses none.
use safety_grounded_agent.Prelude.{
  ℕ, suc, ◌+◌, ◌≤◌, ◌≡◌, inl, inr, true, false, List, [], ◌∷◌, length, arith, All, All-map,
  Bool-cases,
}
use mathlib.Core.List.{Perm}
use mathlib.Core.List.Perm
use safety_grounded_agent.Text.{Text, starts_with, positions}
use safety_grounded_agent.Text.Search.{loop_positions}
use safety_grounded_agent.Policy.Models.{RiskCandidate}
use safety_grounded_agent.Policy.Candidates.{
  all_matches, key_before, insert_sorted, sort_candidates,
}

-- The loop finds every place of a needle that is not empty, overlapping ones too, in order.
pub all_matches-positions :
    (haystack : Text) (c : ℕ) (cs : Text)
    → all_matches haystack (c ∷ cs) ≡ positions (c ∷ cs) haystack 0
all_matches-positions haystack c cs =
    loop_positions c cs haystack (suc (length haystack)) 0 (omega arith) (omega arith)

-- A text that starts with a needle is as long as the needle.
length-starts_with :
    (needle text : Text) → starts_with needle text ≡ true → length needle ≤ length text
length-starts_with [] text h = omega arith
length-starts_with (c ∷ needle) [] h = cc
length-starts_with (c ∷ needle) (d ∷ text) h = ground (arith, length-starts_with needle text)

positions_here :
    (needle : Text) (c : ℕ) (text : Text) (i : ℕ)
    → starts_with needle (c ∷ text) ≡ true
    → positions needle (c ∷ text) i ≡ i ∷ positions needle text (suc i)
unfolding positions
positions_here needle c text i h = ground arith

positions_later :
    (needle : Text) (c : ℕ) (text : Text) (i : ℕ)
    → starts_with needle (c ∷ text) ≡ false
    → positions needle (c ∷ text) i ≡ positions needle text (suc i)
unfolding positions
positions_later needle c text i h = ground arith

-- A place is inside the text, with the whole needle.
pub positions-inside :
    (needle text : Text) (i : ℕ)
    → All (λ j. j + length needle ≤ i + length text) (positions needle text i)
positions-inside needle [] i = unfold positions in tt
positions-inside needle (c ∷ text) i =
    let later =
      All-map (λ j fits. past j fits) (positions needle text (suc i))
        (positions-inside needle text (suc i)) in
    elim (Bool-cases (starts_with needle (c ∷ text))) [
      | inl at ↦
          rw (positions_here needle c text i at)
            (omega (arith, length-starts_with needle (c ∷ text) at), later)
      | inr other ↦ rw (positions_later needle c text i other) later
    ]
  where
    past :
        (j : ℕ)
        → j + length needle ≤ suc i + length text
        → j + length needle ≤ i + suc (length text)
    past j fits = omega arith

insert-perm-step :
    (c d : RiskCandidate) (cs : List RiskCandidate)
    → Perm (d ∷ insert_sorted c cs) (c ∷ d ∷ cs)
    → Perm (insert_sorted c (d ∷ cs)) (c ∷ d ∷ cs)
unfolding insert_sorted
insert-perm-step c d cs behind = elim (Bool-cases (key_before d c)) [
  | inl after ↦ rw after behind
  | inr before ↦ rw before (Perm.refl (c ∷ d ∷ cs))
]

sort-perm-step :
    (c : RiskCandidate) (cs : List RiskCandidate)
    → Perm (insert_sorted c (sort_candidates cs)) (c ∷ cs)
    → Perm (sort_candidates (c ∷ cs)) (c ∷ cs)
unfolding sort_candidates
sort-perm-step c cs p = p

insert_sorted-perm :
    (c : RiskCandidate) (cs : List RiskCandidate) → Perm (insert_sorted c cs) (c ∷ cs)
insert_sorted-perm c [] = unfold insert_sorted in Perm.refl (c ∷ [])
insert_sorted-perm c (d ∷ cs) =
    insert-perm-step c d cs (Perm.trans (Perm.cons d (insert_sorted-perm c cs)) (Perm.swap c d cs))

-- Sorting keeps each candidate, as often as it was found.
pub sort_candidates-perm : (cs : List RiskCandidate) → Perm (sort_candidates cs) cs
sort_candidates-perm [] = unfold sort_candidates in Perm.refl []
sort_candidates-perm (c ∷ cs) =
    sort-perm-step c cs (
      Perm.trans (insert_sorted-perm c (sort_candidates cs))
        (Perm.cons c (sort_candidates-perm cs)))
