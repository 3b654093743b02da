-- ===== src/Policy/Candidates/Order.antt =====
-- The order in which the candidates are answered, said without the comparison of the sort.
use Prim.Native.Char.{code}
use Prim.Native.Nat.{Ordering}
use Prim.Native.String
use Prim.Native.String.{compare}
use Prim.Native.String.compare
use text.Mathlib.TextEquality.{path_by_compare}
use text.Mathlib.TextPositions.{compare_refl}
use mathlib.Core.Path.{subst}
use safety_grounded_agent.Prelude.{
  ℕ, ◌<◌, ◌≡◌, ◌≢◌, ◌⊎◌, inl, inr, true, false, List, [], ◌∷◌, arith, some, Option-cases,
  some_injective, if◌then◌else◌, Bool, Bool-cases, String, sym, ap, ◌∙◌, refl,
}
use mathlib.Core.List.{Perm}
use safety_grounded_agent.Policy.Normalization.{Unicode, NormalizedPolicyText}
use safety_grounded_agent.Policy.Rules.{RiskRule}
use safety_grounded_agent.Policy.Models.{RiskCandidate, action_value}
use safety_grounded_agent.Policy.Candidates.{
  Digests, Span, detect, add_rules, compare_then, compare_ℕ, key_before, insert_sorted,
  sort_candidates,
}
use safety_grounded_agent.Policy.Candidates.Occurrences.{sort_candidates-perm}

-- Of two texts at most one stands before the other.
before_once : (s t : String) → compare s t ≡ Ordering.lt → compare t s ≢ Ordering.lt
before_once String.[] String.[] h k = cc
before_once String.[] (String.◌∷◌ d t) h k = ground (arith, sym (compare.cons-nil d t) ∙ k)
before_once (String.◌∷◌ c s) String.[] h k = ground (arith, sym (compare.cons-nil c s) ∙ h)
before_once (String.◌∷◌ c s) (String.◌∷◌ d t) h k =
    then_once (code c) (code d) (compare s t) (compare t s) (before_once s t)
      (sym (compare.cons-cons c d s t) ∙ h) (sym (compare.cons-cons d c t s) ∙ k)
  where
    then_once :
        (m n : ℕ) (o p : Ordering)
        → (o ≡ Ordering.lt → p ≢ Ordering.lt)
        → String.then (Prim.Native.Nat.compare m n) o ≡ Ordering.lt
        → String.then (Prim.Native.Nat.compare n m) p ≢ Ordering.lt
    then_once m n o p once h k = ground (arith, once)

same_back : (s t : String) → compare s t ≡ Ordering.eq → compare t s ≡ Ordering.eq
same_back s t h = ap (λ w. compare w s) (sym (path_by_compare s t h)) ∙ compare_refl s

-- The text does not stand before the other.
abbrev pub NotBefore : String → String → Type 0
NotBefore s t = compare s t ≢ Ordering.lt

-- The candidate may be answered before the other: it starts first; or they start together and it ends
-- first; or they stand at the same place and its rule has the greater priority; or the priorities
-- are equal too, and the rules' names, and then the actions', are in order.
abbrev pub InOrder : RiskCandidate → RiskCandidate → Type 0
InOrder a b =
    let p = a.evidence_span in
    let q = b.evidence_span in
    (p.start < q.start)
    ⊎ ((p.start ≡ q.start)
        × ((p.end < q.end)
            ⊎ ((p.end ≡ q.end)
                × ((b.priority < a.priority)
                    ⊎ ((a.priority ≡ b.priority)
                        × (NotBefore b.rule_id a.rule_id
                            × (a.rule_id ≡ b.rule_id
                                → NotBefore (action_value b.action) (action_value a.action))))))))

then_true :
    (o : Ordering) (later : Bool)
    → compare_then o later ≡ true
    → (o ≡ Ordering.lt) ⊎ ((o ≡ Ordering.eq) × (later ≡ true))
then_true Ordering.lt later h = inl refl
then_true Ordering.eq later h = inr (refl, h)
then_true Ordering.gt later h = cc

then_false :
    (o : Ordering) (later : Bool)
    → compare_then o later ≡ false
    → (o ≡ Ordering.gt) ⊎ ((o ≡ Ordering.eq) × (later ≡ false))
then_false Ordering.lt later h = cc
then_false Ordering.eq later h = inr (refl, h)
then_false Ordering.gt later h = inl refl

compare-lt : (m n : ℕ) → compare_ℕ m n ≡ Ordering.lt → m < n
compare-lt m n h = ground arith

compare-eq : (m n : ℕ) → compare_ℕ m n ≡ Ordering.eq → m ≡ n
compare-eq m n h = ground arith

compare-gt : (m n : ℕ) → compare_ℕ m n ≡ Ordering.gt → n < m
compare-gt m n h = ground arith

-- A name that stands strictly before or after another is not the same.
differs : (s t : String) (o : Ordering) → compare s t ≡ o → o ≢ Ordering.eq → s ≢ t
differs s t o h other same = other (sym h ∙ ap (λ w. compare w t) same ∙ compare_refl t)

names_before :
    (a b : RiskCandidate)
    → compare_then
        (compare a.rule_id b.rule_id)
        (compare_then (compare (action_value a.action) (action_value b.action)) false)
      ≡ true
    → NotBefore b.rule_id a.rule_id
      × (a.rule_id ≡ b.rule_id → NotBefore (action_value b.action) (action_value a.action))
names_before a b h = elim (then_true _ _ h) [
  | inl less ↦ (
    before_once a.rule_id b.rule_id less,
    λ same. absurd (differs a.rule_id b.rule_id Ordering.lt less (λ e. cc) same),
  )
  | inr (equal, h') ↦ elim (then_true _ _ h') [
    | inl less ↦ (
      λ k. ground (arith, same_back a.rule_id b.rule_id equal, k),
      λ same. before_once (action_value a.action) (action_value b.action) less,
    )
    | inr (_, never) ↦ cc
  ]
]

names_after :
    (a b : RiskCandidate)
    → compare_then
        (compare a.rule_id b.rule_id)
        (compare_then (compare (action_value a.action) (action_value b.action)) false)
      ≡ false
    → NotBefore a.rule_id b.rule_id
      × (b.rule_id ≡ a.rule_id → NotBefore (action_value a.action) (action_value b.action))
names_after a b h = elim (then_false _ _ h) [
  | inl more ↦ (
    λ k. ground (arith, more, k),
    λ same. absurd (differs a.rule_id b.rule_id Ordering.gt more (λ e. cc) (sym same)),
  )
  | inr (equal, h') ↦ (
    λ k. ground (arith, equal, k),
    λ same k. elim (then_false (compare (action_value a.action) (action_value b.action)) false h') [
      | inl more ↦ ground (arith, more, k)
      | inr (alike, _) ↦ ground (arith, alike, k)
    ],
  )
]

before-InOrder : (a b : RiskCandidate) → key_before a b ≡ true → InOrder a b
unfolding key_before
before-InOrder a b h = elim (then_true _ _ h) [
  | inl less ↦ inl (compare-lt _ _ less)
  | inr (starts, h1) ↦ inr (
    compare-eq _ _ starts,
    elim (then_true _ _ h1) [
      | inl less ↦ inl (compare-lt _ _ less)
      | inr (ends, h2) ↦ inr (
        compare-eq _ _ ends,
        elim (then_true _ _ h2) [
          | inl less ↦ inl (compare-lt _ _ less)
          | inr (ranks, h3) ↦ inr (sym (compare-eq _ _ ranks), names_before a b h3)
        ],
      )
    ],
  )
]

not_before-InOrder : (a b : RiskCandidate) → key_before a b ≡ false → InOrder b a
unfolding key_before
not_before-InOrder a b h = elim (then_false _ _ h) [
  | inl more ↦ inl (compare-gt _ _ more)
  | inr (starts, h1) ↦ inr (
    sym (compare-eq _ _ starts),
    elim (then_false _ _ h1) [
      | inl more ↦ inl (compare-gt _ _ more)
      | inr (ends, h2) ↦ inr (
        sym (compare-eq _ _ ends),
        elim (then_false _ _ h2) [
          | inl more ↦ inl (compare-gt _ _ more)
          | inr (ranks, h3) ↦ inr (compare-eq _ _ ranks, names_after a b h3)
        ],
      )
    ],
  )
]

-- Each candidate may be answered before the next.
abbrev pub IsSorted : List RiskCandidate → Type 0
IsSorted [] = Unit
IsSorted (c ∷ []) = Unit
IsSorted (c ∷ d ∷ cs) = InOrder c d × IsSorted (d ∷ cs)

-- Behind a candidate that may come first, an insertion keeps the order.
insert-behind :
    (d c : RiskCandidate) (cs : List RiskCandidate)
    → InOrder d c
    → IsSorted (d ∷ cs)
    → IsSorted (d ∷ insert_sorted c cs)
unfolding insert_sorted
insert-behind d c [] dc sorted = (dc, tt)
insert-behind d c (e ∷ cs) dc (de, sorted) =
    insert-next d c e cs dc de sorted
      (λ before. insert-behind e c cs (before-InOrder e c before) sorted)
  where
    insert-next :
        (d c e : RiskCandidate) (cs : List RiskCandidate)
        → InOrder d c
        → InOrder d e
        → IsSorted (e ∷ cs)
        → (key_before e c ≡ true → IsSorted (e ∷ insert_sorted c cs))
        → IsSorted (d ∷ (if key_before e c then e ∷ insert_sorted c cs else c ∷ e ∷ cs))
    insert-next d c e cs dc de sorted behind = elim (Bool-cases (key_before e c)) [
      | inl before ↦ rw before (de, behind before)
      | inr after ↦ rw after (dc, (not_before-InOrder e c after, sorted))
    ]

insert-IsSorted :
    (c : RiskCandidate) (cs : List RiskCandidate) → IsSorted cs → IsSorted (insert_sorted c cs)
unfolding insert_sorted
insert-IsSorted c [] sorted = tt
insert-IsSorted c (d ∷ cs) sorted = elim (Bool-cases (key_before d c)) [
  | inl before ↦ rw before (insert-behind d c cs (before-InOrder d c before) sorted)
  | inr after ↦ rw after (not_before-InOrder d c after, sorted)
]

sort-IsSorted : (cs : List RiskCandidate) → IsSorted (sort_candidates cs)
sort-IsSorted [] = unfold sort_candidates in tt
sort-IsSorted (c ∷ cs) = sort_step c cs (insert-IsSorted c (sort_candidates cs) (sort-IsSorted cs))
  where
    sort_step :
        (c : RiskCandidate) (cs : List RiskCandidate)
        → IsSorted (insert_sorted c (sort_candidates cs))
        → IsSorted (sort_candidates (c ∷ cs))
    sort_step c cs sorted = unfold sort_candidates in sorted

-- What detection answers are the candidates that the rules add, each as often as it was added, and each may
-- be answered before the next: by the place's start, then its end, then the greater priority, then
-- the names of the rules and of the actions.
pub detect-IsSorted :
    (u : Unicode) (h : Digests) (catalog_version : String) (rules : List RiskRule)
    (text : NormalizedPolicyText) (cs : List RiskCandidate)
    → detect u h catalog_version rules text ≡ some cs
    → IsSorted cs
      × ((seen : List (String × Span)) × ((added : List RiskCandidate) × ((add_rules u h
                  catalog_version text rules
                  ([], [])
                ≡ some (seen, added))
              × Perm cs added)))
unfolding detect
detect-IsSorted u h catalog_version rules text cs e =
    elim (Option-cases (add_rules u h catalog_version text rules ([], []))) [
      | inl raised ↦ ground (arith, raised, e)
      | inr ((seen, added), found) ↦
          let same : sort_candidates added ≡ cs = some_injective (ground (arith, found, e)) in
          (
            subst IsSorted same (sort-IsSorted added),
            (seen, (added, (found, subst (λ xs. Perm xs added) same (sort_candidates-perm added)))),
          )
    ]
