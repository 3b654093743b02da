-- ===== src/Authorization/Members.antt =====
-- The sorted sets of texts: what is in them.
use mathlib.Core.Path.{subst}
use safety_grounded_agent.Prelude.{
  String, ◌≡◌, refl, sym, ◌↔◌, ◌⊎◌, inl, inr, true, false, List, [], ◌∷◌, any, arith, Any, here,
  there, Bool-cases, ◌∙◌, ◌==◌, string_has_eq, eq_iff,
}
use Prim.Native.String.{compare}
use Prim.Native.Nat.{Ordering}
use safety_grounded_agent.Authorization.Models.{put_sorted}

-- The text is in the list.
abbrev pub Mem : String → List String → Type 0
Mem p = Any (λ q. q ≡ p)

mem_cons : (p q : String) (qs : List String) → Mem p (q ∷ qs) → (q ≡ p) ⊎ Mem p qs
mem_cons p q qs (here same) = inl same
mem_cons p q qs (there later) = inr later

put_sorted_same :
    (p q : String) (qs : List String) → (p == q) ≡ true → put_sorted p (q ∷ qs) ≡ q ∷ qs
unfolding put_sorted
put_sorted_same p q qs same = rw same

-- A new text stands before or behind another one.
put_sorted_cases :
    (p q : String) (qs : List String)
    → (p == q) ≡ false
    → (put_sorted p (q ∷ qs) ≡ p ∷ q ∷ qs) ⊎ (put_sorted p (q ∷ qs) ≡ q ∷ put_sorted p qs)
put_sorted_cases p q qs other = placed (compare p q) refl
  where
    placed :
        (o : Ordering)
        → compare p q ≡ o
        → (put_sorted p (q ∷ qs) ≡ p ∷ q ∷ qs) ⊎ (put_sorted p (q ∷ qs) ≡ q ∷ put_sorted p qs)
    placed Ordering.lt e = inl (unfold put_sorted in rw (other, e) refl)
    placed Ordering.eq e = inr (unfold put_sorted in rw (other, e) refl)
    placed Ordering.gt e = inr (unfold put_sorted in rw (other, e) refl)

put_sorted-Mem_to : (p x : String) (qs : List String) → Mem x (put_sorted p qs) → (p ≡ x) ⊎ Mem x qs
put_sorted-Mem_to p x [] m = mem_cons x p [] (unfold put_sorted in m)
put_sorted-Mem_to p x (q ∷ qs) m = elim (Bool-cases (p == q)) [
  | inl same ↦ inr (subst (Mem x) (put_sorted_same p q qs same) m)
  | inr other ↦ elim (put_sorted_cases p q qs other) [
    | inl before ↦ mem_cons x p (q ∷ qs) (subst (Mem x) before m)
    | inr behind ↦ elim (mem_cons x q (put_sorted p qs) (subst (Mem x) behind m)) [
      | inl first ↦ inr (here first)
      | inr later ↦ elim (put_sorted-Mem_to p x qs later) [
        | inl new ↦ inl new
        | inr old ↦ inr (there old)
      ]
    ]
  ]
]

put_sorted-Mem_from :
    (p x : String) (qs : List String) → (p ≡ x) ⊎ Mem x qs → Mem x (put_sorted p qs)
put_sorted-Mem_from p x [] (inl new) = unfold put_sorted in here new
put_sorted-Mem_from p x [] (inr old) = elim old [ ]
put_sorted-Mem_from p x (q ∷ qs) m = elim (Bool-cases (p == q)) [
  | inl same ↦ subst (Mem x) (sym (put_sorted_same p q qs same)) (known ((eq_iff p q).0 same) m)
  | inr other ↦ elim (put_sorted_cases p q qs other) [
    | inl before ↦ subst (Mem x) (sym before) (first m)
    | inr behind ↦ subst (Mem x) (sym behind) (later m (put_sorted-Mem_from p x qs))
  ]
]
  where
    known : p ≡ q → (p ≡ x) ⊎ Mem x (q ∷ qs) → Mem x (q ∷ qs)
    known same (inl new) = here (sym same ∙ new)
    known same (inr old) = old

    first : (p ≡ x) ⊎ Mem x (q ∷ qs) → Mem x (p ∷ q ∷ qs)
    first (inl new) = here new
    first (inr old) = there old

    later :
        (p ≡ x) ⊎ Mem x (q ∷ qs)
        → ((p ≡ x) ⊎ Mem x qs → Mem x (put_sorted p qs))
        → Mem x (q ∷ put_sorted p qs)
    later (inl new) rest = there (rest (inl new))
    later (inr (here same)) rest = here same
    later (inr (there old)) rest = there (rest (inr old))

-- A set holds a value after it was put in, and what it held before, and nothing else.
pub put_sorted-Mem :
    (p x : String) (qs : List String) → Mem x (put_sorted p qs) ↔ ((p ≡ x) ⊎ Mem x qs)
put_sorted-Mem p x qs = (put_sorted-Mem_to p x qs, put_sorted-Mem_from p x qs)

-- The test for membership is exact.
pub any-Mem : (x : String) (qs : List String) → (any (λ q. q == x) qs ≡ true) ↔ Mem x qs
any-Mem x qs = (to qs, from qs)
  where
    to : (qs : List String) → any (λ q. q == x) qs ≡ true → Mem x qs
    to [] h = cc
    to (q ∷ qs) h = elim (Bool-cases (q == x)) [
      | inl same ↦ here ((eq_iff q x).0 same)
      | inr other ↦ there (to qs (ground arith))
    ]

    from : (qs : List String) → Mem x qs → any (λ q. q == x) qs ≡ true
    from [] none_there = elim none_there [ ]
    from (q ∷ qs) (here same) = ground (arith, (eq_iff q x).1 same)
    from (q ∷ qs) (there later) = ground (arith, from qs later)
