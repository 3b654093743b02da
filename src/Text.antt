-- ===== src/Text.antt =====
-- Python's `str` as its code points, with the methods that the policy code calls.
pub mod Search
use Prim.Native.Char.{code}
use Prim.Native.String
use safety_grounded_agent.Prelude.{
  ℕ, suc, zero, ◌+◌, ◌-◌, String, Bool, true, false, ◌&&◌, Option, none, some, List, [], ◌∷◌, ◌++◌,
  leb, nat_eq, length, take, drop, if◌then◌else◌, is_some, ◌≡◌, refl, ◌↔◌, arith, Eq,
}

abbrev pub Text : Type 0
Text = List ℕ

-- The code points of a literal.
abbrev pub codes : String → Text
codes String.[] = []
codes (String.◌∷◌ c s) = code c ∷ codes s

-- `text.startswith(needle)`
abbrev pub starts_with : Text → Text → Bool
starts_with [] text = true
starts_with (c ∷ needle) [] = false
starts_with (c ∷ needle) (d ∷ text) = nat_eq c d && starts_with needle text

-- The first place, counted from `i`, where the needle stands.
unfoldable pub find_at : Text → Text → ℕ → Option ℕ
find_at needle [] i = elim needle [ [] ↦ some i | _ ∷ _ ↦ none ]
find_at needle (c ∷ text) i =
    let rest = find_at needle text (suc i) in if starts_with needle (c ∷ text) then some i else rest

-- `text.find(needle, start)`; `none` stands for -1.
unfoldable pub find : Text → Text → ℕ → Option ℕ
unfolding find_at
find text needle start =
    if leb start (length text) then find_at needle (drop start text) start else none

unfoldable pub rfind_at : Text → Text → ℕ → Option ℕ
rfind_at needle [] i = elim needle [ [] ↦ some i | _ ∷ _ ↦ none ]
rfind_at needle (c ∷ text) i = elim (rfind_at needle text (suc i)) [
  | some j ↦ some j
  | none ↦ if starts_with needle (c ∷ text) then some i else none
]

-- `text.rfind(needle, 0, stop)`
unfoldable pub rfind : Text → Text → ℕ → Option ℕ
unfolding rfind_at
rfind text needle stop = rfind_at needle (take stop text) 0

-- `text[start:end]`
abbrev pub slice : Text → ℕ → ℕ → Text
slice text start stop = take (stop - start) (drop start text)

-- `needle in text`
unfoldable pub contains : Text → Text → Bool
unfolding find_at
contains text needle = is_some (find_at needle text 0)

unfoldable pub text_eq : Text → Text → Bool
text_eq [] [] = true
text_eq (c ∷ a) (d ∷ b) = nat_eq c d && text_eq a b
text_eq _ _ = false

-- The loop `while (index := text.find(needle, cursor)) >= 0`, which goes on behind each find.
unfoldable pub all_from : ℕ → Text → Text → ℕ → List ℕ
unfolding find
all_from zero text needle cursor = []
all_from (suc fuel) text needle cursor = elim (find text needle cursor) [
  | none ↦ []
  | some i ↦ i ∷ all_from fuel text needle (suc i)
]

-- Every place, in order, where the needle stands: the reading that the loops are held against.
unfoldable pub positions : Text → Text → ℕ → List ℕ
positions needle [] i = []
positions needle (c ∷ text) i =
    let rest = positions needle text (suc i) in
    if starts_with needle (c ∷ text) then i ∷ rest else rest

text_eq_refl : (b : Text) → text_eq b b ≡ true
unfolding text_eq
text_eq_refl [] = refl
text_eq_refl (c ∷ b) = ground (arith, text_eq_refl b)

eq_of_text_eq : (a b : Text) → text_eq a b ≡ true → a ≡ b
unfolding text_eq
eq_of_text_eq [] [] h = refl
eq_of_text_eq [] (d ∷ b) h = cc
eq_of_text_eq (c ∷ a) [] h = cc
eq_of_text_eq (c ∷ a) (d ∷ b) h = ground (arith, eq_of_text_eq a b)

pub text_eq_iff : (a b : Text) → (text_eq a b ≡ true) ↔ (a ≡ b)
text_eq_iff a b = (eq_of_text_eq a b, λ h. rw h (text_eq_refl b))

instance abbrev pub text_has_eq : Eq Text
text_has_eq = record { equal = text_eq; agrees = text_eq_iff }
