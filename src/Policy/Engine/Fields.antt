-- ===== src/Policy/Engine/Fields.antt =====
-- The fields of a classifier's dictionary: which values the engine reads, and which it refuses.
use safety_grounded_agent.Prelude.{
  ℕ, ◌≤◌, String, ◌≡◌, refl, inl, inr, Option, none, some, List, [], ◌∷◌, arith, All, Option-cases,
  ◌*◌, string_has_eq, eq_iff,
}
use safety_grounded_agent.Json.{pos, negsuc}
use safety_grounded_agent.Policy.Models.{PolicyStatus, safe, uncertain, blocked}
use safety_grounded_agent.Policy.Engine.{
  Value, bool_value, other_value, not_finite, text_value, int_value, float_value, list_value,
  millionths, Item, text_item, other_item, status_named, unit_confidence, all_texts, text_or,
  texts_or_empty, confidence_or,
}

-- `PolicyDecision.status` as the classifier spells it.
abbrev pub status_name : PolicyStatus → String
status_name safe = "SAFE"
status_name uncertain = "UNCERTAIN"
status_name blocked = "BLOCKED"

pub status_named-name : (st : PolicyStatus) → status_named (status_name st) ≡ some st
status_named-name safe = refl
status_named-name uncertain = refl
status_named-name blocked = refl

pub name_of_status :
    (s : String) (st : PolicyStatus) → status_named s ≡ some st → s ≡ status_name st
name_of_status s safe h = ground (arith, eq_iff s "SAFE", eq_iff s "UNCERTAIN", eq_iff s "BLOCKED")
name_of_status s uncertain h =
    ground (arith, eq_iff s "SAFE", eq_iff s "UNCERTAIN", eq_iff s "BLOCKED")
name_of_status s blocked h =
    ground (arith, eq_iff s "SAFE", eq_iff s "UNCERTAIN", eq_iff s "BLOCKED")

-- A number from 0 to 1 that is no Boolean.
abbrev pub IsUnit : Value → Type 0
IsUnit (int_value (pos n)) = n ≤ 1
IsUnit (float_value (millionths (pos n))) = n ≤ 1000000
IsUnit _ = ⊥

abbrev pub IsTextItem : Item → Type 0
IsTextItem (text_item s) = Unit
IsTextItem other_item = ⊥

abbrev pub IsText : Value → Type 0
IsText (text_value s) = Unit
IsText _ = ⊥

-- A list of texts and of nothing else.
abbrev pub IsTexts : Value → Type 0
IsTexts (list_value items) = All IsTextItem items
IsTexts _ = ⊥

abbrev pub MissingOr : (Value → Type 0) → Option Value → Type 0
MissingOr P none = Unit
MissingOr P (some v) = P v

pub unit-reads :
    (k : ℕ) (v : Option Value) → MissingOr IsUnit v → (c : ℕ) × (confidence_or k v ≡ some c)
unfolding unit_confidence
unit-reads k none m = (k, refl)
unit-reads k (some (int_value (pos n))) m = (1000000 * n, ground arith)
unit-reads k (some (float_value (millionths (pos n)))) m = (n, ground arith)
unit-reads k (some (text_value _)) m = elim m [ ]
unit-reads k (some (bool_value _)) m = elim m [ ]
unit-reads k (some (int_value (negsuc _))) m = elim m [ ]
unit-reads k (some (float_value (millionths (negsuc _)))) m = elim m [ ]
unit-reads k (some (float_value not_finite)) m = elim m [ ]
unit-reads k (some (list_value _)) m = elim m [ ]
unit-reads k (some other_value) m = elim m [ ]

pub IsUnit-valid :
    (k : ℕ) (v : Option Value) (c : ℕ)
    → confidence_or k v ≡ some c
    → k ≤ 1000000
    → MissingOr IsUnit v × (c ≤ 1000000)
unfolding unit_confidence
IsUnit-valid k none c h low = (tt, ground arith)
IsUnit-valid k (some (int_value (pos n))) c h low = (ground arith, ground arith)
IsUnit-valid k (some (float_value (millionths (pos n)))) c h low = (ground arith, ground arith)
IsUnit-valid k (some (int_value (negsuc n))) c h low = cc
IsUnit-valid k (some (float_value (millionths (negsuc n)))) c h low = cc
IsUnit-valid k (some (float_value not_finite)) c h low = cc
IsUnit-valid k (some (text_value s)) c h low = cc
IsUnit-valid k (some (bool_value b)) c h low = cc
IsUnit-valid k (some (list_value items)) c h low = cc
IsUnit-valid k (some other_value) c h low = cc

pub text-reads :
    (k : String) (v : Option Value) → MissingOr IsText v → (s : String) × (text_or k v ≡ some s)
text-reads k none m = (k, refl)
text-reads k (some (text_value s)) m = (s, refl)
text-reads k (some (bool_value _)) m = elim m [ ]
text-reads k (some (int_value _)) m = elim m [ ]
text-reads k (some (float_value _)) m = elim m [ ]
text-reads k (some (list_value _)) m = elim m [ ]
text-reads k (some other_value) m = elim m [ ]

pub IsText-valid :
    (k : String) (v : Option Value) (s : String) → text_or k v ≡ some s → MissingOr IsText v
IsText-valid k none s h = tt
IsText-valid k (some (text_value t)) s h = tt
IsText-valid k (some (int_value n)) s h = cc
IsText-valid k (some (float_value n)) s h = cc
IsText-valid k (some (bool_value b)) s h = cc
IsText-valid k (some (list_value items)) s h = cc
IsText-valid k (some other_value) s h = cc

all_texts-reads :
    (items : List Item) → All IsTextItem items → (ss : List String) × (all_texts items ≡ some ss)
all_texts-reads [] m = ([], unfold all_texts in refl)
all_texts-reads (other_item ∷ items) m = elim m.0 [ ]
all_texts-reads (text_item s ∷ items) (_, m) =
    let (ss, e) = all_texts-reads items m in (s ∷ ss, texts_step s items ss e)
  where
    texts_step :
        (s : String) (items : List Item) (ss : List String)
        → all_texts items ≡ some ss
        → all_texts (text_item s ∷ items) ≡ some (s ∷ ss)
    texts_step s items ss e = unfold all_texts in ground arith

all_texts-valid :
    (items : List Item) (ss : List String) → all_texts items ≡ some ss → All IsTextItem items
unfolding all_texts
all_texts-valid [] ss h = tt
all_texts-valid (text_item s ∷ items) ss h = elim (Option-cases (all_texts items)) [
  | inl missing ↦ absurd (ground arith)
  | inr (rest, e) ↦ (tt, all_texts-valid items rest e)
]
all_texts-valid (other_item ∷ items) ss h = cc

pub texts-reads :
    (v : Option Value) → MissingOr IsTexts v → (ss : List String) × (texts_or_empty v ≡ some ss)
texts-reads none m = ([], refl)
texts-reads (some (list_value items)) m = all_texts-reads items m
texts-reads (some (text_value _)) m = elim m [ ]
texts-reads (some (bool_value _)) m = elim m [ ]
texts-reads (some (int_value _)) m = elim m [ ]
texts-reads (some (float_value _)) m = elim m [ ]
texts-reads (some other_value) m = elim m [ ]

pub IsTexts-valid :
    (v : Option Value) (ss : List String) → texts_or_empty v ≡ some ss → MissingOr IsTexts v
IsTexts-valid none ss h = tt
IsTexts-valid (some (list_value items)) ss h = all_texts-valid items ss h
IsTexts-valid (some (text_value t)) s h = cc
IsTexts-valid (some (int_value n)) s h = cc
IsTexts-valid (some (float_value n)) s h = cc
IsTexts-valid (some (bool_value b)) s h = cc
IsTexts-valid (some other_value) s h = cc
