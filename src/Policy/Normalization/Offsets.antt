-- ===== src/Policy/Normalization/Offsets.antt =====
-- The offset lists of a normalised text whose characters each give one code point in lower case.
use safety_grounded_agent.Prelude.{
  ℕ, suc, zero, ◌+◌, ◌≤◌, ◌<◌, ◌≡◌, refl, Bool, true, false, some, List, [], ◌∷◌, ◌++◌, map, length,
  take, get_elem?, arith, All, Bool-cases, inl, inr, if◌then◌else◌, nat_eq, length-append, ◌∙◌, ap,
}
use safety_grounded_agent.Text.{Text}
use safety_grounded_agent.Policy.Normalization.{
  Unicode, NormalizedPolicyText, Indexed, characters_of, indices_of, compact_from, join, expand_one,
  expand, collapse, drop_last_space, normalized_characters, normalize_policy_text, max_raw_length,
  prepared, is_space_text, is_separator, is_zero_width, punctuation, is_single,
}

-- Each code point stands in the whole text at its offset.
abbrev pub Maps : Text → List ℕ → Text → Type 0
Maps [] [] whole = Unit
Maps (c ∷ cs) (i ∷ offsets) whole = (get_elem? whole i ≡ some c) × Maps cs offsets whole
Maps _ _ whole = ⊥

-- The offsets lead from the compact text into the normalised one, and from that into the raw one.
pub record IsAligned (text : NormalizedPolicyText) : Type 0 where
  pub compact_maps : Maps text.compact text.compact_to_normalized text.normalized
  pub raw_counted : length text.normalized ≡ length text.normalized_to_raw
  pub raw_pointing : All (λ i. i < length text.raw) text.normalized_to_raw

get_elem?-bound : (xs : Text) (i c : ℕ) → get_elem? xs i ≡ some c → i < length xs
get_elem?-bound [] i c h = cc
get_elem?-bound (x ∷ xs) zero c h = omega arith
get_elem?-bound (x ∷ xs) (suc i) c h = omega (arith, get_elem?-bound xs i c h)

pub Maps-counted :
    (cs : Text) (offsets : List ℕ) (whole : Text)
    → Maps cs offsets whole
    → length cs ≡ length offsets
Maps-counted [] [] whole m = omega arith
Maps-counted [] (i ∷ offsets) whole m = elim m [ ]
Maps-counted (c ∷ cs) [] whole m = elim m [ ]
Maps-counted (c ∷ cs) (i ∷ offsets) whole m = omega (arith, Maps-counted cs offsets whole m.1)

pub Maps-pointing :
    (cs : Text) (offsets : List ℕ) (whole : Text)
    → Maps cs offsets whole
    → All (λ i. i < length whole) offsets
Maps-pointing [] [] whole m = tt
Maps-pointing [] (i ∷ offsets) whole m = elim m [ ]
Maps-pointing (c ∷ cs) [] whole m = elim m [ ]
Maps-pointing (c ∷ cs) (i ∷ offsets) whole (at, m) =
    (get_elem?-bound whole i c at, Maps-pointing cs offsets whole m)

-- One code point that comes from a place below the bound.
abbrev IsEntry : ℕ → Text × ℕ → Type 0
IsEntry bound (character, i) = (length character ≡ 1) × (i < bound)

abbrev IsSingle : Text → Type 0
IsSingle character = length character ≡ 1

All-append :
    (bound : ℕ) (xs ys : Indexed)
    → All (IsEntry bound) xs
    → All (IsEntry bound) ys
    → All (IsEntry bound) (xs ++ ys)
All-append bound [] ys p q = q
All-append bound (x ∷ xs) ys (p, ps) q = (p, All-append bound xs ys ps q)

length-map : (f : ℕ → ℕ) (xs : Text) → length (map f xs) ≡ length xs
length-map f [] = omega arith
length-map f (x ∷ xs) = omega (arith, length-map f xs)

-- Dropping a last space keeps what holds of the entries.
drop_last-step :
    (bound : ℕ) (e f : Text × ℕ) (rest : Indexed)
    → All (IsEntry bound) (drop_last_space (f ∷ rest))
    → IsEntry bound e
    → All (IsEntry bound) (drop_last_space (e ∷ f ∷ rest))
drop_last-step bound e f rest entries entry = unfold drop_last_space in (entry, entries)

drop_last-entries :
    (bound : ℕ) (es : Indexed) → All (IsEntry bound) es → All (IsEntry bound) (drop_last_space es)
drop_last-entries bound [] entries = unfold drop_last_space in tt
drop_last-entries bound ((character, i) ∷ []) (entry, entries) =
    unfold drop_last_space in
    elim (Bool-cases (is_single character (λ c. nat_eq c 32))) [
      | inl holds ↦ rw holds tt
      | inr fails ↦ rw fails (entry, tt)
    ]
drop_last-entries bound (e ∷ f ∷ rest) (entry, entries) =
    drop_last-step bound e f rest (drop_last-entries bound (f ∷ rest) entries) entry

-- In lower case the code point, or the space that stands for a control character, is one code point.
abbrev pub LowersOne : Unicode → ℕ → Type 0
LowersOne u c = length (u.lower (if u.is_control c then 32 else c)) ≡ 1

-- So are all the code points that the text decomposes to. Of Python's only U+0130 is not.
abbrev pub LowersSingly : Unicode → Text → Type 0
LowersSingly u raw = All (λ c. All (LowersOne u) (u.nfkc c)) raw

module _ (u : Unicode) (bound : ℕ) where
  prepared-single : (c : ℕ) → LowersOne u c → length (prepared u c) ≡ 1
  prepared-single c one =
      let character = if u.is_control c then 32 else c in
      omega (arith, length-map punctuation (u.lower character), one)

  expand_one-step :
      (i c : ℕ) (cs : Text)
      → LowersOne u c
      → i < bound
      → All (IsEntry bound) (expand_one u i cs)
      → All (IsEntry bound) (expand_one u i (c ∷ cs))
  unfolding expand_one
  expand_one-step i c cs one low rest = elim (Bool-cases (is_zero_width c)) [
    | inl holds ↦ rw holds rest
    | inr fails ↦ rw fails ((prepared-single c one, low), rest)
  ]

  expand_one-entries :
      (i : ℕ) (cs : Text)
      → All (LowersOne u) cs
      → i < bound
      → All (IsEntry bound) (expand_one u i cs)
  expand_one-entries i [] ones low = unfold expand_one in tt
  expand_one-entries i (c ∷ cs) (one, ones) low =
      expand_one-step i c cs one low (expand_one-entries i cs ones low)

  expand-step :
      (i c : ℕ) (raw : Text)
      → All (LowersOne u) (u.nfkc c)
      → i < bound
      → All (IsEntry bound) (expand u (suc i) raw)
      → All (IsEntry bound) (expand u i (c ∷ raw))
  unfolding expand
  expand-step i c raw ones low rest =
      All-append bound (expand_one u i (u.nfkc c)) (expand u (suc i) raw)
        (expand_one-entries i (u.nfkc c) ones low) rest

  expand-entries :
      (i : ℕ) (raw : Text)
      → LowersSingly u raw
      → i + length raw ≤ bound
      → All (IsEntry bound) (expand u i raw)
  expand-entries i [] singly low = unfold expand in tt
  expand-entries i (c ∷ raw) (ones, singly) low =
      expand-step i c raw ones (omega arith) (expand-entries (suc i) raw singly (omega arith))

  collapse-step :
      (previous : Bool) (character : Text) (i : ℕ) (es : Indexed)
      → IsEntry bound (character, i)
      → All (IsEntry bound) (collapse u true es)
      → All (IsEntry bound) (collapse u false es)
      → All (IsEntry bound) (collapse u previous ((character, i) ∷ es))
  unfolding collapse
  collapse-step previous character i es entry after_space after_other =
      elim (Bool-cases (is_space_text u character)) [
        | inr other ↦ rw other (entry, after_other)
        | inl white ↦ elim (Bool-cases previous) [
          | inl again ↦ rw (white, again) after_space
          | inr first ↦ rw (white, first) ((refl, entry.1), after_space)
        ]
      ]

  collapse-entries :
      (previous : Bool) (es : Indexed)
      → All (IsEntry bound) es
      → All (IsEntry bound) (collapse u previous es)
  collapse-entries previous [] entries = unfold collapse in tt
  collapse-entries previous ((character, i) ∷ es) (entry, entries) =
      collapse-step previous character i es entry (collapse-entries true es entries)
        (collapse-entries false es entries)

length-join :
    (bound : ℕ) (es : Indexed)
    → All (IsEntry bound) es
    → length (join (characters_of es)) ≡ length (indices_of es)
unfolding join
length-join bound [] entries = omega arith
length-join bound ((character, i) ∷ es) ((single, low), entries) =
    omega (
      arith,
      length-append character (join (characters_of es)),
      length-join bound es entries,
      single,
    )

indices-bound :
    (bound : ℕ) (es : Indexed) → All (IsEntry bound) es → All (λ i. i < bound) (indices_of es)
indices-bound bound [] entries = tt
indices-bound bound ((character, i) ∷ es) ((single, low), entries) =
    (low, indices-bound bound es entries)

-- The compact text's part that comes from the characters from the place `i` on, which the whole text holds.
compact-step :
    (whole : Text) (i c : ℕ) (characters : List Text)
    → get_elem? whole i ≡ some c
    → (let rest = compact_from (suc i) characters in
        Maps (join (characters_of rest)) (indices_of rest) whole)
    → (let all = compact_from i ((c ∷ []) ∷ characters) in
        Maps (join (characters_of all)) (indices_of all) whole)
unfolding compact_from join
compact-step whole i c characters at rest = elim (Bool-cases (is_separator (c ∷ []))) [
  | inl holds ↦ rw holds rest
  | inr fails ↦ rw fails (at, rest)
]

join-single :
    (whole : Text) (i c : ℕ) (characters : List Text)
    → ((j : ℕ) → get_elem? whole (i + j) ≡ get_elem? (join ((c ∷ []) ∷ characters)) j)
    → (get_elem? whole i ≡ some c)
      × ((j : ℕ) → get_elem? whole (suc i + j) ≡ get_elem? (join characters) j)
unfolding join
join-single whole i c characters at = (
  ap (λ n. get_elem? whole n) (shift i) ∙ at 0,
  λ j. ap (λ n. get_elem? whole n) (past i j) ∙ at (suc j),
)
  where
    shift : (i : ℕ) → i ≡ i + 0
    shift i = omega arith

    past : (i j : ℕ) → suc i + j ≡ i + suc j
    past i j = omega arith

compact-Maps :
    (bound : ℕ) (whole : Text) (i : ℕ) (es : Indexed)
    → All (IsEntry bound) es
    → ((j : ℕ) → get_elem? whole (i + j) ≡ get_elem? (join (characters_of es)) j)
    → (let all = compact_from i (characters_of es) in
        Maps (join (characters_of all)) (indices_of all) whole)
compact-Maps bound whole i [] entries at = unfold compact_from join in tt
compact-Maps bound whole i (([], k) ∷ es) ((single, low), entries) at =
    absurd (omega (arith, single))
compact-Maps bound whole i ((c ∷ d ∷ cs, k) ∷ es) ((single, low), entries) at =
    absurd (omega (arith, single))
compact-Maps bound whole i ((c ∷ [], k) ∷ es) ((single, low), entries) at =
    let (here, later) = join-single whole i c (characters_of es) at in
    compact-step whole i c (characters_of es) here
      (compact-Maps bound whole (suc i) es entries later)

whole-Maps :
    (bound : ℕ) (es : Indexed)
    → All (IsEntry bound) es
    → (let all = compact_from 0 (characters_of es) in
        Maps (join (characters_of all)) (indices_of all) (join (characters_of es)))
whole-Maps bound es entries =
    compact-Maps bound (join (characters_of es)) 0 es entries
      (λ j. ap (λ n. get_elem? (join (characters_of es)) n) (from_zero j))
  where
    from_zero : (j : ℕ) → 0 + j ≡ j
    from_zero j = omega arith

normalized-entries :
    (u : Unicode) (raw : Text)
    → LowersSingly u raw
    → All (IsEntry (length raw)) (normalized_characters u raw)
unfolding normalized_characters
normalized-entries u raw singly =
    drop_last-entries (length raw) (collapse u true (expand u 0 raw)) (
      collapse-entries u (length raw) true (expand u 0 raw)
        (expand-entries u (length raw) 0 raw singly (omega arith)))

-- Where each code point that the text, cut to its length limit, decomposes to is one code point in lower case
-- too, the offsets of the normalised text are aligned: each code point of the compact text stands at
-- its offset in the normalised text, and each code point of that has an offset inside the raw
-- text.
pub normalize-IsAligned :
    (u : Unicode) (value : Text)
    → LowersSingly u (take max_raw_length value)
    → IsAligned (normalize_policy_text u value)
unfolding normalize_policy_text
normalize-IsAligned u value singly =
    let raw = take max_raw_length value in
    let bound = length raw in
    let kept = normalized_characters u raw in
    let entries = normalized-entries u raw singly in
    record {
      compact_maps = whole-Maps bound kept entries;
      raw_counted = length-join bound kept entries;
      raw_pointing = indices-bound bound kept entries;
    }
