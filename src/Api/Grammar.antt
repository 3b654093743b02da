-- ===== src/Api/Grammar.antt =====
-- Which headers hold a key, said as a grammar.
use mathlib.Core.Path.{subst}
use safety_grounded_agent.Prelude.{
  ℕ, ◌≤◌, true, false, List, [], ◌∷◌, ◌++◌, ◌≡◌, ◌≢◌, refl, sym, ap, ◌∙◌, ◌↔◌, ◌⊎◌, inl, inr, arith,
  any, leb, Bool-cases, length, All,
}
use safety_grounded_agent.Api.{
  Bytes, IdempotencyKeyParser, parsed_key, values, is_blank, strip_left, strip_right, strip,
  is_hidden, parse_value, parse,
}

abbrev pub IsBlank : ℕ → Type 0
IsBlank b = is_blank b ≡ true

abbrev pub IsVisible : ℕ → Type 0
IsVisible b = (33 ≤ b) × (b ≤ 126)

-- A value that is the key with spaces and tabs around it.
abbrev pub Surrounds : Bytes → Bytes → Type 0
Surrounds key raw =
    (before : Bytes) × ((after : Bytes) × (raw ≡ before ++ (key ++ after))
      × All IsBlank before
      × All IsBlank after)

list_cases : (raw : Bytes) → (raw ≡ []) ⊎ ((b : ℕ) × ((rest : Bytes) × (raw ≡ b ∷ rest)))
list_cases [] = inl refl
list_cases (b ∷ rest) = inr (b, (rest, refl))

-- Stripping takes blanks away on the left, and nothing else.
strip_left_split :
    (raw : Bytes) → (before : Bytes) × (raw ≡ before ++ strip_left raw) × All IsBlank before
unfolding strip_left
strip_left_split [] = ([], refl, tt)
strip_left_split (b ∷ raw) =
    let (before, e, blank) = strip_left_split raw in
    elim (Bool-cases (is_blank b)) [
      | inl h ↦ (b ∷ before, ground (arith, h, e), (h, blank))
      | inr h ↦ ([], ground (arith, h), tt)
    ]

-- And blanks on the right.
strip_right_split :
    (raw : Bytes) → (after : Bytes) × (raw ≡ strip_right raw ++ after) × All IsBlank after
unfolding strip_right
strip_right_split [] = ([], refl, tt)
strip_right_split (b ∷ raw) =
    let (after, e, blank) = strip_right_split raw in
    elim (list_cases (strip_right raw)) [
      | inl nothing ↦ elim (Bool-cases (is_blank b)) [
        | inl h ↦ (b ∷ after, ground (arith, h, e, nothing), (h, blank))
        | inr h ↦ (after, ground (arith, h, e, nothing), blank)
      ]
      | inr (c, (rest, some_left)) ↦ (after, ground (arith, e, some_left), blank)
    ]

visible-not_blank : (b : ℕ) → IsVisible b → is_blank b ≡ false
visible-not_blank b v = ground arith

strip_left-key :
    (before : Bytes) (b : ℕ) (rest : Bytes)
    → All IsBlank before
    → IsVisible b
    → strip_left (before ++ b ∷ rest) ≡ b ∷ rest
unfolding strip_left
strip_left-key [] b rest blank v = ground (arith, visible-not_blank b v)
strip_left-key (c ∷ before) b rest (h, blank) v =
    ground (arith, h, strip_left-key before b rest blank v)

strip_right-blank : (after : Bytes) → All IsBlank after → strip_right after ≡ []
unfolding strip_right
strip_right-blank [] blank = refl
strip_right-blank (b ∷ after) (h, blank) = ground (arith, h, strip_right-blank after blank)

strip_right-key :
    (key after : Bytes) → All IsVisible key → All IsBlank after → strip_right (key ++ after) ≡ key
unfolding strip_right
strip_right-key [] after visible blank = strip_right-blank after blank
strip_right-key (b ∷ []) after (v, visible) blank =
    ground (arith, visible-not_blank b v, strip_right-blank after blank)
strip_right-key (b ∷ c ∷ key) after (v, visible) blank =
    ground (arith, strip_right-key (c ∷ key) after visible blank)

-- What is left by stripping is surrounded by blanks.
strip-Surrounds : (raw : Bytes) → Surrounds (strip raw) raw
strip-Surrounds raw =
    let (before, e, left) = strip_left_split raw in
    let (after, e', right) = strip_right_split (strip_left raw) in
    (before, (after, e ∙ ap (λ (rest : Bytes). before ++ rest) e', left, right))

-- Of a visible key and blanks around it, stripping leaves the key.
strip-key : (key raw : Bytes) → key ≢ [] → All IsVisible key → Surrounds key raw → strip raw ≡ key
strip-key [] raw some_key visible around = elim (some_key refl) [ ]
strip-key (b ∷ key) raw some_key visible (before, (after, e, left, right)) =
    ap strip e
    ∙ ap strip_right (strip_left-key before b (key ++ after) left visible.0)
    ∙ strip_right-key (b ∷ key) after visible right

is_hidden-IsVisible : (b : ℕ) → is_hidden b ≡ false → IsVisible b
is_hidden-IsVisible b h = (ground arith, ground arith)

any_hidden-IsVisible : (key : Bytes) → any is_hidden key ≡ false → All IsVisible key
any_hidden-IsVisible [] h = tt
any_hidden-IsVisible (b ∷ key) h = elim (Bool-cases (is_hidden b)) [
  | inl hidden ↦ ground (arith, hidden, h)
  | inr shown ↦ (is_hidden-IsVisible b shown, any_hidden-IsVisible key (ground (arith, shown, h)))
]

visible-any : (key : Bytes) → All IsVisible key → any is_hidden key ≡ false
visible-any [] visible = refl
visible-any (b ∷ key) (v, visible) = ground (arith, visible-any key visible)

visible-ascii : (key : Bytes) → All IsVisible key → any (λ b. leb 128 b) key ≡ false
visible-ascii [] visible = refl
visible-ascii (b ∷ key) (v, visible) = ground (arith, visible-ascii key visible)

-- What the test of a stripped value accepts.
record IsAccepted (parser : IdempotencyKeyParser) (key : Bytes) (n : ℕ) : Type 0 where
  pub holds_some : key ≢ []
  pub fits : length key ≤ parser.max_bytes
  pub visible : All IsVisible key
  pub counted : n ≡ length key

parse_value_sound :
    (parser : IdempotencyKeyParser) (raw key : Bytes) (n : ℕ)
    → parse_value parser raw ≡ parsed_key key n
    → (raw ≡ key) × IsAccepted parser key n
unfolding parse_value
parse_value_sound parser [] key n h = ground (arith, h)
parse_value_sound parser (b ∷ raw) key n h = elim (Bool-cases (any is_hidden (b ∷ raw))) [
  | inl hidden ↦ ground (arith, hidden, h)
  | inr shown ↦
      let visible = any_hidden-IsVisible (b ∷ raw) shown in
      let ascii = visible-ascii (b ∷ raw) visible in
      let same : b ∷ raw ≡ key = ground (arith, shown, h, ascii) in
      (
        same,
        record {
          holds_some = ground (arith, same);
          fits = ground (arith, shown, h, ascii);
          visible = subst (All IsVisible) same visible;
          counted = ground (arith, shown, h, ascii);
        },
      )
]

parse_value_complete :
    (parser : IdempotencyKeyParser) (key : Bytes) (n : ℕ)
    → IsAccepted parser key n
    → parse_value parser key ≡ parsed_key key n
unfolding parse_value
parse_value_complete parser [] n a = elim (a.holds_some refl) [ ]
parse_value_complete parser (b ∷ key) n a =
    ground
      (arith, a.fits, a.counted, visible-any (b ∷ key) a.visible, visible-ascii (b ∷ key) a.visible)

values_cases :
    (vs : List Bytes)
    → (vs ≡ [])
      ⊎ ((raw : Bytes) × (vs ≡ raw ∷ []))
      ⊎ ((raw : Bytes) × ((other : Bytes) × ((more : List Bytes) × (vs ≡ raw ∷ other ∷ more))))
values_cases [] = inl refl
values_cases (raw ∷ []) = inr (inl (raw, refl))
values_cases (raw ∷ other ∷ more) = inr (inr (raw, (other, (more, refl))))

parse-one :
    (parser : IdempotencyKeyParser) (headers : List (Bytes × Bytes)) (raw : Bytes)
    → values headers ≡ raw ∷ []
    → parse parser headers ≡ parse_value parser (strip raw)
unfolding parse
parse-one parser headers raw e = ground (arith, e)

-- Headers give a key exactly when one of them alone is named for it, ignoring case, and its value is that
-- key with spaces and tabs around it; the key is not empty, no longer than the parser allows, and
-- has visible ASCII alone, and the length given is its own.
pub parse_iff :
    (parser : IdempotencyKeyParser) (headers : List (Bytes × Bytes)) (key : Bytes) (n : ℕ)
    → (parse parser headers ≡ parsed_key key n) ↔ (
        ((raw : Bytes) × (values headers ≡ raw ∷ []) × Surrounds key raw)
        × (key ≢ [])
        × (length key ≤ parser.max_bytes)
        × All IsVisible key
        × (n ≡ length key))
unfolding parse
parse_iff parser headers key n = (
  λ h. elim (values_cases (values headers)) [
    | inl e ↦ ground (arith, e, h)
    | inr (inr (raw, (other, (more, e)))) ↦ ground (arith, e, h)
    | inr (inl (raw, e)) ↦
        let (same, a) =
          parse_value_sound parser (strip raw) key n (sym (parse-one parser headers raw e) ∙ h) in
        (
          (raw, e, subst (λ k. Surrounds k raw) same (strip-Surrounds raw)),
          a.holds_some,
          a.fits,
          a.visible,
          a.counted,
        )
  ],
  λ ((raw, e, around), some_key, fits, visible, counted).
      parse-one parser headers raw e
      ∙ ap (parse_value parser) (strip-key key raw some_key visible around)
      ∙ parse_value_complete parser key n
          (record { holds_some = some_key; fits = fits; visible = visible; counted = counted }),
)
