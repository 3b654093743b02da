-- ===== src/Policy/Normalization.antt =====
-- src/conversation_agent/policy/normalization.py. A character of the lists below is a text: what
-- `lower` returns may be longer than one code point.
pub mod Offsets
use safety_grounded_agent.Prelude.{
  ℕ, suc, zero, ◌+◌, Bool, true, false, not, ◌&&◌, ◌||◌, Option, none, some, List, [], ◌∷◌, ◌++◌,
  map, any, nat_eq, length, take, if◌then◌else◌,
}
use safety_grounded_agent.Text.{Text}

-- What the code takes from `unicodedata` and from the methods of `str`, on one code point.
pub record Unicode : Type 0 where
  pub nfkc : ℕ → Text
  -- `unicodedata.category(character).startswith("C")`
  pub is_control : ℕ → Bool
  pub lower : ℕ → Text
  pub is_space : ℕ → Bool
  pub casefold : Text → Text

pub record NormalizedPolicyText : Type 0 where
  pub raw : Text
  pub normalized : Text
  pub compact : Text
  pub normalized_to_raw : List ℕ
  pub compact_to_normalized : List ℕ

abbrev pub max_raw_length : ℕ
max_raw_length = 20000

-- `_ZERO_WIDTH`
abbrev is_zero_width : ℕ → Bool
is_zero_width c = any (λ z. nat_eq c z) (0x200b ∷ 0x200c ∷ 0x200d ∷ 0x2060 ∷ 0xfeff ∷ [])

-- `_PUNCTUATION`: full-width marks become their plain forms.
abbrev punctuation : ℕ → ℕ
punctuation c =
    if nat_eq c 0xff0c
    then b','
    else if nat_eq c 0x3002
    then b'.'
    else if nat_eq c 0xff01
    then b'!'
    else if nat_eq c 0xff1f
    then b'?'
    else if nat_eq c 0xff1b
    then b';'
    else if nat_eq c 0xff1a
    then b':'
    else if nat_eq c 0xff08
    then b'('
    else if nat_eq c 0xff09
    then b')'
    else c

abbrev pub space : Text
space = 32 ∷ []

-- A character with the index that it comes from.
abbrev pub Indexed : Type 0
Indexed = List (Text × ℕ)

abbrev pub is_single : Text → (ℕ → Bool) → Bool
is_single (c ∷ []) test = test c
is_single _ test = false

-- `character in _COMPACT_SEPARATORS`
abbrev is_separator : Text → Bool
is_separator character =
    is_single character (λ c. any (λ s. nat_eq c s) (32 ∷ 9 ∷ 13 ∷ 10 ∷ 0xb7 ∷ 0x30fb ∷ b'_' ∷ []))

-- `[character for character in characters if character not in _COMPACT_SEPARATORS]`, each with its
-- index.
unfoldable pub compact_from : ℕ → List Text → Indexed
compact_from i [] = []
compact_from i (character ∷ characters) =
    let rest = compact_from (suc i) characters in
    if is_separator character then rest else (character, i) ∷ rest

-- `"".join(characters)`
unfoldable pub join : List Text → Text
join [] = []
join (character ∷ characters) = character ++ join characters

abbrev pub characters_of : Indexed → List Text
characters_of = map (λ e. e.0)

abbrev pub indices_of : Indexed → List ℕ
indices_of = map (λ e. e.1)

-- The last element goes if it is a space.
unfoldable pub drop_last_space : Indexed → Indexed
drop_last_space [] = []
drop_last_space ((character, i) ∷ []) =
    if is_single character (λ c. nat_eq c 32) then [] else (character, i) ∷ []
drop_last_space (e ∷ f ∷ rest) = e ∷ drop_last_space (f ∷ rest)

module _ (u : Unicode) where
  -- `character.isspace()`: no character, or one that is no space, makes it false.
  unfoldable pub all_space : Text → Bool
  all_space [] = true
  all_space (c ∷ cs) = u.is_space c && all_space cs

  abbrev pub is_space_text : Text → Bool
  is_space_text [] = false
  is_space_text (c ∷ cs) = all_space (c ∷ cs)

  -- `character.lower().translate(_PUNCTUATION)`, for a space in place of a control character.
  abbrev pub prepared : ℕ → Text
  prepared c = map punctuation (u.lower (if u.is_control c then 32 else c))

  -- The inner loop, over what one raw character decomposes to.
  unfoldable pub expand_one : ℕ → Text → Indexed
  expand_one i [] = []
  expand_one i (c ∷ cs) =
      let rest = expand_one i cs in if is_zero_width c then rest else (prepared c, i) ∷ rest

  -- The outer loop.
  unfoldable pub expand : ℕ → Text → Indexed
  unfolding expand_one
  expand i [] = []
  expand i (c ∷ raw) = expand_one i (u.nfkc c) ++ expand (suc i) raw

  -- The second loop: runs of white space become one space, and none stands first.
  unfoldable pub collapse : Bool → Indexed → Indexed
  unfolding all_space
  collapse previous_space [] = []
  collapse previous_space ((character, i) ∷ rest) =
      let after_space = collapse true rest in
      let after_other = collapse false rest in
      if is_space_text character
      then if previous_space then after_space else (space, i) ∷ after_space
      else (character, i) ∷ after_other

  unfoldable pub normalized_characters : Text → Indexed
  unfolding expand collapse drop_last_space
  normalized_characters raw = drop_last_space (collapse true (expand 0 raw))

  unfoldable pub normalize_policy_text : Text → NormalizedPolicyText
  unfolding normalized_characters compact_from join
  normalize_policy_text value =
      let raw = take max_raw_length value in
      let kept = normalized_characters raw in
      let compacted = compact_from 0 (characters_of kept) in
      record {
        raw = raw;
        normalized = join (characters_of kept);
        compact = join (characters_of compacted);
        normalized_to_raw = indices_of kept;
        compact_to_normalized = indices_of compacted;
      }
