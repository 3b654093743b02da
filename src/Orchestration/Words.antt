-- ===== src/Orchestration/Words.antt =====
-- The text methods that the coordinator calls (src/conversation_agent/orchestration/coordinator.py).
use Prim.Native.String.{◌++◌ as append}
use safety_grounded_agent.Prelude.{
  ℕ, suc, zero, ◌-◌, String, Bool, ◌&&◌, ◌||◌, Option, none, some, List, [], ◌∷◌, ◌++◌, length,
  take, leb, if◌then◌else◌, nat_eq,
}
use safety_grounded_agent.Text.{Text, codes, starts_with}

-- `a + b`
infixl 20 ◌⊕◌
abbrev pub ◌⊕◌ : String → String → String
a ⊕ b = append a b

-- `separator.join(parts)`
abbrev pub join : String → List String → String
join separator [] = ""
join separator (s ∷ []) = s
join separator (s ∷ t ∷ parts) = s ⊕ separator ⊕ join separator (t ∷ parts)

-- What comes before the first white space, and the words after it; the word so far is put in front.
abbrev push_word : Text → List Text → List Text
push_word [] found = found
push_word (c ∷ word) found = (c ∷ word) ∷ found

-- `text.split()`, with the word that is being read.
unfoldable pub split_from : (ℕ → Bool) → Text → Text → List Text
split_from is_space word [] = push_word word []
split_from is_space word (c ∷ text) =
    let ended = push_word word (split_from is_space [] text) in
    let longer = split_from is_space (word ++ c ∷ []) text in if is_space c then ended else longer

abbrev join_texts : List Text → Text
join_texts [] = []
join_texts (w ∷ []) = w
join_texts (w ∷ v ∷ words) = w ++ codes " " ++ join_texts (v ∷ words)

-- `_compact(text)`
unfoldable pub compact : (ℕ → Bool) → Text → Text
unfolding split_from
compact is_space text =
    let words = join_texts (split_from is_space [] text) in
    if leb (length words) 80 then words else take 79 words ++ codes "..."

-- `text.replace(needle, "")`, where so many code points of a match are still to be passed over.
unfoldable pub remove : Text → ℕ → Text → Text
remove needle skip [] = []
remove needle (suc skip) (c ∷ text) = remove needle skip text
remove needle zero (c ∷ text) =
    let passed = remove needle (length needle - 1) text in
    let kept = remove needle zero text in if starts_with needle (c ∷ text) then passed else c ∷ kept

abbrev between : ℕ → ℕ → ℕ → Bool
between low high c = leb low c && leb c high

-- `[a-zA-Z0-9_\-]`
abbrev is_id_char : ℕ → Bool
is_id_char c =
    between 97 122 c || (between 65 90 c || (between 48 57 c || (nat_eq c 95 || nat_eq c 45)))

-- `re.search(r"[a-zA-Z0-9_\-]{3,}", text)`: the first run of at least three, with the run so far.
unfoldable pub find_id : Text → Text → Option Text
find_id run [] = if leb 3 (length run) then some run else none
find_id run (c ∷ text) =
    let longer = find_id (run ++ c ∷ []) text in
    let anew = find_id [] text in
    if is_id_char c then longer else if leb 3 (length run) then some run else anew
