-- ===== src/Api.antt =====
-- src/conversation_agent/api/idempotency.py: the key of a request, read from its raw headers. Names and
-- values are lists of bytes.
pub mod Grammar
mod Tests
use safety_grounded_agent.Prelude.{
  ℕ, ◌+◌, String, Bool, ◌&&◌, ◌||◌, Option, none, some, List, [], ◌∷◌, any, map, length, leb, ltb,
  nat_eq, if◌then◌else◌,
}
use safety_grounded_agent.Text.{codes, text_eq}

abbrev pub Bytes : Type 0
Bytes = List ℕ

pub record IdempotencyKeyParser : Type 0 where
  pub max_bytes : ℕ

-- `IdempotencyKeyParser(max_bytes=…)`; `none` is the `ValueError`.
unfoldable pub idempotency_key_parser : ℕ → Option IdempotencyKeyParser
idempotency_key_parser max_bytes =
    if ltb 0 max_bytes then some (record { max_bytes = max_bytes }) else none

-- What `parse` comes to: no key, a `ParsedIdempotencyKey` with its value and its length, or an
-- `IdempotencyHTTPError` with its code, whose status code is 400.
pub data Parsed : Type 0 where
  no_key : Parsed
  parsed_key : Bytes → ℕ → Parsed
  http_error : String → Parsed

-- `bytes.lower()`
abbrev lower : Bytes → Bytes
lower name = map (λ b. if leb 65 b && leb b 90 then b + 32 else b) name

-- The values of the headers of this name.
unfoldable pub values : List (Bytes × Bytes) → List Bytes
unfolding text_eq
values [] = []
values ((name, value) ∷ headers) =
    let rest = values headers in
    if text_eq (lower name) (codes "idempotency-key") then value ∷ rest else rest

abbrev pub is_blank : ℕ → Bool
is_blank b = nat_eq b 32 || nat_eq b 9

unfoldable pub strip_left : Bytes → Bytes
strip_left [] = []
strip_left (b ∷ raw) = let rest = strip_left raw in if is_blank b then rest else b ∷ raw

unfoldable pub strip_right : Bytes → Bytes
strip_right [] = []
strip_right (b ∷ raw) = elim (strip_right raw) [
  | [] ↦ if is_blank b then [] else b ∷ []
  | c ∷ rest ↦ b ∷ c ∷ rest
]

-- `value.strip(b" \t")`
abbrev pub strip : Bytes → Bytes
strip raw = strip_right (strip_left raw)

-- `byte < 0x21 or byte > 0x7E`
abbrev pub is_hidden : ℕ → Bool
is_hidden b = ltb b 33 || ltb 126 b

-- `raw.decode("ascii")`; `none` is the `UnicodeDecodeError`.
abbrev pub decode : Bytes → Option Bytes
decode raw = if any (λ b. leb 128 b) raw then none else some raw

abbrev decoded : Bytes → Parsed
decoded raw = elim (decode raw) [
  | none ↦ http_error "invalid_idempotency_key"
  | some value ↦ parsed_key value (length raw)
]

unfoldable pub parse_value : IdempotencyKeyParser → Bytes → Parsed
parse_value parser [] = http_error "invalid_idempotency_key"
parse_value parser (b ∷ raw) =
    if ltb parser.max_bytes (length (b ∷ raw))
    then http_error "idempotency_key_too_long"
    else if any is_hidden (b ∷ raw)
    then http_error "invalid_idempotency_key"
    else decoded (b ∷ raw)

-- `parse`
unfoldable pub parse : IdempotencyKeyParser → List (Bytes × Bytes) → Parsed
unfolding parse_value strip_left strip_right values
parse parser raw_headers = elim (values raw_headers) [
  | [] ↦ no_key
  | value ∷ [] ↦ parse_value parser (strip value)
  | _ ∷ _ ∷ _ ↦ http_error "duplicate_idempotency_key"
]
