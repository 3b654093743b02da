-- ===== src/Api/Tests.antt =====
-- Keys read from headers.
use safety_grounded_agent.Prelude.{String, none, some, [], ◌∷◌, ◌≡◌, refl, arith}
use safety_grounded_agent.Text.{codes}
use safety_grounded_agent.Api.{
  Bytes, IdempotencyKeyParser, idempotency_key_parser, values, no_key, parsed_key, http_error,
  parse,
}
use safety_grounded_agent.Api.Grammar.{parse_iff}

abbrev parser : IdempotencyKeyParser
parser = record { max_bytes = 4 }

abbrev named : String → Bytes × Bytes
named value = (codes "Idempotency-Key", codes value)

abbrev other_header : Bytes × Bytes
other_header = (codes "accept", codes "a b")

parse_iff_example : parse parser (other_header ∷ named " \tk-1 " ∷ []) ≡ parsed_key (codes "k-1") 3
unfolding values
parse_iff_example = (parse_iff parser (other_header ∷ named " \tk-1 " ∷ []) (codes "k-1") 3).1 (
  (codes " \tk-1 ", refl, (codes " \t", (codes " ", refl, (refl, (refl, tt)), (refl, tt)))),
  (λ e. cc),
  omega arith,
  ((omega arith, omega arith), ((omega arith, omega arith), ((omega arith, omega arith), tt))),
  refl,
)

absent_test : parse parser (other_header ∷ []) ≡ no_key
unfolding parse
absent_test = refl

duplicate_test : parse parser (named "a" ∷ named "a" ∷ []) ≡ http_error "duplicate_idempotency_key"
unfolding parse
duplicate_test = refl

blank_test : parse parser (named " " ∷ []) ≡ http_error "invalid_idempotency_key"
unfolding parse
blank_test = refl

long_test : parse parser (named "abcde" ∷ []) ≡ http_error "idempotency_key_too_long"
unfolding parse
long_test = refl

inner_test : parse parser (named "a b" ∷ []) ≡ http_error "invalid_idempotency_key"
unfolding parse
inner_test = refl

parser_test : (idempotency_key_parser 0 ≡ none) × (idempotency_key_parser 4 ≡ some parser)
unfolding idempotency_key_parser
parser_test = (refl, refl)
