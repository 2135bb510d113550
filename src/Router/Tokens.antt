-- ===== src/Router/Tokens.antt =====
-- The words of a prompt that may be commands: `TokenIter` and `trim_token` of
-- crates/router/src/classifier.rs.
use runloop.Prelude.{
  ℕ, Bool, true, false, ◌&&◌, ◌||◌, Option, none, some, List, [], ◌∷◌, ◌++◌, if◌then◌else◌, ◌==◌,
  is_nil, nat_eq,
}
use runloop.Runtime.Text.{Text, is_whitespace}

unfoldable pub is_delimiter : ℕ → Bool
is_delimiter c = is_whitespace c || c == b'|' || c == b'&' || c == b';' || c == b'<' || c == b'>'

unfoldable pub is_quote : ℕ → Bool
is_quote c =
    c == b'\''
    || c == b'"'
    || c == b'`'
    || c == b'('
    || c == b')'
    || c == b'{'
    || c == b'}'
    || c == b'['
    || c == b']'
    || c == b','
    || c == b':'

unfoldable pub trim_front : Text → Text
trim_front [] = []
trim_front (c ∷ s) = let rest = trim_front s in if is_quote c then rest else c ∷ s

unfoldable pub trim_back : Text → Text
trim_back [] = []
trim_back (c ∷ s) = let rest = trim_back s in if is_quote c && is_nil rest then [] else c ∷ rest

unfoldable pub trim_token : Text → Option Text
trim_token token =
    let trimmed = trim_back (trim_front token) in if is_nil trimmed then none else some trimmed

-- a slice, when anything of it is left, before the tokens behind it
unfoldable pub emit : Text → List Text → List Text
emit slice rest = elim (trim_token slice) [ none ↦ rest | some token ↦ token ∷ rest ]

-- the tokens of a text, of which the slice up to here has been read
unfoldable pub tokens_from : Text → Text → List Text
tokens_from slice [] = emit slice []
tokens_from slice (c ∷ s) = elim (is_delimiter c) [
  | true ↦ emit slice (tokens_from [] s)
  | false ↦ tokens_from (slice ++ c ∷ []) s
]

unfoldable pub token_candidates : Text → List Text
token_candidates prompt = tokens_from [] prompt
