-- ===== src/Openings/Strings.antt =====
-- What the crates parse and search in texts with, beyond Runtime/Text: methods of Rust's `str`.
use runloop.Prelude.{
  ℕ, ◌+◌, ◌-◌, ◌*◌, ◌^◌, Bool, true, false, ◌&&◌, ◌||◌, Option, none, some, List, [], ◌∷◌, ◌++◌,
  ltb, leb, if◌then◌else◌, ◌==◌, nat_eq, list_eq,
}
use runloop.Prelude.Options.{option_map, ◌>>=◌}
use runloop.Runtime.Text.{Text, codes, strip_prefix}
use runloop.Openings.Json.{ℤ, pos, negsuc}

-- `split_once` at a text
unfoldable pub split_on : Text → Text → Option (Text × Text)
split_on needle [] = option_map (λ after. ([], after)) (strip_prefix needle [])
split_on needle (c ∷ s) =
    let rest = split_on needle s in
    elim (strip_prefix needle (c ∷ s)) [
      | some after ↦ some ([], after)
      | none ↦ option_map (λ (p : Text × Text). (c ∷ p.0, p.1)) rest
    ]

-- `contains` of a text
unfoldable pub contains_text : Text → Text → Bool
contains_text needle s = elim (split_on needle s) [ none ↦ false | some _ ↦ true ]

-- `split` at a character
unfoldable pub split : ℕ → Text → Text → List Text
split sep part [] = part ∷ []
split sep part (c ∷ s) = if c == sep then part ∷ split sep [] s else split sep (part ++ c ∷ []) s

unfoldable pub strip_suffix : Text → Text → Option Text
strip_suffix suffix [] = if suffix == [] then some [] else none
strip_suffix suffix (c ∷ s) =
    let rest = option_map (λ front. c ∷ front) (strip_suffix suffix s) in
    if suffix == c ∷ s then some [] else rest

-- the bytes of a character in UTF-8
unfoldable pub utf8_len : ℕ → ℕ
utf8_len c = if ltb c 128 then 1 else if ltb c 2_048 then 2 else if ltb c 65_536 then 3 else 4

-- `find`: the index in bytes
unfoldable pub find : Text → Text → Option ℕ
find needle s = option_map (λ p. byte_len p.0) (split_on needle s)
  where
    byte_len : Text → ℕ
    byte_len [] = 0
    byte_len (c ∷ s) = utf8_len c + byte_len s

unfoldable pub is_digit : ℕ → Bool
is_digit c = leb b'0' c && leb c b'9'

-- `char::is_ascii_alphanumeric`, with the two other characters of an identifier
unfoldable pub is_identifier_char : ℕ → Bool
is_identifier_char c =
    is_digit c || (leb b'A' c && leb c b'Z') || (leb b'a' c && leb c b'z') || c == b'_' || c == b'-'

unfoldable pub parse_decimal : ℕ → Text → Option ℕ
parse_decimal acc [] = some acc
parse_decimal acc (c ∷ s) =
    let rest = parse_decimal (acc * 10 + (c - b'0')) s in if is_digit c then rest else none

-- at least one digit, and no more than the bound
unfoldable pub parse_below : ℕ → Text → Option ℕ
parse_below bound [] = none
parse_below bound (c ∷ s) = parse_decimal 0 (c ∷ s) >>= (λ n. if ltb n bound then some n else none)

unfoldable pub negated : ℕ → ℤ
negated n = if n == 0 then pos 0 else negsuc (n - 1)

-- `parse::<i64>`
unfoldable pub parse_i64 : Text → Option ℤ
parse_i64 [] = none
parse_i64 (c ∷ s) =
    if c == b'-'
    then option_map negated (parse_below (2 ^ 63 + 1) s)
    else option_map pos (parse_below (2 ^ 63) (if c == b'+' then s else c ∷ s))

-- `parse::<bool>`
unfoldable pub parse_bool : Text → Option Bool
parse_bool s =
    if s == codes "true" then some true else if s == codes "false" then some false else none
