-- ===== src/Runtime/Text.antt =====
-- What the crates take of Rust's `str`, with a text as the list of its code points.
use Prim.Native.Char.{code}
use runloop.Prelude.{
  ℕ, zero, suc, ◌+◌, ◌-◌, ◌*◌, ◌/◌, ◌%◌, ◌^◌, ◌<◌, String, ◌≡◌, refl, inl, inr, Bool, false, ◌&&◌,
  ◌||◌, Option, none, some, List, [], ◌∷◌, ◌++◌, arith, ltb, leb, if◌then◌else◌, Option-cases, ◌==◌,
  is_nil, any, nat_eq, nat_beq_iff,
}

abbrev pub Text : Type 0
Text = List ℕ

abbrev pub codes : String → Text
codes String.[] = []
codes (String.◌∷◌ c s) = code c ∷ codes s

abbrev between : ℕ → ℕ → ℕ → Bool
between lo hi c = leb lo c && leb c hi

-- `char::is_whitespace`, Unicode's White_Space
unfoldable pub is_whitespace : ℕ → Bool
is_whitespace c =
    between 9 13 c
    || c == 32
    || c == 133
    || c == 160
    || c == 5_760
    || between 8_192 8_202 c
    || c == 8_232
    || c == 8_233
    || c == 8_239
    || c == 8_287
    || c == 12_288

unfoldable pub trim_start : Text → Text
trim_start [] = []
trim_start (c ∷ s) = let rest = trim_start s in if is_whitespace c then rest else c ∷ s

unfoldable pub trim_end : Text → Text
trim_end [] = []
trim_end (c ∷ s) = let rest = trim_end s in if is_whitespace c && is_nil rest then [] else c ∷ rest

unfoldable pub trim : Text → Text
unfolding trim_start trim_end
trim s = trim_end (trim_start s)

-- `split_once` at a character
unfoldable pub split_once : ℕ → Text → Option (Text × Text)
split_once sep [] = none
split_once sep (c ∷ s) =
    let rest = split_once sep s in
    if c == sep
    then some ([], s)
    else (elim rest [ none ↦ none | some (before, after) ↦ some (c ∷ before, after) ])

unfoldable pub strip_prefix : Text → Text → Option Text
strip_prefix [] s = some s
strip_prefix (p ∷ ps) [] = none
strip_prefix (p ∷ ps) (c ∷ s) = let rest = strip_prefix ps s in if p == c then rest else none

-- the digits of `parse::<u16>` behind those already read, refused on overflow
unfoldable pub parse_digits : ℕ → Text → Option ℕ
parse_digits acc [] = some acc
parse_digits acc (c ∷ s) =
    let next = acc * 10 + (c - b'0') in
    let rest = parse_digits next s in
    if between b'0' b'9' c && ltb next (2 ^ 16) then rest else none

-- `parse::<u16>`: digits, at least one, with a plus in front or not
unfoldable pub parse_u16 : Text → Option ℕ
unfolding parse_digits
parse_u16 [] = none
parse_u16 (c ∷ s) =
    if c == b'+'
    then (elim s [ [] ↦ none | digits ↦ parse_digits 0 digits ])
    else parse_digits 0 (c ∷ s)

pub parse_digits-bounded :
    (acc : ℕ) (s : Text) (n : ℕ) → acc < 2 ^ 16 → parse_digits acc s ≡ some n → n < 2 ^ 16
unfolding parse_digits
parse_digits-bounded acc [] n a h = ground arith
parse_digits-bounded acc (c ∷ s) n a h =
    ground (arith, parse_digits-bounded (acc * 10 + (c - b'0')) s n)

pub parse_u16-bounded : (s : Text) (n : ℕ) → parse_u16 s ≡ some n → n < 2 ^ 16
unfolding parse_u16
parse_u16-bounded [] n h = absurd (ground arith)
parse_u16-bounded (c ∷ []) n h = ground (arith, parse_digits-bounded 0 (c ∷ []) n)
parse_u16-bounded (c ∷ d ∷ s) n h =
    ground (arith, parse_digits-bounded 0 (c ∷ d ∷ s) n, parse_digits-bounded 0 (d ∷ s) n)

abbrev pub has : ℕ → Text → Bool
has sep = any (λ c. c == sep)

-- what stands before the separator has none
pub split_once-before :
    (sep : ℕ) (s before after : Text)
    → split_once sep s ≡ some (before, after)
    → has sep before ≡ false
unfolding split_once any
split_once-before sep [] b a h = absurd (ground arith)
split_once-before sep (c ∷ s) b a h = elim (Option-cases (split_once sep s)) [
  | inl e ↦ ground arith
  | inr ((b', a'), e) ↦ ground (arith, split_once-before sep s b' a' e)
]

pub split_once-none : (sep : ℕ) (s : Text) → split_once sep s ≡ none → has sep s ≡ false
unfolding split_once any
split_once-none sep [] h = refl
split_once-none sep (c ∷ s) h = ground (arith, split_once-none sep s)

pub split_once-append :
    (sep : ℕ) (s before after : Text)
    → split_once sep s ≡ some (before, after)
    → s ≡ before ++ sep ∷ after
unfolding split_once
split_once-append sep [] b a h = absurd (ground arith)
split_once-append sep (c ∷ s) b a h = elim (Option-cases (split_once sep s)) [
  | inl e ↦ ground (arith, nat_beq_iff c sep)
  | inr ((b', a'), e) ↦ ground (arith, split_once-append sep s b' a' e, nat_beq_iff c sep)
]

-- a number in decimal digits; `n + 1` rounds are more than it has digits
unfoldable pub digits_of : ℕ → ℕ → Text
digits_of zero n = []
digits_of (suc fuel) n =
    let front = digits_of fuel (n / 10) in
    if ltb n 10 then (b'0' + n) ∷ [] else front ++ (b'0' + n % 10) ∷ []

unfoldable pub decimal : ℕ → Text
decimal n = digits_of (n + 1) n
