-- ===== src/Router/Casefold.antt =====
-- Comparison of texts up to the case of ASCII letters, crates/router/src/casefold.rs. The bytes of a
-- text in UTF-8 occur in another's exactly where its characters do, so both work on characters here.
use runloop.Prelude.{
  ℕ, ◌+◌, Bool, true, false, not, ◌&&◌, ◌||◌, [], ◌∷◌, map, leb, if◌then◌else◌, ◌==◌, is_nil,
  nat_eq,
}
use runloop.Runtime.Text.{Text}

unfoldable pub to_ascii_lower : ℕ → ℕ
to_ascii_lower c = if leb b'A' c && leb c b'Z' then c + 32 else c

-- `to_ascii_lowercase`, as CiString::new and Pattern::new store a text
abbrev pub to_ascii_lowercase : Text → Text
to_ascii_lowercase = map to_ascii_lower

unfoldable pub ascii_eq_nocase : Text → Text → Bool
ascii_eq_nocase [] [] = true
ascii_eq_nocase [] (_ ∷ _) = false
ascii_eq_nocase (_ ∷ _) [] = false
ascii_eq_nocase (a ∷ as_) (b ∷ bs) = to_ascii_lower a == to_ascii_lower b && ascii_eq_nocase as_ bs

-- the beginning of a text, as long as the needle, against the needle
unfoldable pub starts_nocase : Text → Text → Bool
starts_nocase [] s = true
starts_nocase (n ∷ needle) [] = false
starts_nocase (n ∷ needle) (c ∷ s) = to_ascii_lower n == to_ascii_lower c && starts_nocase needle s

-- the needle's first character as it stands, against the lower case of the text's
abbrev heads : Text → ℕ → Bool
heads [] c = true
heads (n ∷ _) c = to_ascii_lower c == n

-- the loop over the places in the text
unfoldable pub occurs_nocase : Text → Text → Bool
occurs_nocase needle [] = false
occurs_nocase needle (c ∷ s) =
    (heads needle c && starts_nocase needle (c ∷ s)) || occurs_nocase needle s

unfoldable pub ascii_contains_nocase : Text → Text → Bool
ascii_contains_nocase haystack needle_lower =
    not (is_nil needle_lower) && occurs_nocase needle_lower haystack
