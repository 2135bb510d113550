-- ===== src/Runtime/Caps/Net/Parsed.antt =====
-- What `NetLocation::parse` of crates/runtime/src/caps.rs returns.
use runloop.Prelude.{
  ℕ, ◌^◌, ◌≡◌, refl, inl, inr, Bool, true, false, Option, none, some, [], ◌∷◌, arith, ltb,
  Option-cases, any, nat_eq, list_eq, option_eq,
}
use runloop.Rmp.Error.{ok}
use runloop.Runtime.Text.{
  Text, trim, trim_start, trim_end, split_once, parse_u16, parse_u16-bounded, has,
  split_once-before, split_once-none,
}
use runloop.Runtime.Caps.Net.{NetLocation, parse}

has-trim_start : (sep : ℕ) (s : Text) → has sep s ≡ false → has sep (trim_start s) ≡ false
unfolding any trim_start
has-trim_start sep [] h = refl
has-trim_start sep (c ∷ s) h = ground (arith, has-trim_start sep s)

has-trim_end : (sep : ℕ) (s : Text) → has sep s ≡ false → has sep (trim_end s) ≡ false
unfolding any trim_end
has-trim_end sep [] h = refl
has-trim_end sep (c ∷ s) h = ground (arith, has-trim_end sep s)

has-trim : (sep : ℕ) (s : Text) → has sep s ≡ false → has sep (trim s) ≡ false
unfolding trim
has-trim sep s h = has-trim_end sep (trim_start s) (has-trim_start sep s h)

abbrev pub port_in_range : Option ℕ → Bool
port_in_range none = true
port_in_range (some port) = ltb port (2 ^ 16)

-- When a network host entry is accepted, its port, if it has one, fits 16 bits, and its host has no
-- colon.
pub parse-in_range :
    (raw : Text) (location : NetLocation)
    → parse raw ≡ ok location
    → (port_in_range location.port ≡ true) × (has b':' location.host ≡ false)
unfolding parse
parse-in_range raw location h = elim (Option-cases (split_once b':' raw)) [
  | inl e ↦
      let bare : has b':' (trim raw) ≡ false = has-trim b':' raw (split_once-none b':' raw e) in
      ground arith
  | inr ((host, port_raw), e) ↦
      let bare : has b':' (trim host) ≡ false =
        has-trim b':' host (split_once-before b':' raw host port_raw e) in
      elim (Option-cases (parse_u16 port_raw)) [
        | inl bad ↦ ground arith
        | inr (port, good) ↦ ground (arith, parse_u16-bounded port_raw port good)
      ]
]
