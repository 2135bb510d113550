-- ===== src/Openings/Locate.antt =====
-- The places that the errors of crates/openings/src/parser.rs name.
use runloop.Prelude.{
  ℕ, ◌+◌, Option, none, some, [], ◌∷◌, ◌++◌, if◌then◌else◌, ◌==◌, nat_eq, list_eq,
}
use runloop.Prelude.Options.{◌>>=◌}
use runloop.Runtime.Text.{Text, codes}
use runloop.Openings.Json.{Numbers}
use runloop.Openings.Types.{SourceLocation}
use runloop.Openings.Strings.{find}
use runloop.Openings.Yaml.{Yaml}

-- the loop over the characters, which compares their number with the index
unfoldable pub advance : Text → ℕ → ℕ → SourceLocation → SourceLocation
advance [] idx index here = here
advance (ch ∷ source) idx index here =
    if idx == index
    then here
    else advance source (idx + 1) index (
        if ch == 10
        then record { line = here.line + 1; column = 1 }
        else record { line = here.line; column = here.column + 1 })

unfoldable pub index_to_location : Text → ℕ → SourceLocation
index_to_location source index = advance source 0 index (record { line = 1; column = 1 })

unfoldable pub locate_index : Text → Text → Option ℕ
locate_index source pattern_ = find pattern_ source

unfoldable pub locate_pattern : Text → Text → SourceLocation
locate_pattern source pattern_ = elim (locate_index source pattern_) [
  | some index ↦ index_to_location source index
  | none ↦ record { line = 1; column = 1 }
]

-- `locate_child` is the same: it does not use its parent.
unfoldable pub locate_key : Text → Text → SourceLocation
locate_key source key = locate_pattern source (key ++ codes ":")

module _ {N : Numbers} (Y : Yaml N) where
  -- `as_mapping`, `mapping_get` and `as_str` in a row
  abbrev string_at : Text → Y.Value → Option Text
  string_at key value = Y.as_mapping value >>= Y.get key >>= Y.as_str

  unfoldable pub locate_node : Text → Y.Value → SourceLocation
  locate_node source value = elim (string_at (codes "id") value) [
    | some id ↦ locate_pattern source (codes "id: " ++ id)
    | none ↦ locate_key source (codes "nodes")
  ]

  unfoldable pub locate_edge : Text → Y.Value → SourceLocation
  locate_edge source value = elim (string_at (codes "from") value) [
    | some from ↦ locate_pattern source (codes "from: " ++ from)
    | none ↦ locate_key source (codes "edges")
  ]
