-- ===== src/Openings/Yaml.antt =====
-- What crates/openings/src/parser.rs takes of serde_yaml: a value seen as each of its kinds, a mapping
-- by its keys and in its order, the conversion to JSON, and the parser.
use runloop.Prelude.{ℕ, Bool, Option, List}
use runloop.Runtime.Text.{Text}
use runloop.Rmp.Error.{Result}
use runloop.Openings.Json.{ℤ, Numbers, Json}

pub record Yaml (N : Numbers) : Type 1 where
  pub Value : Type 0
  pub Mapping : Type 0
  pub get : Text → Mapping → Option Value
  pub entries : Mapping → List (Value × Value)
  pub as_mapping : Value → Option Mapping
  pub as_sequence : Value → Option (List Value)
  pub as_str : Value → Option Text
  pub as_bool : Value → Option Bool
  pub as_i64 : Value → Option ℤ
  pub as_u64 : Value → Option ℕ
  pub as_f64 : Value → Option N.F64
  pub to_json : Value → Result Text (Json N)
  -- a message, and the line and the column when they are known
  pub from_str : Text → Result (Text × Option (ℕ × ℕ)) Value
