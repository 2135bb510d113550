-- ===== src/Runtime/Toml.antt =====
-- What crates/runtime takes of the `toml` library: the variants of its `Value` that the code tells
-- apart, and the debug text of a value.
use runloop.Prelude.{String, Bool, Option, none, some, List}
use runloop.Runtime.Text.{Text}

-- `other` is an integer, a float or a date. A table is read by looking its keys up.
pub data View (V : Type 0) : Type 0 where
  string : Text → View V
  boolean : Bool → View V
  array : List V → View V
  table : (String → Option V) → View V
  other : View V

pub record Toml : Type 1 where
  pub Value : Type 0
  pub view : Value → View Value
  pub debug : Value → Text

module _ (T : Toml) where
  abbrev pub Table : Type 0
  Table = String → Option T.Value

  abbrev pub as_str : T.Value → Option Text
  as_str v = elim (T.view v) [ View.string s ↦ some s | _ ↦ none ]

  abbrev pub as_bool : T.Value → Option Bool
  as_bool v = elim (T.view v) [ View.boolean b ↦ some b | _ ↦ none ]

  abbrev pub as_array : T.Value → Option (List T.Value)
  as_array v = elim (T.view v) [ View.array vs ↦ some vs | _ ↦ none ]

  abbrev pub as_table : T.Value → Option Table
  as_table v = elim (T.view v) [ View.table t ↦ some t | _ ↦ none ]

  -- `Value::get` by a key
  abbrev pub get : String → T.Value → Option T.Value
  get k v = elim (T.view v) [ View.table t ↦ t k | _ ↦ none ]
