-- ===== src/Openings/Parser/Hints.antt =====
-- The schema hints of a node, in crates/openings/src/parser.rs.
use runloop.Prelude.{
  Bool, false, Option, none, some, List, [], ◌∷◌, ◌++◌, if◌then◌else◌, ◌==◌, any, nat_eq, list_eq,
}
use runloop.Prelude.Options.{option_map}
use runloop.Runtime.Text.{Text, codes}
use runloop.Runtime.Set.{contains}
use runloop.Rmp.Error.{Result, ok, err, map_err, ◌>>=◌}
use runloop.Openings.Json.{Numbers, Json, Items, Fields, insert_field}
use runloop.Openings.Types.{SourceLocation, Error, invalid, SchemaHintFragment, SchemaHints}
use runloop.Openings.Yaml.{Yaml}
use runloop.Openings.Locate.{locate_key}

unfoldable pub schema_keys : List Text
schema_keys =
    codes "type"
    ∷ codes "$schema"
    ∷ codes "properties"
    ∷ codes "required"
    ∷ codes "allOf"
    ∷ codes "anyOf"
    ∷ codes "oneOf"
    ∷ codes "not"
    ∷ codes "items"
    ∷ codes "const"
    ∷ codes "$defs"
    ∷ codes "definitions"
    ∷ codes "$ref"
    ∷ []

module _ {N : Numbers} where
  -- the flag of a property that is `"required": true`, which its schema loses
  unfoldable pub is_required : Fields N → Bool
  is_required Fields.end = false
  is_required (Fields.field key value rest) =
      let later = is_required rest in
      if key == codes "required" then (elim value [ Json.bool flag ↦ flag | _ ↦ false ]) else later

  unfoldable pub remove_field : Text → Fields N → Fields N
  remove_field key Fields.end = Fields.end
  remove_field key (Fields.field own value rest) =
      let rest' = remove_field key rest in if own == key then rest else Fields.field own value rest'

  unfoldable pub clean_fragment : Json N → Bool × Json N
  clean_fragment (Json.object obj) =
      (is_required obj, Json.object (remove_field (codes "required") obj))
  clean_fragment other = (false, other)

  -- the loop over the properties: the names that are required, and the schemas
  unfoldable pub clean_properties : Fields N → Items N × Fields N → Items N × Fields N
  clean_properties Fields.end done = done
  clean_properties (Fields.field name fragment rest) (required, normalized) =
      let (wanted, cleaned) = clean_fragment fragment in
      clean_properties rest (
        (if wanted then push required (Json.string name) else required),
        insert_field name cleaned normalized,
      )
    where
      push : Items N → Json N → Items N
      push Items.nil item = Items.cons item Items.nil
      push (Items.cons x xs) item = Items.cons x (push xs item)

  unfoldable pub build_hint_schema : Fields N → Json N
  build_hint_schema props =
      let (required, normalized) = clean_properties props (Items.nil, Fields.end) in
      let schema =
        insert_field (codes "properties") (Json.object normalized)
          (insert_field (codes "type") (Json.string (codes "object")) Fields.end) in
      elim required [
        | Items.nil ↦ Json.object schema
        | Items.cons x xs ↦
            Json.object (insert_field (codes "required") (Json.array (Items.cons x xs)) schema)
      ]

  unfoldable pub with_schema : SchemaHints N → Option (Json N)
  with_schema hints =
      option_map
        (λ fragment. elim fragment [
          | SchemaHintFragment.raw value ↦ value
          | SchemaHintFragment.properties props ↦ build_hint_schema props
        ])
        hints.hint

module _ {N : Numbers} (Y : Yaml N) where
  unfoldable pub is_schema_like : Y.Mapping → Bool
  is_schema_like map_ =
      any
        (λ entry. elim (Y.as_str entry.0) [
          | none ↦ false
          | some candidate ↦ contains candidate schema_keys
        ])
        (Y.entries map_)

  -- the loop over the entries of a hint that is no schema
  unfoldable pub hint_properties :
      List (Y.Value × Y.Value) → SourceLocation → Fields N → Result Error (Fields N)
  hint_properties [] loc props = ok props
  hint_properties ((key, fragment) ∷ entries) loc props = elim (Y.as_str key) [
    | none ↦ err (invalid (codes "schema_hints.with keys must be strings") loc)
    | some key_str ↦
        map_err
          (λ e. invalid (codes "invalid schema hint for '" ++ key_str ++ codes "': " ++ e) loc)
          (Y.to_json fragment)
        >>= (λ json. hint_properties entries loc (insert_field key_str json props))
  ]

  unfoldable pub parse_with_hint_fragment :
      Y.Value → SourceLocation → Result Error (SchemaHintFragment N)
  parse_with_hint_fragment value loc = elim (Y.as_mapping value) [
    | none ↦
        map_err (λ e. invalid (codes "invalid schema_hints.with value: " ++ e) loc)
          (Y.to_json value)
        >>= (λ json. ok (SchemaHintFragment.raw json))
    | some map_ ↦
        if is_schema_like map_
        then map_err (λ e. invalid (codes "invalid schema_hints.with entry: " ++ e) loc)
            (Y.to_json value)
          >>= (λ json. ok (SchemaHintFragment.raw json))
        else hint_properties (Y.entries map_) loc Fields.end
          >>= (λ props. ok (SchemaHintFragment.properties props))
  ]

  unfoldable pub parse_schema_hints : Option Y.Value → Text → Result Error (SchemaHints N)
  parse_schema_hints none source = ok (record { hint = none })
  parse_schema_hints (some value) source = elim (Y.as_mapping value) [
    | none ↦ err (
        invalid (codes "schema_hints must be a mapping") (locate_key source (codes "schema_hints")))
    | some mapping ↦ elim (Y.get (codes "with") mapping) [
      | none ↦ ok (record { hint = none })
      | some v ↦
          parse_with_hint_fragment v (locate_key source (codes "with"))
          >>= (λ fragment. ok (record { hint = some fragment }))
    ]
  ]
