-- ===== src/Openings/Parser/Templates.antt =====
-- Parameters in the arguments of a node, in crates/openings/src/parser.rs.
use runloop.Prelude.{Bool, ◌||◌, Option, none, some, ◌++◌, if◌then◌else◌, nat_eq, list_eq}
use runloop.Prelude.Options.{◌>>=◌ as ◌>>=?◌}
use runloop.Runtime.Text.{Text, codes, trim, strip_prefix}
use runloop.Rmp.Error.{Result, ok, err, ◌>>=◌}
use runloop.Openings.Json.{Numbers, Json, Items, Fields, get_field}
use runloop.Openings.Types.{SourceLocation, Error, invalid}
use runloop.Openings.Strings.{contains_text, strip_suffix}
use runloop.Openings.Parser.Terms.{valid_identifier}

unfoldable pub has_braces : Text → Bool
has_braces text = contains_text (codes "{{") text || contains_text (codes "}}") text

unfoldable pub extract_template : Text → Option Text
extract_template value =
    strip_prefix (codes "{{") value
    >>=? strip_suffix (codes "}}")
    >>=? (λ inner. strip_prefix (codes "params.") (trim inner))
    >>=? (λ rest. if valid_identifier rest then some rest else none)

module _ {N : Numbers} (loc : SourceLocation) where
  unfoldable mutual
    pub validate_no_templates : Json N → Result {0, 0} Error Unit
    validate_no_templates (Json.string text) =
        if has_braces text
        then err (
            invalid
              (codes "embedded template syntax not allowed in parameter value '"
                ++ text
                ++ codes "'")
              loc)
        else ok tt
    validate_no_templates (Json.array arr) = validate_items arr
    validate_no_templates (Json.object map_) = validate_values map_
    validate_no_templates _ = ok tt

    pub validate_items : Items N → Result {0, 0} Error Unit
    validate_items Items.nil = ok tt
    validate_items (Items.cons item items) =
        validate_no_templates item >>= (λ _. validate_items items)

    pub validate_values : Fields N → Result {0, 0} Error Unit
    validate_values Fields.end = ok tt
    validate_values (Fields.field key value rest) =
        validate_no_templates value >>= (λ _. validate_values rest)

module _ {N : Numbers} (params : Fields N) (loc : SourceLocation) where
  -- a text in the payload
  unfoldable pub substitute : Text → Result Error (Json N)
  substitute text = elim (extract_template text) [
    | some param_name ↦ elim (get_field param_name params) [
      | none ↦ err (
          invalid
            (codes "template '{{params." ++ param_name ++ codes "}}' references missing parameter")
            loc)
      | some param ↦ validate_no_templates loc param >>= (λ _. ok param)
    ]
    | none ↦
        if has_braces text
        then err (
            invalid
              (codes "unsupported template syntax in value '"
                ++ text
                ++ codes "'; only '{{params.*}}' is allowed")
              loc)
        else ok (Json.string text)
  ]

  unfoldable mutual
    -- the match in the loops of both functions
    pub apply_value : Json N → Result Error (Json N)
    apply_value (Json.string text) = substitute text
    apply_value (Json.object map_) = apply_param_templates map_ >>= (λ map'. ok (Json.object map'))
    apply_value (Json.array arr) = apply_templates_array arr >>= (λ arr'. ok (Json.array arr'))
    apply_value Json.null = ok Json.null
    apply_value (Json.bool b) = ok (Json.bool b)
    apply_value (Json.number n) = ok (Json.number n)

    pub apply_param_templates : Fields N → Result Error (Fields N)
    apply_param_templates Fields.end = ok Fields.end
    apply_param_templates (Fields.field key value rest) =
        apply_value value
        >>= (λ value'. apply_param_templates rest >>= (λ rest'. ok (Fields.field key value' rest')))

    pub apply_templates_array : Items N → Result Error (Items N)
    apply_templates_array Items.nil = ok Items.nil
    apply_templates_array (Items.cons element items) = apply_value element >>= (λ element'.
        apply_templates_array items >>= (λ items'. ok (Items.cons element' items')))
