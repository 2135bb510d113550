-- ===== src/Openings/Parser/Substituted.antt =====
-- The arguments of a node after the substitution of parameters, in crates/openings/src/parser.rs.
use runloop.Prelude.{◌≡◌, refl, inl, inr, true, false, none, some, [], ◌∷◌, arith, Option-cases}
use mathlib.Core.Path.{subst}
use runloop.Runtime.Text.{Text, codes, strip_prefix}
use runloop.Rmp.Error.{ok, >>=-eq-ok, ok-injective, if-eq-ok, Result-cases}
use runloop.Openings.Json.{Numbers, Json, Items, Fields, get_field}
use runloop.Openings.Types.{SourceLocation}
use runloop.Openings.Strings.{split_on, contains_text}
use runloop.Openings.Parser.Templates.{
  has_braces, extract_template, validate_no_templates, validate_items, validate_values, substitute,
  apply_value, apply_param_templates, apply_templates_array,
}

split_on-prefix :
    (needle s rest : Text) → strip_prefix needle s ≡ some rest → contains_text needle s ≡ true
unfolding contains_text split_on
split_on-prefix needle [] rest h = ground arith
split_on-prefix needle (c ∷ s) rest h = ground arith

-- a text without braces is no template
plain-extract : (text : Text) → has_braces text ≡ false → extract_template text ≡ none
unfolding has_braces extract_template
plain-extract text h = elim (Option-cases (strip_prefix (codes "{{") text)) [
  | inl e ↦ rw e refl
  | inr (rest, e) ↦ let found = split_on-prefix (codes "{{") text rest e in absurd (ground arith)
]

module _ {N : Numbers} (loc : SourceLocation) where
  abbrev Clean : Json N → Type 0
  Clean value = validate_no_templates loc value ≡ ok tt

module _ {N : Numbers} (params : Fields N) (loc : SourceLocation) where
  substitute-Clean :
      (text : Text) (value : Json N) → substitute params loc text ≡ ok value → Clean loc value
  unfolding substitute validate_no_templates
  substitute-Clean text value h = elim (Option-cases (extract_template text)) [
    | inl e ↦
        let plain : has_braces text ≡ false = ground arith in
        let same : Json.string text ≡ value = ground arith in subst (Clean loc) same (ground arith)
    | inr (name, e) ↦ elim (Option-cases (get_field name params)) [
      | inl missing ↦ absurd (ground arith)
      | inr (param, found) ↦ elim (Result-cases (validate_no_templates loc param)) [
        | inl (bad, refused) ↦ absurd (ground arith)
        | inr (_, clean) ↦ let same : param ≡ value = ground arith in subst (Clean loc) same clean
      ]
    ]
  ]

  substitute-plain :
      (text : Text)
      → Clean {N = N} loc (Json.string text)
      → substitute params loc text ≡ ok (Json.string text)
  unfolding substitute validate_no_templates
  substitute-plain text h =
      let (plain, _) = if-eq-ok (has_braces text) _ _ h in ground (arith, plain-extract text plain)

  mutual
    unfolding apply_value apply_param_templates apply_templates_array validate_no_templates
        validate_items validate_values

    value-Clean : (v out : Json N) → apply_value params loc v ≡ ok out → Clean loc out
    value-Clean (Json.string text) out h = substitute-Clean text out h
    value-Clean (Json.object map_) out h =
        let (map', e, h') = >>=-eq-ok (apply_param_templates params loc map_) _ h in
        subst (Clean loc) (ok-injective (Json.object map') out h') (fields-Clean map_ map' e)
    value-Clean (Json.array arr) out h =
        let (arr', e, h') = >>=-eq-ok (apply_templates_array params loc arr) _ h in
        subst (Clean loc) (ok-injective (Json.array arr') out h') (items-Clean arr arr' e)
    value-Clean Json.null out h = subst (Clean loc) (ok-injective Json.null out h) refl
    value-Clean (Json.bool b) out h = subst (Clean loc) (ok-injective (Json.bool b) out h) refl
    value-Clean (Json.number n) out h = subst (Clean loc) (ok-injective (Json.number n) out h) refl

    fields-Clean :
        (v out : Fields N)
        → apply_param_templates params loc v ≡ ok out
        → validate_values loc out ≡ ok tt
    fields-Clean Fields.end out h =
        subst (λ o. validate_values loc o ≡ ok tt) (ok-injective Fields.end out h) refl
    fields-Clean (Fields.field key value rest) out h =
        let (value', e, h') = >>=-eq-ok (apply_value params loc value) _ h in
        let (rest', e', h'') = >>=-eq-ok (apply_param_templates params loc rest) _ h' in
        subst (λ o. validate_values loc o ≡ ok tt)
          (ok-injective (Fields.field key value' rest') out h'')
          (rw (value-Clean value value' e) (fields-Clean rest rest' e'))

    items-Clean :
        (v out : Items N)
        → apply_templates_array params loc v ≡ ok out
        → validate_items loc out ≡ ok tt
    items-Clean Items.nil out h =
        subst (λ o. validate_items loc o ≡ ok tt) (ok-injective Items.nil out h) refl
    items-Clean (Items.cons item rest) out h =
        let (item', e, h') = >>=-eq-ok (apply_value params loc item) _ h in
        let (rest', e', h'') = >>=-eq-ok (apply_templates_array params loc rest) _ h' in
        subst (λ o. validate_items loc o ≡ ok tt) (ok-injective (Items.cons item' rest') out h'')
          (rw (value-Clean item item' e) (items-Clean rest rest' e'))

  mutual
    unfolding apply_value apply_param_templates apply_templates_array validate_no_templates
        validate_items validate_values

    value-same : (v : Json N) → Clean loc v → apply_value params loc v ≡ ok v
    value-same (Json.string text) h = substitute-plain text h
    value-same (Json.object map_) h = rw (fields-same map_ h) refl
    value-same (Json.array arr) h = rw (items-same arr h) refl
    value-same Json.null h = refl
    value-same (Json.bool b) h = refl
    value-same (Json.number n) h = refl

    fields-same :
        (v : Fields N) → validate_values loc v ≡ ok tt → apply_param_templates params loc v ≡ ok v
    fields-same Fields.end h = refl
    fields-same (Fields.field key value rest) h =
        let (_, e, h') = >>=-eq-ok (validate_no_templates loc value) _ h in
        rw (value-same value e, fields-same rest h') refl

    items-same :
        (v : Items N) → validate_items loc v ≡ ok tt → apply_templates_array params loc v ≡ ok v
    items-same Items.nil h = refl
    items-same (Items.cons item rest) h =
        let (_, e, h') = >>=-eq-ok (validate_no_templates loc item) _ h in
        rw (value-same item e, items-same rest h') refl

  -- When the parameters have been put into the arguments of a node, no text in them holds a
  -- template any more, and doing it again changes nothing.
  pub apply_param_templates-clean :
      (payload out : Fields N)
      → apply_param_templates params loc payload ≡ ok out
      → (validate_values loc out ≡ ok tt) × (apply_param_templates params loc out ≡ ok out)
  apply_param_templates-clean payload out h =
      let clean = fields-Clean payload out h in (clean, fields-same out clean)
