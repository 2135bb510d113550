-- ===== src/Openings/Parser/Fields.antt =====
-- Fields of a YAML mapping, with the policy and the retry policy, in crates/openings/src/parser.rs.
use runloop.Prelude.{
  ℕ, ◌+◌, ◌^◌, Bool, ◌&&◌, Option, none, some, List, [], ◌∷◌, ◌++◌, ltb, if◌then◌else◌, nat_eq,
  list_eq,
}
use runloop.Prelude.Options.{option_map, unwrap_or, or_else, ◌>>=◌ as ◌>>=?◌}
use runloop.Runtime.Text.{Text, codes, decimal}
use runloop.Rmp.Error.{Result, ok, err, map_err, ◌>>=◌}
use runloop.Openings.Json.{ℤ, pos, negsuc, Numbers, Fields, insert_field}
use runloop.Openings.Types.{SourceLocation, Error, invalid, Policy, Retry}
use runloop.Openings.Yaml.{Yaml}
use runloop.Openings.Locate.{locate_key}

-- `ok_or_else` with a validation error
abbrev pub require {ℓ} : {A : Type ℓ} → Text → SourceLocation → Option A → Result Error A
require message loc none = err (invalid message loc)
require message loc (some a) = ok a

-- `.map(f).transpose()?`
abbrev pub optional {ℓ κ} :
    {A : Type ℓ} {B : Type κ} → (A → Result Error B) → Option A → Result Error (Option B)
optional f none = ok none
optional f (some a) = f a >>= (λ b. ok (some b))

abbrev to_u32 : ℕ → Option ℕ
to_u32 n = if ltb n (2 ^ 32) then some n else none

-- `if raw >= 0 { Some(raw) } else { None }`
abbrev non_negative : ℤ → Option ℕ
non_negative (pos n) = some n
non_negative (negsuc n) = none

module _ {N : Numbers} (Y : Yaml N) where
  unfoldable pub expect_u32_value : Y.Value → Option ℕ
  expect_u32_value value =
      or_else (Y.as_i64 value >>=? non_negative >>=? to_u32) (Y.as_u64 value >>=? to_u32)

  unfoldable pub expect_u64_value : Y.Value → Option ℕ
  expect_u64_value value = or_else (Y.as_u64 value) (Y.as_i64 value >>=? non_negative)

  unfoldable pub expect_u32 : Y.Mapping → Text → Option ℕ
  expect_u32 mapping key = Y.get key mapping >>=? (λ value. elim (Y.as_i64 value) [
    | some raw ↦ non_negative raw >>=? to_u32
    | none ↦ Y.as_u64 value >>=? to_u32
  ])

  unfoldable pub expect_string : Y.Mapping → Text → Option Text
  expect_string mapping key = Y.get key mapping >>=? Y.as_str

  unfoldable pub expect_string_in : Y.Mapping → Text → Text → Result Error Text
  expect_string_in mapping key source = elim (Y.get key mapping) [
    | none ↦
        err (invalid (codes "missing required field '" ++ key ++ codes "'") (locate_key source key))
    | some value ↦
        require (codes "field '" ++ key ++ codes "' must be a string") (locate_key source key)
          (Y.as_str value)
  ]

  -- the loop over the entries, `idx` of which are done
  unfoldable pub collect_strings :
      Text → SourceLocation → ℕ → List Y.Value → List Text → Result Error (List Text)
  collect_strings key loc idx [] items = ok items
  collect_strings key loc idx (entry ∷ entries) items =
      require (key ++ codes "[" ++ decimal idx ++ codes "] must be a string") loc (Y.as_str entry)
      >>= (λ text. collect_strings key loc (idx + 1) entries (items ++ text ∷ []))

  unfoldable pub expect_string_list : Y.Mapping → Text → Text → Result Error (Option (List Text))
  expect_string_list mapping key source =
      optional
        (λ value.
          require (key ++ codes " must be a sequence") (locate_key source key) (Y.as_sequence value)
          >>= (λ entries. collect_strings key (locate_key source key) 0 entries []))
        (Y.get key mapping)

  -- the loop of `yaml_map_to_json_map`
  unfoldable pub insert_entries :
      List (Y.Value × Y.Value) → SourceLocation → Fields N → Result Error (Fields N)
  insert_entries [] loc json_map = ok json_map
  insert_entries ((key, value) ∷ entries) loc json_map = do
    key_str ← require (codes "parameter keys must be strings") loc (Y.as_str key)
    json_value ←
        map_err
          (λ e.
            invalid (codes "unsupported value type for key '" ++ key_str ++ codes "': " ++ e) loc)
          (Y.to_json value)
    insert_entries entries loc (insert_field key_str json_value json_map)

  unfoldable pub yaml_map_to_json_map : Y.Mapping → SourceLocation → Result Error (Fields N)
  yaml_map_to_json_map map_ loc = insert_entries (Y.entries map_) loc Fields.end

  unfoldable pub parse_policy : Option Y.Value → Text → Result Error Policy
  parse_policy none source =
      ok (record { budget_tokens = none; timeout_ms = none; confirm_external = none })
  parse_policy (some value) source = do
    mapping ←
        require (codes "policy must be a mapping") (locate_key source (codes "policy"))
          (Y.as_mapping value)
    budget ←
        optional
          (λ v.
            require (codes "policy.budget_tokens must be a non-negative integer")
              (locate_key source (codes "budget_tokens")) (expect_u32_value v))
          (Y.get (codes "budget_tokens") mapping)
    timeout ←
        optional
          (λ v.
            require (codes "policy.timeout_ms must be a non-negative integer")
              (locate_key source (codes "timeout_ms")) (expect_u64_value v))
          (Y.get (codes "timeout_ms") mapping)
    confirm ←
        optional
          (λ v.
            require (codes "policy.confirm_external must be a boolean")
              (locate_key source (codes "confirm_external")) (Y.as_bool v))
          (Y.get (codes "confirm_external") mapping)
    ok (record { budget_tokens = budget; timeout_ms = timeout; confirm_external = confirm })

  unfoldable pub default_retry : Retry N
  default_retry = record {
    max_attempts = 0;
    initial_backoff_ms = 0;
    max_backoff_ms = none;
    multiplier = N.f32_tenths 0;
    jitter = N.f32_tenths 0;
  }

  -- `(0.0..=1.0).contains(&jitter)`
  abbrev is_fraction : N.F64 → Bool
  is_fraction jitter = N.f64_leb (N.of_int (pos 0)) jitter && N.f64_leb jitter (N.of_int (pos 1))

  unfoldable pub parse_jitter : SourceLocation → Y.Value → Result Error N.F32
  parse_jitter loc value =
      require (codes "retry.jitter must be a floating point number") loc (Y.as_f64 value)
      >>= (λ jitter.
          if is_fraction jitter
          then ok (N.to_f32 jitter)
          else err (invalid (codes "retry.jitter must be between 0.0 and 1.0") loc))

  -- the fields of `retry` in the order of the source; `initial_ms` overrides `backoff_ms`
  unfoldable pub parse_retry : Y.Value → Text → Result Error (Retry N)
  parse_retry value source = do
    let loc = locate_key source (codes "retry")
    mapping ← require (codes "retry must be a mapping") loc (Y.as_mapping value)
    attempts ←
        optional
          (λ v.
            require (codes "retry.max_attempts must be a non-negative integer") loc
              (expect_u32_value v))
          (Y.get (codes "max_attempts") mapping)
    backoff ←
        optional
          (λ v.
            require (codes "retry.backoff_ms must be a non-negative integer") loc
              (expect_u64_value v))
          (Y.get (codes "backoff_ms") mapping)
    initial_ms ←
        optional
          (λ v.
            require (codes "retry.initial_ms must be a non-negative integer") loc
              (expect_u64_value v))
          (Y.get (codes "initial_ms") mapping)
    max_ms ←
        optional
          (λ v.
            require (codes "retry.max_ms must be a non-negative integer") loc (expect_u64_value v))
          (Y.get (codes "max_ms") mapping)
    multiplier ←
        optional
          (λ v. require (codes "retry.multiplier must be a floating point number") loc (Y.as_f64 v))
          (Y.get (codes "multiplier") mapping)
    jitter ← optional (parse_jitter loc) (Y.get (codes "jitter") mapping)
    ok (record {
      max_attempts = unwrap_or 0 attempts;
      initial_backoff_ms = unwrap_or 100 (or_else initial_ms backoff);
      max_backoff_ms = max_ms;
      multiplier = unwrap_or (N.f32_tenths 20) (option_map N.to_f32 multiplier);
      jitter = unwrap_or (N.f32_tenths 2) jitter;
    })
