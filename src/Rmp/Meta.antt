-- ===== src/Rmp/Meta.antt =====
-- `EnvelopeMeta` of crates/rmp/src/envelope.rs, and what its derived Serialize and Deserialize write
-- and read: the fields by their names, those that are skipped left out, and the entries of `extra`
-- flattened among them. The encodings of single values are rmp_serde's, and a parameter.
pub mod Plain
pub mod Roundtrip
use mathlib.Core.Option
use mathlib.Core.List.{append_assoc, append-nil}
use runloop.Prelude.{
  ℕ, ◌^◌, ◌<◌, String, ◌≡◌, Bool, false, ◌||◌, Option, none, some, List, [], ◌∷◌, ◌++◌, map,
  if◌then◌else◌, ◌==◌, string_eq,
}
use runloop.Prelude.Dict.{Dict, lookup, insert}
use runloop.Rmp.Error.{◌>>=◌, Result, ok, err}

-- `extra` holds JSON values, a type of serde_json.
pub record EnvelopeMeta (Json : Type 0) : Type 0 where
  pub opening_id : Option ℕ
  pub priority : Option ℕ
  pub tags : List String
  pub extra : Dict String Json

-- The values of rmp_serde at the types of the fields: an encoded value is decoded to itself. The two
-- numbers are read as `Option<u128>` and `Option<u8>`.
pub record Values (Json : Type 0) : Type 1 where
  pub Value : Type 0
  pub of_u128 : ℕ → Value
  pub to_u128 : Value → Result String (Option ℕ)
  pub of_u8 : ℕ → Value
  pub to_u8 : Value → Result String (Option ℕ)
  pub of_strings : List String → Value
  pub to_strings : Value → Result String (List String)
  pub of_json : Json → Value
  pub to_json : Value → Result String Json
  pub to_u128-of_u128 : (n : ℕ) → n < 2 ^ 128 → to_u128 (of_u128 n) ≡ ok (some n)
  pub to_u8-of_u8 : (n : ℕ) → n < 2 ^ 8 → to_u8 (of_u8 n) ≡ ok (some n)
  pub to_strings-of_strings : (texts : List String) → to_strings (of_strings texts) ≡ ok texts
  pub to_json-of_json : (j : Json) → to_json (of_json j) ≡ ok j

module _ {Json : Type 0} (V : Values Json) where
  abbrev pub Entries : Type 0
  Entries = List (String × V.Value)

  -- skipped if `Option::is_none`
  abbrev write_option : String → (ℕ → V.Value) → Option ℕ → Entries
  write_option key f none = []
  write_option key f (some n) = (key, f n) ∷ []

  -- skipped if `Vec::is_empty`
  abbrev write_tags : List String → Entries
  write_tags [] = []
  write_tags texts = ("tags", V.of_strings texts) ∷ []

  abbrev write_extra : Dict String Json → Entries
  write_extra = map (λ e. (e.0, V.of_json e.1))

  -- the derived Serialize
  unfoldable pub write_meta : EnvelopeMeta Json → Entries
  write_meta meta =
      write_option "opening_id" V.of_u128 meta.opening_id
      ++ (write_option "priority" V.of_u8 meta.priority
          ++ (write_tags meta.tags ++ write_extra meta.extra))

  -- what the derived Deserialize has met so far
  record Met : Type 0 where
    opening_id : Option (Option ℕ)
    priority : Option (Option ℕ)
    tags : Option (List String)
    rest : Entries

  -- One entry: a field that comes twice is an error, and what is no field is left for `extra`.
  unfoldable read_entry : String × V.Value → Met → Result String Met
  read_entry (key, v) met =
      if key == "opening_id"
      then (elim met.opening_id [
        | some _ ↦ err "duplicate field `opening_id`"
        | none ↦ V.to_u128 v >>= (λ n. ok (record met { opening_id = some n }))
      ])
      else if key == "priority"
      then (elim met.priority [
        | some _ ↦ err "duplicate field `priority`"
        | none ↦ V.to_u8 v >>= (λ n. ok (record met { priority = some n }))
      ])
      else if key == "tags"
      then (elim met.tags [
        | some _ ↦ err "duplicate field `tags`"
        | none ↦ V.to_strings v >>= (λ texts. ok (record met { tags = some texts }))
      ])
      else ok (record met { rest = met.rest ++ (key, v) ∷ [] })

  unfoldable read_entries : Entries → Met → Result String Met
  read_entries [] met = ok met
  read_entries (e ∷ entries) met = read_entry e met >>= (λ met'. read_entries entries met')

  -- the flattened map, from what is left
  unfoldable read_extra : Entries → Dict String Json → Result String (Dict String Json)
  read_extra [] extra = ok extra
  read_extra ((key, v) ∷ entries) extra =
      V.to_json v >>= (λ j. read_extra entries (insert key j extra))

  abbrev met_none : Met
  met_none = record { opening_id = none; priority = none; tags = none; rest = [] }

  -- the derived Deserialize
  unfoldable pub read_meta : Entries → Result String (EnvelopeMeta Json)
  unfolding read_entry read_entries read_extra
  read_meta entries = do
    met ← read_entries entries met_none
    extra ← read_extra met.rest []
    ok (record {
      opening_id = Option.get_or met.opening_id none;
      priority = Option.get_or met.priority none;
      tags = Option.get_or met.tags [];
      extra = extra;
    })

-- a name that the fields of the struct take
abbrev pub is_field : String → Bool
is_field key = key == "opening_id" || key == "priority" || key == "tags"

abbrev pub Fits : ℕ → Option ℕ → Type 0
Fits bits none = Unit
Fits bits (some n) = n < 2 ^ bits

-- the keys of a map, beyond those that stand before it: none is met twice and none is a field's
abbrev pub Clean : {Json : Type 0} → Dict String Json → Dict String Json → Type 0
Clean before [] = Unit
Clean before ((key, j) ∷ rest) =
    (is_field key ≡ false) × (lookup key before ≡ none) × Clean (before ++ (key, j) ∷ []) rest

module _ {Json : Type 0} where
  -- The numbers fit their types, and no key of `extra` is the name of a field.
  pub record IsMeta (meta : EnvelopeMeta Json) : Type 0 where
    pub opening_id : Fits 128 meta.opening_id
    pub priority : Fits 8 meta.priority
    pub extra : Clean [] meta.extra
