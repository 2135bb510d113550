-- ===== src/Core/Types/Laws.antt =====
-- The two lookups of crates/core/src/content_types.rs.
use runloop.Prelude.{
  ℕ, String, ◌≡◌, refl, ◌↔◌, inl, inr, Bool, true, ◌&&◌, some, arith, Option-cases, ◌==◌, nat_eq,
  string_eq, option_eq, option_beq_iff,
}
use runloop.Prelude.Dict.{all_entries, all_entries-lookup}
use runloop.Core.Types.{
  TypeDescriptor, id_to_desc, type_to_desc, descriptor_for_schema, descriptor_for_type, schema_for,
  type_name_for,
}

abbrev id_check : ℕ → TypeDescriptor → Bool
id_check id d = (d.schema_id == id) && (schema_for d.type_str == some id)

abbrev type_check : String → TypeDescriptor → Bool
type_check name d = (d.type_str == name) && (type_name_for d.schema_id == some name)

-- every entry of the two tables, by evaluation
id_table : all_entries id_check id_to_desc ≡ true
unfolding id_to_desc schema_for type_to_desc
id_table = refl

type_table : all_entries type_check type_to_desc ≡ true
unfolding id_to_desc type_name_for type_to_desc
type_table = refl

pub id_entry :
    (id : ℕ) (d : TypeDescriptor)
    → descriptor_for_schema id ≡ some d
    → (d.schema_id ≡ id) × (schema_for d.type_str ≡ some id)
unfolding descriptor_for_schema
id_entry id d h =
    let p : id_check id d ≡ true = all_entries-lookup id_check id d id_to_desc id_table h in
    ground (arith, option_beq_iff (schema_for d.type_str) (some id))

type_entry :
    (name : String) (d : TypeDescriptor)
    → descriptor_for_type name ≡ some d
    → (d.type_str ≡ name) × (type_name_for d.schema_id ≡ some name)
unfolding descriptor_for_type
type_entry name d h =
    let p : type_check name d ≡ true =
      all_entries-lookup type_check name d type_to_desc type_table h in
    ground (
      arith,
      string_eq.beq_iff d.type_str name,
      option_beq_iff (type_name_for d.schema_id) (some name),
    )

pub descriptor_for_schema_id :
    (id : ℕ) (d : TypeDescriptor) → descriptor_for_schema id ≡ some d → d.schema_id ≡ id
descriptor_for_schema_id id d h = (id_entry id d h).0

pub schema_for_type_name :
    (id : ℕ) (name : String) → type_name_for id ≡ some name → schema_for name ≡ some id
unfolding type_name_for
schema_for_type_name id name h = elim (Option-cases (descriptor_for_schema id)) [
  | inl missing ↦ ground arith
  | inr (d, found) ↦ ground (arith, id_entry id d found)
]

type_name_for_schema :
    (id : ℕ) (name : String) → schema_for name ≡ some id → type_name_for id ≡ some name
unfolding schema_for
type_name_for_schema id name h = elim (Option-cases (descriptor_for_type name)) [
  | inl missing ↦ ground arith
  | inr (d, found) ↦ ground (arith, type_entry name d found)
]

-- The two lookups of the registry are inverse: a schema id has a type string exactly when that type
-- string resolves to the id.
pub type_name_for_iff :
    (id : ℕ) (name : String) → (type_name_for id ≡ some name) ↔ (schema_for name ≡ some id)
type_name_for_iff id name = (schema_for_type_name id name, type_name_for_schema id name)
