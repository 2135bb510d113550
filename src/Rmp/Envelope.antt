-- ===== src/Rmp/Envelope.antt =====
-- crates/rmp/src/envelope.rs and registry.rs: a payload and its metadata under the type string of a
-- schema id. MsgPack itself is a library's, and a parameter.
use mathlib.Core.Option
use runloop.Prelude.{
  ℕ, String, ◌≡◌, refl, inl, inr, not, Option, none, some, arith, if◌then◌else◌, Option-cases, ◌==◌,
  nat_eq, option_eq, option_beq_iff,
}
use runloop.Core.Types.{TypeDescriptor, descriptor_for_schema, schema_for, type_name_for}
use runloop.Core.Types.Laws.{id_entry}
use runloop.Rmp.Buf.{Bytes}
use runloop.Rmp.Meta.{EnvelopeMeta, Values, Entries, write_meta, read_meta, IsMeta}
use runloop.Rmp.Meta.Roundtrip.{read_meta-write_meta}
use runloop.Rmp.Error.{
  ◌>>=◌, Result, ok, err, map_err, Error, unknown_schema, body_type_mismatch, encode, decode,
}

-- `DecodedEnvelope`
pub record Envelope (Json T : Type 0) : Type 0 where
  pub type_str : String
  pub payload : T
  pub metadata : Option (EnvelopeMeta Json)

-- rmp_serde at one payload type: an encoding, when there is one, is decoded to what was encoded. An
-- `EncEnvelope`, and the `RawEnvelope` that is read back, is a type string, a payload and the entries
-- of the metadata, if there is any.
pub record MsgPack (Json T : Type 0) : Type 1 where
  pub values : Values Json
  pub serialize : String → T → Option (Entries values) → Result String Bytes
  pub deserialize : Bytes → Result String (String × T × Option (Entries values))
  pub deserialize-serialize :
      (type_str : String) (payload : T) (metadata : Option (Entries values)) (bytes : Bytes)
      → serialize type_str payload metadata ≡ ok bytes
      → deserialize bytes ≡ ok (type_str, payload, metadata)

-- ok_or
abbrev ok_or : Option TypeDescriptor → Error → Result Error TypeDescriptor
ok_or none e = err e
ok_or (some d) e = ok d

module _ {Json T : Type 0} (m : MsgPack Json T) where
  unfoldable pub encode_payload : ℕ → T → Option (EnvelopeMeta Json) → Result Error Bytes
  encode_payload schema_id payload metadata = do
    descriptor ← ok_or (descriptor_for_schema schema_id) (unknown_schema schema_id)
    map_err encode
        (m.serialize descriptor.type_str payload (Option.map (write_meta m.values) metadata))

  -- `meta` of the `RawEnvelope`, which is `None` where it is missing
  unfoldable read_metadata : Option (Entries m.values) → Result String (Option (EnvelopeMeta Json))
  read_metadata none = ok none
  read_metadata (some entries) = read_meta m.values entries >>= (λ meta. ok (some meta))

  unfoldable deserialize_envelope : Bytes → Result String (Envelope Json T)
  unfolding read_metadata
  deserialize_envelope bytes = m.deserialize bytes >>= (λ raw.
      read_metadata raw.2
      >>= (λ metadata. ok (record { type_str = raw.0; payload = raw.1; metadata = metadata })))

  unfoldable pub decode_payload : ℕ → Bytes → Result Error (Envelope Json T)
  unfolding deserialize_envelope
  decode_payload schema_id bytes = do
    descriptor ← ok_or (descriptor_for_schema schema_id) (unknown_schema schema_id)
    env ← map_err decode (deserialize_envelope bytes)
    if not (schema_for env.type_str == some descriptor.schema_id)
        then err (body_type_mismatch descriptor.schema_id env.type_str)
        else ok env

  -- what a reader that expects the schema `other` makes of an envelope of the schema `id`
  abbrev pub read_as : ℕ → ℕ → Envelope Json T → Result Error (Envelope Json T)
  read_as id other env = elim (type_name_for other) [
    | none ↦ err (unknown_schema other)
    | some _ ↦ if id == other then ok env else err (body_type_mismatch other env.type_str)
  ]

  read_as_eq :
      (id other : ℕ) (d : TypeDescriptor) (env : Envelope Json T) (bytes : Bytes)
      → descriptor_for_schema id ≡ some d
      → env.type_str ≡ d.type_str
      → deserialize_envelope bytes ≡ ok env
      → decode_payload other bytes ≡ read_as id other env
  unfolding decode_payload type_name_for
  read_as_eq id other d env bytes found e read = elim (Option-cases (descriptor_for_schema other)) [
    | inl missing ↦ let unnamed : type_name_for other ≡ none = rw missing in ground arith
    | inr (d', found') ↦
        let named : type_name_for other ≡ some d'.type_str = rw found' in
        rw (found', read)
          (ground (
            arith,
            id_entry id d found,
            id_entry other d' found',
            option_beq_iff (schema_for env.type_str) (some d'.schema_id),
          ))
  ]

  -- metadata, if any, whose numbers fit and whose extra keys are not names of fields
  abbrev pub IsMetadata : Option (EnvelopeMeta Json) → Type 0
  IsMetadata none = Unit
  IsMetadata (some meta) = IsMeta meta

  read_metadata-write_meta :
      (metadata : Option (EnvelopeMeta Json))
      → IsMetadata metadata
      → read_metadata (Option.map (write_meta m.values) metadata) ≡ ok metadata
  unfolding read_metadata
  read_metadata-write_meta none h = refl
  read_metadata-write_meta (some meta) h = rw (read_meta-write_meta m.values meta h) refl

  deserialize_envelope-serialize :
      (type_str : String) (payload : T) (metadata : Option (EnvelopeMeta Json)) (bytes : Bytes)
      → IsMetadata metadata
      → m.serialize type_str payload (Option.map (write_meta m.values) metadata) ≡ ok bytes
      → deserialize_envelope bytes
        ≡ ok (record { type_str = type_str; payload = payload; metadata = metadata })
  unfolding deserialize_envelope
  deserialize_envelope-serialize type_str payload metadata bytes fits written =
      rw
        (
          m.deserialize-serialize type_str payload (Option.map (write_meta m.values) metadata) bytes
              written,
          read_metadata-write_meta metadata fits,
        )
        refl

  -- When a payload has been encoded under the schema `id`, with no metadata or with metadata whose
  -- numbers fit their types and whose extra keys are pairwise different and none of them
  -- `opening_id`, `priority` or `tags`, that id has a type string, and decoding the bytes under a
  -- schema `other` gives the type string, payload and metadata back if `other` is `id`; for another
  -- registered schema it is a type mismatch that names `other` and the type string, and for an
  -- unregistered one an unknown schema.
  pub decode_payload-encode_payload :
      (id other : ℕ) (payload : T) (metadata : Option (EnvelopeMeta Json)) (bytes : Bytes)
      → IsMetadata metadata
      → encode_payload id payload metadata ≡ ok bytes
      → (name : String) × (type_name_for id ≡ some name)
        × (decode_payload other bytes
            ≡ read_as id other (record { type_str = name; payload = payload; metadata = metadata }))
  unfolding encode_payload type_name_for
  decode_payload-encode_payload id other payload metadata bytes fits h =
      elim (Option-cases (descriptor_for_schema id)) [
        | inl missing ↦ absurd (ground arith)
        | inr (d, found) ↦
            let env : Envelope Json T = record {
              type_str = d.type_str;
              payload = payload;
              metadata = metadata;
            } in
            let packed = Option.map (write_meta m.values) metadata in
            let written : m.serialize d.type_str payload packed ≡ ok bytes = ground arith in
            (
              d.type_str,
              rw found,
              read_as_eq id other d env bytes found refl
                  (deserialize_envelope-serialize d.type_str payload metadata bytes fits written),
            )
      ]
