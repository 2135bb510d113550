-- ===== src/Rmp/Tests.antt =====
-- Concrete frames, headers and payloads of crates/rmp, and the theorems applied to them.
use runloop.Prelude.{
  ℕ, ◌+◌, ◌^◌, ◌≤◌, ◌<◌, String, ◌≡◌, refl, ◌↔◌, true, false, ◌&&◌, Option, none, some, [], ◌∷◌,
  ◌++◌, arith, if◌then◌else◌, ◌==◌, length, take, drop, take-append-drop, string_eq,
}
use text.Mathlib.TextEquality.{eq_iff}
use runloop.Prelude.Dict.{insert, lookup}
use runloop.Core.Types.{descriptor_for_schema, id_to_desc, fill_ids, type_name_for}
use runloop.Rmp.Error.{◌>>=◌, >>=-eq-ok, Result, ok, err, incomplete, invalid_ttl, invalid_expiry}
use runloop.Rmp.Buf.{Bytes, AreBytes}
use runloop.Rmp.Buf.BigEndian.{big_endian, put}
use runloop.Rmp.Header.{Header, default, encode_into, decode_from, is_expired, u64_max}
use runloop.Rmp.Header.Layout.{IsV0, decode_from-encode_into}
use runloop.Rmp.Header.Canonical.{decode_from_canonical}
use runloop.Rmp.Header.Expiry.{is_expired_iff}
use runloop.Rmp.Frame.{encode_frame, decode_frame}
use runloop.Rmp.Frame.Codec.{decode_frame-encode_frame}
use runloop.Rmp.Frame.Canonical.{decode_frame_canonical}
use runloop.Rmp.Frame.Prefix.{decode_frame_incomplete}
use runloop.Rmp.Envelope.{
  MsgPack, encode_payload, decode_payload, read_as, IsMetadata, decode_payload-encode_payload,
}
use runloop.Rmp.Meta.{EnvelopeMeta, Values, Entries, write_meta}
use runloop.Rmp.Meta.Plain.{number, json, plain}

abbrev sample : Header
sample = record default {
  schema_id = 3;
  created_at_ms = 1_700_000_000_000;
  trace_id = 2 ^ 100;
  msg_id = 7;
}

abbrev body : Bytes
body = 1 ∷ 2 ∷ 255 ∷ []

abbrev wire : Bytes
wire = encode_frame big_endian sample body

sample-IsV0 : IsV0 sample
sample-IsV0 = record { widths = ground arith; version = refl; len = refl; no_flags = refl }

decode_frame-encode_frame_example :
    decode_frame big_endian (wire ++ body) 1_024 ≡ ok (record sample { body_len = 3 }, body)
decode_frame-encode_frame_example =
    decode_frame-encode_frame big_endian sample body body 1_024 sample-IsV0 (omega arith)
      (omega arith)

wire-AreBytes : AreBytes (wire ++ body)
unfolding encode_frame encode_into put
wire-AreBytes = ground arith

abbrev sized : Header
sized = record sample { body_len = 3 }

decode_frame_canonical_example :
    (rest : Bytes) × (encode_frame big_endian sized body ++ rest ≡ wire ++ body)
    × IsV0 sized
    × (3 ≡ length body)
    × (length body ≤ 1_024)
decode_frame_canonical_example =
    decode_frame_canonical big_endian (wire ++ body) 1_024 sized body wire-AreBytes (
      decode_frame-encode_frame big_endian sample body body 1_024 sample-IsV0 (omega arith)
        (omega arith))

decode_frame_incomplete_example : decode_frame big_endian (take 66 wire) 1_024 ≡ err incomplete
unfolding encode_frame encode_into put
decode_frame_incomplete_example =
    decode_frame_incomplete big_endian sample body (take 66 wire) (drop 66 wire) 1_024 (omega arith)
      (take-append-drop 66 wire) (omega arith)

abbrev header_bytes : Bytes
header_bytes = encode_into big_endian sized [] ++ body

sized-IsV0 : IsV0 sized
sized-IsV0 = record { widths = ground arith; version = refl; len = refl; no_flags = refl }

decode_from-encode_into_example : decode_from big_endian header_bytes ≡ ok sized
decode_from-encode_into_example = decode_from-encode_into big_endian sized body sized-IsV0

header_bytes-AreBytes : AreBytes header_bytes
unfolding encode_into put
header_bytes-AreBytes = ground arith

decode_from_canonical_example :
    (rest : Bytes) × (encode_into big_endian sized [] ++ rest ≡ header_bytes) × IsV0 sized
decode_from_canonical_example =
    decode_from_canonical big_endian header_bytes sized header_bytes-AreBytes
      (decode_from-encode_into big_endian sized body sized-IsV0)

is_expired_iff_example :
    ((is_expired sample 5 ≡ ok true)
      ↔ ((0 < 30_000) × (1_700_000_000_000 + 30_000 ≤ u64_max) × (1_700_000_000_000 + 30_000 ≤ 5)))
    × ((is_expired sample 5 ≡ ok false) ↔ (
        (0 < 30_000) × (1_700_000_000_000 + 30_000 ≤ u64_max) × (5 < 1_700_000_000_000 + 30_000)))
    × ((is_expired sample 5 ≡ err (invalid_ttl 0)) ↔ (sample.ttl_ms ≡ 0))
    × ((is_expired sample 5 ≡ err (invalid_expiry 1_700_000_000_000 30_000))
        ↔ ((0 < 30_000) × (u64_max < 1_700_000_000_000 + 30_000)))
is_expired_iff_example = is_expired_iff sample 5

-- A library that encodes numbers under one type string, bare or with metadata that has an opening, a
-- priority and a number under the key `source`.
abbrev values : Values ℕ
values = plain ℕ

abbrev number_type : String
number_type = "observation.generic.v1"

abbrev write_entries : Entries values → Result String Bytes
write_entries ((id, number i) ∷ (priority, number p) ∷ (source, json j) ∷ []) =
    if id == "opening_id" && priority == "priority" && source == "source"
    then ok (i ∷ p ∷ j ∷ [])
    else err "metadata"
write_entries _ = err "metadata"

abbrev read_triple : ℕ → ℕ → ℕ → Entries values
read_triple i p j = ("opening_id", number i) ∷ ("priority", number p) ∷ ("source", json j) ∷ []

abbrev write_number : String → ℕ → Option (Entries values) → Result String Bytes
write_number type_str n none = if type_str == number_type then ok (n ∷ []) else err "type"
write_number type_str n (some entries) =
    if type_str == number_type
    then write_entries entries >>= (λ bytes. ok (n ∷ bytes))
    else err "type"

abbrev read_number : Bytes → Result String (String × ℕ × Option (Entries values))
read_number (n ∷ []) = ok (number_type, n, none)
read_number (n ∷ i ∷ p ∷ j ∷ []) = ok (number_type, n, some (read_triple i p j))
read_number _ = err "length"

write_entries-triple :
    (entries : Entries values) (bytes : Bytes)
    → write_entries entries ≡ ok bytes
    → (i p j : ℕ) × (bytes ≡ i ∷ p ∷ j ∷ []) × (entries ≡ read_triple i p j)
write_entries-triple ((id, number i) ∷ (priority, number p) ∷ (source, json j) ∷ []) bytes h = (
  i,
  p,
  j,
  ground arith,
  ground (arith, eq_iff id "opening_id", eq_iff priority "priority", eq_iff source "source"),
)
write_entries-triple entries bytes h = absurd (ground arith)

read_number-write_number :
    (type_str : String) (n : ℕ) (metadata : Option (Entries values)) (bytes : Bytes)
    → write_number type_str n metadata ≡ ok bytes
    → read_number bytes ≡ ok (type_str, n, metadata)
read_number-write_number type_str n none bytes h = ground (arith, eq_iff type_str number_type)
read_number-write_number type_str n (some entries) bytes h =
    let next : Bytes → Result String Bytes = λ rest. ok (n ∷ rest) in
    let chained : (write_entries entries >>= next) ≡ ok bytes = ground arith in
    let (rest, written, last) = >>=-eq-ok (write_entries entries) next chained in
    let (i, p, j, same_bytes, same_entries) = write_entries-triple entries rest written in
    ground (arith, eq_iff type_str number_type)

abbrev numbers : MsgPack ℕ ℕ
numbers = record {
  values = values;
  serialize = write_number;
  deserialize = read_number;
  deserialize-serialize = read_number-write_number;
}

abbrev metadata : Option (EnvelopeMeta ℕ)
metadata =
    some (record { opening_id = some 7; priority = some 1; tags = []; extra = ("source", 40) ∷ [] })

encoded : encode_payload numbers 1 9 metadata ≡ ok (9 ∷ 7 ∷ 1 ∷ 40 ∷ [])
unfolding encode_payload descriptor_for_schema id_to_desc fill_ids insert lookup write_meta
encoded = refl

metadata-IsMeta : IsMetadata numbers metadata
unfolding lookup
metadata-IsMeta = record {
  opening_id = omega arith;
  priority = omega arith;
  extra = (refl, refl, tt);
}

decode_payload-encode_payload_example :
    (name : String) × (type_name_for 1 ≡ some name)
    × (decode_payload numbers 2 (9 ∷ 7 ∷ 1 ∷ 40 ∷ [])
        ≡ read_as numbers 1 2 (record { type_str = name; payload = 9; metadata = metadata }))
decode_payload-encode_payload_example =
    decode_payload-encode_payload numbers 1 2 9 metadata (9 ∷ 7 ∷ 1 ∷ 40 ∷ []) metadata-IsMeta
      encoded
