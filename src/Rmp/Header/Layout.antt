-- ===== src/Rmp/Header/Layout.antt =====
-- The byte form of a header of crates/rmp/src/header.rs, field by field.
use mathlib.Core.List.{append_assoc}
use runloop.Prelude.{
  ◌+◌, ◌≡◌, ap, false, [], ◌++◌, arith, ltb, length, length-append, nat_eq, list_eq,
}
use runloop.Rmp.Buf.{Bytes, Buf}
use runloop.Rmp.Error.{ok}
use runloop.Rmp.Header.{Header, IsHeader, magic, encode_into, decode_from}

-- A header that version 0 of the protocol accepts.
pub record IsV0 (h : Header) : Type 0 where
  pub widths : IsHeader h
  pub version : h.header_version ≡ 0
  pub len : h.header_len ≡ 64
  pub no_flags : h.flags ≡ 0

module _ (b : Buf) where
  pub length-encode_into :
      (h : Header) (buf : Bytes) → length (encode_into b h buf) ≡ length buf + 64
  unfolding encode_into
  length-encode_into h buf = simp (length-append, b.length-put)

  pub encode_into-append :
      (h : Header) (buf rest : Bytes)
      → encode_into b h buf ++ rest ≡ buf ++ (encode_into b h [] ++ rest)
  unfolding encode_into
  encode_into-append h buf rest = simp append_assoc

  -- the bytes of a header before `rest`, bracketed as they are read
  unfoldable pub layout : Header → Bytes → Bytes
  layout h rest =
      magic
      ++ (b.put 2 h.header_version
          ++ (b.put 2 h.header_len
              ++ (b.put 4 h.flags
                  ++ (b.put 2 h.schema_id
                      ++ (b.put 2 0
                          ++ (b.put 4 h.body_len
                              ++ (b.put 8 h.created_at_ms
                                  ++ (b.put 8 h.ttl_ms
                                      ++ (b.put 16 h.trace_id
                                          ++ (b.put 8 h.msg_id ++ (b.put 4 0 ++ rest)))))))))))

  pub encode_into-layout : (h : Header) (rest : Bytes) → encode_into b h [] ++ rest ≡ layout h rest
  unfolding encode_into layout
  encode_into-layout h rest = simp append_assoc

  layout-long : (h : Header) (rest : Bytes) → ltb (length (layout h rest)) 64 ≡ false
  layout-long h rest = ground (
    arith,
    ap length (encode_into-layout h rest),
    length-append (encode_into b h []) rest,
    length-encode_into h [],
  )

  decode_from-layout : (h : Header) (rest : Bytes) → IsV0 h → decode_from b (layout h rest) ≡ ok h
  unfolding decode_from layout
  decode_from-layout h rest v =
      let w = v.widths in
      let t0 : Bytes = b.put 4 0 ++ rest in
      let t1 : Bytes = b.put 8 h.msg_id ++ t0 in
      let t2 : Bytes = b.put 16 h.trace_id ++ t1 in
      let t3 : Bytes = b.put 8 h.ttl_ms ++ t2 in
      let t4 : Bytes = b.put 8 h.created_at_ms ++ t3 in
      let t5 : Bytes = b.put 4 h.body_len ++ t4 in
      let t6 : Bytes = b.put 2 0 ++ t5 in
      let t7 : Bytes = b.put 2 h.schema_id ++ t6 in
      let t8 : Bytes = b.put 4 h.flags ++ t7 in
      let t9 : Bytes = b.put 2 h.header_len ++ t8 in
      rw
        (
          layout-long h rest,
          b.get-put 2 h.header_version t9 w.header_version_u16,
          b.get-put 2 h.header_len t8 w.header_len_u16,
          b.get-put 4 h.flags t7 w.flags_u32,
          b.get-put 2 h.schema_id t6 w.schema_id_u16,
          b.get-put 2 0 t5 (omega arith),
          b.get-put 4 h.body_len t4 w.body_len_u32,
          b.get-put 8 h.created_at_ms t3 w.created_at_ms_u64,
          b.get-put 8 h.ttl_ms t2 w.ttl_ms_u64,
          b.get-put 16 h.trace_id t1 w.trace_id_u128,
          b.get-put 8 h.msg_id t0 w.msg_id_u64,
          b.get-put 4 0 rest (omega arith),
        )
        (ground arith)

  -- A header of version 0 with fields in their widths is read back by `decode_from` from the bytes
  -- that `encode_into` writes, whatever bytes follow them.
  pub decode_from-encode_into :
      (h : Header) (rest : Bytes) → IsV0 h → decode_from b (encode_into b h [] ++ rest) ≡ ok h
  decode_from-encode_into h rest v = rw (encode_into-layout h rest) (decode_from-layout h rest v)
