-- ===== src/Rmp/Header.antt =====
-- `Header` of crates/rmp/src/header.rs: its fields, its byte form and its expiry. The proofs are in
-- the modules below.
pub mod Expiry
pub mod Layout
pub mod Canonical
use runloop.Prelude.{
  ℕ, ◌+◌, ◌-◌, ◌*◌, ◌^◌, ◌<◌, Bool, not, ◌||◌, [], ◌∷◌, ◌++◌, ltb, leb, if◌then◌else◌, ◌==◌, length,
  take, drop, nat_eq, list_eq,
}
use runloop.Rmp.Buf.{Bytes, Buf}
use runloop.Rmp.Error.{
  ◌>>=◌, Result, ok, err, Error, invalid_ttl, invalid_expiry, FrameDecodeError, truncated,
  invalid_magic, unsupported, invalid_header_flags,
}

-- the magic b"RMP0"
abbrev pub magic : Bytes
magic = b'R' ∷ b'M' ∷ b'P' ∷ b'0' ∷ []

abbrev pub header_version : ℕ
header_version = 0

abbrev pub header_len : ℕ
header_len = 64

abbrev pub default_ttl_ms : ℕ
default_ttl_ms = 30_000

abbrev pub default_max_frame_len : ℕ
default_max_frame_len = 8 * 1024 * 1024

abbrev pub u32_mod : ℕ
u32_mod = 2 ^ 32

abbrev pub u64_max : ℕ
u64_max = 2 ^ 64 - 1

-- The unsigned fields are numbers; `IsHeader` has their widths.
pub record Header : Type 0 where
  pub header_version : ℕ
  pub header_len : ℕ
  pub flags : ℕ
  pub schema_id : ℕ
  pub body_len : ℕ
  pub created_at_ms : ℕ
  pub ttl_ms : ℕ
  pub trace_id : ℕ
  pub msg_id : ℕ

pub record IsHeader (h : Header) : Type 0 where
  pub header_version_u16 : h.header_version < 256 ^ 2
  pub header_len_u16 : h.header_len < 256 ^ 2
  pub flags_u32 : h.flags < 256 ^ 4
  pub schema_id_u16 : h.schema_id < 256 ^ 2
  pub body_len_u32 : h.body_len < 256 ^ 4
  pub created_at_ms_u64 : h.created_at_ms < 256 ^ 8
  pub ttl_ms_u64 : h.ttl_ms < 256 ^ 8
  pub trace_id_u128 : h.trace_id < 256 ^ 16
  pub msg_id_u64 : h.msg_id < 256 ^ 8

-- impl Default for Header
abbrev pub default : Header
default = record {
  header_version = header_version;
  header_len = header_len;
  flags = 0;
  schema_id = 0;
  body_len = 0;
  created_at_ms = 0;
  ttl_ms = default_ttl_ms;
  trace_id = 0;
  msg_id = 0;
}

unfoldable pub encode_into : Buf → Header → Bytes → Bytes
encode_into b h buf =
    buf
    ++ (magic
        ++ (b.put 2 h.header_version
            ++ (b.put 2 h.header_len
                ++ (b.put 4 h.flags
                    ++ (b.put 2 h.schema_id
                        ++ (b.put 2 0
                            ++ (b.put 4 h.body_len
                                ++ (b.put 8 h.created_at_ms
                                    ++ (b.put 8 h.ttl_ms
                                        ++ (b.put 16 h.trace_id
                                            ++ (b.put 8 h.msg_id ++ b.put 4 0)))))))))))

unfoldable pub decode_from : Buf → Bytes → Result FrameDecodeError Header
decode_from b buf =
    if ltb (length buf) header_len
    then err truncated
    else if not (take 4 buf == magic)
    then err (invalid_magic (take 4 buf))
    else let (version, buf) = b.get 2 (drop 4 buf) in
      let (len, buf) = b.get 2 buf in
      if not (version == header_version) || not (len == header_len)
      then err (unsupported version len)
      else let (flags, buf) = b.get 4 buf in
        if not (flags == 0)
        then err (invalid_header_flags flags)
        else let (schema_id, buf) = b.get 2 buf in
          let (reserved2, buf) = b.get 2 buf in
          if not (reserved2 == 0)
          then err (invalid_header_flags reserved2)
          else let (body_len, buf) = b.get 4 buf in
            let (created_at_ms, buf) = b.get 8 buf in
            let (ttl_ms, buf) = b.get 8 buf in
            let (trace_id, buf) = b.get 16 buf in
            let (msg_id, buf) = b.get 8 buf in
            let (reserved4, _) = b.get 4 buf in
            if not (reserved4 == 0)
            then err (invalid_header_flags reserved4)
            else ok (record {
              header_version = version;
              header_len = len;
              flags = flags;
              schema_id = schema_id;
              body_len = body_len;
              created_at_ms = created_at_ms;
              ttl_ms = ttl_ms;
              trace_id = trace_id;
              msg_id = msg_id;
            })

-- the key of the dedupe caches
abbrev pub dedupe_key : Header → ℕ × ℕ
dedupe_key h = (h.trace_id, h.msg_id)

-- the sum is taken in `u128`, where it cannot wrap
unfoldable pub expires_at_ms : Header → Result Error ℕ
expires_at_ms h =
    if h.ttl_ms == 0
    then err (invalid_ttl h.ttl_ms)
    else if ltb u64_max (h.created_at_ms + h.ttl_ms)
    then err (invalid_expiry h.created_at_ms h.ttl_ms)
    else ok (h.created_at_ms + h.ttl_ms)

unfoldable pub is_expired : Header → ℕ → Result Error Bool
is_expired h now_ms = do expires ← expires_at_ms h; ok (leb expires now_ms)
