-- ===== src/Rmp/Frame.antt =====
-- `encode_frame` and `decode_frame` of crates/rmp/src/header.rs: a header and a body behind a 32-bit
-- length prefix. The proofs are in the modules below.
pub mod Canonical
pub mod Codec
pub mod Prefix
use runloop.Prelude.{
  ℕ, ◌+◌, ◌-◌, ◌%◌, not, ◌++◌, ltb, if◌then◌else◌, ◌==◌, length, take, drop, nat_eq,
}
use runloop.Rmp.Buf.{Bytes, Buf}
use runloop.Rmp.Error.{
  Result, ok, err, FrameDecodeError, truncated, incomplete, length_mismatch, oversized, ◌>>=◌,
}
use runloop.Rmp.Header.{Header, header_len, u32_mod, encode_into, decode_from}

-- `len as u32` keeps the low 32 bits, of the body's length and of the frame's
unfoldable pub encode_frame : Buf → Header → Bytes → Bytes
encode_frame b h body =
    let h' = record h { body_len = length body % u32_mod } in
    let frame_len = header_len + length body in
    encode_into b h' (b.put 4 (frame_len % u32_mod)) ++ body

-- the checks on a header that was read, and the body
unfoldable pub decode_body : Bytes → ℕ → ℕ → Header → Result FrameDecodeError (Header × Bytes)
decode_body cursor frame_len max_len h =
    let body_len = frame_len - header_len in
    if not (h.body_len == body_len)
    then err (length_mismatch h.body_len body_len)
    else if ltb max_len h.body_len
    then err (oversized h.body_len)
    else ok (h, take body_len (drop header_len cursor))

unfoldable pub decode_frame : Buf → Bytes → ℕ → Result FrameDecodeError (Header × Bytes)
decode_frame b bytes max_len =
    if ltb (length bytes) 4
    then err incomplete
    else let (frame_len, cursor) = b.get 4 bytes in
      if ltb (length cursor) frame_len
      then err incomplete
      else if ltb frame_len header_len
      then err truncated
      else do h ← decode_from b (take header_len cursor); decode_body cursor frame_len max_len h
