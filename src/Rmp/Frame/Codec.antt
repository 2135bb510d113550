-- ===== src/Rmp/Frame/Codec.antt =====
-- Reading what `encode_frame` of crates/rmp/src/header.rs wrote.
use runloop.Prelude.{
  ℕ, ◌+◌, ◌-◌, ◌%◌, ◌^◌, ◌≤◌, ◌<◌, ◌≡◌, refl, sym, ap, ◌∙◌, false, List, [], ◌∷◌, ◌++◌, arith, ltb,
  if◌then◌else◌, length, length-append, take, drop, nat_eq,
}
use runloop.Rmp.Buf.{Bytes, Buf}
use runloop.Rmp.Error.{ok, err, ◌>>=◌, incomplete, truncated}
use runloop.Rmp.Header.{Header, header_len, u32_mod, encode_into, decode_from}
use runloop.Rmp.Header.Layout.{
  IsV0, length-encode_into, encode_into-append, decode_from-encode_into,
}
use runloop.Rmp.Frame.{encode_frame, decode_frame, decode_body}
use mathlib.Core.List.{append_assoc, append-nil}

pub take-append {ℓ} : {A : Type ℓ} (xs ys : List A) (n : ℕ) → n ≡ length xs → take n (xs ++ ys) ≡ xs
take-append [] ys n e = rw e
take-append (x ∷ xs) ys n e = rw e (ap (◌∷◌ x) (take-append xs ys (length xs) refl))

pub drop-append {ℓ} : {A : Type ℓ} (xs ys : List A) (n : ℕ) → n ≡ length xs → drop n (xs ++ ys) ≡ ys
drop-append [] ys n e = rw e
drop-append (x ∷ xs) ys n e = rw e (drop-append xs ys (length xs) refl)

-- the header that `encode_frame` writes, where the body's length fits
unfoldable pub sized : Header → Bytes → Header
sized h body = record h { body_len = length body }

module _ (b : Buf) where
  pub frame-eq :
      (h : Header) (body rest : Bytes)
      → header_len + length body < u32_mod
      → encode_frame b h body ++ rest
        ≡ b.put 4 (64 + length body) ++ (encode_into b (sized h body) [] ++ (body ++ rest))
  unfolding encode_frame sized
  frame-eq h body rest fits =
      let e1 : length body % u32_mod ≡ length body = omega arith in
      let e2 : (64 + length body) % u32_mod ≡ 64 + length body = omega arith in
      rw (
        e1,
        e2,
        append_assoc (encode_into b (sized h body) (b.put 4 (64 + length body))) body rest,
        encode_into-append b (sized h body) (b.put 4 (64 + length body)) (body ++ rest),
      )

  -- the checks behind the length prefix
  pub decode_frame-put :
      (n : ℕ) (cursor : Bytes) (max_len : ℕ)
      → n < u32_mod
      → decode_frame b (b.put 4 n ++ cursor) max_len ≡ (
          if ltb (length cursor) n
          then err incomplete
          else if ltb n header_len
          then err truncated
          else (decode_from b (take header_len cursor) >>= decode_body cursor n max_len))
  unfolding decode_frame
  decode_frame-put n cursor max_len h =
      let long : ltb (length (b.put 4 n ++ cursor)) 4 ≡ false =
        ground (arith, length-append (b.put 4 n) cursor, b.length-put 4 n) in
      rw (long, b.get-put 4 n cursor h)

  -- the body is what follows the header, up to the length that the header and the prefix agree on
  decode_body-append :
      (enc body rest : Bytes) (max_len : ℕ) (h : Header)
      → length enc ≡ 64
      → length body ≤ max_len
      → decode_body (enc ++ (body ++ rest)) (64 + length body) max_len (sized h body)
        ≡ ok (sized h body, body)
  unfolding decode_body sized
  decode_body-append enc body rest max_len h e le =
      let n : 64 + length body - 64 ≡ length body = omega arith in
      let d : drop 64 (enc ++ (body ++ rest)) ≡ body ++ rest =
        drop-append enc (body ++ rest) 64 (sym e) in
      rw (n, d, take-append body rest (length body) refl) (ground arith)

  sized-IsV0 : (h : Header) (body : Bytes) → IsV0 h → length body < 2 ^ 32 → IsV0 (sized h body)
  unfolding sized
  sized-IsV0 h body v lt = ground arith

  -- For a header of version 0 with fields in their widths, and a body that fits both the 32-bit
  -- length and the limit `max_len`, decoding the frame that `encode_frame` writes gives back that
  -- header, with `body_len` set to the body's length, and that body, whatever bytes follow the
  -- frame.
  pub decode_frame-encode_frame :
      (h : Header) (body rest : Bytes) (max_len : ℕ)
      → IsV0 h
      → 64 + length body < 2 ^ 32
      → length body ≤ max_len
      → decode_frame b (encode_frame b h body ++ rest) max_len
        ≡ ok (record h { body_len = length body }, body)
  unfolding sized
  decode_frame-encode_frame h body rest max_len v fits le =
      let enc : Bytes = encode_into b (sized h body) [] in
      let len_enc : length enc ≡ 64 = length-encode_into b (sized h body) [] in
      let cursor : Bytes = enc ++ (body ++ rest) in
      let len_cursor : ltb (length cursor) (64 + length body) ≡ false =
        ground (arith, length-append enc (body ++ rest), length-append body rest) in
      let long : ltb (64 + length body) 64 ≡ false = ground arith in
      let read : decode_from b (take 64 cursor) ≡ ok (sized h body) =
        rw (take-append enc (body ++ rest) 64 (sym len_enc), sym (append-nil enc))
          (decode_from-encode_into b (sized h body) [] (sized-IsV0 h body v (omega arith))) in
      rw (frame-eq h body rest fits) (
        decode_frame-put (64 + length body) cursor max_len fits
        ∙ rw (len_cursor, long, read) (decode_body-append enc body rest max_len h len_enc le))
