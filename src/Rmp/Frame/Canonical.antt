-- ===== src/Rmp/Frame/Canonical.antt =====
-- The byte strings that `decode_frame` of crates/rmp/src/header.rs accepts.
use mathlib.Core.List.{append-nil}
use runloop.Prelude.{
  ℕ, zero, suc, ◌+◌, ◌-◌, ◌≤◌, ◌≡◌, refl, sym, ap, ◌∙◌, List, [], ◌∷◌, ◌++◌, arith, length,
  length-append, take, drop, nat_eq, take-append-drop, length-drop, length-take,
}
use runloop.Rmp.Buf.{Bytes, AreBytes, Buf}
use runloop.Rmp.Buf.BigEndian.{AreBytes-of_append}
use runloop.Rmp.Error.{ok, ◌>>=◌, >>=-eq-ok}
use runloop.Rmp.Header.{Header, encode_into, decode_from}
use runloop.Rmp.Header.Layout.{IsV0, length-encode_into}
use runloop.Rmp.Header.Canonical.{decode_from_canonical}
use runloop.Rmp.Frame.{encode_frame, decode_frame, decode_body}
use runloop.Rmp.Frame.Codec.{frame-eq, sized}

take-AreBytes : (n : ℕ) (bs : Bytes) → AreBytes bs → AreBytes (take n bs)
take-AreBytes zero bs h = tt
take-AreBytes (suc n) [] h = tt
take-AreBytes (suc n) (x ∷ bs) h = (h.0, take-AreBytes n bs h.1)

length-eq-zero {ℓ} : {A : Type ℓ} (xs : List A) → length xs ≡ 0 → xs ≡ []
length-eq-zero [] h = refl
length-eq-zero (x ∷ xs) h = absurd (omega arith)

sized-eq : (h : Header) (body : Bytes) → h.body_len ≡ length body → sized h body ≡ h
unfolding sized
sized-eq h body e = ground arith

module _ (b : Buf) (bytes : Bytes) (max_len : ℕ) (h : Header) (body : Bytes) where
  abbrev cursor : Bytes
  cursor = (b.get 4 bytes).1

  abbrev frame_len : ℕ
  frame_len = (b.get 4 bytes).0

  -- what a successful `decode_frame` has checked
  decode_body-ok :
      (h' : Header)
      → decode_body cursor frame_len max_len h' ≡ ok (h, body)
      → (h' ≡ h)
        × (h.body_len ≡ frame_len - 64)
        × (h.body_len ≤ max_len)
        × (body ≡ take (frame_len - 64) (drop 64 cursor))
  unfolding decode_body
  decode_body-ok h' e = ground arith

  decode_frame-ok :
      decode_frame b bytes max_len ≡ ok (h, body)
      → (4 ≤ length bytes)
        × (frame_len ≤ length cursor)
        × (64 ≤ frame_len)
        × ((decode_from b (take 64 cursor) >>= decode_body cursor frame_len max_len) ≡ ok (h, body))
  unfolding decode_frame
  decode_frame-ok e = ground arith

  abbrev rest : Bytes
  rest = drop (frame_len - 64) (drop 64 cursor)

  tail_eq : body ≡ take (frame_len - 64) (drop 64 cursor) → body ++ rest ≡ drop 64 cursor
  tail_eq e = rw e (take-append-drop (frame_len - 64) (drop 64 cursor))

  -- When `decode_frame` accepts a byte string, the string is the frame that `encode_frame` writes
  -- for the header and body returned, followed by some rest; the header is one of version 0 with
  -- fields in their widths, its `body_len` is the body's length, and that length is at most
  -- `max_len`.
  pub decode_frame_canonical :
      AreBytes bytes
      → decode_frame b bytes max_len ≡ ok (h, body)
      → (rest : Bytes) × (encode_frame b h body ++ rest ≡ bytes)
        × IsV0 h
        × (h.body_len ≡ length body)
        × (length body ≤ max_len)
  decode_frame_canonical hb e =
      let (long, fits, headed, e') = decode_frame-ok e in
      let (h', e1, e2) =
        >>=-eq-ok (decode_from b (take 64 cursor)) (decode_body cursor frame_len max_len) e' in
      let (eq, len, le, eq_body) = decode_body-ok h' e2 in
      let cursor_bytes : AreBytes cursor =
        AreBytes-of_append (b.put 4 frame_len) cursor (rw (b.put-get 4 bytes hb long) hb) in
      let (r, enc, v) =
        decode_from_canonical b (take 64 cursor) h (take-AreBytes 64 cursor cursor_bytes)
          (e1 ∙ ap ok eq) in
      let r_nil : r ≡ [] = length-eq-zero r (
        omega (
          arith,
          ap length enc,
          length-append (encode_into b h []) r,
          length-encode_into b h [],
          length-take 64 cursor,
        )) in
      let len_body : length body ≡ frame_len - 64 = omega (
        arith,
        ap length eq_body,
        length-take (frame_len - 64) (drop 64 cursor),
        length-drop 64 cursor,
      ) in
      let enc_only : encode_into b h [] ≡ take 64 cursor =
        sym (append-nil (encode_into b h []))
        ∙ (ap (λ z. encode_into b h [] ++ z) (sym r_nil) ∙ enc) in
      let prefix : 64 + length body ≡ frame_len = omega arith in
      let frame : encode_frame b h body ++ rest ≡ bytes =
        frame-eq b h body rest (omega (arith, b.get-lt 4 bytes hb long))
        ∙ (rw
            (
              sized-eq h body (len ∙ sym len_body),
              enc_only,
              tail_eq eq_body,
              take-append-drop 64 cursor,
              prefix,
            )
            (b.put-get 4 bytes hb long)) in
      (rest, frame, v, len ∙ sym len_body, omega arith)
