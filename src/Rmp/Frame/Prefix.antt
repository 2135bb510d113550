-- ===== src/Rmp/Frame/Prefix.antt =====
-- Frames of crates/rmp/src/header.rs that have not arrived whole.
use mathlib.Core.List.{append-nil}
use runloop.Prelude.{
  ℕ, zero, suc, ◌+◌, ◌^◌, ◌≤◌, ◌<◌, ◌≡◌, refl, sym, ap, ◌∙◌, inl, inr, true, List, [], ◌∷◌, ◌++◌,
  arith, ltb, Bool-cases, length, length-append, take, drop, take-append-drop, length-drop,
}
use runloop.Rmp.Buf.{Bytes, Buf}
use runloop.Rmp.Error.{err, incomplete}
use runloop.Rmp.Header.{Header, encode_into}
use runloop.Rmp.Header.Layout.{length-encode_into}
use runloop.Rmp.Frame.{encode_frame, decode_frame}
use runloop.Rmp.Frame.Codec.{frame-eq, sized, decode_frame-put, take-append}

take-append_of_le {ℓ} :
    {A : Type ℓ} (n : ℕ) (xs ys : List A) → n ≤ length xs → take n (xs ++ ys) ≡ take n xs
take-append_of_le zero xs ys h = refl
take-append_of_le (suc n) [] ys h = absurd (omega arith)
take-append_of_le (suc n) (x ∷ xs) ys h = ap (◌∷◌ x) (take-append_of_le n xs ys (omega arith))

module _ (b : Buf) (h : Header) (body bytes more : Bytes) (max_len : ℕ) where
  abbrev n : ℕ
  n = 64 + length body

  abbrev tail : Bytes
  tail = encode_into b (sized h body) [] ++ body

  frame_tail : n < 2 ^ 32 → encode_frame b h body ≡ b.put 4 n ++ tail
  frame_tail fits =
      sym (append-nil (encode_frame b h body)) ∙ (frame-eq b h body [] fits ∙ rw (append-nil body))

  -- Every proper beginning of a frame whose length fits 32 bits, one with fewer bytes than a header
  -- too, is answered by `incomplete`, whatever the limit, so that a reader of a stream waits for
  -- the rest.
  pub decode_frame_incomplete :
      n < 2 ^ 32
      → bytes ++ more ≡ encode_frame b h body
      → 0 < length more
      → decode_frame b bytes max_len ≡ err incomplete
  decode_frame_incomplete fits e pos = elim (Bool-cases (ltb (length bytes) 4)) [
    | inl short ↦ unfold decode_frame in rw short
    | inr long ↦
        let e' : bytes ++ more ≡ b.put 4 n ++ tail = e ∙ frame_tail fits in
        let four : 4 ≤ length bytes = ground arith in
        let head : take 4 bytes ≡ b.put 4 n =
          sym (take-append_of_le 4 bytes more four)
          ∙ (ap (take 4) e' ∙ take-append (b.put 4 n) tail 4 (sym (b.length-put 4 n))) in
        let split : bytes ≡ b.put 4 n ++ drop 4 bytes =
          sym (take-append-drop 4 bytes) ∙ ap (λ z. z ++ drop 4 bytes) head in
        let short : ltb (length (drop 4 bytes)) n ≡ true = ground (
          arith,
          ap length e',
          length-append bytes more,
          length-append (b.put 4 n) tail,
          length-append (encode_into b (sized h body) []) body,
          length-encode_into b (sized h body) [],
          b.length-put 4 n,
          length-drop 4 bytes,
        ) in
        ap (λ z. decode_frame b z max_len) split
        ∙ (decode_frame-put b n (drop 4 bytes) max_len fits ∙ rw short)
  ]
