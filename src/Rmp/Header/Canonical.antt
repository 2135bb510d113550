-- ===== src/Rmp/Header/Canonical.antt =====
-- The byte strings that `decode_from` of crates/rmp/src/header.rs accepts.
use runloop.Prelude.{
  ℕ, zero, suc, ◌+◌, ◌^◌, ◌≤◌, ◌<◌, ◌≡◌, refl, sym, ap, ◌∙◌, List, [], ◌∷◌, ◌++◌, arith, length,
  length-append, take, drop, nat_eq, list_eq, list_beq_iff, take-append-drop, length-drop,
}
use mathlib.Core.Path.{subst}
use runloop.Rmp.Buf.{Bytes, AreBytes, Buf}
use runloop.Rmp.Buf.BigEndian.{AreBytes-of_append}
use runloop.Rmp.Error.{ok}
use runloop.Rmp.Header.Layout.{IsV0, layout, encode_into-layout}
use runloop.Rmp.Header.{Header, IsHeader, magic, encode_into, decode_from}

drop-AreBytes : (n : ℕ) (bs : Bytes) → AreBytes bs → AreBytes (drop n bs)
drop-AreBytes zero bs h = h
drop-AreBytes (suc n) [] h = tt
drop-AreBytes (suc n) (x ∷ bs) h = drop-AreBytes n bs h.1

abbrev total : List ℕ → ℕ
total [] = 0
total (w ∷ ws) = w + total ws

-- the widths of the fields behind the magic
abbrev widths : List ℕ
widths = 2 ∷ 2 ∷ 4 ∷ 2 ∷ 2 ∷ 4 ∷ 8 ∷ 8 ∷ 16 ∷ 8 ∷ 4 ∷ []

module _ (b : Buf) where
  -- the numbers of these widths, one after another, and what is left
  abbrev reads : List ℕ → Bytes → List (ℕ × ℕ)
  reads [] bs = []
  reads (w ∷ ws) bs = (w, (b.get w bs).0) ∷ reads ws (b.get w bs).1

  abbrev rest_of : List ℕ → Bytes → Bytes
  rest_of [] bs = bs
  rest_of (w ∷ ws) bs = rest_of ws (b.get w bs).1

  abbrev writes : List (ℕ × ℕ) → Bytes → Bytes
  writes [] rest = rest
  writes ((w, v) ∷ vs) rest = b.put w v ++ writes vs rest

  abbrev Fit : List (ℕ × ℕ) → Type 0
  Fit [] = Unit
  Fit ((w, v) ∷ vs) = (v < 256 ^ w) × Fit vs

  get_rest :
      (w : ℕ) (bs : Bytes)
      → AreBytes bs
      → w ≤ length bs
      → AreBytes (b.get w bs).1 × (length (b.get w bs).1 + w ≡ length bs)
  get_rest w bs hb h = (
    AreBytes-of_append (b.put w (b.get w bs).0) (b.get w bs).1 (rw (b.put-get w bs hb h) hb),
    omega (
      arith,
      ap length (b.put-get w bs hb h),
      length-append (b.put w (b.get w bs).0) (b.get w bs).1,
      b.length-put w (b.get w bs).0,
    ),
  )

  writes-reads :
      (ws : List ℕ) (bs : Bytes)
      → AreBytes bs
      → total ws ≤ length bs
      → (writes (reads ws bs) (rest_of ws bs) ≡ bs) × Fit (reads ws bs)
  writes-reads [] bs hb h = (refl, tt)
  writes-reads (w ∷ ws) bs hb h =
      let (hr, hl) = get_rest w bs hb (omega arith) in
      let (eq, fit) = writes-reads ws (b.get w bs).1 hr (omega arith) in
      (rw eq (b.put-get w bs hb (omega arith)), (b.get-lt w bs hb (omega arith), fit))

  abbrev values : Header → List (ℕ × ℕ)
  values h =
      (2, h.header_version)
      ∷ (2, h.header_len)
      ∷ (4, h.flags)
      ∷ (2, h.schema_id)
      ∷ (2, 0)
      ∷ (4, h.body_len)
      ∷ (8, h.created_at_ms)
      ∷ (8, h.ttl_ms)
      ∷ (16, h.trace_id)
      ∷ (8, h.msg_id)
      ∷ (4, 0)
      ∷ []

  -- what a successful `decode_from` has read
  decode_from-ok :
      (buf : Bytes) (h : Header)
      → decode_from b buf ≡ ok h
      → (64 ≤ length buf)
        × (take 4 buf ≡ magic)
        × (reads widths (drop 4 buf) ≡ values h)
        × (h.header_version ≡ 0)
        × (h.header_len ≡ 64)
        × (h.flags ≡ 0)
  unfolding decode_from
  decode_from-ok buf h e = ground (arith, list_beq_iff (take 4 buf) magic)

  values-IsHeader : (h : Header) → Fit (values h) → IsHeader h
  values-IsHeader h f = ground arith

  writes-values : (h : Header) (rest : Bytes) → magic ++ writes (values h) rest ≡ layout b h rest
  unfolding layout
  writes-values h rest = refl

  -- The bytes of a header that `decode_from` accepts are the encoding that `encode_into` writes for
  -- it, followed by some rest, and it is a header of version 0 with every field in its width.
  pub decode_from_canonical :
      (buf : Bytes) (h : Header)
      → AreBytes buf
      → decode_from b buf ≡ ok h
      → (rest : Bytes) × (encode_into b h [] ++ rest ≡ buf) × IsV0 h
  decode_from_canonical buf h hb e =
      let (long, is_magic, fields, version, len, no_flags) = decode_from-ok buf h e in
      let (eq, fit) =
        writes-reads widths (drop 4 buf) (drop-AreBytes 4 buf hb)
          (omega (arith, length-drop 4 buf)) in
      let rest : Bytes = rest_of widths (drop 4 buf) in
      (
        rest,
        encode_into-layout b h rest
            ∙ (sym (writes-values h rest)
                ∙ (ap (λ vs. magic ++ writes vs rest) (sym fields)
                    ∙ (ap (λ bs. magic ++ bs) eq
                        ∙ (ap (λ m. m ++ drop 4 buf) (sym is_magic) ∙ take-append-drop 4 buf)))),
        record {
          widths = values-IsHeader h (subst Fit fields fit);
          version = version;
          len = len;
          no_flags = no_flags;
        },
      )
