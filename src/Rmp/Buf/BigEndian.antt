-- ===== src/Rmp/Buf/BigEndian.antt =====
-- A buffer of big-endian numbers, which shows that the laws of `Buf` can be met.
use mathlib.Core.List.{append_assoc}
use native.Mathlib.Nat.{pow-suc}
use runloop.Prelude.{
  ℕ, zero, suc, ◌+◌, ◌*◌, ◌/◌, ◌%◌, ◌^◌, ◌≤◌, ◌<◌, ◌≡◌, refl, ap, ◌∙◌, [], ◌∷◌, ◌++◌, arith, length,
  length-append,
}
use runloop.Rmp.Buf.{Bytes, AreBytes, Buf}

unfoldable pub put : ℕ → ℕ → Bytes
put zero v = []
put (suc w) v = put w (v / 256) ++ (v % 256) ∷ []

read : ℕ → ℕ → Bytes → ℕ × Bytes
read zero acc bs = (acc, bs)
read (suc w) acc [] = (acc, [])
read (suc w) acc (b ∷ bs) = read w (acc * 256 + b) bs

unfoldable pub get : ℕ → Bytes → ℕ × Bytes
unfolding read
get w bs = read w 0 bs

pub AreBytes-append : (xs ys : Bytes) → AreBytes xs → AreBytes ys → AreBytes (xs ++ ys)
AreBytes-append [] ys hx hy = hy
AreBytes-append (x ∷ xs) ys hx hy = (hx.0, AreBytes-append xs ys hx.1 hy)

pub AreBytes-of_append : (xs ys : Bytes) → AreBytes (xs ++ ys) → AreBytes ys
AreBytes-of_append [] ys h = h
AreBytes-of_append (x ∷ xs) ys h = AreBytes-of_append xs ys h.1

pub length-put : (w v : ℕ) → length (put w v) ≡ w
unfolding put
length-put zero v = refl
length-put (suc w) v =
    omega (arith, length-append (put w (v / 256)) ((v % 256) ∷ []), length-put w (v / 256))

pub put-AreBytes : (w v : ℕ) → AreBytes (put w v)
unfolding put
put-AreBytes zero v = tt
put-AreBytes (suc w) v =
    AreBytes-append (put w (v / 256)) ((v % 256) ∷ []) (put-AreBytes w (v / 256)) (omega arith)

-- reading one byte more
read-suc :
    (w acc : ℕ) (bs : Bytes) → read (suc w) acc bs ≡ read 1 (read w acc bs).0 (read w acc bs).1
unfolding read
read-suc zero acc [] = refl
read-suc zero acc (b ∷ bs) = refl
read-suc (suc w) acc [] = refl
read-suc (suc w) acc (b ∷ bs) = read-suc w (acc * 256 + b) bs

div-lt-pow : (w v : ℕ) → v < 256 ^ suc w → v / 256 < 256 ^ w
div-lt-pow w v h = omega (arith, pow-suc 256 w)

read-put : (w v : ℕ) (rest : Bytes) → v < 256 ^ w → read w 0 (put w v ++ rest) ≡ (v, rest)
unfolding read put
read-put zero v rest h = ground arith
read-put (suc w) v rest h =
    let tail : Bytes = (v % 256) ∷ rest in
    rw (append_assoc (put w (v / 256)) ((v % 256) ∷ []) rest) (
      read-suc w 0 (put w (v / 256) ++ tail)
      ∙ rw (read-put w (v / 256) tail (div-lt-pow w v h)) (ground arith))

put-read_step :
    (w a : ℕ) (r : Bytes)
    → AreBytes r
    → 1 ≤ length r
    → put (suc w) (read 1 a r).0 ++ (read 1 a r).1 ≡ put w a ++ r
unfolding read put
put-read_step w a [] hr h = absurd (omega arith)
put-read_step w a (b ∷ r) hr h =
    rw (append_assoc (put w ((a * 256 + b) / 256)) (((a * 256 + b) % 256) ∷ []) r) (
      let e : (a * 256 + b) / 256 ≡ a = omega arith in
      let f : (a * 256 + b) % 256 ≡ b = omega arith in rw (e, f))

read_step-lt : (a : ℕ) (r : Bytes) → AreBytes r → 1 ≤ length r → (read 1 a r).0 < (a + 1) * 256
unfolding read
read_step-lt a [] hr h = absurd (omega arith)
read_step-lt a (b ∷ r) hr h = omega arith

-- what a read leaves, counted from the bytes that its value writes
rest_of_read :
    (w a : ℕ) (r bs : Bytes)
    → put w a ++ r ≡ bs
    → AreBytes bs
    → suc w ≤ length bs
    → AreBytes r × (1 ≤ length r)
rest_of_read w a r bs e hb h = (
  AreBytes-of_append (put w a) r (rw e hb),
  omega (arith, ap length e, length-append (put w a) r, length-put w a),
)

put-read :
    (w : ℕ) (bs : Bytes)
    → AreBytes bs
    → w ≤ length bs
    → (put w (read w 0 bs).0 ++ (read w 0 bs).1 ≡ bs) × ((read w 0 bs).0 < 256 ^ w)
put-read zero bs hb h = unfold put read in (refl, omega arith)
put-read (suc w) bs hb h =
    let (ih, lt) = put-read w bs hb (omega arith) in
    let (hr, hl) = rest_of_read w (read w 0 bs).0 (read w 0 bs).1 bs ih hb h in
    rw (read-suc w 0 bs) (
      put-read_step w (read w 0 bs).0 (read w 0 bs).1 hr hl ∙ ih,
      omega (arith, pow-suc 256 w, read_step-lt (read w 0 bs).0 (read w 0 bs).1 hr hl),
    )

pub get-put : (w v : ℕ) (rest : Bytes) → v < 256 ^ w → get w (put w v ++ rest) ≡ (v, rest)
unfolding get
get-put w v rest h = read-put w v rest h

pub put-get :
    (w : ℕ) (bs : Bytes) → AreBytes bs → w ≤ length bs → put w (get w bs).0 ++ (get w bs).1 ≡ bs
unfolding get
put-get w bs hb h = (put-read w bs hb h).0

pub get-lt : (w : ℕ) (bs : Bytes) → AreBytes bs → w ≤ length bs → (get w bs).0 < 256 ^ w
unfolding get
get-lt w bs hb h = (put-read w bs hb h).1

abbrev pub big_endian : Buf
big_endian = record {
  put = put;
  get = get;
  length-put = length-put;
  put-AreBytes = put-AreBytes;
  get-put = get-put;
  put-get = put-get;
  get-lt = get-lt;
}
