-- ===== src/Rmp/Buf.antt =====
-- The byte buffer of the `bytes` crate (`Buf`, `BufMut`), which crates/rmp/src/header.rs writes and
-- reads through: an interface with the documented laws, and the big-endian buffer that meets them.
pub mod BigEndian
use runloop.Prelude.{ℕ, ◌^◌, ◌≤◌, ◌<◌, ◌≡◌, List, [], ◌∷◌, ◌++◌, length}

abbrev pub Bytes : Type 0
Bytes = List ℕ

-- Every element of a slice is a `u8`.
abbrev pub AreBytes : Bytes → Type 0
AreBytes [] = Unit
AreBytes (b ∷ bs) = (b < 256) × AreBytes bs

-- `put w v` is what `put_u16`, `put_u32`, `put_u64` and `put_u128` append at w = 2, 4, 8, 16, and
-- `get w` is what the matching `get_*` read and leave.
pub record Buf : Type 0 where
  pub put : ℕ → ℕ → Bytes
  pub get : ℕ → Bytes → ℕ × Bytes
  -- a put appends `w` bytes
  pub length-put : (w v : ℕ) → length (put w v) ≡ w
  pub put-AreBytes : (w v : ℕ) → AreBytes (put w v)
  -- what was put is read back, and the bytes behind it are left
  pub get-put : (w v : ℕ) (rest : Bytes) → v < 256 ^ w → get w (put w v ++ rest) ≡ (v, rest)
  -- a get reads the bytes that a put of its value writes
  pub put-get :
      (w : ℕ) (bs : Bytes) → AreBytes bs → w ≤ length bs → put w (get w bs).0 ++ (get w bs).1 ≡ bs
  -- and a number of that width
  pub get-lt : (w : ℕ) (bs : Bytes) → AreBytes bs → w ≤ length bs → (get w bs).0 < 256 ^ w
