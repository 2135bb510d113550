-- ===== src/Rmp/Error.antt =====
-- The errors of crates/rmp/src/lib.rs and crates/rmp/src/header.rs, and the result type.
use runloop.Prelude.{ℕ, String, ◌≡◌, refl, ◌⊎◌, inl, inr, Bool, true, false, List, if◌then◌else◌}

pub data Result {ℓ κ} (E : Type ℓ) (A : Type κ) : Type (ℓ ⊔ κ) where
  ok : A → Result E A
  err : E → Result E A

infixl 5 ◌>>=◌
abbrev pub ◌>>=◌ {ℓ κ μ} :
    {E : Type ℓ} {A : Type κ} {B : Type μ} → Result E A → (A → Result E B) → Result E B
ok a >>= f = f a
err e >>= f = err e

-- inversion of a successful chain
pub >>=-eq-ok {ℓ κ μ} :
    {E : Type ℓ} {A : Type κ} {B : Type μ} (first : Result E A) (next : A → Result E B) {last : B}
    → (first >>= next) ≡ ok last
    → (mid : A) × (first ≡ ok mid) × (next mid ≡ ok last)
>>=-eq-ok (ok mid) next chained = (mid, refl, chained)
>>=-eq-ok (err e) next chained = cc

pub Result-cases {ℓ κ} :
    {E : Type ℓ} {A : Type κ} (m : Result E A) → ((e : E) × (m ≡ err e)) ⊎ ((a : A) × (m ≡ ok a))
Result-cases (ok a) = inr (a, refl)
Result-cases (err e) = inl (e, refl)

-- Result::map_err
abbrev pub map_err {ℓ κ μ} :
    {E : Type ℓ} {F : Type κ} {A : Type μ} → (E → F) → Result E A → Result F A
map_err f (ok a) = ok a
map_err f (err e) = err (f e)

-- `Encode` and `Decode` carry the message of the MsgPack library's error.
pub data Error : Type 0 where
  unknown_schema : ℕ → Error
  body_type_mismatch : ℕ → String → Error
  invalid_ttl : ℕ → Error
  invalid_expiry : ℕ → ℕ → Error
  encode decode : String → Error

pub data FrameDecodeError : Type 0 where
  oversized : ℕ → FrameDecodeError
  truncated incomplete : FrameDecodeError
  invalid_magic : List ℕ → FrameDecodeError
  unsupported : ℕ → ℕ → FrameDecodeError
  invalid_header_flags : ℕ → FrameDecodeError
  length_mismatch : ℕ → ℕ → FrameDecodeError

pub ok-injective {ℓ κ} :
    {E : Type ℓ} {A : Type κ} (a b : A) → ◌≡◌ {A = Result E A} (ok a) (ok b) → a ≡ b
ok-injective a b h = cc

-- a test before a chain that ends well
pub if-eq-ok {ℓ κ} :
    {E : Type ℓ} {A : Type κ} (test : Bool) (e : E) (rest : Result E A) {a : A}
    → (if test then err e else rest) ≡ ok a
    → (test ≡ false) × (rest ≡ ok a)
if-eq-ok true e rest h = cc
if-eq-ok false e rest h = (refl, h)
