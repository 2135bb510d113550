-- ===== src/Prelude/Options.antt =====
-- Rust's methods on `Option`, and the chain that `?` and `expect` make.
use mathlib.Core.Path.{◌≡◌, refl}
use mathlib.Core.Option.{Option, none, some}

module _ {ℓ} {A : Type ℓ} where
  abbrev pub option_map {κ} : {B : Type κ} → (A → B) → Option A → Option B
  option_map f none = none
  option_map f (some a) = some (f a)

  abbrev pub unwrap_or : A → Option A → A
  unwrap_or a none = a
  unwrap_or a (some b) = b

  abbrev pub or_else : Option A → Option A → Option A
  or_else none o = o
  or_else (some a) o = some a

infixl 5 ◌>>=◌
abbrev pub ◌>>=◌ {ℓ κ} : {A : Type ℓ} {B : Type κ} → Option A → (A → Option B) → Option B
none >>= f = none
some a >>= f = f a

-- inversion of a chain that ends well
pub >>=-eq-some {ℓ κ} :
    {A : Type ℓ} {B : Type κ} (first : Option A) (next : A → Option B) {b : B}
    → (first >>= next) ≡ some b
    → (a : A) × (first ≡ some a) × (next a ≡ some b)
>>=-eq-some none next h = cc
>>=-eq-some (some a) next h = (a, refl, h)
