-- ===== src/Openings/Json.antt =====
-- The JSON values of serde_json as crates/openings/src/runner.rs and parser.rs tell them apart, and
-- the numbers of the language and of serde_json that those files only compare and pass on.
use runloop.Prelude.{
  ℕ, ◌≡◌, ◌↔◌, Bool, true, false, Option, none, some, arith, ltb, if◌then◌else◌, Eq, ◌==◌, nat_eq,
  list_eq,
}
use runloop.Runtime.Text.{Text}

-- `i64` and `i128`; `negsuc n` is -(n + 1)
pub data ℤ : Type 0 where
  pos negsuc : ℕ → ℤ

abbrev pub int_ltb : ℤ → ℤ → Bool
int_ltb (pos a) (pos b) = ltb a b
int_ltb (pos a) (negsuc b) = false
int_ltb (negsuc a) (pos b) = true
int_ltb (negsuc a) (negsuc b) = ltb b a

abbrev int_beq : ℤ → ℤ → Bool
int_beq (pos a) (pos b) = a == b
int_beq (negsuc a) (negsuc b) = a == b
int_beq _ _ = false

pub int_beq_iff : (x y : ℤ) → (int_beq x y ≡ true) ↔ (x ≡ y)
int_beq_iff (pos a) (pos b) = ground arith
int_beq_iff (pos a) (negsuc b) = ground arith
int_beq_iff (negsuc a) (pos b) = ground arith
int_beq_iff (negsuc a) (negsuc b) = ground arith

instance abbrev pub int_eq : Eq ℤ
int_eq = record { beq = int_beq; beq_iff = int_beq_iff }

-- Floating point, and `Number` of serde_json with its `as_i64`, `as_u64` and `as_f64`.
pub record Numbers : Type 1 where
  pub F64 : Type 0
  pub sub : F64 → F64 → F64
  pub abs : F64 → F64
  pub f64_ltb : F64 → F64 → Bool
  pub f64_leb : F64 → F64 → Bool
  pub epsilon : F64
  pub of_int : ℤ → F64
  pub parse_f64 : Text → Option F64
  pub F32 : Type 0
  pub f32_tenths : ℕ → F32
  pub to_f32 : F64 → F32
  pub Number : Type 0
  pub as_i64 : Number → Option ℤ
  pub as_u64 : Number → Option ℕ
  pub as_f64 : Number → Option F64

mutual
  pub data Json (N : Numbers) : Type 0 where
    null : Json N
    bool : Bool → Json N
    number : N.Number → Json N
    string : Text → Json N
    array : Items N → Json N
    object : Fields N → Json N

  pub data Items (N : Numbers) : Type 0 where
    nil : Items N
    cons : Json N → Items N → Items N

  -- `Map<String, Value>`: one entry for a key
  pub data Fields (N : Numbers) : Type 0 where
    end : Fields N
    field : Text → Json N → Fields N → Fields N

module _ {N : Numbers} where
  -- `Map::get`
  unfoldable pub get_field : Text → Fields N → Option (Json N)
  get_field key end = none
  get_field key (field own value rest) =
      let later = get_field key rest in if own == key then some value else later

  -- `Map::insert`
  unfoldable pub insert_field : Text → Json N → Fields N → Fields N
  insert_field key value end = field key value end
  insert_field key value (field own old rest) =
      let rest' = insert_field key value rest in
      if own == key then field key value rest else field own old rest'
