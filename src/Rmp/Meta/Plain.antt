-- ===== src/Rmp/Meta/Plain.antt =====
-- Values told apart by their kind, for the tests of crates/rmp and crates/bus.
use runloop.Prelude.{ℕ, String, refl, some, List}
use runloop.Rmp.Error.{ok, err}
use runloop.Rmp.Meta.{Values}

pub data Plain (Json : Type 0) : Type 0 where
  number : ℕ → Plain Json
  texts : List String → Plain Json
  json : Json → Plain Json

abbrev pub plain : (Json : Type 0) → Values Json
plain Json = record {
  Value = Plain Json;
  of_u128 = number;
  to_u128 = λ v. elim v [ number n ↦ ok (some n) | _ ↦ err "u128" ];
  of_u8 = number;
  to_u8 = λ v. elim v [ number n ↦ ok (some n) | _ ↦ err "u8" ];
  of_strings = texts;
  to_strings = λ v. elim v [ texts ts ↦ ok ts | _ ↦ err "strings" ];
  of_json = json;
  to_json = λ v. elim v [ json j ↦ ok j | _ ↦ err "json" ];
  to_u128-of_u128 = λ n h. refl;
  to_u8-of_u8 = λ n h. refl;
  to_strings-of_strings = λ ts. refl;
  to_json-of_json = λ j. refl;
}
