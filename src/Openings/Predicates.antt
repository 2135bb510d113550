-- ===== src/Openings/Predicates.antt =====
-- The predicates on edges and the success condition, in crates/openings/src/runner.rs.
use runloop.Prelude.{
  Bool, true, false, not, ◌&&◌, ◌||◌, Option, none, some, List, [], ◌∷◌, ltb, ◌==◌, is_nil, any,
  every, nat_eq, list_eq, bool_eq,
}
use runloop.Prelude.Dict.{Dict, lookup}
use runloop.Runtime.Text.{Text}
use runloop.Openings.Json.{ℤ, pos, int_ltb, int_eq, Numbers, Json}
use runloop.Openings.Types.{ComparisonOp, Literal, Predicate, Expression, SuccessCondition}

-- the order of `str`: by its bytes, and so by its code points
unfoldable pub text_ltb : Text → Text → Bool
text_ltb xs [] = false
text_ltb [] (y ∷ ys) = true
text_ltb (x ∷ xs) (y ∷ ys) = ltb x y || (x == y && text_ltb xs ys)

unfoldable pub compare_i128 : ℤ → ℤ → ComparisonOp → Bool
compare_i128 actual expected ComparisonOp.eq = actual == expected
compare_i128 actual expected ComparisonOp.not_eq = not (actual == expected)
compare_i128 actual expected ComparisonOp.gt = int_ltb expected actual
compare_i128 actual expected ComparisonOp.gte = not (int_ltb actual expected)
compare_i128 actual expected ComparisonOp.lt = int_ltb actual expected
compare_i128 actual expected ComparisonOp.lte = not (int_ltb expected actual)

unfoldable pub compare_bool : Bool → Bool → ComparisonOp → Bool
compare_bool actual expected ComparisonOp.eq = actual == expected
compare_bool actual expected ComparisonOp.not_eq = not (actual == expected)
compare_bool actual expected _ = false

unfoldable pub compare_string : Text → Text → ComparisonOp → Bool
compare_string actual expected ComparisonOp.eq = actual == expected
compare_string actual expected ComparisonOp.not_eq = not (actual == expected)
compare_string actual expected ComparisonOp.gt = text_ltb expected actual
compare_string actual expected ComparisonOp.gte = not (text_ltb actual expected)
compare_string actual expected ComparisonOp.lt = text_ltb actual expected
compare_string actual expected ComparisonOp.lte = not (text_ltb expected actual)

module _ (N : Numbers) where
  -- `NodeInputs` and `NodeOutputs` are both the map `ports`.
  abbrev pub Ports : Type 0
  Ports = Dict Text (List (Json N))

  unfoldable pub compare_f64 : N.F64 → N.F64 → ComparisonOp → Bool
  compare_f64 actual expected ComparisonOp.eq = N.f64_ltb (N.abs (N.sub actual expected)) N.epsilon
  compare_f64 actual expected ComparisonOp.not_eq =
      N.f64_leb N.epsilon (N.abs (N.sub actual expected))
  compare_f64 actual expected ComparisonOp.gt = N.f64_ltb expected actual
  compare_f64 actual expected ComparisonOp.gte = N.f64_leb expected actual
  compare_f64 actual expected ComparisonOp.lt = N.f64_ltb actual expected
  compare_f64 actual expected ComparisonOp.lte = N.f64_leb actual expected

  -- `as_f64().map(...).unwrap_or(false)`
  unfoldable pub compare_number : N.Number → N.F64 → ComparisonOp → Bool
  compare_number num expected op = elim (N.as_f64 num) [
    | none ↦ false
    | some actual ↦ compare_f64 actual expected op
  ]

  unfoldable pub compare_integer_literal : N.Number → ℤ → ComparisonOp → Bool
  compare_integer_literal num expected op = elim (N.as_i64 num) [
    | some actual ↦ compare_i128 actual expected op
    | none ↦ elim (N.as_u64 num) [
      | some actual ↦ compare_i128 (pos actual) expected op
      | none ↦ compare_number num (N.of_int expected) op
    ]
  ]

  -- one value of the port
  unfoldable pub matches_literal : Literal N → Json N → ComparisonOp → Bool
  matches_literal (Literal.bool expected) (Json.bool actual) op = compare_bool actual expected op
  matches_literal (Literal.string expected) (Json.string actual) op =
      compare_string actual expected op
  matches_literal (Literal.integer expected) (Json.number num) op =
      compare_integer_literal num expected op
  matches_literal (Literal.float expected) (Json.number num) op = compare_number num expected op
  matches_literal _ _ op = false

  unfoldable pub evaluate_predicate : Predicate N → Text → Ports → Bool
  evaluate_predicate predicate port outputs = elim (lookup port outputs) [
    | none ↦ false
    | some values ↦ any (λ value. matches_literal predicate.value value predicate.op) values
  ]

  unfoldable pub evaluate_expression : Expression N → Dict Text Ports → Bool
  evaluate_expression (Expression.exists reference) outputs = elim (lookup reference.node outputs) [
    | none ↦ false
    | some output ↦ elim (lookup reference.port output) [
      | none ↦ false
      | some values ↦ not (is_nil values)
    ]
  ]
  evaluate_expression (Expression.comparison p) outputs = elim (lookup p.reference.node outputs) [
    | none ↦ false
    | some output ↦ evaluate_predicate p.predicate p.reference.port output
  ]

  unfoldable pub evaluate_success : Option (SuccessCondition N) → Dict Text Ports → Bool
  evaluate_success none outputs = true
  evaluate_success (some (SuccessCondition.any_of expressions)) outputs =
      any (λ expr. evaluate_expression expr outputs) expressions
  evaluate_success (some (SuccessCondition.all_of expressions)) outputs =
      every (λ expr. evaluate_expression expr outputs) expressions
