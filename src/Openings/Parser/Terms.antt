-- ===== src/Openings/Parser/Terms.antt =====
-- Port references, predicates, literals and the targets of nodes, in crates/openings/src/parser.rs.
use runloop.Prelude.{
  Bool, not, ◌||◌, Option, none, some, List, [], ◌∷◌, ◌++◌, if◌then◌else◌, ◌==◌, is_nil, every,
  nat_eq, list_eq,
}
use runloop.Prelude.Options.{◌>>=◌ as ◌>>=?◌}
use runloop.Runtime.Text.{Text, codes, trim, split_once, strip_prefix}
use runloop.Rmp.Error.{Result, ok, err, ◌>>=◌}
use runloop.Openings.Json.{Numbers}
use runloop.Openings.Types.{
  AgentRef, SourceLocation, Error, invalid, NodeKind, PortReference, ComparisonOp, Literal,
  Predicate, Expression,
}
use runloop.Openings.Strings.{
  split_on, split, strip_suffix, is_identifier_char, parse_i64, parse_bool,
}
use runloop.Openings.Locate.{locate_pattern}

abbrev fail {ℓ} : {A : Type ℓ} → Text → SourceLocation → Result Error A
fail message loc = err (invalid message loc)

unfoldable pub valid_identifier : Text → Bool
valid_identifier value = every is_identifier_char value

unfoldable pub parse_port_reference : Text → SourceLocation → Result Error PortReference
parse_port_reference raw loc = elim (split_once b'.' (trim raw)) [
  | none ↦ fail (codes "port reference must be of the form '<node>.<port>'") loc
  | some (node, port) ↦
      if is_nil node || is_nil port
      then fail (codes "node and port identifiers must be non-empty") loc
      else ok (record { node = node; port = port })
]

unfoldable pub symbol : ComparisonOp → Text
symbol ComparisonOp.eq = codes "=="
symbol ComparisonOp.not_eq = codes "!="
symbol ComparisonOp.gt = codes ">"
symbol ComparisonOp.gte = codes ">="
symbol ComparisonOp.lt = codes "<"
symbol ComparisonOp.lte = codes "<="

abbrev pub operators : List ComparisonOp
operators =
    ComparisonOp.gte ∷ ComparisonOp.lte ∷ ComparisonOp.eq ∷ ComparisonOp.not_eq ∷ ComparisonOp.gt
    ∷ ComparisonOp.lt ∷ []

-- the first operator of the list that occurs, with the text on both sides of it
unfoldable pub split_operator : List ComparisonOp → Text → Option (ComparisonOp × (Text × Text))
split_operator [] raw = none
split_operator (op ∷ ops) raw =
    let rest = split_operator ops raw in
    elim (split_on (symbol op) raw) [ some sides ↦ some (op, sides) | none ↦ rest ]

module _ {N : Numbers} where
  unfoldable pub parse_literal : Text → SourceLocation → Result Error (Literal N)
  parse_literal raw loc = elim (parse_bool raw) [
    | some value ↦ ok (Literal.bool value)
    | none ↦ elim (parse_i64 raw) [
      | some value ↦ ok (Literal.integer value)
      | none ↦ elim (N.parse_f64 raw) [
        | some value ↦ ok (Literal.float value)
        | none ↦ elim (strip_prefix (b'"' ∷ []) raw >>=? strip_suffix (b'"' ∷ [])) [
          | some stripped ↦ ok (Literal.string stripped)
          | none ↦
              fail (codes "unsupported literal value; use booleans, numbers, or quoted strings") loc
        ]
      ]
    ]
  ]

  unfoldable pub parse_port_predicate :
      Text → SourceLocation → Result Error (PortReference × Option (Predicate N))
  parse_port_predicate raw loc = elim (split_operator operators raw) [
    | some (op, (left, right)) ↦ do
      reference ← parse_port_reference (trim left) loc
      literal ← parse_literal (trim right) loc
      ok (reference, some (record { op = op; value = literal }))
    | none ↦ do reference ← parse_port_reference (trim raw) loc; ok (reference, none)
  ]

  unfoldable pub parse_expression : Text → SourceLocation → Result Error (Expression N)
  parse_expression raw loc =
      elim (strip_prefix (codes "exists(") raw >>=? strip_suffix (codes ")")) [
        | some inner ↦ do
          reference ← parse_port_reference (trim inner) loc
          ok (Expression.exists reference)
        | none ↦ do
          parsed ← parse_port_predicate raw loc
          elim parsed.1 [
            | none ↦
                fail (codes "comparison expression must include an operator (==, !=, >, >=, <, <=)")
                  loc
            | some predicate ↦
                ok (Expression.comparison (record { reference = parsed.0; predicate = predicate }))
          ]
      ]

module _ (source : Text) (loc : SourceLocation) where
  -- the name and the variant, once the text is split at the first `@`
  unfoldable pub check_agent : Text → Text → Option Text → Result Error AgentRef
  check_agent raw name variant =
      let at_use = locate_pattern source (codes "use: agent:" ++ raw) in
      if is_nil name
      then fail (codes "agent name cannot be empty") loc
      else if not (valid_identifier name)
      then fail (codes "agent name must contain only alphanumeric characters, '-' or '_'") at_use
      else elim variant [
        | none ↦ ok (record { name = name; variant = none })
        | some v ↦
            if is_nil v
            then fail (codes "agent variant cannot be empty") loc
            else if valid_identifier v
            then ok (record { name = name; variant = some v })
            else fail (codes "agent variant must contain only alphanumeric characters, '-' or '_'")
                at_use
      ]

  unfoldable pub parse_agent_reference : Text → Result Error AgentRef
  parse_agent_reference raw =
      if is_nil (trim raw)
      then fail (codes "agent reference cannot be empty") loc
      else elim (split_once b'@' (trim raw)) [
        | some (name, variant) ↦ check_agent raw (trim name) (some (trim variant))
        | none ↦ check_agent raw (trim raw) none
      ]

  -- the two parts of a target
  unfoldable pub parse_target : Text → Text → Text → Result Error NodeKind
  parse_target raw kind target =
      if kind == codes "agent"
      then parse_agent_reference target >>= (λ reference. ok (NodeKind.agent reference))
      else if kind == codes "opening"
      then ok (NodeKind.opening target)
      else fail (codes "unknown use prefix '" ++ kind ++ codes "'")
          (locate_pattern source (codes "use: " ++ raw))

  unfoldable pub parse_use : Text → Result Error NodeKind
  parse_use raw = elim (split b':' [] raw) [
    | kind ∷ target ∷ [] ↦ parse_target raw kind target
    | _ ↦ fail (codes "node.use must be of the form 'agent:<name>' or 'opening:<name>'") loc
  ]
