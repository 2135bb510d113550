-- ===== src/Openings/Types.antt =====
-- An opening after parsing, in crates/openings/src/parser.rs, and `AgentRef` of crates/core/src/agents.rs.
use runloop.Prelude.{
  ℕ, max, ◌≡◌, ◌↔◌, Bool, true, ◌&&◌, Option, List, [], ◌∷◌, ◌++◌, arith, if◌then◌else◌, Eq, ◌==◌,
  nat_eq, list_eq, option_eq, list_beq_iff, option_beq_iff,
}
use runloop.Runtime.Text.{Text}
use runloop.Runtime.Set.{contains}
use runloop.Openings.Json.{ℤ, Numbers, Json, Fields}

pub record AgentRef : Type 0 where
  pub name : Text
  pub variant : Option Text

abbrev agent_beq : AgentRef → AgentRef → Bool
agent_beq a b = a.name == b.name && a.variant == b.variant

pub agent_beq_iff : (a b : AgentRef) → (agent_beq a b ≡ true) ↔ (a ≡ b)
agent_beq_iff a b = ground (arith, list_beq_iff a.name b.name, option_beq_iff a.variant b.variant)

instance abbrev pub agent_eq : Eq AgentRef
agent_eq = record { beq = agent_beq; beq_iff = agent_beq_iff }

pub record SourceLocation : Type 0 where
  pub line : ℕ
  pub column : ℕ

pub data Error : Type 0 where
  parse validation : Text → SourceLocation → Error

-- Error::validation
unfoldable pub invalid : Text → SourceLocation → Error
invalid message location =
    Error.validation message (record { line = max location.line 1; column = max location.column 1 })

pub record Policy : Type 0 where
  pub budget_tokens : Option ℕ
  pub timeout_ms : Option ℕ
  pub confirm_external : Option Bool

pub data NodeKind : Type 0 where
  agent : AgentRef → NodeKind
  opening : Text → NodeKind

pub record PortReference : Type 0 where
  pub node : Text
  pub port : Text

pub data ComparisonOp : Type 0 where
  eq not_eq gt gte lt lte : ComparisonOp

pub record ArtifactsSpec : Type 0 where
  pub save : List PortReference

pub data SchemaHintFragment (N : Numbers) : Type 0 where
  raw : Json N → SchemaHintFragment N
  properties : Fields N → SchemaHintFragment N

pub record SchemaHints (N : Numbers) : Type 0 where
  pub hint : Option (SchemaHintFragment N)

pub record Retry (N : Numbers) : Type 0 where
  pub max_attempts : ℕ
  pub initial_backoff_ms : ℕ
  pub max_backoff_ms : Option ℕ
  pub multiplier : N.F32
  pub jitter : N.F32

-- The field `args` is the source's `with`.
pub record Node (N : Numbers) : Type 0 where
  pub id : Text
  pub kind : NodeKind
  pub args : Fields N
  pub schema_hints : SchemaHints N
  pub retry : Retry N
  pub timeout_ms : Option ℕ
  pub budget_tokens : Option ℕ
  pub tags : List Text
  pub location : SourceLocation

pub data Literal (N : Numbers) : Type 0 where
  bool : Bool → Literal N
  integer : ℤ → Literal N
  float : N.F64 → Literal N
  string : Text → Literal N

pub record Predicate (N : Numbers) : Type 0 where
  pub op : ComparisonOp
  pub value : Literal N

pub record PortPredicate (N : Numbers) : Type 0 where
  pub reference : PortReference
  pub predicate : Predicate N

pub record Edge (N : Numbers) : Type 0 where
  pub from : PortReference
  pub predicate : Option (Predicate N)
  pub to : PortReference
  pub location : SourceLocation

pub data Expression (N : Numbers) : Type 0 where
  exists : PortReference → Expression N
  comparison : PortPredicate N → Expression N

pub data SuccessCondition (N : Numbers) : Type 0 where
  any_of all_of : List (Expression N) → SuccessCondition N

pub record Opening (N : Numbers) : Type 0 where
  pub version : ℕ
  pub name : Text
  pub goals : List Text
  pub params : Fields N
  pub policy : Policy
  pub nodes : List (Node N)
  pub edges : List (Edge N)
  pub success : Option (SuccessCondition N)
  pub artifacts : ArtifactsSpec

module _ {N : Numbers} where
  -- the loop of `agent_refs`; the set `seen` holds what `refs` holds
  unfoldable pub collect_refs : List (Node N) → List AgentRef → List AgentRef → List AgentRef
  collect_refs [] seen refs = refs
  collect_refs (node ∷ nodes) seen refs = elim node.kind [
    | NodeKind.opening _ ↦ collect_refs nodes seen refs
    | NodeKind.agent reference ↦
        if contains reference seen
        then collect_refs nodes seen refs
        else collect_refs nodes (reference ∷ seen) (refs ++ reference ∷ [])
  ]

  unfoldable pub agent_refs : Opening N → List AgentRef
  agent_refs o = collect_refs o.nodes [] []
