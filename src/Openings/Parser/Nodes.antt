-- ===== src/Openings/Parser/Nodes.antt =====
-- The nodes of an opening, in crates/openings/src/parser.rs.
use runloop.Prelude.{
  ℕ, Bool, false, not, ◌&&◌, Option, none, some, List, [], ◌∷◌, ◌++◌, if◌then◌else◌, ◌==◌, is_nil,
  nat_eq, list_eq,
}
use runloop.Prelude.Options.{unwrap_or}
use runloop.Runtime.Text.{Text, codes}
use runloop.Runtime.Set.{contains}
use runloop.Rmp.Error.{Result, ok, err, ◌>>=◌}
use runloop.Openings.Json.{Numbers, Json, Fields, get_field}
use runloop.Openings.Types.{SourceLocation, Error, invalid, NodeKind, SchemaHints, Retry, Node}
use runloop.Openings.Yaml.{Yaml}
use runloop.Openings.Locate.{locate_key, locate_node}
use runloop.Openings.Parser.Terms.{parse_use}
use runloop.Openings.Parser.Templates.{apply_param_templates}
use runloop.Openings.Parser.Hints.{parse_schema_hints}
use runloop.Openings.Parser.Fields.{
  require, optional, expect_string_in, yaml_map_to_json_map, expect_u32_value, expect_u64_value,
  parse_retry, default_retry,
}

-- `matches!(kind, NodeKind::Agent { reference } if reference.name == "mailer")`
unfoldable pub is_mailer : NodeKind → Bool
is_mailer (NodeKind.agent reference) = reference.name == codes "mailer"
is_mailer (NodeKind.opening _) = false

module _ {N : Numbers} where
  unfoldable pub disables_confirmation : Fields N → Bool
  disables_confirmation args = elim (get_field (codes "require_human_confirm") args) [
    | none ↦ false
    | some value ↦ elim value [ Json.bool b ↦ not b | _ ↦ false ]
  ]

module _ {N : Numbers} (Y : Yaml N) (source : Text) where
  -- the argument map of a node, before its templates
  unfoldable pub parse_args : Option Y.Value → Result Error (Fields N)
  parse_args none = ok Fields.end
  parse_args (some v) =
      require (codes "node.with must be a mapping") (locate_key source (codes "with"))
        (Y.as_mapping v)
      >>= (λ mapping. yaml_map_to_json_map Y mapping (locate_key source (codes "with")))

  -- the loop over the tags
  unfoldable pub collect_tags : SourceLocation → List Y.Value → List Text → Result Error (List Text)
  collect_tags tag_loc [] tags = ok tags
  collect_tags tag_loc (tag ∷ rest) tags =
      require (codes "tags entries must be strings") tag_loc (Y.as_str tag)
      >>= (λ tag_str. collect_tags tag_loc rest (tags ++ tag_str ∷ []))

  unfoldable pub parse_tags : Y.Value → Result Error (List Text)
  parse_tags value =
      let tag_loc = locate_key source (codes "tags") in
      require (codes "tags must be a sequence of strings") tag_loc (Y.as_sequence value)
      >>= (λ entries. collect_tags tag_loc entries [])

  abbrev pub parse_node_retry : Y.Value → Result Error (Retry N)
  parse_node_retry v = parse_retry Y v source

  unfoldable pub parse_timeout : Y.Value → Result Error ℕ
  parse_timeout value =
      require (codes "timeout_ms must be a non-negative integer")
        (locate_key source (codes "timeout_ms")) (expect_u64_value Y value)

  unfoldable pub parse_budget : Y.Value → Result Error ℕ
  parse_budget value =
      require (codes "budget_tokens must be a non-negative integer")
        (locate_key source (codes "budget_tokens")) (expect_u32_value Y value)

  -- the fields behind the check of the confirmation
  unfoldable pub parse_limits :
      Y.Mapping
      → SourceLocation
      → Text
      → NodeKind
      → Fields N
      → SchemaHints N
      → Result Error (Node N)
  parse_limits mapping node_loc id kind args schema_hints = do
    retry ← optional parse_node_retry (Y.get (codes "retry") mapping)
    timeout_ms ← optional parse_timeout (Y.get (codes "timeout_ms") mapping)
    budget_tokens ← optional parse_budget (Y.get (codes "budget_tokens") mapping)
    tags ← optional parse_tags (Y.get (codes "tags") mapping)
    ok (record {
      id = id;
      kind = kind;
      args = args;
      schema_hints = schema_hints;
      retry = unwrap_or (default_retry Y) retry;
      timeout_ms = timeout_ms;
      budget_tokens = budget_tokens;
      tags = unwrap_or [] tags;
      location = node_loc;
    })

  module _ (params : Fields N) (confirm_external : Bool) where
    -- the arguments with their parameters, and the check that a mailer still asks a human
    unfoldable pub parse_body : Y.Mapping → SourceLocation → Text → NodeKind → Result Error (Node N)
    parse_body mapping node_loc id kind = do
      let args_loc = locate_key source (codes "with")
      with_map ← parse_args (Y.get (codes "with") mapping)
      args ← apply_param_templates params args_loc with_map
      schema_hints ← parse_schema_hints Y (Y.get (codes "schema_hints") mapping) source
      if confirm_external && is_mailer kind && disables_confirmation args
          then err (
              invalid
                (codes "policy.confirm_external=true forbids nodes from disabling confirmation")
                args_loc)
          else parse_limits mapping node_loc id kind args schema_hints

    -- one round of the loop over the entries, with the ids that have been seen
    unfoldable pub parse_node : List Text → Y.Value → Result Error (Node N)
    parse_node seen entry = do
      let node_loc = locate_node Y source entry
      mapping ← require (codes "node entry must be a mapping") node_loc (Y.as_mapping entry)
      id ← expect_string_in Y mapping (codes "id") source
      if contains id seen
          then err (invalid (codes "duplicate node id '" ++ id ++ codes "'") node_loc)
          else expect_string_in Y mapping (codes "use") source
            >>= (λ use_value. parse_use source node_loc use_value)
            >>= (λ kind. parse_body mapping node_loc id kind)

    unfoldable pub parse_each : List Y.Value → List Text → Result Error (List (Node N))
    parse_each [] seen = ok []
    parse_each (entry ∷ entries) seen =
        parse_node seen entry
        >>= (λ node. parse_each entries (node.id ∷ seen) >>= (λ nodes. ok (node ∷ nodes)))

    unfoldable pub parse_nodes : Y.Value → Result Error (List (Node N))
    parse_nodes value = do
      let loc = locate_key source (codes "nodes")
      entries ← require (codes "nodes must be a sequence") loc (Y.as_sequence value)
      if is_nil entries
          then err (invalid (codes "nodes must contain at least one entry") loc)
          else parse_each entries []
