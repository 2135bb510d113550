-- ===== src/Openings/Parser/Document.antt =====
-- `parse_opening_str` of crates/openings/src/parser.rs, with the edges, the success condition and the
-- artifacts.
use runloop.Prelude.{
  ℕ, ◌+◌, ◌-◌, ◌^◌, min, false, not, Option, none, some, List, [], ◌∷◌, ◌++◌, if◌then◌else◌, ◌==◌,
  is_nil, nat_eq, list_eq,
}
use runloop.Prelude.Options.{unwrap_or}
use runloop.Runtime.Text.{Text, codes, decimal}
use runloop.Rmp.Error.{Result, ok, err, map_err, ◌>>=◌}
use runloop.Openings.Json.{Numbers, Fields}
use runloop.Openings.Types.{
  SourceLocation, Error, invalid, PortReference, Edge, Expression, SuccessCondition, ArtifactsSpec,
  Opening,
}
use runloop.Openings.Yaml.{Yaml}
use runloop.Openings.Locate.{locate_key, locate_edge}
use runloop.Openings.Graph.{validate_graph}
use runloop.Openings.Parser.Terms.{parse_port_predicate, parse_port_reference, parse_expression}
use runloop.Openings.Parser.Fields.{
  require, optional, expect_string_in, expect_string, expect_u32, expect_string_list,
  yaml_map_to_json_map, parse_policy,
}
use runloop.Openings.Parser.Nodes.{parse_nodes}

-- usize::MAX, where `saturating_add` stops
abbrev usize_max : ℕ
usize_max = 2 ^ 64 - 1

-- Error::parse
unfoldable pub syntax_error : Text × Option (ℕ × ℕ) → Error
syntax_error (message, place) =
    let (line, column) = unwrap_or (0, 0) place in
    Error.parse message
      (record { line = min (line + 1) usize_max; column = min (column + 1) usize_max })

module _ {N : Numbers} (Y : Yaml N) (source : Text) where
  unfoldable pub parse_edge : Y.Value → Result Error (Edge N)
  parse_edge entry = elim (Y.as_mapping entry) [
    | none ↦ err (
        invalid (codes "edge entries must be mappings with 'from' and 'to'")
          (locate_edge Y source entry))
    | some mapping ↦ do
      from_raw ← expect_string_in Y mapping (codes "from") source
      to_raw ← expect_string_in Y mapping (codes "to") source
      source_end ← parse_port_predicate from_raw (locate_edge Y source entry)
      to_ref ← parse_port_reference to_raw (locate_edge Y source entry)
      ok (record {
        from = source_end.0;
        predicate = source_end.1;
        to = to_ref;
        location = locate_edge Y source entry;
      })
  ]

  unfoldable pub parse_each_edge : List Y.Value → Result Error (List (Edge N))
  parse_each_edge [] = ok []
  parse_each_edge (entry ∷ entries) =
      parse_edge entry >>= (λ edge. parse_each_edge entries >>= (λ edges. ok (edge ∷ edges)))

  unfoldable pub parse_edges : Y.Value → Result Error (List (Edge N))
  parse_edges value =
      require (codes "edges must be a sequence") (locate_key source (codes "edges"))
        (Y.as_sequence value)
      >>= parse_each_edge

  -- the loop over the expressions
  unfoldable pub parse_expressions :
      List Y.Value → SourceLocation → Result Error (List (Expression N))
  parse_expressions [] loc = ok []
  parse_expressions (expr_value ∷ rest) loc = do
    expr_str ← require (codes "success expressions must be strings") loc (Y.as_str expr_value)
    expr ← parse_expression expr_str loc
    exprs ← parse_expressions rest loc
    ok (expr ∷ exprs)

  unfoldable pub parse_expression_list :
      List Y.Value → SourceLocation → Result Error (List (Expression N))
  parse_expression_list entries loc =
      if is_nil entries
      then err (invalid (codes "success expressions must not be empty") loc)
      else parse_expressions entries loc

  -- the branches on `any_of` and `all_of`
  unfoldable pub success_of :
      SourceLocation → Option Y.Value → Option Y.Value → Result Error (SuccessCondition N)
  success_of loc (some _) (some _) =
      err (invalid (codes "success must define either 'any_of' or 'all_of', not both") loc)
  success_of loc (some value) none = do
    entries ← require (codes "success.any_of must be a sequence") loc (Y.as_sequence value)
    expressions ← parse_expression_list entries loc
    ok (SuccessCondition.any_of expressions)
  success_of loc none (some value) = do
    entries ← require (codes "success.all_of must be a sequence") loc (Y.as_sequence value)
    expressions ← parse_expression_list entries loc
    ok (SuccessCondition.all_of expressions)
  success_of loc none none = err (invalid (codes "success must specify 'any_of' or 'all_of'") loc)

  unfoldable pub parse_success : Option Y.Value → Result Error (Option (SuccessCondition N))
  parse_success = optional (λ value. do
    let loc = locate_key source (codes "success")
    mapping ← require (codes "success must be a mapping") loc (Y.as_mapping value)
    success_of loc (Y.get (codes "any_of") mapping) (Y.get (codes "all_of") mapping))

  -- the loop over the entries, `idx` of which are done
  unfoldable pub collect_ports :
      SourceLocation → ℕ → List Y.Value → List PortReference → Result Error (List PortReference)
  collect_ports save_loc idx [] save = ok save
  collect_ports save_loc idx (entry ∷ entries) save = do
    spec ←
        require (codes "artifacts.save entry " ++ decimal idx ++ codes " must be a string") save_loc
          (Y.as_str entry)
    port ← parse_port_reference spec save_loc
    collect_ports save_loc (idx + 1) entries (save ++ port ∷ [])

  unfoldable pub parse_artifacts : Option Y.Value → Result Error ArtifactsSpec
  parse_artifacts none = ok (record { save = [] })
  parse_artifacts (some value) = do
    mapping ←
        require (codes "artifacts must be a mapping") (locate_key source (codes "artifacts"))
          (Y.as_mapping value)
    let save_loc = locate_key source (codes "save")
    save ←
        optional
          (λ v.
            require (codes "artifacts.save must be a sequence") save_loc (Y.as_sequence v)
            >>= (λ entries. collect_ports save_loc 0 entries []))
          (Y.get (codes "save") mapping)
    ok (record { save = unwrap_or [] save })

  unfoldable pub parse_params : Option Y.Value → Result Error (Fields N)
  parse_params none = ok Fields.end
  parse_params (some value) = do
    let loc = locate_key source (codes "params")
    map_ ← require (codes "params must be a mapping") loc (Y.as_mapping value)
    yaml_map_to_json_map Y map_ loc

  abbrev pub missing : Text → SourceLocation → Option Y.Value → Result Error Y.Value
  missing key loc = require (codes "missing required field '" ++ key ++ codes "'") loc

  -- the fields behind the version and the name
  unfoldable pub parse_mapping : Y.Mapping → ℕ → Text → Result Error (Opening N)
  parse_mapping mapping version name = do
    goals ← expect_string_list Y mapping (codes "goals") source
    params ← parse_params (Y.get (codes "params") mapping)
    policy ← parse_policy Y (Y.get (codes "policy") mapping) source
    nodes_value ←
        missing (codes "nodes") (locate_key source (codes "nodes")) (Y.get (codes "nodes") mapping)
    nodes ← parse_nodes Y source params (unwrap_or false policy.confirm_external) nodes_value
    edges_value ←
        missing (codes "edges") (locate_key source (codes "edges")) (Y.get (codes "edges") mapping)
    edges ← parse_edges edges_value
    _ ← validate_graph nodes edges (locate_key source (codes "edges"))
    success ← parse_success (Y.get (codes "success") mapping)
    artifacts ← parse_artifacts (Y.get (codes "artifacts") mapping)
    ok (record {
      version = version;
      name = name;
      goals = unwrap_or [] goals;
      params = params;
      policy = policy;
      nodes = nodes;
      edges = edges;
      success = success;
      artifacts = artifacts;
    })

  abbrev pub start : SourceLocation
  start = record { line = 1; column = 1 }

  unfoldable pub parse_opening_str : Result Error (Opening N)
  parse_opening_str = do
    top ← map_err syntax_error (Y.from_str source)
    mapping ← require (codes "opening must be a YAML mapping") start (Y.as_mapping top)
    version ←
        require (codes "missing required field 'version'") start
          (expect_u32 Y mapping (codes "version"))
    if not (version == 0)
        then err (
            invalid (codes "unsupported DSL version " ++ decimal version ++ codes "; expected 0")
              (locate_key source (codes "version")))
        else require (codes "missing required field 'name'") start
            (expect_string Y mapping (codes "name"))
          >>= parse_mapping mapping version
