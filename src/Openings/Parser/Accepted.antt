-- ===== src/Openings/Parser/Accepted.antt =====
-- What an opening that `parse_opening_str` of crates/openings/src/parser.rs returns satisfies, and that
-- the runner can run it.
use runloop.Prelude.{
  ℕ, ◌≡◌, refl, ◌∙◌, Bool, true, false, not, some, arith, ◌==◌, is_nil, every, nat_eq, list_eq,
}
use mathlib.Core.Path.{subst}
use runloop.Prelude.Options.{unwrap_or}
use runloop.Runtime.Text.{Text, codes}
use runloop.Runtime.Set.{NoDup}
use runloop.Rmp.Error.{ok, map_err, >>=-eq-ok, ok-injective, if-eq-ok}
use runloop.Openings.Json.{Numbers}
use runloop.Openings.Types.{Policy, Opening}
use runloop.Openings.Yaml.{Yaml}
use runloop.Openings.Locate.{locate_key}
use runloop.Openings.Graph.{validate_graph}
use runloop.Openings.Graph.Ends.{ids, Known, Ranked}
use runloop.Openings.Graph.Valid.{validate_graph_iff}
use runloop.Openings.Runner.Report.{RunReport}
use runloop.Openings.Runner.Env.{Env, Hashing}
use runloop.Openings.Runner.Attempts.{Runner}
use runloop.Openings.Runner.Finish.{run}
use runloop.Openings.Runner.Correct.{run-total}
use runloop.Openings.Parser.Fields.{
  require, expect_string, expect_u32, expect_string_list, parse_policy,
}
use runloop.Openings.Parser.Nodes.{parse_nodes}
use runloop.Openings.Parser.Guards.{confirms, parse_nodes-guards}
use runloop.Openings.Parser.Document.{
  syntax_error, parse_edges, parse_success, parse_params, parse_artifacts, missing, start,
  parse_mapping, parse_opening_str,
}

abbrev asks_humans : Policy → Bool
asks_humans policy = unwrap_or false policy.confirm_external

module _ {N : Numbers} where
  -- an opening with nodes of different ids, joined by edges without a cycle, whose mailers ask
  abbrev pub Accepted : Opening N → Type 0
  Accepted o =
      NoDup (ids o.nodes)
      × (is_nil o.nodes ≡ false)
      × (every (confirms (asks_humans o.policy)) o.nodes ≡ true)
      × Known o.nodes o.edges
      × ((rank : Text → ℕ) × Ranked rank o.edges)

module _ {N : Numbers} (Y : Yaml N) (source : Text) where
  parse_mapping-Accepted :
      (mapping : Y.Mapping) (version : ℕ) (name : Text) (o : Opening N)
      → parse_mapping Y source mapping version name ≡ ok o
      → (o.version ≡ version) × Accepted o
  unfolding parse_mapping
  parse_mapping-Accepted mapping version name o h =
      let (goals, _, h1) = >>=-eq-ok (expect_string_list Y mapping (codes "goals") source) _ h in
      let (params, _, h2) =
        >>=-eq-ok (parse_params Y source (Y.get (codes "params") mapping)) _ h1 in
      let (policy, _, h3) =
        >>=-eq-ok (parse_policy Y (Y.get (codes "policy") mapping) source) _ h2 in
      let (nodes_value, _, h4) =
        >>=-eq-ok
          (missing Y source (codes "nodes") (locate_key source (codes "nodes"))
            (Y.get (codes "nodes") mapping))
          _ h3 in
      let (nodes, e_nodes, h5) =
        >>=-eq-ok (parse_nodes Y source params (asks_humans policy) nodes_value) _ h4 in
      let (edges_value, _, h6) =
        >>=-eq-ok
          (missing Y source (codes "edges") (locate_key source (codes "edges"))
            (Y.get (codes "edges") mapping))
          _ h5 in
      let (edges, _, h7) = >>=-eq-ok (parse_edges Y source edges_value) _ h6 in
      let (valid, e_valid, h8) =
        >>=-eq-ok (validate_graph nodes edges (locate_key source (codes "edges"))) _ h7 in
      let (success, _, h9) =
        >>=-eq-ok (parse_success Y source (Y.get (codes "success") mapping)) _ h8 in
      let (artifacts, _, h10) =
        >>=-eq-ok (parse_artifacts Y source (Y.get (codes "artifacts") mapping)) _ h9 in
      let (d, nonempty, confirmed) =
        parse_nodes-guards Y source params (asks_humans policy) nodes_value nodes e_nodes in
      let (known, ranked) =
        (validate_graph_iff nodes edges (locate_key source (codes "edges"))).0 e_valid in
      subst (λ (o' : Opening N). (o'.version ≡ version) × Accepted o') (ok-injective _ o h10)
        (refl, (d, nonempty, confirmed, known, ranked))

  -- An opening that the parser accepts has version 0 and at least one node; the ids of its nodes
  -- differ, its edges join its nodes and have no cycle, and under a policy with `confirm_external`
  -- no node of the mailer turns the confirmation off.
  pub parse_opening_str-Accepted :
      (o : Opening N) → parse_opening_str Y source ≡ ok o → (o.version ≡ 0) × Accepted o
  unfolding parse_opening_str
  parse_opening_str-Accepted o h =
      let (top, _, h1) = >>=-eq-ok (map_err syntax_error (Y.from_str source)) _ h in
      let (mapping, _, h2) =
        >>=-eq-ok
          (require (codes "opening must be a YAML mapping") (start Y source) (Y.as_mapping top)) _
          h1 in
      let (version, _, h3) =
        >>=-eq-ok
          (require (codes "missing required field 'version'") (start Y source)
            (expect_u32 Y mapping (codes "version")))
          _ h2 in
      let (zero_version, h4) = if-eq-ok (not (version == 0)) _ _ h3 in
      let (name, _, h5) =
        >>=-eq-ok
          (require (codes "missing required field 'name'") (start Y source)
            (expect_string Y mapping (codes "name")))
          _ h4 in
      let (same, accepted) = parse_mapping-Accepted mapping version name o h5 in
      (same ∙ ground arith, accepted)

  -- An opening that the parser accepts can be run, with whatever executor, clock and numbers: no
  -- lookup of `run` panics, the rounds and attempts that it is given are enough, and it ends with a
  -- report.
  pub parse_opening_str-runs :
      (E : Env N) (H : Hashing N) (R : Runner N) (w : E.World)
      → parse_opening_str Y source ≡ ok R.opening
      → (rep : RunReport N) × (w' : E.World) × (run E R H w ≡ some (rep, w'))
  parse_opening_str-runs E H R w h =
      let (_, (d, _, _, known, _)) = parse_opening_str-Accepted R.opening h in
      run-total E R H w d known
