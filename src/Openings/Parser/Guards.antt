-- ===== src/Openings/Parser/Guards.antt =====
-- What the nodes of an opening that crates/openings/src/parser.rs accepts satisfy.
use runloop.Prelude.{
  ◌≡◌, refl, ap, ◌∙◌, inl, inr, Bool, true, false, not, ◌&&◌, List, [], ◌∷◌, arith, Bool-cases,
  ◌==◌, beq_refl, ap_beq, is_nil, every, nat_eq, list_eq,
}
use mathlib.Core.Path.{subst}
use runloop.Runtime.Text.{Text, codes}
use runloop.Runtime.Set.{contains, NoDup}
use runloop.Rmp.Error.{ok, ◌>>=◌, >>=-eq-ok}
use runloop.Openings.Json.{Numbers, Fields}
use runloop.Openings.Types.{SourceLocation, NodeKind, SchemaHints, Node}
use runloop.Openings.Yaml.{Yaml}
use runloop.Openings.Locate.{locate_key, locate_node}
use runloop.Openings.Graph.Ends.{ids}
use runloop.Openings.Parser.Terms.{parse_use}
use runloop.Openings.Parser.Templates.{apply_param_templates}
use runloop.Openings.Parser.Hints.{parse_schema_hints}
use runloop.Openings.Parser.Fields.{require, optional, expect_string_in}
use runloop.Openings.Parser.Nodes.{
  is_mailer, disables_confirmation, parse_args, parse_node_retry, parse_timeout, parse_budget,
  parse_tags, parse_limits, parse_body, parse_node, parse_each, parse_nodes,
}

-- a mailer still asks a human, when the policy wants it to
abbrev pub confirms : {N : Numbers} → Bool → Node N → Bool
confirms confirm_external node =
    not (confirm_external && is_mailer node.kind && disables_confirmation node.args)

module _ {N : Numbers} (Y : Yaml N) (source : Text) where
  parse_limits-keeps :
      (mapping : Y.Mapping) (loc : SourceLocation) (id : Text) (kind : NodeKind) (args : Fields N)
      (hints : SchemaHints N) (node : Node N)
      → parse_limits Y source mapping loc id kind args hints ≡ ok node
      → (node.id ≡ id) × (node.kind ≡ kind) × (node.args ≡ args)
  unfolding parse_limits
  parse_limits-keeps mapping loc id kind args hints node h =
      let (retry, _, h1) =
        >>=-eq-ok (optional (parse_node_retry Y source) (Y.get (codes "retry") mapping)) _ h in
      let (timeout, _, h2) =
        >>=-eq-ok (optional (parse_timeout Y source) (Y.get (codes "timeout_ms") mapping)) _ h1 in
      let (budget, _, h3) =
        >>=-eq-ok (optional (parse_budget Y source) (Y.get (codes "budget_tokens") mapping)) _ h2 in
      let (tags, _, h4) =
        >>=-eq-ok (optional (parse_tags Y source) (Y.get (codes "tags") mapping)) _ h3 in
      ground arith

  module _ (params : Fields N) (confirm_external : Bool) where
    parse_body-confirms :
        (mapping : Y.Mapping) (loc : SourceLocation) (id : Text) (kind : NodeKind) (node : Node N)
        → parse_body Y source params confirm_external mapping loc id kind ≡ ok node
        → (node.id ≡ id) × (confirms confirm_external node ≡ true)
    unfolding parse_body
    parse_body-confirms mapping loc id kind node h =
        let (with_map, _, h1) =
          >>=-eq-ok (parse_args Y source (Y.get (codes "with") mapping)) _ h in
        let (args, _, h2) =
          >>=-eq-ok (apply_param_templates params (locate_key source (codes "with")) with_map) _
            h1 in
        let (hints, _, h3) =
          >>=-eq-ok (parse_schema_hints Y (Y.get (codes "schema_hints") mapping) source) _ h2 in
        elim (Bool-cases (confirm_external && is_mailer kind && disables_confirmation args)) [
          | inl e ↦ absurd (ground arith)
          | inr e ↦
              let (i, k, a) =
                parse_limits-keeps mapping loc id kind args hints node (ground arith) in
              (i, rw (k, a) (ground arith))
        ]

    parse_node-new :
        (seen : List Text) (entry : Y.Value) (node : Node N)
        → parse_node Y source params confirm_external seen entry ≡ ok node
        → (contains node.id seen ≡ false) × (confirms confirm_external node ≡ true)
    unfolding parse_node
    parse_node-new seen entry node h =
        let loc = locate_node Y source entry in
        let (mapping, _, h1) =
          >>=-eq-ok (require (codes "node entry must be a mapping") loc (Y.as_mapping entry)) _ h in
        let (id, _, h2) = >>=-eq-ok (expect_string_in Y mapping (codes "id") source) _ h1 in
        elim (Bool-cases (contains id seen)) [
          | inl e ↦ absurd (ground arith)
          | inr e ↦
              let h3 : (expect_string_in Y mapping (codes "use") source
                    >>= (λ use_value. parse_use source loc use_value)
                    >>= (λ kind. parse_body Y source params confirm_external mapping loc id kind))
                  ≡ ok node =
                ground arith in
              let (kind, _, h4) =
                >>=-eq-ok
                  (expect_string_in Y mapping (codes "use") source
                    >>= (λ use_value. parse_use source loc use_value))
                  _ h3 in
              let (i, c) = parse_body-confirms mapping loc id kind node h4 in
              (ap (λ z. contains z seen) i ∙ e, c)
        ]

    abbrev Guarded : List Text → List (Node N) → Type 0
    Guarded seen nodes =
        NoDup (ids nodes)
        × (every (confirms confirm_external) nodes ≡ true)
        × ((v : Text) → contains v seen ≡ true → contains v (ids nodes) ≡ false)

    cons-Guarded :
        (seen : List Text) (node : Node N) (nodes : List (Node N))
        → contains node.id seen ≡ false
        → confirms confirm_external node ≡ true
        → Guarded (node.id ∷ seen) nodes
        → Guarded seen (node ∷ nodes)
    unfolding every contains
    cons-Guarded seen node nodes new c (d, cs, apart) = (
      (apart node.id (ground (arith, beq_refl node.id)), d),
      ground arith,
      λ v i. elim (Bool-cases (node.id == v)) [
        | inl e ↦ let twice = ap_beq (λ z. contains z seen) node.id v e in absurd (ground arith)
        | inr e ↦ ground (arith, apart v)
      ],
    )

    parse_each-guards :
        (entries : List Y.Value) (seen : List Text) (nodes : List (Node N))
        → parse_each Y source params confirm_external entries seen ≡ ok nodes
        → Guarded seen nodes
    unfolding parse_each every contains
    parse_each-guards [] seen [] h = (tt, refl, λ v i. refl)
    parse_each-guards [] seen (_ ∷ _) h = absurd (ground arith)
    parse_each-guards (entry ∷ entries) seen nodes h =
        let (node, e, h1) =
          >>=-eq-ok (parse_node Y source params confirm_external seen entry) _ h in
        let (rest, e', h2) =
          >>=-eq-ok (parse_each Y source params confirm_external entries (node.id ∷ seen)) _ h1 in
        let (new, c) = parse_node-new seen entry node e in
        let made : node ∷ rest ≡ nodes = ground arith in
        subst (Guarded seen) made
          (cons-Guarded seen node rest new c (parse_each-guards entries (node.id ∷ seen) rest e'))

    parse_each-nil :
        (entries : List Y.Value) (nodes : List (Node N))
        → is_nil entries ≡ false
        → parse_each Y source params confirm_external entries [] ≡ ok nodes
        → is_nil nodes ≡ false
    unfolding parse_each
    parse_each-nil [] nodes e h = absurd (ground arith)
    parse_each-nil (entry ∷ entries) nodes e h =
        let (node, _, h1) = >>=-eq-ok (parse_node Y source params confirm_external [] entry) _ h in
        let (rest, _, h2) =
          >>=-eq-ok (parse_each Y source params confirm_external entries (node.id ∷ [])) _ h1 in
        ground arith

    -- The nodes that the parser accepts are at least one, their ids differ, and under a policy with
    -- `confirm_external` no node of the mailer turns the confirmation off.
    pub parse_nodes-guards :
        (value : Y.Value) (nodes : List (Node N))
        → parse_nodes Y source params confirm_external value ≡ ok nodes
        → NoDup (ids nodes)
          × (is_nil nodes ≡ false)
          × (every (confirms confirm_external) nodes ≡ true)
    unfolding parse_nodes
    parse_nodes-guards value nodes h =
        let loc = locate_key source (codes "nodes") in
        let (entries, _, h1) =
          >>=-eq-ok (require (codes "nodes must be a sequence") loc (Y.as_sequence value)) _ h in
        elim (Bool-cases (is_nil entries)) [
          | inl e ↦ absurd (ground arith)
          | inr e ↦
              let each : parse_each Y source params confirm_external entries [] ≡ ok nodes =
                ground arith in
              let (d, cs, _) = parse_each-guards entries [] nodes each in
              (d, parse_each-nil entries nodes e each, cs)
        ]
