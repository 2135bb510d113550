-- ===== src/Openings/Graph/Valid.antt =====
-- The openings that `validate_graph` of crates/openings/src/parser.rs accepts.
use runloop.Prelude.{
  ℕ, ◌≡◌, refl, ◌↔◌, some, List, [], arith, beq_refl, length, All, nat_eq, list_eq, option_eq,
  option_beq_iff,
}
use runloop.Prelude.Dict.{Dict, lookup, contains_key}
use runloop.Runtime.Text.{Text}
use runloop.Runtime.Set.{contains}
use runloop.Rmp.Error.{ok, >>=-eq-ok}
use runloop.Openings.Json.{Numbers}
use runloop.Openings.Types.{Node, Edge, SourceLocation}
use runloop.Openings.Graph.{index_nodes, index_edges, visit, validate_graph}
use runloop.Openings.Graph.Degrees.{Ends}
use runloop.Openings.Graph.Order.{visit-numbered, numbered-visit}
use runloop.Openings.Graph.Ends.{
  IsEntry, Known, Known-index_edges, Numbering-Ranked, Ranked, Ranked-Numbering, Resolved-InRange,
  Resolved-Known, contains_key-index_nodes, ids, index_edges-Resolved, index_nodes-IsEntry,
}

module _ {N : Numbers} (nodes : List (Node N)) (edges : List (Edge N)) where
  abbrev dict : Dict Text ℕ
  dict = index_nodes 0 nodes []

  entries : All (IsEntry nodes) dict
  entries = index_nodes-IsEntry nodes 0 nodes [] refl tt

  same_keys : (id : Text) → contains_key id dict ≡ contains id (ids nodes)
  unfolding lookup
  same_keys id = ground (arith, contains_key-index_nodes id 0 nodes [])

  accepted :
      (at_edges : SourceLocation)
      → validate_graph nodes edges at_edges ≡ ok tt
      → (ends : Ends) × (index_edges dict edges ≡ ok ends)
        × (visit (length nodes) ends ≡ some (length nodes))
  unfolding validate_graph
  accepted at_edges h =
      let (ends, e, h') = >>=-eq-ok (index_edges dict edges) _ h in
      (ends, e, (option_beq_iff _ _).0 (ground arith))

  accepts :
      (at_edges : SourceLocation) (ends : Ends)
      → index_edges dict edges ≡ ok ends
      → visit (length nodes) ends ≡ some (length nodes)
      → validate_graph nodes edges at_edges ≡ ok tt
  unfolding validate_graph
  accepts at_edges ends e v = rw (e, v, beq_refl (some (length nodes)))

  -- `validate_graph` accepts a graph exactly when both ends of every edge are nodes and the nodes
  -- can be numbered so that the numbers go up along every edge; this holds of any list of nodes and
  -- edges, equal ids included.
  pub validate_graph_iff :
      (at_edges : SourceLocation)
      → (validate_graph nodes edges at_edges ≡ ok tt)
        ↔ (Known nodes edges × ((rank : Text → ℕ) × Ranked rank edges))
  validate_graph_iff at_edges = (onlyif, ifpart)
    where
      onlyif :
          validate_graph nodes edges at_edges ≡ ok tt
          → Known nodes edges × ((rank : Text → ℕ) × Ranked rank edges)
      onlyif h =
          let (ends, e, v) = accepted at_edges h in
          let z = index_edges-Resolved dict edges ends e in
          let (rank, o) =
            visit-numbered (length nodes) ends (Resolved-InRange nodes dict edges ends entries z)
              v in
          (
            Resolved-Known nodes dict edges ends same_keys z,
            (_, Numbering-Ranked rank dict edges ends z o),
          )

      ifpart :
          Known nodes edges × ((rank : Text → ℕ) × Ranked rank edges)
          → validate_graph nodes edges at_edges ≡ ok tt
      ifpart (k, (rank, o)) =
          let (ends, e) = Known-index_edges nodes dict edges same_keys k in
          let z = index_edges-Resolved dict edges ends e in
          let v =
            numbered-visit (length nodes) ends (Resolved-InRange nodes dict edges ends entries z) _
              (Ranked-Numbering nodes rank dict edges ends entries z o) in
          accepts at_edges ends e v
