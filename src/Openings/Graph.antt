-- ===== src/Openings/Graph.antt =====
-- `validate_graph` of crates/openings/src/parser.rs: the ends of the edges, and Kahn's algorithm.
mod Count
mod Degrees
mod Kahn
mod Order
pub mod Ends
pub mod Valid
use runloop.Prelude.{
  ℕ, zero, suc, ◌+◌, ◌-◌, Option, none, some, List, [], ◌∷◌, ◌++◌, if◌then◌else◌, ◌==◌, length,
  nat_eq, list_eq, option_eq,
}
use runloop.Prelude.Dict.{Dict, lookup, insert}
use runloop.Rmp.Error.{Result, ok, err, ◌>>=◌}
use runloop.Runtime.Text.{Text, codes}
use runloop.Openings.Json.{Numbers}
use runloop.Openings.Types.{Node, Edge, SourceLocation, Error, invalid}

-- A vector of a fixed length is a function of the index; the code never indexes out of range.
abbrev pub update {ℓ} : {A : Type ℓ} → ℕ → (A → A) → (ℕ → A) → ℕ → A
update i f v j = if i == j then f (v j) else v j

-- the map from a node's id to its index
unfoldable pub index_nodes : {N : Numbers} → ℕ → List (Node N) → Dict Text ℕ → Dict Text ℕ
index_nodes idx [] id_to_index = id_to_index
index_nodes idx (node ∷ nodes) id_to_index =
    index_nodes (idx + 1) nodes (insert node.id idx id_to_index)

abbrev unknown : Text → SourceLocation → Error
unknown id location = invalid (codes "edge references unknown node '" ++ id ++ codes "'") location

-- `get(...).expect("validated above")`, with the error of the loop above it in place of the panic
unfoldable pub index_of : Dict Text ℕ → Text → SourceLocation → Result Error ℕ
index_of id_to_index id location = elim (lookup id id_to_index) [
  | none ↦ err (unknown id location)
  | some idx ↦ ok idx
]

-- the first two loops over the edges: the ends of each edge as indices
unfoldable pub index_edges :
    {N : Numbers} → Dict Text ℕ → List (Edge N) → Result Error (List (ℕ × ℕ))
index_edges id_to_index [] = ok []
index_edges id_to_index (edge ∷ edges) = do
  from_idx ← index_of id_to_index edge.from.node edge.location
  to_idx ← index_of id_to_index edge.to.node edge.location
  rest ← index_edges id_to_index edges
  ok ((from_idx, to_idx) ∷ rest)

abbrev pub Indegree : Type 0
Indegree = ℕ → ℕ

unfoldable pub indegree : List (ℕ × ℕ) → Indegree → Indegree
indegree [] degrees = degrees
indegree ((from_idx, to_idx) ∷ edges) degrees = indegree edges (update to_idx (λ d. d + 1) degrees)

unfoldable pub adjacency : List (ℕ × ℕ) → (ℕ → List ℕ) → ℕ → List ℕ
adjacency [] lists = lists
adjacency ((from_idx, to_idx) ∷ edges) lists =
    adjacency edges (update from_idx (λ l. l ++ to_idx ∷ []) lists)

-- the indices from `idx` on that are without a predecessor, `left` of them to look at
unfoldable pub sources : Indegree → ℕ → ℕ → List ℕ
sources degrees zero idx = []
sources degrees (suc left) idx =
    let rest = sources degrees left (idx + 1) in if degrees idx == 0 then idx ∷ rest else rest

-- the inner loop: one edge less into each successor
unfoldable pub release : List ℕ → Indegree → List ℕ → Indegree × List ℕ
release [] degrees queue = (degrees, queue)
release (successor ∷ successors) degrees queue =
    let degrees' = update successor (λ d. d - 1) degrees in
    release successors degrees' (if degrees' successor == 0 then queue ++ successor ∷ [] else queue)

-- the loop over the queue; `none` when the fuel runs out
unfoldable pub drain : ℕ → (ℕ → List ℕ) → Indegree → List ℕ → ℕ → Option ℕ
drain fuel lists degrees [] visited = some visited
drain zero lists degrees (idx ∷ queue) visited = none
drain (suc fuel) lists degrees (idx ∷ queue) visited =
    let (degrees', queue') = release (lists idx) degrees queue in
    drain fuel lists degrees' queue' (visited + 1)

-- The vectors and the loop over the queue, with `n` rounds for the `n` nodes.
unfoldable pub visit : ℕ → List (ℕ × ℕ) → Option ℕ
visit n edges =
    let degrees = indegree edges (λ _. 0) in
    drain n (adjacency edges (λ _. [])) degrees (sources degrees n 0) 0

module _ {N : Numbers} where
  -- `at_edges` is `locate_key(source, "edges")`.
  unfoldable pub validate_graph :
      List (Node N) → List (Edge N) → SourceLocation → Result {0, 0} Error Unit
  validate_graph nodes edges at_edges = do
    ends ← index_edges (index_nodes 0 nodes []) edges
    if visit (length nodes) ends == some (length nodes)
        then ok tt
        else err
            (invalid (codes "opening graph contains a cycle; ensure edges form a DAG") at_edges)
