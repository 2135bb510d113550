-- ===== src/Openings/Graph/Ends.antt =====
-- The ends of the edges as ids and as indices, for `validate_graph` of crates/openings/src/parser.rs.
use runloop.Prelude.{
  ℕ, zero, suc, ◌+◌, ◌<◌, ◌≡◌, refl, ◌∙◌, inl, inr, true, ◌||◌, some, List, [], ◌∷◌, map, arith,
  Option-cases, length, drop, All, nat_eq, list_eq, option_eq,
}
use mathlib.Core.Path.{subst}
use runloop.Prelude.Dict.{
  Dict, lookup, insert, All-insert, All-lookup, contains_key, contains_key-insert,
}
use runloop.Prelude.Options.{unwrap_or}
use runloop.Runtime.Text.{Text}
use runloop.Runtime.Set.{contains}
use runloop.Rmp.Error.{ok, >>=-eq-ok}
use runloop.Openings.Json.{Numbers}
use runloop.Openings.Types.{Node, Edge, SourceLocation}
use runloop.Openings.Graph.{index_nodes, index_of, index_edges}
use runloop.Openings.Graph.Degrees.{Ends}
use runloop.Openings.Graph.Kahn.{InRange}
use runloop.Openings.Graph.Order.{Numbering}

index_of-ok :
    (dict : Dict Text ℕ) (id : Text) (loc : SourceLocation) (i : ℕ)
    → index_of dict id loc ≡ ok i
    → lookup id dict ≡ some i
unfolding index_of
index_of-ok dict id loc i h = ground arith

index_of-known :
    (dict : Dict Text ℕ) (id : Text) (loc : SourceLocation)
    → contains_key id dict ≡ true
    → (i : ℕ) × (index_of dict id loc ≡ ok i)
unfolding index_of
index_of-known dict id loc h = elim (Option-cases (lookup id dict)) [
  | inl e ↦ absurd (ground arith)
  | inr (i, e) ↦ (i, rw (index_of, e))
]

module _ {N : Numbers} where
  abbrev pub ids : List (Node N) → List Text
  ids = map (λ node. node.id)

  -- the ends of the edges are nodes
  abbrev pub Known : List (Node N) → List (Edge N) → Type 0
  Known nodes =
      All (λ e. (contains e.from.node (ids nodes) ≡ true) × (contains e.to.node (ids nodes) ≡ true))

  -- the numbers go up along the edges
  abbrev pub Ranked : (Text → ℕ) → List (Edge N) → Type 0
  Ranked rank = All (λ e. rank e.from.node < rank e.to.node)

  abbrev id_at : ℕ → List (Node N) → Text
  id_at i [] = []
  id_at zero (node ∷ nodes) = node.id
  id_at (suc i) (node ∷ nodes) = id_at i nodes

  id_at-drop :
      (i : ℕ) (whole : List (Node N)) (node : Node N) (nodes : List (Node N))
      → drop i whole ≡ node ∷ nodes
      → (id_at i whole ≡ node.id) × (drop (i + 1) whole ≡ nodes) × (i < length whole)
  id_at-drop zero [] node nodes h = absurd (ground arith)
  id_at-drop (suc i) [] node nodes h = absurd (ground arith)
  id_at-drop zero (x ∷ whole) node nodes h = ground arith
  id_at-drop (suc i) (x ∷ whole) node nodes h = ground (arith, id_at-drop i whole node nodes)

  -- an entry of the map of indices
  abbrev pub IsEntry : List (Node N) → Text × ℕ → Type 0
  IsEntry whole entry = (id_at entry.1 whole ≡ entry.0) × (entry.1 < length whole)

  pub index_nodes-IsEntry :
      (whole : List (Node N)) (i : ℕ) (nodes : List (Node N)) (dict : Dict Text ℕ)
      → drop i whole ≡ nodes
      → All (IsEntry whole) dict
      → All (IsEntry whole) (index_nodes i nodes dict)
  unfolding index_nodes
  index_nodes-IsEntry whole i [] dict h a = a
  index_nodes-IsEntry whole i (node ∷ nodes) dict h a =
      let (same, later, bound) = id_at-drop i whole node nodes h in
      index_nodes-IsEntry whole (i + 1) nodes (insert node.id i dict) later
        (All-insert (IsEntry whole) node.id i dict (same, bound) a)

  pub contains_key-index_nodes :
      (id : Text) (i : ℕ) (nodes : List (Node N)) (dict : Dict Text ℕ)
      → contains_key id (index_nodes i nodes dict)
        ≡ (contains id (ids nodes) || contains_key id dict)
  unfolding index_nodes contains
  contains_key-index_nodes id i [] dict = refl
  contains_key-index_nodes id i (node ∷ nodes) dict = ground (
    arith,
    contains_key-index_nodes id (i + 1) nodes (insert node.id i dict),
    contains_key-insert node.id id i dict,
  )

  -- the indices of the ends of the edges
  abbrev Resolved : Dict Text ℕ → List (Edge N) → Ends → Type 0
  Resolved dict [] [] = Unit
  Resolved dict [] (_ ∷ _) = ⊥
  Resolved dict (_ ∷ _) [] = ⊥
  Resolved dict (e ∷ edges) ((a, b) ∷ ends) =
      (lookup e.from.node dict ≡ some a)
      × (lookup e.to.node dict ≡ some b)
      × Resolved dict edges ends

  pub index_edges-Resolved :
      (dict : Dict Text ℕ) (edges : List (Edge N)) (ends : Ends)
      → index_edges dict edges ≡ ok ends
      → Resolved dict edges ends
  unfolding index_edges index_of
  index_edges-Resolved dict [] [] h = tt
  index_edges-Resolved dict [] (_ ∷ _) h = absurd (ground arith)
  index_edges-Resolved dict (e ∷ edges) ends h =
      let (a, ha, h1) = >>=-eq-ok (index_of dict e.from.node e.location) _ h in
      let (b, hb, h2) = >>=-eq-ok (index_of dict e.to.node e.location) _ h1 in
      let (rest, hr, h3) = >>=-eq-ok (index_edges dict edges) _ h2 in
      let same : (a, b) ∷ rest ≡ ends = ground arith in
      subst (Resolved dict (e ∷ edges)) same (
        index_of-ok dict e.from.node e.location a ha,
        index_of-ok dict e.to.node e.location b hb,
        index_edges-Resolved dict edges rest hr,
      )

  pub Known-index_edges :
      (nodes : List (Node N)) (dict : Dict Text ℕ) (edges : List (Edge N))
      → ((id : Text) → contains_key id dict ≡ contains id (ids nodes))
      → Known nodes edges
      → (ends : Ends) × (index_edges dict edges ≡ ok ends)
  unfolding index_edges
  Known-index_edges nodes dict [] same k = ([], refl)
  Known-index_edges nodes dict (e ∷ edges) same k =
      let (a, ha) = index_of-known dict e.from.node e.location (same e.from.node ∙ k.0.0) in
      let (b, hb) = index_of-known dict e.to.node e.location (same e.to.node ∙ k.0.1) in
      let (ends, he) = Known-index_edges nodes dict edges same k.1 in
      ((a, b) ∷ ends, rw (ha, hb, he))

  pub Resolved-Known :
      (nodes : List (Node N)) (dict : Dict Text ℕ) (edges : List (Edge N)) (ends : Ends)
      → ((id : Text) → contains_key id dict ≡ contains id (ids nodes))
      → Resolved dict edges ends
      → Known nodes edges
  Resolved-Known nodes dict [] ends same z = tt
  Resolved-Known nodes dict (e ∷ edges) [] same z = absurd z
  Resolved-Known nodes dict (e ∷ edges) ((a, b) ∷ ends) same z = (
    (ground (arith, same e.from.node, z.0), ground (arith, same e.to.node, z.1)),
    Resolved-Known nodes dict edges ends same z.2,
  )

  pub Resolved-InRange :
      (nodes : List (Node N)) (dict : Dict Text ℕ) (edges : List (Edge N)) (ends : Ends)
      → All (IsEntry nodes) dict
      → Resolved dict edges ends
      → InRange (length nodes) ends
  Resolved-InRange nodes dict [] [] i z = tt
  Resolved-InRange nodes dict [] (_ ∷ _) i z = absurd z
  Resolved-InRange nodes dict (e ∷ edges) [] i z = absurd z
  Resolved-InRange nodes dict (e ∷ edges) ((a, b) ∷ ends) i z = (
    (
      (All-lookup (IsEntry nodes) e.from.node a dict i z.0).1,
      (All-lookup (IsEntry nodes) e.to.node b dict i z.1).1,
    ),
    Resolved-InRange nodes dict edges ends i z.2,
  )

  pub Numbering-Ranked :
      (rank : ℕ → ℕ) (dict : Dict Text ℕ) (edges : List (Edge N)) (ends : Ends)
      → Resolved dict edges ends
      → Numbering rank ends
      → Ranked (λ id. rank (unwrap_or 0 (lookup id dict))) edges
  Numbering-Ranked rank dict [] ends z o = tt
  Numbering-Ranked rank dict (e ∷ edges) [] z o = absurd z
  Numbering-Ranked rank dict (e ∷ edges) ((a, b) ∷ ends) z o =
      (rw (z.0, z.1) o.0, Numbering-Ranked rank dict edges ends z.2 o.1)

  pub Ranked-Numbering :
      (nodes : List (Node N)) (rank : Text → ℕ) (dict : Dict Text ℕ) (edges : List (Edge N))
      (ends : Ends)
      → All (IsEntry nodes) dict
      → Resolved dict edges ends
      → Ranked rank edges
      → Numbering (λ i. rank (id_at i nodes)) ends
  Ranked-Numbering nodes rank dict [] [] i z o = tt
  Ranked-Numbering nodes rank dict [] (_ ∷ _) i z o = absurd z
  Ranked-Numbering nodes rank dict (e ∷ edges) [] i z o = absurd z
  Ranked-Numbering nodes rank dict (e ∷ edges) ((a, b) ∷ ends) i z o =
      let from = (All-lookup (IsEntry nodes) e.from.node a dict i z.0).0 in
      let to = (All-lookup (IsEntry nodes) e.to.node b dict i z.1).0 in
      (rw (from, to) o.0, Ranked-Numbering nodes rank dict edges ends i z.2 o.1)
