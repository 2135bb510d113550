-- ===== src/Openings/Runner/Status.antt =====
-- What the record of a node says, in crates/openings/src/runner.rs.
use runloop.Prelude.{
  ◌≡◌, refl, Bool, true, false, not, ◌&&◌, ◌||◌, none, some, List, [], ◌∷◌, arith, if◌then◌else◌,
  ◌==◌, is_nil, nat_eq, list_eq,
}
use runloop.Prelude.Dict.{
  Dict, lookup, insert, modify, contains_key, contains_key-insert, lookup-insert, lookup-modify,
}
use runloop.Runtime.Text.{Text}
use runloop.Runtime.Set.{contains}
use runloop.Openings.Json.{Numbers}
use runloop.Openings.Types.{Node}
use runloop.Openings.Graph.Ends.{ids}
use runloop.Openings.Runner.Report.{NodeState, NodeRecord}
use runloop.Openings.Runner.Schedule.{pending_records, skip}

abbrev pub has_succeeded : NodeState → Bool
has_succeeded NodeState.succeeded = true
has_succeeded _ = false

abbrev pub has_failed : NodeState → Bool
has_failed (NodeState.failed _) = true
has_failed _ = false

module _ {N : Numbers} where
  abbrev pub succeeded : Text → Dict Text (NodeRecord N) → Bool
  succeeded id records = elim (lookup id records) [ none ↦ false | some r ↦ has_succeeded r.state ]

  abbrev pub attempted : Text → Dict Text (NodeRecord N) → Bool
  attempted id records = elim (lookup id records) [
    | none ↦ false
    | some r ↦ not (is_nil r.attempts)
  ]

  abbrev pub failed : Text → Dict Text (NodeRecord N) → Bool
  failed id records = elim (lookup id records) [ none ↦ false | some r ↦ has_failed r.state ]

  abbrev fresh : Node N → NodeRecord N
  fresh node = record { node_id = node.id; state = NodeState.pending; attempts = [] }

  pub contains_key-pending_records :
      (v : Text) (nodes : List (Node N)) (dict : Dict Text (NodeRecord N))
      → contains_key v (pending_records nodes dict)
        ≡ (contains v (ids nodes) || contains_key v dict)
  unfolding pending_records contains
  contains_key-pending_records v [] dict = refl
  contains_key-pending_records v (node ∷ nodes) dict = ground (
    arith,
    contains_key-pending_records v nodes (insert node.id (fresh node) dict),
    contains_key-insert node.id v (fresh node) dict,
  )

  pub attempted-pending_records :
      (v : Text) (nodes : List (Node N)) (dict : Dict Text (NodeRecord N))
      → attempted v dict ≡ false
      → attempted v (pending_records nodes dict) ≡ false
  unfolding pending_records
  attempted-pending_records v [] dict h = h
  attempted-pending_records v (node ∷ nodes) dict h =
      attempted-pending_records v nodes (insert node.id (fresh node) dict)
        (ground (arith, lookup-insert node.id v (fresh node) dict))

  pub failed-pending_records :
      (v : Text) (nodes : List (Node N)) (dict : Dict Text (NodeRecord N))
      → failed v dict ≡ false
      → failed v (pending_records nodes dict) ≡ false
  unfolding pending_records
  failed-pending_records v [] dict h = h
  failed-pending_records v (node ∷ nodes) dict h =
      failed-pending_records v nodes (insert node.id (fresh node) dict)
        (ground (arith, lookup-insert node.id v (fresh node) dict))

  -- skipping a node
  pub skip-status :
      (id v : Text) (dict : Dict Text (NodeRecord N))
      → (attempted v (modify id skip dict) ≡ attempted v dict)
        × (contains_key v (modify id skip dict) ≡ contains_key v dict)
        × (succeeded v (modify id skip dict) ≡ (not (id == v) && succeeded v dict))
        × (failed v (modify id skip dict) ≡ (not (id == v) && failed v dict))
  skip-status id v dict = ground (arith, lookup-modify id v skip dict)

  pub insert-status :
      (id v : Text) (r : NodeRecord N) (dict : Dict Text (NodeRecord N))
      → (attempted v (insert id r dict)
          ≡ (if id == v then not (is_nil r.attempts) else attempted v dict))
        × (succeeded v (insert id r dict)
            ≡ (if id == v then has_succeeded r.state else succeeded v dict))
        × (failed v (insert id r dict) ≡ (if id == v then has_failed r.state else failed v dict))
  insert-status id v r dict = ground (arith, lookup-insert id v r dict)
