-- ===== src/Openings/Runner/Schedule.antt =====
-- The order of the nodes: the outer loop of `Runner::run` in crates/openings/src/runner.rs.
use runloop.Prelude.{
  ℕ, zero, suc, ◌+◌, ◌-◌, Bool, true, false, not, ◌||◌, Option, none, some, List, [], ◌∷◌, ◌++◌,
  ltb, if◌then◌else◌, ◌==◌, length, filter, is_nil, nat_eq, list_eq, string_eq,
}
use runloop.Prelude.Dict.{Dict, lookup, insert, remove, modify}
use runloop.Prelude.Options.{option_map, unwrap_or, ◌>>=◌}
use runloop.Runtime.Text.{Text}
use runloop.Runtime.Set.{contains, set_insert}
use runloop.Openings.Json.{Numbers, Json}
use runloop.Openings.Predicates.{Ports, evaluate_predicate}
use runloop.Openings.Types.{Node, Edge, Opening}
use runloop.Openings.Runner.Report.{NodeState, NodeRecord}
use runloop.Openings.Runner.Env.{Env}
use runloop.Openings.Runner.Attempts.{Runner, execute_node}

-- The variables of `run`, less `inbound_total` and `outgoing`, which no round changes.
pub record Run (N : Numbers) (W : Type 0) : Type 0 where
  pub records : Dict Text (NodeRecord N)
  pub remaining : Dict Text ℕ
  pub blocked_predicates : List Text
  pub queue : List Text
  pub input_buffers : Dict Text (Ports N)
  pub outputs_cache : Dict Text (Ports N)
  pub processed : Dict Text Bool
  pub run_failed : Bool
  pub world : W

unfoldable pub total_of : Dict Text ℕ → Text → ℕ
total_of totals id = unwrap_or 0 (lookup id totals)

module _ {N : Numbers} where
  unfoldable pub pending_records :
      List (Node N) → Dict Text (NodeRecord N) → Dict Text (NodeRecord N)
  pending_records [] records = records
  pending_records (node ∷ nodes) records = pending_records nodes (
      insert node.id (record { node_id = node.id; state = NodeState.pending; attempts = [] })
        records)

  unfoldable pub zero_counters : List (Node N) → Dict Text ℕ → Dict Text ℕ
  zero_counters [] counters = counters
  zero_counters (node ∷ nodes) counters = zero_counters nodes (insert node.id 0 counters)

  unfoldable pub count_inbound : List (Edge N) → Dict Text ℕ → Dict Text ℕ
  count_inbound [] counters = counters
  count_inbound (edge ∷ edges) counters =
      count_inbound edges (modify edge.to.node (λ c. c + 1) counters)

  unfoldable pub inbound_total : Opening N → Dict Text ℕ
  inbound_total o = count_inbound o.edges (zero_counters o.nodes [])

  -- the edges of `outgoing` at a node
  unfoldable pub outgoing : Text → List (Edge N) → List (Edge N)
  outgoing id edges = filter (λ edge. edge.from.node == id) edges

  -- the ids of the nodes without an inbound edge
  unfoldable pub start_nodes : Dict Text ℕ → List (Node N) → List Text
  start_nodes totals [] = []
  start_nodes totals (node ∷ nodes) =
      let rest = start_nodes totals nodes in
      if total_of totals node.id == 0 then node.id ∷ rest else rest

  -- `input_buffers.entry(id).or_default()` for each of them
  unfoldable pub empty_buffers : List Text → Dict Text (Ports N) → Dict Text (Ports N)
  empty_buffers [] buffers = buffers
  empty_buffers (id ∷ ids) buffers =
      empty_buffers ids (insert id (unwrap_or [] (lookup id buffers)) buffers)

  unfoldable pub find_node : Text → List (Node N) → Option (Node N)
  find_node id [] = none
  find_node id (node ∷ nodes) = if node.id == id then some node else find_node id nodes

  -- NodeInputs::push, for each value
  unfoldable pub push_values : Text → List (Json N) → Ports N → Ports N
  push_values port [] ports = ports
  push_values port (value ∷ values) ports =
      push_values port values (insert port (unwrap_or [] (lookup port ports) ++ value ∷ []) ports)

  unfoldable pub initial : {W : Type 0} → Opening N → W → Run N W
  initial o w =
      let totals = inbound_total o in
      let starts = start_nodes totals o.nodes in
      record {
        records = pending_records o.nodes [];
        remaining = totals;
        blocked_predicates = [];
        queue = starts;
        input_buffers = empty_buffers starts [];
        outputs_cache = [];
        processed = [];
        run_failed = false;
        world = w;
      }

  abbrev pub skip : NodeRecord N → NodeRecord N
  skip r = record r { state = NodeState.skipped }

module _ {N : Numbers} where
  unfoldable pub predicate_passed : Edge N → Ports N → Bool
  predicate_passed edge outputs = elim edge.predicate [
    | none ↦ true
    | some predicate ↦ evaluate_predicate N predicate edge.from.port outputs
  ]

module _ {N : Numbers} {W : Type 0} where
  -- a predicate that fails blocks the target; else the values go to the target's inputs
  unfoldable pub transfer : Edge N → Ports N → Run N W → Run N W
  transfer edge outputs s =
      if predicate_passed edge outputs
      then (elim (lookup edge.from.port outputs) [
        | none ↦ s
        | some values ↦ if is_nil values then s else record s {
          input_buffers =
              insert edge.to.node
                (push_values edge.to.port values
                  (unwrap_or [] (lookup edge.to.node s.input_buffers)))
                s.input_buffers;
        }
      ])
      else record s { blocked_predicates = set_insert edge.to.node s.blocked_predicates }

  -- the last inbound edge of a node has been followed
  unfoldable pub complete_inputs : Dict Text ℕ → Text → Run N W → Run N W
  complete_inputs totals id s =
      let blocked = contains id s.blocked_predicates in
      let delivered =
        unwrap_or false (option_map (λ p. not (is_nil p)) (lookup id s.input_buffers)) in
      let had_inbound = ltb 0 (total_of totals id) in
      if blocked
      then record s {
        records = modify id skip s.records;
        processed = insert id false s.processed;
        blocked_predicates = filter (λ b. not (b == id)) s.blocked_predicates;
      }
      else if delivered || not had_inbound
      then record s { queue = s.queue ++ id ∷ [] }
      else elim (lookup id s.records) [
        | none ↦ s
        | some _ ↦ record s {
          records = modify id skip s.records;
          processed = insert id false s.processed;
        }
      ]

  -- the counter of the edge's target goes down
  unfoldable pub count_down : Dict Text ℕ → Text → Run N W → Run N W
  count_down totals id s = elim (lookup id s.remaining) [
    | none ↦ s
    | some counter ↦
        let s' = record s { remaining = insert id (counter - 1) s.remaining } in
        if ltb 0 counter then (if counter - 1 == 0 then complete_inputs totals id s' else s') else s
  ]

  unfoldable pub follow_edges : Dict Text ℕ → List (Edge N) → Ports N → Run N W → Run N W
  follow_edges totals [] outputs s = s
  follow_edges totals (edge ∷ edges) outputs s =
      follow_edges totals edges outputs (count_down totals edge.to.node (transfer edge outputs s))

module _ {N : Numbers} (E : Env N) (R : Runner N) where
  -- the end of a node: its outputs go along its edges, or the run has failed
  unfoldable pub finish_node :
      Node N → Option (Ports N) × NodeRecord N → Run N E.World → Run N E.World
  finish_node node (none, record_) s = record s {
    records = insert node.id record_ s.records;
    run_failed = true;
  }
  finish_node node (some outputs, record_) s =
      let s1 = record s {
        records = insert node.id record_ s.records;
        outputs_cache = insert node.id outputs s.outputs_cache;
      } in
      let s2 =
        follow_edges (inbound_total R.opening) (outgoing node.id R.opening.edges) outputs s1 in
      record s2 { processed = insert node.id true s2.processed }

  -- One round: `none` for a panic of `expect`, or when the attempts run out of fuel.
  unfoldable pub run_node : Text → Run N E.World → Option (Run N E.World)
  run_node node_id s = do
    node ← find_node node_id R.opening.nodes
    record_ ← lookup node.id s.records
    ended ← execute_node E R node (unwrap_or [] (lookup node.id s.input_buffers)) record_ s.world
    some (
        finish_node node ended.0
          (record s { input_buffers = remove node.id s.input_buffers; world = ended.1 }))

  -- the loop over the queue; `none` also when the fuel runs out
  unfoldable pub run_queue : ℕ → Run N E.World → Option (Run N E.World)
  run_queue zero s = if is_nil s.queue || s.run_failed then some s else none
  run_queue (suc fuel) s = elim s.queue [
    | [] ↦ some s
    | node_id ∷ queue ↦ elim s.run_failed [
      | true ↦ some s
      | false ↦ elim (run_node node_id (record s { queue = queue })) [
        | none ↦ none
        | some s' ↦ run_queue fuel s'
      ]
    ]
  ]

  -- the loop over the queue, with a round for each node
  unfoldable pub run_nodes : E.World → Option (Run N E.World)
  run_nodes w = run_queue (length R.opening.nodes) (initial R.opening w)
