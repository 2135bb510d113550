-- ===== src/Openings/Runner/Finish.antt =====
-- The end of `Runner::run` and `NodeOutputs::hash`, in crates/openings/src/runner.rs.
use runloop.Prelude.{
  Bool, true, false, not, ◌&&◌, Option, none, some, List, [], ◌∷◌, if◌then◌else◌, nat_eq, list_eq,
}
use runloop.Prelude.Dict.{Dict, lookup, values}
use runloop.Prelude.Options.{option_map, unwrap_or, ◌>>=◌}
use runloop.Runtime.Text.{Text}
use runloop.Openings.Json.{Numbers, Json}
use runloop.Openings.Predicates.{Ports, evaluate_success, text_ltb}
use runloop.Openings.Types.{Node}
use runloop.Openings.Runner.Report.{
  NodeState, NodeRecord, NodeAttemptRecord, NodeAttemptTrace, NodeTrace, RunTrace, RunReport,
  RunEvent,
}
use runloop.Openings.Runner.Env.{Env, Hashing}
use runloop.Openings.Runner.Attempts.{Runner, emit_event}
use runloop.Openings.Runner.Schedule.{Run, run_nodes}

-- `Vec::last`
unfoldable pub last {ℓ} : {A : Type ℓ} → List A → Option A
last [] = none
last (x ∷ []) = some x
last (_ ∷ y ∷ ys) = last (y ∷ ys)

unfoldable pub is_final : NodeState → Bool
is_final NodeState.succeeded = true
is_final (NodeState.failed _) = true
is_final _ = false

module _ {N : Numbers} where
  -- `sort_by` on the names of the ports, which are all different
  unfoldable pub insert_port : Text × List (Json N) → Ports N → Ports N
  insert_port entry [] = entry ∷ []
  insert_port entry (other ∷ ports) =
      if text_ltb other.0 entry.0 then other ∷ insert_port entry ports else entry ∷ other ∷ ports

  unfoldable pub sort_ports : Ports N → Ports N
  sort_ports [] = []
  sort_ports (entry ∷ ports) = insert_port entry (sort_ports ports)

module _ {N : Numbers} (H : Hashing N) where
  unfoldable pub update_values : List (Json N) → H.Hasher → H.Hasher
  update_values [] hasher = hasher
  update_values (value ∷ vs) hasher = update_values vs (H.update hasher (H.serialize value))

  unfoldable pub update_ports : Ports N → H.Hasher → H.Hasher
  update_ports [] hasher = hasher
  update_ports ((port, vs) ∷ ports) hasher =
      update_ports ports (update_values vs (H.update hasher port))

  unfoldable pub hash : Ports N → H.Hash
  hash ports = H.finalize (update_ports (sort_ports ports) H.new)

  -- what the last attempt at a node adds to the hash of the run
  unfoldable pub update_attempt : Option (NodeAttemptRecord N) → H.Hasher → H.Hasher
  update_attempt none hasher = hasher
  update_attempt (some attempt) hasher =
      let hasher' : H.Hasher = elim attempt.output [
        | none ↦ hasher
        | some outputs ↦ H.update hasher (H.as_bytes (hash outputs))
      ] in
      elim attempt.error [ none ↦ hasher' | some error ↦ H.update hasher' error ]

  unfoldable pub trace_attempt : NodeAttemptRecord N → NodeAttemptTrace N
  trace_attempt attempt = record {
    attempt = attempt.attempt;
    inputs = attempt.inputs;
    outputs = attempt.output;
    output_hash = option_map (λ output. H.to_hex (hash output)) attempt.output;
    error = attempt.error;
  }

  unfoldable pub trace_node : Node N → NodeRecord N → NodeTrace N
  trace_node node record_ = record {
    node_id = node.id;
    state = record_.state;
    final_attempt = option_map trace_attempt (last record_.attempts);
  }

  -- the loop over the nodes; `none` for a panic of `expect`
  unfoldable pub trace_nodes :
      List (Node N) → Dict Text (NodeRecord N) → H.Hasher → Option (List (NodeTrace N) × H.Hasher)
  trace_nodes [] records hasher = some ([], hasher)
  trace_nodes (node ∷ nodes) records hasher = do
    record_ ← lookup node.id records
    rest ← trace_nodes nodes records (update_attempt (last record_.attempts) hasher)
    some (trace_node node record_ ∷ rest.0, rest.1)

module _ {N : Numbers} (E : Env N) (R : Runner N) where
  -- the state that a node without a final one gets
  unfoldable pub resolved : Bool → Dict Text Bool → Text → NodeState
  resolved run_failed processed node_id =
      if not run_failed && unwrap_or false (lookup node_id processed)
      then NodeState.succeeded
      else NodeState.skipped

  -- the loop over the records, after a failure or without one
  unfoldable pub resolve_states :
      Bool
      → Dict Text Bool
      → Dict Text (NodeRecord N)
      → E.World
      → Dict Text (NodeRecord N) × E.World
  resolve_states run_failed processed [] w = ([], w)
  resolve_states run_failed processed ((node_id, record_) ∷ records) w =
      if is_final record_.state
      then (let (rest, w') = resolve_states run_failed processed records w in
          ((node_id, record_) ∷ rest, w'))
      else (let record' = record record_ { state = resolved run_failed processed node_id } in
          let (rest, w') =
            resolve_states run_failed processed records
              (emit_event E R (RunEvent.node_state record_.node_id record'.state 0) w) in
          ((node_id, record') ∷ rest, w'))

  unfoldable pub report : Hashing N → Run N E.World → Option (RunReport N × E.World)
  report H s =
      let (records, w) = resolve_states s.run_failed s.processed s.records s.world in
      do
        traced ← trace_nodes H R.opening.nodes records H.new
        let trace : RunTrace N = record {
          trace_id = R.trace_id;
          opening_id = R.opening_id;
          nodes = traced.0;
          ladder = [];
          final_hash = H.to_hex (H.finalize traced.1);
          success = not s.run_failed && evaluate_success N R.opening.success s.outputs_cache;
        }
        some (
          record { trace = trace; node_records = values records },
          emit_event E R (RunEvent.completed trace) w,
        )

  -- `Runner::run`, which returns a report whenever it returns
  unfoldable pub run : Hashing N → E.World → Option (RunReport N × E.World)
  run H w = run_nodes E R w >>= report H
