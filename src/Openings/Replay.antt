-- ===== src/Openings/Replay.antt =====
-- The replay of a recorded run, crates/openings/src/replay.rs.
pub mod Matches
use runloop.Prelude.{
  ℕ, Bool, Option, none, some, List, [], ◌∷◌, ◌++◌, if◌then◌else◌, ◌==◌, is_nil, nat_eq, list_eq,
  option_eq,
}
use runloop.Prelude.Options.{unwrap_or, ◌>>=◌}
use runloop.Runtime.Text.{Text}
use runloop.Rmp.Error.{Result, ok, err}
use runloop.Openings.Json.{Numbers}
use runloop.Openings.Types.{Node, Opening}
use runloop.Openings.Runner.Report.{
  RunnerError, NodeState, NodeExecution, NodeAttemptTrace, NodeTrace, RunTrace,
}
use runloop.Openings.Runner.Env.{NodeExecutionRequest, Hashing}
use runloop.Openings.Runner.Finish.{hash}

-- the reasons of the mismatches; the debug text of a state is left out
pub data Reason : Type 0 where
  not_in_opening output_hash_mismatch expected_failure missing_final_attempt : Reason
  recorded_as_failed executor_reported : Text → Reason
  failure_reason_mismatch : Text → Text → Reason
  unexpected_state : NodeState → Reason
  failure_while_recorded : NodeState → Text → Reason

pub record ReplayMismatch : Type 0 where
  pub node_id : Text
  pub expected_hash : Option Text
  pub actual_hash : Option Text
  pub reason : Reason

pub record ReplayReport : Type 0 where
  pub matches : Bool
  pub mismatches : List ReplayMismatch
  pub replay_hash : Text

-- The executor of a replay runs without a timeout and without retries. Its agent ids are fresh.
pub record Executor (N : Numbers) : Type 1 where
  pub World : Type 0
  pub new_agent_id : World → ℕ × World
  pub execute : NodeExecutionRequest N → World → Result RunnerError (NodeExecution N) × World

module _ {N : Numbers} where
  -- `nodes_by_id`: of several nodes with one id, the last
  unfoldable pub node_by_id : Text → List (Node N) → Option (Node N)
  node_by_id id [] = none
  node_by_id id (node ∷ nodes) =
      let later = node_by_id id nodes in
      elim later [ some n ↦ some n | none ↦ if node.id == id then some node else none ]

module _ {N : Numbers} (H : Hashing N) where
  abbrev Checked : Type 0
  Checked = List ReplayMismatch × H.Hasher

  abbrev mismatch : Text → Option Text → Option Text → Reason → ReplayMismatch
  mismatch node_id expected actual reason = record {
    node_id = node_id;
    expected_hash = expected;
    actual_hash = actual;
    reason = reason;
  }

  module _ (node_id : Text) (attempt : NodeAttemptTrace N) where
    -- the match on the execution and the recorded state
    unfoldable pub compare_execution : NodeExecution N → NodeState → H.Hasher → Checked
    compare_execution (NodeExecution.completed outputs) NodeState.succeeded hasher =
        let actual = hash H outputs in
        (
          (if some (H.to_hex actual) == attempt.output_hash
              then []
              else (mismatch node_id attempt.output_hash (some (H.to_hex actual))
                    Reason.output_hash_mismatch
                  ∷ [])),
          H.update hasher (H.as_bytes actual),
        )
    compare_execution (NodeExecution.failed _ reason) (NodeState.failed recorded) hasher =
        let expected = unwrap_or recorded attempt.error in
        (
          (if expected == reason
              then []
              else (mismatch node_id none none (Reason.failure_reason_mismatch expected reason)
                  ∷ [])),
          H.update hasher expected,
        )
    compare_execution (NodeExecution.completed outputs) (NodeState.failed _) hasher = (
      mismatch node_id attempt.output_hash (some (H.to_hex (hash H outputs)))
            Reason.expected_failure
          ∷ [],
      hasher,
    )
    compare_execution (NodeExecution.failed _ reason) NodeState.succeeded hasher =
        (mismatch node_id attempt.output_hash none (Reason.executor_reported reason) ∷ [], hasher)
    compare_execution (NodeExecution.completed _) other hasher =
        (mismatch node_id attempt.output_hash none (Reason.unexpected_state other) ∷ [], hasher)
    compare_execution (NodeExecution.failed _ reason) other hasher = (
      mismatch node_id attempt.output_hash none (Reason.failure_while_recorded other reason) ∷ [],
      hasher,
    )

  -- a node without a final attempt
  unfoldable pub compare_absent : Text → NodeState → List ReplayMismatch
  compare_absent node_id (NodeState.failed reason) =
      mismatch node_id none none (Reason.recorded_as_failed reason) ∷ []
  compare_absent node_id NodeState.succeeded =
      mismatch node_id none none Reason.missing_final_attempt ∷ []
  compare_absent node_id _ = []

  module _ (X : Executor N) (opening : Opening N) (trace : RunTrace N) where
    -- one round of the loop over the traces
    unfoldable pub replay_node :
        NodeTrace N → H.Hasher → X.World → Result RunnerError Checked × X.World
    replay_node t hasher w = elim (node_by_id t.node_id opening.nodes) [
      | none ↦ (
        ok (
          mismatch t.node_id (t.final_attempt >>= (λ a. a.output_hash)) none Reason.not_in_opening
              ∷ [],
          hasher,
        ),
        w,
      )
      | some node ↦ elim t.final_attempt [
        | none ↦ (ok (compare_absent t.node_id t.state, hasher), w)
        | some attempt ↦
            let (agent_id, w1) = X.new_agent_id w in
            let (execution, w2) =
              X.execute
                (record {
                  node = node;
                  inputs = attempt.inputs;
                  attempt = attempt.attempt;
                  trace_id = trace.trace_id;
                  opening_id = trace.opening_id;
                  agent_id = agent_id;
                })
                w1 in
            elim execution [
              | err e ↦ (err e, w2)
              | ok done ↦ (ok (compare_execution t.node_id attempt done t.state hasher), w2)
            ]
      ]
    ]

    unfoldable pub replay_nodes :
        List (NodeTrace N)
        → List ReplayMismatch
        → H.Hasher
        → X.World
        → Result RunnerError Checked × X.World
    replay_nodes [] mismatches hasher w = (ok (mismatches, hasher), w)
    replay_nodes (t ∷ ts) mismatches hasher w =
        let (checked, w') = replay_node t hasher w in
        elim checked [
          | err e ↦ (err e, w')
          | ok (found, hasher') ↦ replay_nodes ts (mismatches ++ found) hasher' w'
        ]

    unfoldable pub replay : X.World → Result RunnerError ReplayReport × X.World
    replay w =
        let (checked, w') = replay_nodes trace.nodes [] H.new w in
        elim checked [
          | err e ↦ (err e, w')
          | ok (mismatches, hasher) ↦ (
            ok (record {
              matches = is_nil mismatches;
              mismatches = mismatches;
              replay_hash = H.to_hex (H.finalize hasher);
            }),
            w',
          )
        ]
