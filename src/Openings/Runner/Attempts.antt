-- ===== src/Openings/Runner/Attempts.antt =====
-- The attempts at one node: the inner loop of `Runner::run` in crates/openings/src/runner.rs.
use runloop.Prelude.{
  ℕ, zero, suc, ◌+◌, Bool, true, ◌&&◌, Option, none, some, [], ◌∷◌, ◌++◌, ltb, if◌then◌else◌, ◌==◌,
  nat_eq,
}
use runloop.Prelude.Options.{unwrap_or, or_else}
use runloop.Runtime.Text.{Text, codes, decimal}
use runloop.Openings.Json.{Numbers}
use runloop.Openings.Predicates.{Ports}
use runloop.Openings.Types.{Node, Policy, Opening}
use runloop.Openings.Runner.Report.{
  NodeState, NodeExecution, NodeAttemptRecord, NodeRecord, Line, Level, RunEvent,
}
use runloop.Openings.Runner.Env.{Execution, Env}

-- `observed` says that an event sender is attached.
pub record Runner (N : Numbers) : Type 0 where
  pub opening : Opening N
  pub trace_id : ℕ
  pub opening_id : ℕ
  pub observed : Bool

-- what the loop does after an attempt
pub data Verdict (N : Numbers) : Type 0 where
  succeeded : Ports N → Verdict N
  retried gave_up : Verdict N

module _ {N : Numbers} where
  unfoldable pub max_attempts : Node N → ℕ
  max_attempts node = if node.retry.max_attempts == 0 then 1 else node.retry.max_attempts

  unfoldable pub timeout_of : Node N → Policy → ℕ
  timeout_of node policy = unwrap_or 30_000 (or_else node.timeout_ms policy.timeout_ms)

  abbrev push_attempt : NodeAttemptRecord N → NodeRecord N → NodeRecord N
  push_attempt a record_ = record record_ { attempts = record_.attempts ++ a ∷ [] }

  abbrev set_state : NodeState → NodeRecord N → NodeRecord N
  set_state state record_ = record record_ { state = state }

module _ {N : Numbers} (E : Env N) (R : Runner N) where
  unfoldable pub emit_event : RunEvent N → E.World → E.World
  emit_event event w = if R.observed then E.send_event event w else w

  -- from the start of an attempt to the end of its execution: the start time and the execution
  unfoldable pub start_attempt : Node N → Ports N → ℕ → E.World → (ℕ × Execution N) × E.World
  start_attempt node inputs attempt w =
      let (start_time, w1) = E.now w in
      let (agent_id, w2) = E.new_agent_id w1 in
      let w3 = emit_event (RunEvent.node_state node.id NodeState.running attempt) w2 in
      let w4 =
        emit_event (RunEvent.log_line node.id Level.info (Line.started node.id attempt)) w3 in
      let (execution, w5) =
        E.execute_within (timeout_of node R.opening.policy)
          (record {
            node = node;
            inputs = inputs;
            attempt = attempt;
            trace_id = R.trace_id;
            opening_id = R.opening_id;
            agent_id = agent_id;
          })
          w4 in
      ((start_time, execution), w5)

  module _ (node : Node N) (attempt : ℕ) where
    abbrev Settled : Type 0
    Settled = (Verdict N × NodeRecord N) × E.World

    unfoldable pub settle_completed : Ports N → NodeRecord N → E.World → Settled
    settle_completed outputs record_ w =
        let w1 = emit_event (RunEvent.node_state node.id NodeState.succeeded attempt) w in
        let w2 =
          emit_event (RunEvent.log_line node.id Level.info (Line.succeeded_on node.id attempt))
            w1 in
        let w3 =
          emit_event (RunEvent.trace_line (Line.succeeded_with node.id attempt outputs)) w2 in
        ((Verdict.succeeded outputs, set_state NodeState.succeeded record_), w3)

    unfoldable pub give_up : Text → NodeRecord N → E.World → Settled
    give_up reason record_ w = (
      (Verdict.gave_up, set_state (NodeState.failed reason) record_),
      emit_event (RunEvent.node_state node.id (NodeState.failed reason) attempt) w,
    )

    unfoldable pub retry_or_give_up : Bool → Text → NodeRecord N → E.World → Settled
    retry_or_give_up retryable reason record_ w =
        if retryable && ltb attempt (max_attempts node)
        then ((Verdict.retried, record_), E.back_off node.retry attempt w)
        else give_up reason record_ w

    unfoldable pub timeout_reason : Text
    timeout_reason =
        codes "timeout after " ++ decimal (timeout_of node R.opening.policy) ++ codes " ms"

    -- the arms of the match on the execution, behind the new entry of `attempts`
    unfoldable pub settle : Execution N → NodeRecord N → E.World → Settled
    settle (Execution.finished (NodeExecution.completed outputs)) record_ w =
        settle_completed outputs record_ w
    settle (Execution.finished (NodeExecution.failed retryable reason)) record_ w =
        retry_or_give_up retryable reason record_ (
          emit_event (RunEvent.log_line node.id Level.warn (Line.failed_on node.id attempt reason))
            w)
    settle (Execution.refused error) record_ w =
        give_up (E.show_error error) record_ (
          emit_event (RunEvent.log_line node.id Level.error (Line.error_on node.id attempt error))
            w)
    settle Execution.elapsed record_ w = retry_or_give_up true timeout_reason record_ (
        emit_event
          (RunEvent.log_line node.id Level.warn
            (Line.timed_out_on node.id attempt (timeout_of node R.opening.policy)))
          w)

    unfoldable pub output_of : Execution N → Option (Ports N)
    output_of (Execution.finished (NodeExecution.completed outputs)) = some outputs
    output_of _ = none

    unfoldable pub error_of : Execution N → Option Text
    error_of (Execution.finished (NodeExecution.completed outputs)) = none
    error_of (Execution.finished (NodeExecution.failed retryable reason)) = some reason
    error_of (Execution.refused error) = some (E.show_error error)
    error_of Execution.elapsed = some timeout_reason

    -- one round of the loop
    unfoldable pub try_node : Ports N → NodeRecord N → E.World → Settled
    try_node inputs record_ w =
        let ((start_time, execution), w1) = start_attempt node inputs attempt w in
        let (finished_at, w2) = E.now w1 in
        settle execution
          (push_attempt
            (record {
              attempt = attempt;
              started_at = start_time;
              finished_at = finished_at;
              inputs = inputs;
              output = output_of execution;
              error = error_of execution;
            })
            record_)
          w2

  -- The loop: the outputs when the node succeeded, and `none` when the fuel runs out.
  unfoldable pub attempt_loop :
      ℕ
      → Node N
      → ℕ
      → Ports N
      → NodeRecord N
      → E.World
      → Option ((Option (Ports N) × NodeRecord N) × E.World)
  attempt_loop zero node used inputs record_ w = none
  attempt_loop (suc fuel) node used inputs record_ w =
      let ((verdict, record'), w') = try_node node (used + 1) inputs record_ w in
      elim verdict [
        | Verdict.succeeded outputs ↦ some ((some outputs, record'), w')
        | Verdict.gave_up ↦ some ((none, record'), w')
        | Verdict.retried ↦ attempt_loop fuel node (used + 1) inputs record' w'
      ]

  -- the attempts at a node, with `max_attempts` rounds
  unfoldable pub execute_node :
      Node N
      → Ports N
      → NodeRecord N
      → E.World
      → Option ((Option (Ports N) × NodeRecord N) × E.World)
  execute_node node inputs record_ w =
      attempt_loop (max_attempts node) node 0 inputs (set_state NodeState.running record_) w
