-- ===== src/Openings/Runner/Report.antt =====
-- The records, traces and events of a run, in crates/openings/src/runner.rs.
use runloop.Prelude.{ℕ, Bool, Option, List}
use runloop.Runtime.Text.{Text}
use runloop.Openings.Json.{Numbers}
use runloop.Openings.Predicates.{Ports}

-- `Executor` is the case of `RunnerError` that an executor returns; the runner makes no other.
pub data RunnerError : Type 0 where
  executor : Text → RunnerError
  node_failure : Text → Text → RunnerError
  timeout : Text → ℕ → RunnerError

pub data NodeState : Type 0 where
  pending running succeeded : NodeState
  failed : Text → NodeState
  skipped cancelled : NodeState

pub data NodeExecution (N : Numbers) : Type 0 where
  completed : Ports N → NodeExecution N
  failed : Bool → Text → NodeExecution N

pub record NodeAttemptRecord (N : Numbers) : Type 0 where
  pub attempt : ℕ
  pub started_at : ℕ
  pub finished_at : ℕ
  pub inputs : Ports N
  pub output : Option (Ports N)
  pub error : Option Text

pub record NodeRecord (N : Numbers) : Type 0 where
  pub node_id : Text
  pub state : NodeState
  pub attempts : List (NodeAttemptRecord N)

pub record NodeAttemptTrace (N : Numbers) : Type 0 where
  pub attempt : ℕ
  pub inputs : Ports N
  pub outputs : Option (Ports N)
  pub output_hash : Option Text
  pub error : Option Text

pub record NodeTrace (N : Numbers) : Type 0 where
  pub node_id : Text
  pub state : NodeState
  pub final_attempt : Option (NodeAttemptTrace N)

pub record LadderHop : Type 0 where
  pub ts_ms : ℕ
  pub topic : Text
  pub schema_id : ℕ
  pub frame_len : ℕ
  pub body_len : ℕ
  pub from : Text
  pub to : Text
  pub msg_id : ℕ
  pub kind : Option Text

pub record RunTrace (N : Numbers) : Type 0 where
  pub trace_id : ℕ
  pub opening_id : ℕ
  pub nodes : List (NodeTrace N)
  pub ladder : List LadderHop
  pub final_hash : Text
  pub success : Bool

pub record RunReport (N : Numbers) : Type 0 where
  pub trace : RunTrace N
  pub node_records : List (NodeRecord N)

-- the text of a log line or a trace line
pub data Line (N : Numbers) : Type 0 where
  started : Text → ℕ → Line N
  succeeded_on : Text → ℕ → Line N
  succeeded_with : Text → ℕ → Ports N → Line N
  failed_on : Text → ℕ → Text → Line N
  error_on : Text → ℕ → RunnerError → Line N
  timed_out_on : Text → ℕ → ℕ → Line N

pub data Level : Type 0 where
  info warn error : Level

pub data RunEvent (N : Numbers) : Type 0 where
  node_state : Text → NodeState → ℕ → RunEvent N
  log_line : Text → Level → Line N → RunEvent N
  trace_line : Line N → RunEvent N
  completed : RunTrace N → RunEvent N
