-- ===== src/Openings/Runner/Env.antt =====
-- What the runner of crates/openings/src/runner.rs takes from outside: the executor under tokio's
-- timeout, the clock, the delay between attempts, fresh ids, the receiver of events, and blake3.
use runloop.Prelude.{ℕ}
use runloop.Runtime.Text.{Text}
use runloop.Openings.Json.{Numbers, Json}
use runloop.Openings.Predicates.{Ports}
use runloop.Openings.Types.{Node, Retry}
use runloop.Openings.Runner.Report.{RunnerError, NodeExecution, RunEvent}

pub record NodeExecutionRequest (N : Numbers) : Type 0 where
  pub node : Node N
  pub inputs : Ports N
  pub attempt : ℕ
  pub trace_id : ℕ
  pub opening_id : ℕ
  pub agent_id : ℕ

-- `time::timeout(d, executor.execute(request))`
pub data Execution (N : Numbers) : Type 0 where
  finished : NodeExecution N → Execution N
  refused : RunnerError → Execution N
  elapsed : Execution N

pub record Env (N : Numbers) : Type 1 where
  pub World : Type 0
  pub now : World → ℕ × World
  pub new_agent_id : World → ℕ × World
  pub execute_within : ℕ → NodeExecutionRequest N → World → Execution N × World
  -- the sleep of `compute_backoff_ms`, which is floating-point arithmetic on random numbers
  pub back_off : Retry N → ℕ → World → World
  pub send_event : RunEvent N → World → World
  pub show_error : RunnerError → Text

-- `blake3::Hasher` fed piece by piece, and the JSON text of a value
pub record Hashing (N : Numbers) : Type 1 where
  pub Hasher : Type 0
  pub new : Hasher
  pub update : Hasher → Text → Hasher
  pub Hash : Type 0
  pub finalize : Hasher → Hash
  pub as_bytes : Hash → Text
  pub to_hex : Hash → Text
  pub serialize : Json N → Text
