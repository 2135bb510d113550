-- ===== src/Openings/Runner/Retries.antt =====
-- How the attempts at a node end, in crates/openings/src/runner.rs.
use runloop.Prelude.{
  ℕ, zero, suc, ◌+◌, ◌≤◌, ◌<◌, ◌≡◌, refl, ap, inl, inr, Bool, true, ◌&&◌, Option, none, some, [],
  ◌∷◌, ◌++◌, arith, ltb, Bool-cases, length, length-append, nat_eq,
}
use runloop.Runtime.Text.{Text}
use runloop.Openings.Json.{Numbers}
use runloop.Openings.Predicates.{Ports}
use runloop.Openings.Types.{Node}
use runloop.Openings.Runner.Report.{NodeState, NodeExecution, NodeAttemptRecord, NodeRecord}
use runloop.Openings.Runner.Env.{Execution, Env}
use runloop.Openings.Runner.Attempts.{
  Runner, Verdict, max_attempts, settle, settle_completed, give_up, retry_or_give_up, try_node,
  attempt_loop, execute_node,
}

-- the state that goes with the end of the attempts
abbrev pub EndsAs {ℓ} : {A : Type ℓ} → Option A → NodeState → Type 0
EndsAs (some _) NodeState.succeeded = Unit
EndsAs none (NodeState.failed _) = Unit
EndsAs _ _ = ⊥

max_attempts-pos : {N : Numbers} (node : Node N) → 0 < max_attempts node
unfolding max_attempts
max_attempts-pos node = ground arith

module _ {N : Numbers} (E : Env N) (R : Runner N) (node : Node N) where
  -- what one round leaves: a retry comes with attempts left, and otherwise the state is final
  abbrev Round : ℕ → NodeRecord N → Verdict N → NodeRecord N → Type 0
  Round attempt before (Verdict.succeeded outputs) after =
      (after.attempts ≡ before.attempts) × EndsAs (some outputs) after.state
  Round attempt before Verdict.gave_up after =
      (after.attempts ≡ before.attempts) × EndsAs {A = Ports N} none after.state
  Round attempt before Verdict.retried after =
      (after.attempts ≡ before.attempts) × (attempt < max_attempts node)

  retry-Round :
      (attempt : ℕ) (retryable : Bool) (reason : Text) (r : NodeRecord N) (w : E.World)
      → let ((verdict, r'), _) = retry_or_give_up E R node attempt retryable reason r w in
        Round attempt r verdict r'
  unfolding retry_or_give_up give_up
  retry-Round attempt retryable reason r w =
      elim (Bool-cases (retryable && ltb attempt (max_attempts node))) [
        | inl e ↦ rw e (refl, ground arith)
        | inr e ↦ rw e (refl, tt)
      ]

  settle-Round :
      (attempt : ℕ) (execution : Execution N) (r : NodeRecord N) (w : E.World)
      → let ((verdict, r'), _) = settle E R node attempt execution r w in Round attempt r verdict r'
  unfolding settle settle_completed give_up
  settle-Round attempt (Execution.finished (NodeExecution.completed outputs)) r w = (refl, tt)
  settle-Round attempt (Execution.finished (NodeExecution.failed retryable reason)) r w =
      retry-Round attempt retryable reason r _
  settle-Round attempt (Execution.refused error) r w = (refl, tt)
  settle-Round attempt Execution.elapsed r w = retry-Round attempt true _ r _

  -- how the loop ends when it starts with the record `before`
  abbrev pub Ends : NodeRecord N → ℕ → Option (Ports N) → NodeRecord N → Type 0
  Ends before rounds o after =
      EndsAs o after.state
      × (length before.attempts < length after.attempts)
      × (length after.attempts ≤ length before.attempts + rounds)

  abbrev Attempted :
      NodeRecord N → ℕ → Option ((Option (Ports N) × NodeRecord N) × E.World) → Type 0
  Attempted before rounds result =
      (o : Option (Ports N)) × (after : NodeRecord N) × (w : E.World) × (result
        ≡ some ((o, after), w))
      × Ends before rounds o after

  try_node-Round :
      (attempt : ℕ) (inputs : Ports N) (r : NodeRecord N) (w : E.World)
      → let ((verdict, r'), _) = try_node E R node attempt inputs r w in
        (a : NodeAttemptRecord N) × Round attempt
          (record r { attempts = r.attempts ++ a ∷ [] })
          verdict
          r'
  unfolding try_node
  try_node-Round attempt inputs r w = (_, settle-Round attempt _ _ _)

  length-push :
      (a : NodeAttemptRecord N) (r after : NodeRecord N)
      → after.attempts ≡ r.attempts ++ a ∷ []
      → length after.attempts ≡ suc (length r.attempts)
  length-push a r after l = omega (arith, ap length l, length-append r.attempts (a ∷ []))

  one_more_attempt :
      (fuel attempt : ℕ) (inputs : Ports N) (r : NodeRecord N)
      (t : (Verdict N × NodeRecord N) × E.World)
      → (a : NodeAttemptRecord N) × Round attempt
          (record r { attempts = r.attempts ++ a ∷ [] })
          t.0.0
          t.0.1
      → ((r' : NodeRecord N) (w' : E.World)
          → attempt < max_attempts node
          → Attempted r' fuel (attempt_loop E R fuel node attempt inputs r' w'))
      → Attempted r (suc fuel) (elim t.0.0 [
        | Verdict.succeeded outputs ↦ some ((some outputs, t.0.1), t.1)
        | Verdict.gave_up ↦ some ((none, t.0.1), t.1)
        | Verdict.retried ↦ attempt_loop E R fuel node attempt inputs t.0.1 t.1
      ])
  one_more_attempt fuel attempt inputs r ((Verdict.succeeded outputs, r'), w') (a, (l, e)) more =
      let n = length-push a r r' l in (some outputs, r', w', refl, (e, omega arith, omega arith))
  one_more_attempt fuel attempt inputs r ((Verdict.gave_up, r'), w') (a, (l, e)) more =
      let n = length-push a r r' l in (none, r', w', refl, (e, omega arith, omega arith))
  one_more_attempt fuel attempt inputs r ((Verdict.retried, r'), w') (a, (l, e)) more =
      let n = length-push a r r' l in
      let (o, after, w'', eq, (s, lo, hi)) = more r' w' e in
      (o, after, w'', eq, (s, omega arith, omega arith))

  attempt_loop-Attempted :
      (fuel used : ℕ) (inputs : Ports N) (r : NodeRecord N) (w : E.World)
      → 0 < fuel
      → max_attempts node ≤ used + fuel
      → Attempted r fuel (attempt_loop E R fuel node used inputs r w)
  unfolding attempt_loop
  attempt_loop-Attempted zero used inputs r w p h = absurd (omega arith)
  attempt_loop-Attempted (suc fuel) used inputs r w p h =
      one_more_attempt fuel (used + 1) inputs r (try_node E R node (used + 1) inputs r w)
        (try_node-Round (used + 1) inputs r w)
        (λ r' w' l. attempt_loop-Attempted fuel (used + 1) inputs r' w' (omega arith) (omega arith))

  -- The attempts at a node always end, after at least one and at most `max_attempts` of them: with
  -- outputs and the state succeeded, or without outputs and the state failed.
  pub execute_node-Ends :
      (inputs : Ports N) (r : NodeRecord N) (w : E.World)
      → (o : Option (Ports N)) × (after : NodeRecord N) × (w' : E.World) × (execute_node E R node
            inputs r w
          ≡ some ((o, after), w'))
        × Ends r (max_attempts node) o after
  unfolding execute_node
  execute_node-Ends inputs r w =
      attempt_loop-Attempted (max_attempts node) 0 inputs (record r { state = NodeState.running }) w
        (max_attempts-pos node) (omega arith)
