-- ===== src/Openings/Replay/Matches.antt =====
-- The replay of crates/openings/src/replay.rs beside the trace that crates/openings/src/runner.rs made.
use runloop.Prelude.{
  ℕ, ◌≡◌, refl, ap, ◌∙◌, Bool, true, false, Option, none, some, List, [], ◌∷◌, arith, beq_refl, All,
  nat_eq, list_eq, option_eq,
}
use mathlib.Core.Path.{subst}
use runloop.Prelude.Dict.{Dict, lookup}
use runloop.Prelude.Options.{option_map, >>=-eq-some}
use runloop.Runtime.Text.{Text}
use runloop.Runtime.Set.{contains, NoDup}
use runloop.Rmp.Error.{ok}
use runloop.Openings.Json.{Numbers}
use runloop.Openings.Types.{Node, Opening}
use runloop.Openings.Predicates.{Ports}
use runloop.Openings.Graph.Ends.{ids}
use runloop.Openings.Runner.Report.{
  NodeState, NodeExecution, NodeAttemptRecord, NodeRecord, NodeTrace, RunTrace,
}
use runloop.Openings.Runner.Env.{NodeExecutionRequest, Hashing}
use runloop.Openings.Runner.Finish.{
  hash, last, update_attempt, trace_attempt, trace_node, trace_nodes,
}
use runloop.Openings.Replay.{
  Executor, node_by_id, compare_execution, compare_absent, replay_node, replay_nodes, replay,
}

module _ {N : Numbers} where
  -- the last attempt is what the executor would answer, and a node without one was skipped
  abbrev pub Agrees :
      (Node N → Ports N → ℕ → NodeExecution N)
      → Node N
      → Option (NodeAttemptRecord N)
      → NodeState
      → Type 0
  Agrees answer node none NodeState.skipped = Unit
  Agrees answer node (some a) NodeState.succeeded =
      (o : Ports N) × (answer node a.inputs a.attempt ≡ NodeExecution.completed o)
      × (a.output ≡ some o)
      × (a.error ≡ none)
  Agrees answer node (some a) (NodeState.failed _) =
      (retryable : Bool) × (reason : Text) × (answer node a.inputs a.attempt
        ≡ NodeExecution.failed retryable reason)
      × (a.output ≡ none)
      × (a.error ≡ some reason)
  Agrees answer node _ _ = ⊥

  absent-by_id :
      (id : Text) (nodes : List (Node N))
      → contains id (ids nodes) ≡ false
      → node_by_id id nodes ≡ none
  unfolding node_by_id contains
  absent-by_id id [] h = refl
  absent-by_id id (node ∷ nodes) h = ground (arith, absent-by_id id nodes)

  -- every node is found under its id
  abbrev Found : List (Node N) → List (Node N) → Type 0
  Found whole = All (λ node. node_by_id node.id whole ≡ some node)

  Found-cons :
      (x : Node N) (whole nodes : List (Node N)) → Found whole nodes → Found (x ∷ whole) nodes
  unfolding node_by_id
  Found-cons x whole [] f = tt
  Found-cons x whole (node ∷ nodes) f = (rw (f.0) refl, Found-cons x whole nodes f.1)

  NoDup-Found : (nodes : List (Node N)) → NoDup (ids nodes) → Found nodes nodes
  unfolding node_by_id
  NoDup-Found [] d = tt
  NoDup-Found (node ∷ nodes) d = (
    rw (absent-by_id node.id nodes d.0, beq_refl node.id) refl,
    Found-cons node nodes nodes (NoDup-Found nodes d.1),
  )

module _ {N : Numbers} (H : Hashing N) (X : Executor N) (opening : Opening N) (trace : RunTrace N)
    (answer : Node N → Ports N → ℕ → NodeExecution N)
    (same : (req : NodeExecutionRequest N) (w : X.World)
      → (X.execute req w).0 ≡ ok (answer req.node req.inputs req.attempt)) where
  abbrev traced : Node N → Option (NodeAttemptRecord N) → NodeState → NodeTrace N
  traced node o state = record {
    node_id = node.id;
    state = state;
    final_attempt = option_map (trace_attempt H) o;
  }

  compares :
      (node : Node N) (a : NodeAttemptRecord N) (state : NodeState) (hasher : H.Hasher)
      → Agrees answer node (some a) state
      → compare_execution H node.id
          (trace_attempt H a)
          (answer node a.inputs a.attempt)
          state
          hasher
        ≡ ([], update_attempt H (some a) hasher)
  unfolding compare_execution update_attempt trace_attempt
  compares node a NodeState.succeeded hasher (o, e, out, error) =
      ground (arith, beq_refl (H.to_hex (hash H o)))
  compares node a (NodeState.failed recorded) hasher (retryable, reason, e, out, error) =
      ground (arith, beq_refl reason)
  compares node a NodeState.pending hasher g = absurd g
  compares node a NodeState.running hasher g = absurd g
  compares node a NodeState.skipped hasher g = absurd g
  compares node a NodeState.cancelled hasher g = absurd g

  -- one node of the trace: no mismatch, and the same update of the hash
  replay_node-Agrees :
      (node : Node N) (o : Option (NodeAttemptRecord N)) (state : NodeState) (hasher : H.Hasher)
      (w : X.World)
      → node_by_id node.id opening.nodes ≡ some node
      → Agrees answer node o state
      → (replay_node H X opening trace (traced node o state) hasher w).0
        ≡ ok ([], update_attempt H o hasher)
  unfolding replay_node trace_attempt update_attempt compare_absent
  replay_node-Agrees node none NodeState.skipped hasher w found g = ground arith
  replay_node-Agrees node none NodeState.pending hasher w found g = absurd g
  replay_node-Agrees node none NodeState.running hasher w found g = absurd g
  replay_node-Agrees node none NodeState.succeeded hasher w found g = absurd g
  replay_node-Agrees node none (NodeState.failed _) hasher w found g = absurd g
  replay_node-Agrees node none NodeState.cancelled hasher w found g = absurd g
  replay_node-Agrees node (some a) state hasher w found g =
      let (agent_id, w1) = X.new_agent_id w in
      let req : NodeExecutionRequest N = record {
        node = node;
        inputs = a.inputs;
        attempt = a.attempt;
        trace_id = trace.trace_id;
        opening_id = trace.opening_id;
        agent_id = agent_id;
      } in
      ground (arith, same req w1, compares node a state hasher g)

  -- what the executor would answer is what the record of the node says
  abbrev AgreesAt : Node N → Option (NodeRecord N) → Type 0
  AgreesAt node none = ⊥
  AgreesAt node (some r) = Agrees answer node (last r.attempts) r.state

  abbrev pub Recorded : Dict Text (NodeRecord N) → Node N → Type 0
  Recorded records node = AgreesAt node (lookup node.id records)

  replay_nodes-cons :
      (t : NodeTrace N) (ts : List (NodeTrace N)) (hasher next : H.Hasher) (w : X.World)
      → (replay_node H X opening trace t hasher w).0 ≡ ok ([], next)
      → (replay_nodes H X opening trace (t ∷ ts) [] hasher w).0
        ≡ (replay_nodes H X opening trace ts [] next (replay_node H X opening trace t hasher w).1).0
  unfolding replay_nodes
  replay_nodes-cons t ts hasher next w h = ground arith

  replay_nodes-Agrees :
      (nodes : List (Node N)) (records : Dict Text (NodeRecord N)) (hasher : H.Hasher)
      (traces : List (NodeTrace N)) (hasher' : H.Hasher) (w : X.World)
      → Found opening.nodes nodes
      → All (Recorded records) nodes
      → trace_nodes H nodes records hasher ≡ some (traces, hasher')
      → (replay_nodes H X opening trace traces [] hasher w).0 ≡ ok ([], hasher')
  unfolding trace_nodes replay_nodes trace_node
  replay_nodes-Agrees [] records hasher [] hasher' w f g h = ground arith
  replay_nodes-Agrees [] records hasher (_ ∷ _) hasher' w f g h = absurd (ground arith)
  replay_nodes-Agrees (node ∷ nodes) records hasher traces hasher' w f g h =
      let (r, l, h1) = >>=-eq-some (lookup node.id records) _ h in
      let (rest, e, h2) =
        >>=-eq-some (trace_nodes H nodes records (update_attempt H (last r.attempts) hasher)) _
          h1 in
      let agrees : Agrees answer node (last r.attempts) r.state = subst (AgreesAt node) l g.0 in
      let one = replay_node-Agrees node (last r.attempts) r.state hasher w f.0 agrees in
      let made : (trace_node H node r ∷ rest.0 ≡ traces) × (rest.1 ≡ hasher') = ground arith in
      let w' = (replay_node H X opening trace (trace_node H node r) hasher w).1 in
      let later =
        replay_nodes-Agrees nodes records (update_attempt H (last r.attempts) hasher) rest.0 rest.1
          w' f.1 g.1 e in
      subst (λ ts. (replay_nodes H X opening trace ts [] hasher w).0 ≡ ok ([], hasher')) made.0
        (replay_nodes-cons (trace_node H node r) rest.0 hasher _ w one
          ∙ (later ∙ ap (λ z. ok ([], z)) made.1))

  -- Let a trace hold the nodes and the hash that the end of a run makes of its records, for an
  -- opening whose node ids differ, and let the executor give every request the answer that its
  -- record's last attempt holds, where a node without an attempt was skipped. Then the replay of
  -- the trace has no mismatch, and its hash is the final hash of the trace.
  pub replay-matches :
      (records : Dict Text (NodeRecord N)) (hasher : H.Hasher) (w : X.World)
      → NoDup (ids opening.nodes)
      → All (Recorded records) opening.nodes
      → trace_nodes H opening.nodes records H.new ≡ some (trace.nodes, hasher)
      → trace.final_hash ≡ H.to_hex (H.finalize hasher)
      → (replay H X opening trace w).0
        ≡ ok (record { matches = true; mismatches = []; replay_hash = trace.final_hash })
  unfolding replay
  replay-matches records hasher w d g h final =
      let agrees =
        replay_nodes-Agrees opening.nodes records H.new trace.nodes hasher w
          (NoDup-Found opening.nodes d) g h in
      ground arith
