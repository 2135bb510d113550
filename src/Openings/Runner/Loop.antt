-- ===== src/Openings/Runner/Loop.antt =====
-- The loop over the queue of `Runner::run` in crates/openings/src/runner.rs: it ends, and it keeps to the
-- order of the edges.
use runloop.Prelude.{
  ℕ, zero, suc, ◌≡◌, refl, sym, ap, ◌∙◌, ◌⊎◌, inl, inr, true, false, not, ◌||◌, Option, none, some,
  List, [], ◌∷◌, arith, Bool-cases, Option-cases, beq_refl, length, nat_eq, list_eq,
}
use mathlib.Core.Path.{subst}
use runloop.Prelude.Dict.{Dict, lookup, remove, contains_key}
use runloop.Prelude.Options.{unwrap_or}
use runloop.Runtime.Text.{Text}
use runloop.Runtime.Set.{contains, NoDup}
use runloop.Openings.Json.{Numbers}
use runloop.Openings.Predicates.{Ports}
use runloop.Openings.Types.{Node, Edge}
use runloop.Openings.Graph.Ends.{ids, Known}
use runloop.Openings.Runner.Report.{NodeState, NodeRecord}
use runloop.Openings.Runner.Env.{Env}
use runloop.Openings.Runner.Attempts.{Runner}
use runloop.Openings.Runner.Retries.{EndsAs, execute_node-Ends}
use runloop.Openings.Runner.Schedule.{
  Run, inbound_total, outgoing, initial, finish_node, run_node, run_queue, run_nodes,
}
use runloop.Openings.Runner.Counters.{into, open_into-nil}
use runloop.Openings.Runner.Start.{
  contains_key-inbound_total, total-inbound, start-measure, contains-start_nodes, NoDup-start_nodes,
}
use runloop.Openings.Runner.Status.{
  failed, contains_key-pending_records, attempted-pending_records, failed-pending_records,
}
use runloop.Openings.Runner.Follow.{core, Order, follow_edges-Order}
use runloop.Openings.Runner.Sequence.{
  List-cases, Sequenced, Known-outgoing, find_node-known, Order-Sequenced, recorded',
  failed-Sequenced, success-Order,
}

succeeded-state {ℓ} :
    {A : Type ℓ} (o : A) (state : NodeState) → EndsAs (some o) state → state ≡ NodeState.succeeded
succeeded-state o NodeState.succeeded e = refl
succeeded-state o NodeState.pending e = absurd e
succeeded-state o NodeState.running e = absurd e
succeeded-state o (NodeState.failed _) e = absurd e
succeeded-state o NodeState.skipped e = absurd e
succeeded-state o NodeState.cancelled e = absurd e

pub recorded_node :
    {N : Numbers} (id : Text) (records : Dict Text (NodeRecord N))
    → contains_key id records ≡ true
    → (r : NodeRecord N) × (lookup id records ≡ some r)
recorded_node id records h = elim (Option-cases (lookup id records)) [
  | inl e ↦ absurd (ground arith)
  | inr found ↦ found
]

module _ {N : Numbers} (E : Env N) (R : Runner N) where
  abbrev nodes : List (Node N)
  nodes = R.opening.nodes

  abbrev edges : List (Edge N)
  edges = R.opening.edges

  -- the records are those of the nodes, in an order of the edges, and a failure fails the run
  abbrev pub Fit : Run N E.World → Type 0
  Fit s =
      Sequenced edges s.records
      × ((v : Text) → contains_key v s.records ≡ contains v (ids nodes))
      × ((v : Text) → (s.run_failed || not (failed v s.records)) ≡ true)

  module _ (known : Known nodes edges) where
    -- after a round the run goes on, or has failed
    abbrev Next : List Text → ℕ → Run N E.World → Type 0
    Next done bound s = Order nodes edges done [] bound (core s) ⊎ ((s.run_failed ≡ true) × Fit s)

    finish-Next :
        (node : Node N) (o : Option (Ports N)) (after : NodeRecord N) (done : List Text) (bound : ℕ)
        (s : Run N E.World)
        → Order nodes edges done [] (suc bound) (s.remaining, node.id ∷ s.queue, s.records)
        → EndsAs o after.state
        → Next (node.id ∷ done) bound (finish_node E R node (o, after) s)
    unfolding finish_node
    finish-Next node none after done bound s h e = inr (
      refl,
      (
        failed-Sequenced nodes edges done bound node.id s.remaining s.queue s.records h after,
        recorded' nodes edges done bound node.id s.remaining s.queue s.records h after,
        λ v. refl,
      ),
    )
    finish-Next node (some outputs) after done bound s h e = inl (
        follow_edges-Order nodes edges (inbound_total R.opening) (node.id ∷ done)
          (outgoing node.id edges) bound outputs _ (Known-outgoing nodes node.id edges known)
          (success-Order nodes edges done bound node.id s.remaining s.queue s.records h after
            (succeeded-state outputs after.state e)))

    head_known :
        (u : Text) (queue : List Text) (done : List Text) (bound : ℕ) (s : Run N E.World)
        → Order nodes edges done [] (suc bound) (s.remaining, u ∷ queue, s.records)
        → contains u (ids nodes) ≡ true
    unfolding contains
    head_known u queue done bound s h = (h.waiting u (ground (arith, beq_refl u))).0

    run_node-Next :
        (u : Text) (queue : List Text) (done : List Text) (bound : ℕ) (s : Run N E.World)
        → Order nodes edges done [] (suc bound) (s.remaining, u ∷ queue, s.records)
        → (s' : Run N E.World) × (run_node E R u (record s { queue = queue }) ≡ some s')
          × Next (u ∷ done) bound s'
    unfolding run_node
    run_node-Next u queue done bound s h =
        let (node, found, id) = find_node-known u nodes (head_known u queue done bound s h) in
        let h' =
          subst (λ z. Order nodes edges done [] (suc bound) (s.remaining, z ∷ queue, s.records))
            (sym id) h in
        let (record_, l) =
          recorded_node node.id s.records
            (h.recorded node.id ∙ head_known node.id queue done bound s h') in
        let inputs = unwrap_or [] (lookup node.id s.input_buffers) in
        let (o, after, w, ran, (e, _, _)) = execute_node-Ends E R node inputs record_ s.world in
        let s' = record s {
          queue = queue;
          input_buffers = remove node.id s.input_buffers;
          world = w;
        } in
        (
          finish_node E R node (o, after) s',
          rw (found, l, ran) refl,
          subst (λ z. Next (z ∷ done) bound (finish_node E R node (o, after) s')) id
              (finish-Next node o after done bound s' h' e),
        )

    run_queue-nil : (fuel : ℕ) (s : Run N E.World) → s.queue ≡ [] → run_queue E R fuel s ≡ some s
    unfolding run_queue
    run_queue-nil zero s h = rw h refl
    run_queue-nil (suc fuel) s h = rw h refl

    run_queue-failed :
        (fuel : ℕ) (s : Run N E.World) → s.run_failed ≡ true → run_queue E R fuel s ≡ some s
    unfolding run_queue
    run_queue-failed zero s h = ground arith
    run_queue-failed (suc fuel) s h = elim (List-cases s.queue) [
      | inl e ↦ rw e refl
      | inr (u, queue, e) ↦ ground arith
    ]

    run_queue-cons :
        (fuel : ℕ) (s : Run N E.World) (u : Text) (queue : List Text) (s' : Run N E.World)
        → s.queue ≡ u ∷ queue
        → s.run_failed ≡ false
        → run_node E R u (record s { queue = queue }) ≡ some s'
        → run_queue E R (suc fuel) s ≡ run_queue E R fuel s'
    unfolding run_queue
    run_queue-cons fuel s u queue s' e going ran = rw (e, going, ran) refl

    -- the loop ends within its fuel, with records that fit
    abbrev Finished : Option (Run N E.World) → Type 0
    Finished result = (s : Run N E.World) × (result ≡ some s) × Fit s

    Order-Fit :
        (done : List Text) (bound : ℕ) (s : Run N E.World)
        → Order nodes edges done [] bound (core s)
        → Fit s
    Order-Fit done bound s h = (
      Order-Sequenced nodes edges done bound (core s) h,
      h.recorded,
      λ v. ground (arith, h.unfailed v),
    )

    run_queue-Finished :
        (fuel : ℕ) (done : List Text) (s : Run N E.World)
        → Order nodes edges done [] fuel (core s)
        → Finished (run_queue E R fuel s)
    run_queue-Finished zero done s h = elim (List-cases s.queue) [
      | inl e ↦ (s, run_queue-nil zero s e, Order-Fit done zero s h)
      | inr (u, queue, e) ↦ absurd (omega (arith, h.measure, ap length e))
    ]
    run_queue-Finished (suc fuel) done s h = elim (List-cases s.queue) [
      | inl e ↦ (s, run_queue-nil (suc fuel) s e, Order-Fit done (suc fuel) s h)
      | inr (u, queue, e) ↦ elim (Bool-cases s.run_failed) [
        | inl stopped ↦ (s, run_queue-failed (suc fuel) s stopped, Order-Fit done (suc fuel) s h)
        | inr going ↦
            let h' =
              subst (λ q. Order nodes edges done [] (suc fuel) (s.remaining, q, s.records)) e h in
            let (s', ran, next) = run_node-Next u queue done fuel s h' in
            let step = run_queue-cons fuel s u queue s' e going ran in
            subst Finished (sym step) (elim next [
              | inl order ↦ run_queue-Finished fuel (u ∷ done) s' order
              | inr (stopped, fit) ↦ (s', run_queue-failed fuel s' stopped, fit)
            ])
      ]
    ]

    initial-Order :
        (w : E.World)
        → NoDup (ids nodes)
        → Order nodes edges [] [] (length nodes) (core (initial R.opening w))
    unfolding initial contains into lookup
    initial-Order w d =
        let totals = inbound_total R.opening in
        record {
          counted = contains_key-inbound_total R.opening;
          recorded = λ v. ground (arith, contains_key-pending_records v nodes []);
          counters = λ v i. omega (arith, total-inbound R.opening v i, open_into-nil v edges);
          queued = NoDup-start_nodes totals nodes d;
          waiting = λ v i. ground (arith, contains-start_nodes v totals nodes);
          closed = λ v i. absurd (ground arith);
          idle = λ v i. attempted-pending_records v nodes [] refl;
          unfailed = λ v. failed-pending_records v nodes [] refl;
          measure = omega (arith, start-measure R.opening d);
        }

    pub run_nodes-Finished : (w : E.World) → NoDup (ids nodes) → Finished (run_nodes E R w)
    unfolding run_nodes
    run_nodes-Finished w d =
        run_queue-Finished (length nodes) [] (initial R.opening w) (initial-Order w d)
