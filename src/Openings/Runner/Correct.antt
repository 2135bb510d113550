-- ===== src/Openings/Runner/Correct.antt =====
-- What a run of crates/openings/src/runner.rs does on an opening whose ids differ and whose edges join
-- its nodes, as the parser leaves it.
use runloop.Prelude.{
  ◌≡◌, refl, sym, inl, inr, true, not, ◌||◌, none, some, List, [], ◌∷◌, arith, Bool-cases,
  Option-cases, every, All, nat_eq, list_eq,
}
use mathlib.Core.Path.{subst}
use runloop.Prelude.Dict.{Dict, contains_key}
use runloop.Prelude.Options.{>>=-eq-some}
use runloop.Runtime.Text.{Text}
use runloop.Runtime.Set.{contains, NoDup}
use runloop.Openings.Json.{Numbers}
use runloop.Openings.Types.{Node, Edge}
use runloop.Openings.Graph.Ends.{ids, Known}
use runloop.Openings.Runner.Report.{NodeRecord, NodeTrace, RunReport}
use runloop.Openings.Runner.Env.{Env, Hashing}
use runloop.Openings.Runner.Attempts.{Runner}
use runloop.Openings.Runner.Schedule.{Run}
use runloop.Openings.Runner.Finish.{trace_nodes, resolve_states, report, run}
use runloop.Openings.Runner.Status.{has_failed}
use runloop.Openings.Runner.Sequence.{Sequenced}
use runloop.Openings.Runner.Loop.{Fit, run_nodes-Finished}
use runloop.Openings.Runner.Outcome.{
  has_settled, trace_attempted, trace_succeeded, resolve-status, resolve-settled,
  trace_nodes-status, trace_nodes-total, trace_nodes-every,
}

module _ {N : Numbers} (E : Env N) (R : Runner N) (H : Hashing N) where
  abbrev nodes : List (Node N)
  nodes = R.opening.nodes

  abbrev edges : List (Edge N)
  edges = R.opening.edges

  -- the records of the report
  abbrev settled_records : Run N E.World → Dict Text (NodeRecord N)
  settled_records s = (resolve_states E R s.run_failed s.processed s.records s.world).0

  -- a run whose report is at hand, step by step
  abbrev Reported : RunReport N → Run N E.World → Type 0
  Reported rep s =
      (traced : List (NodeTrace N) × H.Hasher) × (trace_nodes H nodes (settled_records s) H.new
        ≡ some traced)
      × (rep.trace.nodes ≡ traced.0)
      × ((not rep.trace.success || not s.run_failed) ≡ true)

  report-Reported :
      (s : Run N E.World) (rep : RunReport N) (w : E.World)
      → report E R H s ≡ some (rep, w)
      → Reported rep s
  unfolding report
  report-Reported s rep w h =
      let (traced, e, h') = >>=-eq-some (trace_nodes H nodes (settled_records s) H.new) _ h in
      (traced, e, ground arith, ground arith)

  trace-report :
      (s : Run N E.World) (traced : List (NodeTrace N) × H.Hasher)
      → trace_nodes H nodes (settled_records s) H.new ≡ some traced
      → (report E R H s ≡ none)
      → ⊥
  unfolding report
  trace-report s traced e h = ground arith

  status-known :
      (s : Run N E.World)
      → Fit E R s
      → (v : Text) → contains v (ids nodes) ≡ true
      → contains_key v (settled_records s) ≡ true
  status-known s fit v i =
      ground (arith, fit.1 v, resolve-status E R s.run_failed s.processed v s.records s.world)

  -- A run of an opening, whose node ids differ and whose edges join its nodes, always ends with a
  -- report.
  pub run-total :
      (w : E.World)
      → NoDup (ids nodes)
      → Known nodes edges
      → (rep : RunReport N) × (w' : E.World) × (run E R H w ≡ some (rep, w'))
  unfolding run
  run-total w d k =
      let (s, ran, fit) = run_nodes-Finished E R k w d in
      let (traced, e) = trace_nodes-total H nodes (settled_records s) H.new (status-known s fit) in
      elim (Option-cases (report E R H s)) [
        | inl none_left ↦ absurd (trace-report s traced e none_left)
        | inr ((rep, w'), made) ↦ (rep, w', rw (ran, made) refl)
      ]

  -- the state after the rounds of a run that is at hand
  run-Fit :
      (w : E.World) (rep : RunReport N) (w' : E.World)
      → NoDup (ids nodes)
      → Known nodes edges
      → run E R H w ≡ some (rep, w')
      → (s : Run N E.World) × Fit E R s × Reported rep s
  unfolding run
  run-Fit w rep w' d k h =
      let (s, ran, fit) = run_nodes-Finished E R k w d in
      let made : report E R H s ≡ some (rep, w') = ground arith in
      (s, fit, report-Reported s rep w' made)

  -- the source of an edge to an attempted node has succeeded, in the traces
  abbrev pub TracesSequenced : List (NodeTrace N) → Type 0
  TracesSequenced traces =
      All
        (λ (e : Edge N).
          (not (trace_attempted e.to.node traces) || trace_succeeded e.from.node traces) ≡ true)
        edges

  Sequenced-traces :
      (s : Run N E.World) (traced : List (NodeTrace N) × H.Hasher) (es : List (Edge N))
      → trace_nodes H nodes (settled_records s) H.new ≡ some traced
      → Known nodes es
      → Sequenced es s.records
      → All
          (λ (e : Edge N).
            (not (trace_attempted e.to.node traced.0) || trace_succeeded e.from.node traced.0)
            ≡ true)
          es
  Sequenced-traces s traced [] e k q = tt
  Sequenced-traces s traced (x ∷ es) e k q = (
    ground (
      arith,
      q.0,
      k.0,
      trace_nodes-status H x.to.node nodes (settled_records s) H.new traced.0 traced.1 e,
      trace_nodes-status H x.from.node nodes (settled_records s) H.new traced.0 traced.1 e,
      resolve-status E R s.run_failed s.processed x.to.node s.records s.world,
      resolve-status E R s.run_failed s.processed x.from.node s.records s.world,
    ),
    Sequenced-traces s traced es e k.1 q.1,
  )

  -- In the report of a run of an opening, whose node ids differ and whose edges join its nodes, a
  -- node with an attempt comes after its inputs: the source of every edge into it has succeeded.
  pub run-sequenced :
      (w : E.World) (rep : RunReport N) (w' : E.World)
      → NoDup (ids nodes)
      → Known nodes edges
      → run E R H w ≡ some (rep, w')
      → TracesSequenced rep.trace.nodes
  run-sequenced w rep w' d k h =
      let (s, fit, (traced, e, made, _)) = run-Fit w rep w' d k h in
      subst TracesSequenced (sym made) (Sequenced-traces s traced edges e k fit.0)

  -- In the report of a run of an opening, whose node ids differ and whose edges join its nodes,
  -- every node has succeeded, failed or been skipped, and when the report says success, none has
  -- failed.
  pub run-settled :
      (w : E.World) (rep : RunReport N) (w' : E.World)
      → NoDup (ids nodes)
      → Known nodes edges
      → run E R H w ≡ some (rep, w')
      → (every (λ t. has_settled t.state) rep.trace.nodes ≡ true)
        × ((not rep.trace.success || every (λ t. not (has_failed t.state)) rep.trace.nodes) ≡ true)
  run-settled w rep w' d k h =
      let (s, fit, (traced, e, made, success)) = run-Fit w rep w' d k h in
      let all_settled =
        trace_nodes-every H has_settled nodes (settled_records s) H.new traced.0 traced.1
          (λ v r. resolve-settled E R s.run_failed s.processed v r s.records s.world) e in
      (
        subst (λ (ts : List (NodeTrace N)). every (λ t. has_settled t.state) ts ≡ true) (sym made)
            all_settled,
        elim (Bool-cases s.run_failed) [
          | inl stopped ↦ ground arith
          | inr going ↦
              let none_failed =
                trace_nodes-every H (λ state. not (has_failed state)) nodes (settled_records s)
                  H.new traced.0 traced.1
                  (λ v r l. ground (
                    arith,
                    fit.2 v,
                    resolve-status E R s.run_failed s.processed v s.records s.world,
                  ))
                  e in
              subst
                (λ (ts : List (NodeTrace N)).
                  (not rep.trace.success || every (λ t. not (has_failed t.state)) ts) ≡ true)
                (sym made) (ground arith)
        ],
      )
