-- ===== src/Openings/Runner/Sequence.antt =====
-- The rounds of `Runner::run` in crates/openings/src/runner.rs: which nodes run, and that the loop ends.
use runloop.Prelude.{
  ℕ, suc, ◌≡◌, refl, ◌⊎◌, inl, inr, true, false, not, ◌||◌, some, List, [], ◌∷◌, arith, Bool-cases,
  ◌==◌, beq_refl, ap_beq, All, All-filter, All-imp, nat_eq, list_eq, list_beq_iff,
}
use runloop.Prelude.Dict.{Dict, insert, contains_key, contains_key-insert}
use runloop.Runtime.Text.{Text}
use runloop.Runtime.Set.{contains}
use runloop.Openings.Json.{Numbers}
use runloop.Openings.Types.{Node, Edge}
use runloop.Openings.Graph.Ends.{ids, Known}
use runloop.Openings.Runner.Report.{NodeState, NodeRecord}
use runloop.Openings.Runner.Schedule.{total_of, outgoing, find_node}
use runloop.Openings.Runner.Counters.{open_into, into, open_into-cons}
use runloop.Openings.Runner.Status.{succeeded, attempted, insert-status}
use runloop.Openings.Runner.Follow.{Core, Order}

pub List-cases {ℓ} :
    {A : Type ℓ} (xs : List A) → (xs ≡ []) ⊎ ((x : A) × (ys : List A) × (xs ≡ x ∷ ys))
List-cases [] = inl refl
List-cases (x ∷ xs) = inr (x, xs, refl)

module _ {N : Numbers} where
  -- a node that has been attempted has only predecessors that succeeded
  abbrev pub Sequenced : List (Edge N) → Dict Text (NodeRecord N) → Type 0
  Sequenced edges records =
      All (λ e. (not (attempted e.to.node records) || succeeded e.from.node records) ≡ true) edges

  pub Known-outgoing :
      (nodes : List (Node N)) (u : Text) (edges : List (Edge N))
      → Known nodes edges
      → All (λ e. contains e.to.node (ids nodes) ≡ true) (outgoing u edges)
  unfolding outgoing
  Known-outgoing nodes u edges k =
      All-filter (λ (e : Edge N). contains e.to.node (ids nodes) ≡ true) (λ e. e.from.node == u)
        edges
        (All-imp
          (λ (e : Edge N).
            (contains e.from.node (ids nodes) ≡ true) × (contains e.to.node (ids nodes) ≡ true))
          (λ (e : Edge N). contains e.to.node (ids nodes) ≡ true) edges (λ e p. p.1) k)

  pub find_node-known :
      (u : Text) (nodes : List (Node N))
      → contains u (ids nodes) ≡ true
      → (node : Node N) × (find_node u nodes ≡ some node) × (node.id ≡ u)
  unfolding find_node contains
  find_node-known u [] h = absurd (ground arith)
  find_node-known u (node ∷ nodes) h = elim (Bool-cases (node.id == u)) [
    | inl e ↦ (node, rw e refl, (list_beq_iff node.id u).0 e)
    | inr e ↦ let (n, f, i) = find_node-known u nodes (ground arith) in (n, rw e f, i)
  ]

  -- when no edge into an attempted node is open, its sources are in the list
  open-Sequenced :
      (records : Dict Text (NodeRecord N)) (done : List Text) (edges : List (Edge N))
      → ((v : Text) → attempted v records ≡ true → open_into done v edges ≡ 0)
      → ((u : Text) → contains u done ≡ true → succeeded u records ≡ true)
      → Sequenced edges records
  unfolding open_into
  open-Sequenced records done [] o p = tt
  open-Sequenced records done (e ∷ edges) o p = (
    ground (arith, o e.to.node, p e.from.node, beq_refl e.to.node),
    open-Sequenced records done edges (λ v a. omega (arith, o v a)) p,
  )

  module _ (nodes : List (Node N)) (edges : List (Edge N)) (done : List Text) (bound : ℕ)
      (c : Core N) (h : Order nodes edges done [] bound c) where
    -- no edge into a node of the list, or into a queued one, is open
    no_open : (v : Text) → (contains v done || contains v c.1) ≡ true → open_into done v edges ≡ 0
    unfolding into
    no_open v i = ground (arith, h.closed v, h.waiting v, h.counters v)

    pub Order-Sequenced : Sequenced edges c.2
    Order-Sequenced =
        open-Sequenced c.2 done edges (λ v a. ground (arith, no_open v, h.idle v))
          (λ u i. (h.closed u i).2)

  module _ (nodes : List (Node N)) (edges : List (Edge N)) (done : List Text) (bound : ℕ) (u : Text)
      (remaining : Dict Text ℕ) (queue : List Text) (records : Dict Text (NodeRecord N))
      (h : Order nodes edges done [] (suc bound) (remaining, u ∷ queue, records))
      (after : NodeRecord N) where
    head : (contains u (ids nodes) ≡ true) × (contains u done ≡ false) × (total_of remaining u ≡ 0)
    unfolding contains
    head = h.waiting u (ground (arith, beq_refl u))

    abbrev pub records' : Dict Text (NodeRecord N)
    records' = insert u after records

    pub recorded' : (v : Text) → contains_key v records' ≡ contains v (ids nodes)
    recorded' v = elim (Bool-cases (u == v)) [
      | inl e ↦
          let known = ap_beq (λ z. contains z (ids nodes)) u v e in
          ground (arith, contains_key-insert u v after records, head)
      | inr e ↦ ground (arith, contains_key-insert u v after records, h.recorded v)
    ]

    still_succeeded : (v : Text) → contains v done ≡ true → succeeded v records' ≡ true
    still_succeeded v i = elim (Bool-cases (u == v)) [
      | inl e ↦ let outside = ap_beq (λ z. contains z done) u v e in absurd (ground (arith, head))
      | inr e ↦ ground (arith, h.closed v i, insert-status u v after records)
    ]

    -- after a failure
    pub failed-Sequenced : Sequenced edges records'
    unfolding contains
    failed-Sequenced =
        open-Sequenced records' done edges
          (λ v a. elim (Bool-cases (u == v)) [
            | inl e ↦
                no_open nodes edges done (suc bound) (remaining, u ∷ queue, records) h v
                  (ground arith)
            | inr e ↦
                no_open nodes edges done (suc bound) (remaining, u ∷ queue, records) h v
                  (ground (arith, h.idle v, insert-status u v after records))
          ])
          still_succeeded

    later :
        (v : Text)
        → contains v queue ≡ true
        → (contains v (ids nodes) ≡ true)
          × (contains v (u ∷ done) ≡ false)
          × (total_of remaining v ≡ 0)
    unfolding contains
    later v i = elim (Bool-cases (u == v)) [
      | inl e ↦
          let twice = ap_beq (λ z. contains z queue) u v e in absurd (ground (arith, h.queued.0))
      | inr e ↦ ground (arith, h.waiting v)
    ]

    finished :
        after.state ≡ NodeState.succeeded
        → (v : Text) → contains v (u ∷ done) ≡ true
        → (contains v (ids nodes) ≡ true)
          × (total_of remaining v ≡ 0)
          × (succeeded v records' ≡ true)
    unfolding contains
    finished s v i = elim (Bool-cases (u == v)) [
      | inl e ↦
          let known = ap_beq (λ z. contains z (ids nodes)) u v e in
          let total = ap_beq (total_of remaining) u v e in
          ground (arith, head, insert-status u v after records)
      | inr e ↦ ground (arith, h.closed v, still_succeeded v)
    ]

    -- after a success
    pub success-Order :
        after.state ≡ NodeState.succeeded
        → Order nodes edges (u ∷ done) (outgoing u edges) bound (remaining, queue, records')
    unfolding contains into
    success-Order s = record {
      counted = h.counted;
      recorded = recorded';
      counters = λ v i. omega (arith, h.counters v i, open_into-cons u v done edges head.1);
      queued = h.queued.1;
      waiting = later;
      closed = finished s;
      idle = λ v i. ground (arith, h.idle v, insert-status u v after records);
      unfailed = λ v. ground (arith, h.unfailed v, insert-status u v after records);
      measure = omega (arith, h.measure);
    }
