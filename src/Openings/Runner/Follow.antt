-- ===== src/Openings/Runner/Follow.antt =====
-- What following the edges of a node does to the counters, the queue and the records, in
-- crates/openings/src/runner.rs.
use runloop.Prelude.{
  ℕ, ◌+◌, ◌-◌, ◌≤◌, ◌<◌, ◌≡◌, sym, ◌⊎◌, inl, inr, true, false, some, List, [], ◌∷◌, ◌++◌, arith,
  if◌then◌else◌, Bool-cases, Option-cases, ◌==◌, beq_refl, ap_beq, length, length-append, All,
  nat_eq, list_eq,
}
use mathlib.Core.Path.{subst}
use runloop.Prelude.Dict.{Dict, lookup, insert, modify, contains_key, contains_key-insert}
use runloop.Runtime.Text.{Text}
use runloop.Runtime.Set.{contains, NoDup, NoDup-snoc, contains-append}
use runloop.Openings.Json.{Numbers}
use runloop.Openings.Predicates.{Ports}
use runloop.Openings.Types.{Node, Edge}
use runloop.Openings.Graph.Ends.{ids}
use runloop.Openings.Runner.Report.{NodeRecord}
use runloop.Openings.Runner.Schedule.{
  Run, total_of, skip, transfer, complete_inputs, count_down, follow_edges,
}
use runloop.Openings.Runner.Counters.{positives, positives-insert, total_of-insert, into, open_into}
use runloop.Openings.Runner.Status.{succeeded, attempted, failed, skip-status}

-- the parts of the state that the order of the nodes is told by
abbrev pub Core : Numbers → Type 0
Core N = Dict Text ℕ × List Text × Dict Text (NodeRecord N)

module _ {N : Numbers} {W : Type 0} where
  abbrev pub core : Run N W → Core N
  core s = (s.remaining, s.queue, s.records)

  core-transfer :
      (edge : Edge N) (outputs : Ports N) (s : Run N W) → core (transfer edge outputs s) ≡ core s
  unfolding transfer
  core-transfer edge outputs s = ground arith

  -- the node is queued, or skipped, or has no record
  complete_inputs-cases :
      (totals : Dict Text ℕ) (id : Text) (s : Run N W)
      → (core (complete_inputs totals id s) ≡ (s.remaining, s.queue ++ id ∷ [], s.records))
        ⊎ ((core (complete_inputs totals id s) ≡ (s.remaining, s.queue, modify id skip s.records))
            ⊎ (core (complete_inputs totals id s) ≡ core s))
  unfolding complete_inputs
  complete_inputs-cases totals id s = ground arith

module _ {N : Numbers} {W : Type 0} (totals : Dict Text ℕ) (id : Text) (s : Run N W) (k : ℕ)
    (l : lookup id s.remaining ≡ some k) where
  abbrev lower : Run N W
  lower = record s { remaining = insert id (k - 1) s.remaining }

  count_down-last : (k == 1) ≡ true → count_down totals id s ≡ complete_inputs totals id lower
  unfolding count_down
  count_down-last h = ground arith

  count_down-more : 0 < k → (k == 1) ≡ false → count_down totals id s ≡ lower
  unfolding count_down
  count_down-more p h = ground arith

module _ {N : Numbers} (nodes : List (Node N)) (edges : List (Edge N)) where
  -- what holds when the nodes of `done` have succeeded, but for the edges `left`, which their last
  -- one still has to follow
  pub record Order (done : List Text) (left : List (Edge N)) (bound : ℕ) (c : Core N) : Type 0 where
    pub counted : (v : Text) → contains_key v c.0 ≡ contains v (ids nodes)
    pub recorded : (v : Text) → contains_key v c.2 ≡ contains v (ids nodes)
    pub counters :
        (v : Text)
        → contains v (ids nodes) ≡ true
        → total_of c.0 v ≡ open_into done v edges + into v left
    pub queued : NoDup c.1
    pub waiting :
        (v : Text)
        → contains v c.1 ≡ true
        → (contains v (ids nodes) ≡ true) × (contains v done ≡ false) × (total_of c.0 v ≡ 0)
    pub closed :
        (v : Text)
        → contains v done ≡ true
        → (contains v (ids nodes) ≡ true) × (total_of c.0 v ≡ 0) × (succeeded v c.2 ≡ true)
    pub idle : (v : Text) → contains v done ≡ false → attempted v c.2 ≡ false
    pub unfailed : (v : Text) → failed v c.2 ≡ false
    pub measure : length c.1 + positives c.0 ≤ bound

  module _ (done : List Text) (e : Edge N) (left : List (Edge N)) (bound : ℕ) (c : Core N)
      (h : Order done (e ∷ left) bound c) (k : ℕ) (l : lookup e.to.node c.0 ≡ some k) where
    abbrev to : Text
    to = e.to.node

    abbrev lowered : Dict Text ℕ
    lowered = insert to (k - 1) c.0

    to-known : contains to (ids nodes) ≡ true
    to-known = ground (arith, h.counted to)

    k-pos : (total_of c.0 to ≡ k) × (0 < k)
    unfolding total_of into
    k-pos = ground (arith, h.counters to to-known, beq_refl to)

    total-lowered : (v : Text) → total_of c.0 v ≡ total_of lowered v + (if to == v then 1 else 0)
    total-lowered v = elim (Bool-cases (to == v)) [
      | inl same ↦
          let at = ap_beq (total_of c.0) to v same in
          ground (arith, total_of-insert to v (k - 1) c.0, k-pos)
      | inr other ↦ ground (arith, total_of-insert to v (k - 1) c.0)
    ]

    counted' : (v : Text) → contains_key v lowered ≡ contains v (ids nodes)
    counted' v = elim (Bool-cases (to == v)) [
      | inl same ↦
          let at = ap_beq (λ z. contains z (ids nodes)) to v same in
          ground (arith, contains_key-insert to v (k - 1) c.0, to-known)
      | inr other ↦ ground (arith, contains_key-insert to v (k - 1) c.0, h.counted v)
    ]

    counters' :
        (v : Text)
        → contains v (ids nodes) ≡ true
        → total_of lowered v ≡ open_into done v edges + into v left
    unfolding into
    counters' v i = ground (arith, h.counters v i, total-lowered v)

    measure' : positives lowered + (if k == 1 then 1 else 0) ≤ positives c.0
    measure' = ground (arith, positives-insert to k (k - 1) c.0 l, k-pos)

    -- the counter went down, and the node waits on
    keep-Order : Order done left bound (lowered, c.1, c.2)
    keep-Order = record {
      counted = counted';
      recorded = h.recorded;
      counters = counters';
      queued = h.queued;
      waiting = λ v i. ground (arith, h.waiting v i, total-lowered v);
      closed = λ v i. ground (arith, h.closed v i, total-lowered v);
      idle = h.idle;
      unfailed = h.unfailed;
      measure = omega (arith, measure', h.measure);
    }

    not_done : contains to done ≡ false
    not_done = ground (arith, h.closed to, k-pos)

    not_queued : contains to c.1 ≡ false
    not_queued = ground (arith, h.waiting to, k-pos)

    push-waiting :
        k ≡ 1
        → (v : Text) → contains v (c.1 ++ to ∷ []) ≡ true
        → (contains v (ids nodes) ≡ true) × (contains v done ≡ false) × (total_of lowered v ≡ 0)
    unfolding contains
    push-waiting one v i = elim (Bool-cases (to == v)) [
      | inl same ↦
          let known = ap_beq (λ z. contains z (ids nodes)) to v same in
          let outside = ap_beq (λ z. contains z done) to v same in
          ground (arith, to-known, not_done, total_of-insert to v (k - 1) c.0)
      | inr other ↦ ground (arith, contains-append v c.1 (to ∷ []), h.waiting v, total-lowered v)
    ]

    push-Order : k ≡ 1 → Order done left bound (lowered, c.1 ++ to ∷ [], c.2)
    push-Order one = record {
      counted = counted';
      recorded = h.recorded;
      counters = counters';
      queued = NoDup-snoc to c.1 not_queued h.queued;
      waiting = push-waiting one;
      closed = λ v i. ground (arith, h.closed v i, total-lowered v);
      idle = h.idle;
      unfailed = h.unfailed;
      measure = ground (arith, measure', h.measure, length-append c.1 (to ∷ []));
    }

    skip-closed :
        (v : Text)
        → contains v done ≡ true
        → (contains v (ids nodes) ≡ true)
          × (total_of lowered v ≡ 0)
          × (succeeded v (modify to skip c.2) ≡ true)
    skip-closed v i = elim (Bool-cases (to == v)) [
      | inl same ↦
          let outside = ap_beq (λ z. contains z done) to v same in absurd (ground (arith, not_done))
      | inr other ↦ ground (arith, h.closed v i, total-lowered v, skip-status to v c.2)
    ]

    skip-Order : Order done left bound (lowered, c.1, modify to skip c.2)
    skip-Order = record {
      counted = counted';
      recorded = λ v. ground (arith, h.recorded v, skip-status to v c.2);
      counters = counters';
      queued = h.queued;
      waiting = λ v i. ground (arith, h.waiting v i, total-lowered v);
      closed = skip-closed;
      idle = λ v i. ground (arith, h.idle v i, skip-status to v c.2);
      unfailed = λ v. ground (arith, h.unfailed v, skip-status to v c.2);
      measure = omega (arith, measure', h.measure);
    }

  -- following one edge, whose target is a node
  module _ {W : Type 0} (totals : Dict Text ℕ) where
    complete_inputs-Order :
        (done : List Text) (left : List (Edge N)) (bound : ℕ) (id : Text) (s : Run N W)
        → Order done left bound (core s)
        → Order done left bound (s.remaining, s.queue ++ id ∷ [], s.records)
        → Order done left bound (s.remaining, s.queue, modify id skip s.records)
        → Order done left bound (core (complete_inputs totals id s))
    complete_inputs-Order done left bound id s keep push skipped =
        elim (complete_inputs-cases totals id s) [
          | inl e ↦ subst (Order done left bound) (sym e) push
          | inr (inl e) ↦ subst (Order done left bound) (sym e) skipped
          | inr (inr e) ↦ subst (Order done left bound) (sym e) keep
        ]

    count_down-Order :
        (done : List Text) (e : Edge N) (left : List (Edge N)) (bound : ℕ) (s : Run N W)
        → contains e.to.node (ids nodes) ≡ true
        → Order done (e ∷ left) bound (core s)
        → Order done left bound (core (count_down totals e.to.node s))
    count_down-Order done e left bound s i h = elim (Option-cases (lookup e.to.node s.remaining)) [
      | inl l ↦ absurd (ground (arith, h.counted e.to.node))
      | inr (k, l) ↦
          let pos = (k-pos done e left bound (core s) h k l).1 in
          let keep = keep-Order done e left bound (core s) h k l in
          elim (Bool-cases (k == 1)) [
            | inl one ↦
                subst (λ t. Order done left bound (core t))
                  (sym (count_down-last totals e.to.node s k l one))
                  (complete_inputs-Order done left bound e.to.node _ keep
                    (push-Order done e left bound (core s) h k l (ground arith))
                    (skip-Order done e left bound (core s) h k l))
            | inr more ↦
                subst (λ t. Order done left bound (core t))
                  (sym (count_down-more totals e.to.node s k l pos more)) keep
          ]
    ]

    pub follow_edges-Order :
        (done : List Text) (left : List (Edge N)) (bound : ℕ) (outputs : Ports N) (s : Run N W)
        → All (λ e. contains e.to.node (ids nodes) ≡ true) left
        → Order done left bound (core s)
        → Order done [] bound (core (follow_edges totals left outputs s))
    unfolding follow_edges
    follow_edges-Order done [] bound outputs s i h = h
    follow_edges-Order done (e ∷ left) bound outputs s i h =
        let s' = transfer e outputs s in
        let h' = subst (Order done (e ∷ left) bound) (sym (core-transfer e outputs s)) h in
        follow_edges-Order done left bound outputs (count_down totals e.to.node s') i.1
          (count_down-Order done e left bound s' i.0 h')
