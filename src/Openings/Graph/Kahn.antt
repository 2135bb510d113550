-- ===== src/Openings/Graph/Kahn.antt =====
-- The loop over the queue in `validate_graph` of crates/openings/src/parser.rs: its invariant, and how
-- it ends.
use runloop.Prelude.{
  ℕ, zero, suc, ◌+◌, ◌-◌, ◌≤◌, ◌<◌, ◌≡◌, refl, sym, ◌∙◌, inl, inr, true, false, ◌&&◌, ◌||◌, some,
  List, [], ◌∷◌, arith, ltb, Bool-cases, ◌==◌, beq_refl, length, All, nat_eq, nat_beq_iff,
}
use runloop.Runtime.Set.{contains, NoDup}
use runloop.Openings.Graph.{Indegree, indegree, adjacency, sources, release, drain, visit}
use runloop.Openings.Graph.Count.{Below, count-contains, count-le}
use runloop.Openings.Graph.Degrees.{
  Ends, open_into, between, times, indegree-open, adjacency-times, open_into-cons, contains-sources,
  NoDup-sources, release-degrees, contains-release, NoDup-release, Settles,
}

-- every edge into an index of the list comes from an index behind it
abbrev pub Topo : Ends → List ℕ → Type 0
Topo edges [] = Unit
Topo edges (x ∷ done) = (open_into done x edges ≡ 0) × Topo edges done

module _ (n : ℕ) (edges : Ends) where
  abbrev pub InRange : Type 0
  InRange = All (λ (e : ℕ × ℕ). (e.0 < n) × (e.1 < n)) edges

  -- what holds between two rounds, when the indices of `done` have been taken from the queue
  pub record Kahn (done : List ℕ) (degrees : Indegree) (queue : List ℕ) : Type 0 where
    pub fresh : NoDup done
    pub below : Below n done
    pub topo : Topo edges done
    pub queued : NoDup queue
    pub waiting : (v : ℕ) → contains v queue ≡ true → (v < n) × (contains v done ≡ false)
    pub degree : (v : ℕ) → degrees v ≡ open_into done v edges
    pub zero_degree : (v : ℕ) → v < n → (contains v done || contains v queue) ≡ (degrees v == 0)

-- an index that an edge leads to is in range
between-in_range : (n u v : ℕ) (edges : Ends) → InRange n edges → 0 < between u v edges → v < n
unfolding between
between-in_range n u v [] r h = absurd (omega arith)
between-in_range n u v ((a, b) ∷ edges) r h =
    ground (arith, r.0, between-in_range n u v edges r.1, nat_beq_iff b v)

module _ (n : ℕ) (edges : Ends) (r : InRange n edges) where
  abbrev lists : ℕ → List ℕ
  lists = adjacency edges (λ _. [])

  lists-times : (u v : ℕ) → times v (lists u) ≡ between u v edges
  unfolding times
  lists-times u v = omega (arith, adjacency-times edges (λ _. []) u v)

  module _ (u : ℕ) (done : List ℕ) (degrees : Indegree) (queue : List ℕ)
      (k : Kahn n edges done degrees (u ∷ queue)) where
    head_waits : (u < n) × (contains u done ≡ false)
    unfolding contains
    head_waits = k.waiting u (ground (arith, beq_refl u))

    abbrev next : Indegree × List ℕ
    next = release (lists u) degrees queue

    settles : Settles (lists u) degrees queue
    unfolding contains
    settles = (
      λ v. omega (arith, lists-times u v, k.degree v, open_into-cons u v done edges head_waits.1),
      λ v c. ground (arith, k.zero_degree v, k.waiting v),
    )

    next-degree : (v : ℕ) → next.0 v ≡ open_into (u ∷ done) v edges
    next-degree v = omega (
      arith,
      release-degrees (lists u) degrees queue v,
      lists-times u v,
      k.degree v,
      open_into-cons u v done edges head_waits.1,
    )

    next-contains :
        (v : ℕ)
        → contains v next.1
          ≡ (contains v queue || (ltb 0 (between u v edges) && degrees v == between u v edges))
    next-contains v =
        ground (arith, contains-release (lists u) degrees queue v settles, lists-times u v)

    head_degree : degrees u ≡ 0
    unfolding contains
    head_degree = ground (arith, k.zero_degree u head_waits.0, beq_refl u)

    subtracts : (v : ℕ) → next.0 v ≡ degrees v - between u v edges
    subtracts v = omega (arith, release-degrees (lists u) degrees queue v, lists-times u v)

    fits : (v : ℕ) → between u v edges ≤ degrees v
    fits v = omega (arith, settles.0 v, lists-times u v)

    next-waiting : (v : ℕ) → contains v next.1 ≡ true → (v < n) × (contains v (u ∷ done) ≡ false)
    unfolding contains
    next-waiting v c = elim (Bool-cases (u == v)) [
      | inl e ↦
          let same : u ≡ v = (nat_beq_iff u v).0 e in
          let absent : contains v queue ≡ false = rw (← same) k.queued.0 in
          let closed : degrees v ≡ 0 = rw (← same) head_degree in
          absurd (ground (arith, next-contains v))
      | inr e ↦
          ground
            (arith, next-contains v, k.waiting v, k.zero_degree v, between-in_range n u v edges r)
    ]

    next-zero_degree :
        (v : ℕ) → v < n → (contains v (u ∷ done) || contains v next.1) ≡ (next.0 v == 0)
    unfolding contains
    next-zero_degree v l = elim (Bool-cases (u == v)) [
      | inl e ↦
          let same : u ≡ v = (nat_beq_iff u v).0 e in
          let closed : degrees v ≡ 0 = rw (← same) head_degree in ground (arith, subtracts v)
      | inr e ↦ ground (arith, subtracts v, fits v, next-contains v, k.zero_degree v l)
    ]

    next-Kahn : Kahn n edges (u ∷ done) next.0 next.1
    next-Kahn = record {
      fresh = (head_waits.1, k.fresh);
      below = (head_waits.0, k.below);
      topo = (sym (k.degree u) ∙ head_degree, k.topo);
      queued = NoDup-release (lists u) degrees queue settles k.queued.1;
      waiting = next-waiting;
      degree = next-degree;
      zero_degree = next-zero_degree;
    }

  -- the queue is empty
  pub record Ended (visited : ℕ) : Type 0 where
    pub done : List ℕ
    pub degrees : Indegree
    pub kahn : Kahn n edges done degrees []
    pub visited_all : length done ≡ visited

  Kahn-length : (done : List ℕ) → NoDup done → Below n done → length done ≤ n
  Kahn-length done d b = omega (arith, count-contains n done d b, count-le n (λ v. contains v done))

  drain-Ended :
      (fuel : ℕ) (done : List ℕ) (degrees : Indegree) (queue : List ℕ) (visited : ℕ)
      → Kahn n edges done degrees queue
      → length done ≡ visited
      → n ≤ fuel + visited
      → (m : ℕ) × (drain fuel lists degrees queue visited ≡ some m) × Ended m
  unfolding drain
  drain-Ended fuel done degrees [] visited k l f =
      (visited, refl, record { done = done; degrees = degrees; kahn = k; visited_all = l })
  drain-Ended zero done degrees (u ∷ queue) visited k l f = absurd (
      omega (
        arith,
        Kahn-length (u ∷ done) ((head_waits u done degrees queue k).1, k.fresh)
            ((head_waits u done degrees queue k).0, k.below),
      ))
  drain-Ended (suc fuel) done degrees (u ∷ queue) visited k l f =
      drain-Ended fuel (u ∷ done) _ _ (visited + 1) (next-Kahn u done degrees queue k) (omega arith)
        (omega arith)

  initial-Kahn : Kahn n edges [] (indegree edges (λ _. 0)) (sources (indegree edges (λ _. 0)) n 0)
  unfolding contains
  initial-Kahn =
      let degrees = indegree edges (λ _. 0) in
      record {
        fresh = tt;
        below = tt;
        topo = tt;
        queued = NoDup-sources degrees n 0;
        waiting = λ v c. ground (arith, contains-sources v degrees n 0);
        degree = λ v. omega (arith, indegree-open edges (λ _. 0) v);
        zero_degree = λ v l. ground (arith, contains-sources v degrees n 0);
      }

  pub visit-Ended : (m : ℕ) × (visit n edges ≡ some m) × Ended m
  unfolding visit
  visit-Ended = drain-Ended n [] _ _ 0 initial-Kahn refl (omega arith)
