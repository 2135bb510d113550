-- ===== src/Openings/Graph/Degrees.antt =====
-- The vectors of `validate_graph` in crates/openings/src/parser.rs, told by counting edges.
use runloop.Prelude.{
  ℕ, zero, suc, ◌+◌, ◌-◌, ◌≤◌, ◌≡◌, refl, ap, ◌∙◌, inl, inr, true, false, not, ◌&&◌, ◌||◌, List, [],
  ◌∷◌, ◌++◌, arith, ltb, leb, if◌then◌else◌, Bool-cases, ◌==◌, beq_refl, nat_eq, nat_beq_iff,
}
use mathlib.Core.Path.{subst}
use runloop.Runtime.Set.{contains, NoDup, NoDup-snoc, contains-append}
use runloop.Openings.Graph.{Indegree, update, indegree, adjacency, sources, release}

abbrev pub Ends : Type 0
Ends = List (ℕ × ℕ)

-- the edges into `v` from outside the list
unfoldable pub open_into : List ℕ → ℕ → Ends → ℕ
open_into done v [] = 0
open_into done v ((a, b) ∷ edges) =
    (if b == v && not (contains a done) then 1 else 0) + open_into done v edges

-- the edges from `u` to `v`
unfoldable pub between : ℕ → ℕ → Ends → ℕ
between u v [] = 0
between u v ((a, b) ∷ edges) = (if a == u && b == v then 1 else 0) + between u v edges

unfoldable pub times : ℕ → List ℕ → ℕ
times v [] = 0
times v (x ∷ xs) = (if x == v then 1 else 0) + times v xs

times-append : (v : ℕ) (xs ys : List ℕ) → times v (xs ++ ys) ≡ times v xs + times v ys
unfolding times
times-append v [] ys = omega arith
times-append v (x ∷ xs) ys = omega (arith, times-append v xs ys)

pub indegree-open :
    (edges : Ends) (degrees : Indegree) (v : ℕ)
    → indegree edges degrees v ≡ degrees v + open_into [] v edges
unfolding indegree open_into contains
indegree-open [] degrees v = omega arith
indegree-open ((a, b) ∷ edges) degrees v =
    ground (arith, indegree-open edges (update b (λ d. d + 1) degrees) v, nat_beq_iff b v)

pub adjacency-times :
    (edges : Ends) (lists : ℕ → List ℕ) (u v : ℕ)
    → times v (adjacency edges lists u) ≡ times v (lists u) + between u v edges
unfolding adjacency between times
adjacency-times [] lists u v = omega arith
adjacency-times ((a, b) ∷ edges) lists u v = ground (
  arith,
  adjacency-times edges (update a (λ l. l ++ b ∷ []) lists) u v,
  times-append v (lists u) (b ∷ []),
  nat_beq_iff a u,
)

-- taking `u` from outside to inside the list closes the edges from it
pub open_into-cons :
    (u v : ℕ) (done : List ℕ) (edges : Ends)
    → contains u done ≡ false
    → open_into done v edges ≡ open_into (u ∷ done) v edges + between u v edges
unfolding open_into between contains
open_into-cons u v done [] h = refl
open_into-cons u v done ((a, b) ∷ edges) h = elim (Bool-cases (u == a)) [
  | inl same ↦
      let e : u ≡ a = (nat_beq_iff u a).0 same in
      let absent : contains a done ≡ false = rw (← e) h in
      ground (arith, open_into-cons u v done edges h, nat_beq_iff u a, nat_beq_iff a u)
  | inr other ↦ ground (arith, open_into-cons u v done edges h, nat_beq_iff u a, nat_beq_iff a u)
]

pub contains-sources :
    (v : ℕ) (degrees : Indegree) (left idx : ℕ)
    → contains v (sources degrees left idx) ≡ (leb idx v && ltb v (idx + left) && degrees v == 0)
unfolding contains sources
contains-sources v degrees zero idx = ground arith
contains-sources v degrees (suc left) idx = elim (Bool-cases (idx == v)) [
  | inl same ↦
      subst
        (λ w.
          contains w (sources degrees (suc left) idx)
          ≡ (leb idx w && ltb w (idx + suc left) && degrees w == 0))
        ((nat_beq_iff idx v).0 same)
        (ground (arith, beq_refl idx, contains-sources idx degrees left (idx + 1)))
  | inr other ↦ ground (arith, contains-sources v degrees left (idx + 1), nat_beq_iff idx v)
]

pub NoDup-sources : (degrees : Indegree) (left idx : ℕ) → NoDup (sources degrees left idx)
unfolding sources
NoDup-sources degrees zero idx = tt
NoDup-sources degrees (suc left) idx =
    elim (degrees idx == 0)
      as (λ t.
        NoDup
          (if t then idx ∷ sources degrees left (idx + 1) else sources degrees left (idx + 1))) [
            | true ↦ (
              ground (arith, contains-sources idx degrees left (idx + 1)),
              NoDup-sources degrees left (idx + 1),
            )
            | false ↦ NoDup-sources degrees left (idx + 1)
          ]

pub release-degrees :
    (successors : List ℕ) (degrees : Indegree) (queue : List ℕ) (v : ℕ)
    → (release successors degrees queue).0 v ≡ degrees v - times v successors
unfolding release times
release-degrees [] degrees queue v = omega arith
release-degrees (s ∷ successors) degrees queue v =
    let degrees' = update s (λ d. d - 1) degrees in
    ground (
      arith,
      release-degrees successors degrees' (if degrees' s == 0 then queue ++ s ∷ [] else queue) v,
      nat_beq_iff s v,
    )

-- the state in which no successor has more edges than its degree, and queued indices have none
abbrev pub Settles : List ℕ → Indegree → List ℕ → Type 0
Settles successors degrees queue =
    ((v : ℕ) → times v successors ≤ degrees v) × ((v : ℕ) → contains v queue ≡ true → degrees v ≡ 0)

abbrev queue' : ℕ → Indegree → List ℕ → List ℕ
queue' s degrees queue = if degrees s == 1 then queue ++ s ∷ [] else queue

abbrev degrees' : ℕ → Indegree → Indegree
degrees' s degrees = update s (λ d. d - 1) degrees

module _ (s : ℕ) (successors : List ℕ) (degrees : Indegree) (queue : List ℕ)
    (h : Settles (s ∷ successors) degrees queue) where
  contains-queue' :
      (v : ℕ)
      → contains v (queue' s degrees queue) ≡ (contains v queue || (degrees s == 1 && s == v))
  unfolding contains
  contains-queue' v = ground (arith, contains-append v queue (s ∷ []))

  step-Settles : Settles successors (degrees' s degrees) (queue' s degrees queue)
  unfolding times contains
  step-Settles = (
    λ v. ground (arith, h.0 v, nat_beq_iff s v),
    λ v c. ground (arith, h.0 v, h.1 v, nat_beq_iff s v, contains-queue' v),
  )

  release-step :
      release (s ∷ successors) degrees queue
      ≡ release successors (degrees' s degrees) (queue' s degrees queue)
  unfolding release times
  release-step = ground (arith, h.0 s, beq_refl s)

pub contains-release :
    (successors : List ℕ) (degrees : Indegree) (queue : List ℕ) (v : ℕ)
    → Settles successors degrees queue
    → contains v (release successors degrees queue).1
      ≡ (contains v queue || (ltb 0 (times v successors) && degrees v == times v successors))
unfolding release times
contains-release [] degrees queue v h = ground arith
contains-release (s ∷ successors) degrees queue v h =
    let ih =
      contains-release successors (degrees' s degrees) (queue' s degrees queue) v
        (step-Settles s successors degrees queue h) in
    ap (λ r. contains v r.1) (release-step s successors degrees queue h)
    ∙ ground
        (arith, ih, contains-queue' s successors degrees queue h v, nat_beq_iff s v, h.0 v, h.1 v)

pub NoDup-release :
    (successors : List ℕ) (degrees : Indegree) (queue : List ℕ)
    → Settles successors degrees queue
    → NoDup queue
    → NoDup (release successors degrees queue).1
unfolding release
NoDup-release [] degrees queue h d = d
NoDup-release (s ∷ successors) degrees queue h d = rw (release-step s successors degrees queue h) (
    NoDup-release successors (degrees' s degrees) (queue' s degrees queue)
      (step-Settles s successors degrees queue h)
      (elim (Bool-cases (degrees s == 1)) [
        | inl one ↦ rw one (NoDup-snoc s queue (ground (arith, h.1 s)) d)
        | inr more ↦ rw more d
      ]))
