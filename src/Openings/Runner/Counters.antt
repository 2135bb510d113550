-- ===== src/Openings/Runner/Counters.antt =====
-- The counters of inbound edges in crates/openings/src/runner.rs, told by counting edges.
use runloop.Prelude.{
  ℕ, ◌+◌, ◌≡◌, refl, sym, ap, inl, inr, true, false, not, ◌&&◌, some, List, [], ◌∷◌, arith, ltb,
  if◌then◌else◌, Bool-cases, ◌==◌, filter, nat_eq, list_eq, list_beq_iff,
}
use runloop.Prelude.Dict.{Dict, lookup, insert, modify, contains_key, lookup-insert, lookup-modify}
use runloop.Runtime.Text.{Text}
use runloop.Runtime.Set.{contains}
use runloop.Openings.Json.{Numbers}
use runloop.Openings.Types.{Edge}
use runloop.Openings.Runner.Schedule.{total_of, count_inbound, outgoing}

-- the counters that are not zero
unfoldable pub positives : Dict Text ℕ → ℕ
positives [] = 0
positives ((k, v) ∷ dict) = (if ltb 0 v then 1 else 0) + positives dict

pub positives-insert :
    (id : Text) (before after : ℕ) (dict : Dict Text ℕ)
    → lookup id dict ≡ some before
    → positives (insert id after dict) + (if ltb 0 before then 1 else 0)
      ≡ positives dict + (if ltb 0 after then 1 else 0)
unfolding positives insert lookup
positives-insert id before after [] h = absurd (ground arith)
positives-insert id before after ((k, v) ∷ dict) h =
    ground (arith, positives-insert id before after dict)

pub total_of-insert :
    (put asked : Text) (c : ℕ) (dict : Dict Text ℕ)
    → total_of (insert put c dict) asked ≡ (if put == asked then c else total_of dict asked)
unfolding total_of
total_of-insert put asked c dict = ground (arith, lookup-insert put asked c dict)

module _ {N : Numbers} where
  -- the edges into `v` from outside the list
  unfoldable pub open_into : List Text → Text → List (Edge N) → ℕ
  open_into done v [] = 0
  open_into done v (e ∷ edges) =
      (if e.to.node == v && not (contains e.from.node done) then 1 else 0) + open_into done v edges

  -- the edges into `v`
  unfoldable pub into : Text → List (Edge N) → ℕ
  into v [] = 0
  into v (e ∷ edges) = (if e.to.node == v then 1 else 0) + into v edges

  pub open_into-nil : (v : Text) (edges : List (Edge N)) → open_into [] v edges ≡ into v edges
  unfolding open_into into contains
  open_into-nil v [] = refl
  open_into-nil v (e ∷ edges) = ground (arith, open_into-nil v edges)

  -- taking `u` from outside to inside the list closes the edges from it
  pub open_into-cons :
      (u v : Text) (done : List Text) (edges : List (Edge N))
      → contains u done ≡ false
      → open_into done v edges ≡ open_into (u ∷ done) v edges + into v (outgoing u edges)
  unfolding open_into into contains outgoing filter
  open_into-cons u v done [] h = refl
  open_into-cons u v done (e ∷ edges) h = elim (Bool-cases (e.from.node == u)) [
    | inl same ↦
        let at : contains u done ≡ contains e.from.node done =
          ap (λ z. contains z done) (sym ((list_beq_iff e.from.node u).0 same)) in
        ground (
          arith,
          open_into-cons u v done edges h,
          list_beq_iff e.from.node u,
          list_beq_iff u e.from.node,
        )
    | inr other ↦ ground (
      arith,
      open_into-cons u v done edges h,
      list_beq_iff e.from.node u,
      list_beq_iff u e.from.node,
    )
  ]

  -- the counters that a run starts with
  pub count_inbound-into :
      (edges : List (Edge N)) (v : Text) (counters : Dict Text ℕ)
      → contains_key v counters ≡ true
      → total_of (count_inbound edges counters) v ≡ total_of counters v + into v edges
  unfolding count_inbound into total_of
  count_inbound-into [] v counters h = omega arith
  count_inbound-into (e ∷ edges) v counters h = ground (
    arith,
    lookup-modify e.to.node v (λ c. c + 1) counters,
    count_inbound-into edges v (modify e.to.node (λ c. c + 1) counters),
  )
