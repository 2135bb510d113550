-- ===== src/Openings/Runner/Start.antt =====
-- The variables of a run before its first round, in crates/openings/src/runner.rs.
use runloop.Prelude.{
  ℕ, ◌+◌, ◌≡◌, refl, sym, ap, ◌∙◌, inl, inr, true, false, ◌&&◌, ◌||◌, List, [], ◌∷◌, ◌++◌, arith,
  if◌then◌else◌, Bool-cases, ◌==◌, beq_refl, length, nat_eq, list_eq, list_beq_iff,
}
use mathlib.Core.List.{append-nil, append_assoc}
use runloop.Prelude.Dict.{
  Dict, lookup, insert, modify, contains_key, contains_key-insert, lookup-insert, lookup-modify,
}
use runloop.Runtime.Text.{Text}
use runloop.Runtime.Set.{contains, NoDup}
use runloop.Openings.Json.{Numbers}
use runloop.Openings.Types.{Node, Edge, Opening}
use runloop.Openings.Graph.Ends.{ids}
use runloop.Openings.Runner.Schedule.{
  total_of, zero_counters, count_inbound, inbound_total, start_nodes,
}
use runloop.Openings.Runner.Counters.{positives, into, count_inbound-into}
use runloop.Openings.Runner.Keyed.{
  Aligned-measure, Keyed-Aligned, Keyed-count_inbound, Keyed-zeros, absent, insert-new, zeros,
}

module _ {N : Numbers} where
  zero_counters-append :
      (nodes : List (Node N)) (dict : Dict Text ℕ)
      → NoDup (ids nodes)
      → ((v : Text) → contains v (ids nodes) ≡ true → contains_key v dict ≡ false)
      → zero_counters nodes dict ≡ dict ++ zeros nodes
  unfolding zero_counters contains
  zero_counters-append [] dict d h = sym (append-nil dict)
  zero_counters-append (node ∷ nodes) dict d h =
      zero_counters-append nodes (insert node.id 0 dict) d.1
        (λ v c. ground (arith, h v, absent v node nodes d c, contains_key-insert node.id v 0 dict))
      ∙ (ap (λ z. z ++ zeros nodes)
            (insert-new node.id 0 dict (h node.id (ground (arith, beq_refl node.id))))
          ∙ append_assoc dict ((node.id, 0) ∷ []) (zeros nodes))

  contains_key-zero_counters :
      (v : Text) (nodes : List (Node N)) (dict : Dict Text ℕ)
      → contains_key v (zero_counters nodes dict) ≡ (contains v (ids nodes) || contains_key v dict)
  unfolding zero_counters contains
  contains_key-zero_counters v [] dict = refl
  contains_key-zero_counters v (node ∷ nodes) dict = ground (
    arith,
    contains_key-zero_counters v nodes (insert node.id 0 dict),
    contains_key-insert node.id v 0 dict,
  )

  contains_key-count_inbound :
      (v : Text) (edges : List (Edge N)) (dict : Dict Text ℕ)
      → contains_key v (count_inbound edges dict) ≡ contains_key v dict
  unfolding count_inbound
  contains_key-count_inbound v [] dict = refl
  contains_key-count_inbound v (e ∷ edges) dict = ground (
    arith,
    contains_key-count_inbound v edges (modify e.to.node (λ c. c + 1) dict),
    lookup-modify e.to.node v (λ c. c + 1) dict,
  )

  total-zero_counters :
      (v : Text) (nodes : List (Node N)) (dict : Dict Text ℕ)
      → total_of dict v ≡ 0
      → total_of (zero_counters nodes dict) v ≡ 0
  unfolding zero_counters total_of
  total-zero_counters v [] dict h = h
  total-zero_counters v (node ∷ nodes) dict h =
      total-zero_counters v nodes (insert node.id 0 dict)
        (ground (arith, lookup-insert node.id v 0 dict))

  pub contains-start_nodes :
      (v : Text) (totals : Dict Text ℕ) (nodes : List (Node N))
      → contains v (start_nodes totals nodes) ≡ (contains v (ids nodes) && total_of totals v == 0)
  unfolding start_nodes contains
  contains-start_nodes v totals [] = refl
  contains-start_nodes v totals (node ∷ nodes) = elim (Bool-cases (node.id == v)) [
    | inl e ↦
        let same : total_of totals node.id ≡ total_of totals v =
          ap (total_of totals) ((list_beq_iff node.id v).0 e) in
        ground (arith, contains-start_nodes v totals nodes)
    | inr e ↦ ground (arith, contains-start_nodes v totals nodes)
  ]

  pub NoDup-start_nodes :
      (totals : Dict Text ℕ) (nodes : List (Node N))
      → NoDup (ids nodes)
      → NoDup (start_nodes totals nodes)
  unfolding start_nodes
  NoDup-start_nodes totals [] d = tt
  NoDup-start_nodes totals (node ∷ nodes) d =
      elim (total_of totals node.id == 0)
        as (λ t.
          NoDup (if t then node.id ∷ start_nodes totals nodes else start_nodes totals nodes)) [
            | true ↦ (
              ground (arith, contains-start_nodes node.id totals nodes, d.0),
              NoDup-start_nodes totals nodes d.1,
            )
            | false ↦ NoDup-start_nodes totals nodes d.1
          ]

module _ {N : Numbers} (o : Opening N) where
  pub contains_key-inbound_total :
      (v : Text) → contains_key v (inbound_total o) ≡ contains v (ids o.nodes)
  unfolding inbound_total lookup
  contains_key-inbound_total v = ground (
    arith,
    contains_key-count_inbound v o.edges (zero_counters o.nodes []),
    contains_key-zero_counters v o.nodes [],
  )

  pub total-inbound :
      (v : Text) → contains v (ids o.nodes) ≡ true → total_of (inbound_total o) v ≡ into v o.edges
  unfolding inbound_total lookup total_of
  total-inbound v h = omega (
    arith,
    count_inbound-into o.edges v (zero_counters o.nodes [])
        (ground (arith, contains_key-zero_counters v o.nodes [])),
    total-zero_counters v o.nodes [] refl,
  )

  pub start-measure :
      NoDup (ids o.nodes)
      → length (start_nodes (inbound_total o) o.nodes) + positives (inbound_total o)
        ≡ length o.nodes
  unfolding inbound_total lookup
  start-measure d = Aligned-measure (inbound_total o) (inbound_total o) o.nodes (
      Keyed-Aligned (inbound_total o) o.nodes d (
        Keyed-count_inbound o.edges _ o.nodes
          (rw (zero_counters-append o.nodes [] d (λ v c. refl)) (Keyed-zeros o.nodes))))
