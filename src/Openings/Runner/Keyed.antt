-- ===== src/Openings/Runner/Keyed.antt =====
-- Counters of crates/openings/src/runner.rs in the order of the nodes that they count for.
use runloop.Prelude.{
  ℕ, ◌+◌, ◌≡◌, refl, ap, ◌∙◌, inl, inr, true, false, some, List, [], ◌∷◌, ◌++◌, map, arith,
  if◌then◌else◌, Bool-cases, ◌==◌, length, nat_eq, list_eq, list_beq_iff,
}
use runloop.Prelude.Dict.{Dict, lookup, insert, modify, contains_key}
use runloop.Runtime.Text.{Text}
use runloop.Runtime.Set.{contains, NoDup}
use runloop.Openings.Json.{Numbers}
use runloop.Openings.Types.{Node, Edge}
use runloop.Openings.Graph.Ends.{ids}
use runloop.Openings.Runner.Schedule.{total_of, count_inbound, start_nodes}
use runloop.Openings.Runner.Counters.{positives}

pub insert-new :
    (k : Text) (c : ℕ) (dict : Dict Text ℕ)
    → contains_key k dict ≡ false
    → insert k c dict ≡ dict ++ (k, c) ∷ []
unfolding insert lookup
insert-new k c [] h = refl
insert-new k c ((k', c') ∷ dict) h = ground (arith, insert-new k c dict)

module _ {N : Numbers} where
  -- the entries stand beside the nodes that they count for
  abbrev Aligned : Dict Text ℕ → Dict Text ℕ → List (Node N) → Type 0
  Aligned totals [] [] = Unit
  Aligned totals [] (_ ∷ _) = ⊥
  Aligned totals (_ ∷ _) [] = ⊥
  Aligned totals ((k, c) ∷ dict) (node ∷ nodes) =
      (lookup node.id totals ≡ some c) × Aligned totals dict nodes

  pub Aligned-measure :
      (totals dict : Dict Text ℕ) (nodes : List (Node N))
      → Aligned totals dict nodes
      → length (start_nodes totals nodes) + positives dict ≡ length nodes
  unfolding start_nodes positives total_of
  Aligned-measure totals [] [] a = refl
  Aligned-measure totals [] (_ ∷ _) a = absurd a
  Aligned-measure totals (_ ∷ _) [] a = absurd a
  Aligned-measure totals ((k, c) ∷ dict) (node ∷ nodes) a =
      ground (arith, Aligned-measure totals dict nodes a.1)

  Aligned-skip :
      (k : Text) (c : ℕ) (totals dict : Dict Text ℕ) (nodes : List (Node N))
      → contains k (ids nodes) ≡ false
      → Aligned totals dict nodes
      → Aligned ((k, c) ∷ totals) dict nodes
  unfolding lookup contains
  Aligned-skip k c totals [] [] h a = tt
  Aligned-skip k c totals [] (_ ∷ _) h a = absurd a
  Aligned-skip k c totals (_ ∷ _) [] h a = absurd a
  Aligned-skip k c totals ((k', c') ∷ dict) (node ∷ nodes) h a = (
    ground (arith, a.0, list_beq_iff k node.id, list_beq_iff node.id k),
    Aligned-skip k c totals dict nodes (ground arith) a.1,
  )

  -- the keys of a map are the ids of the nodes, in their order
  abbrev Keyed : Dict Text ℕ → List (Node N) → Type 0
  Keyed [] [] = Unit
  Keyed [] (_ ∷ _) = ⊥
  Keyed (_ ∷ _) [] = ⊥
  Keyed ((k, c) ∷ dict) (node ∷ nodes) = (k ≡ node.id) × Keyed dict nodes

  pub Keyed-Aligned :
      (dict : Dict Text ℕ) (nodes : List (Node N))
      → NoDup (ids nodes)
      → Keyed dict nodes
      → Aligned dict dict nodes
  unfolding lookup
  Keyed-Aligned [] [] d k = tt
  Keyed-Aligned [] (_ ∷ _) d k = absurd k
  Keyed-Aligned (_ ∷ _) [] d k = absurd k
  Keyed-Aligned ((k', c) ∷ dict) (node ∷ nodes) d k = (
    ground (arith, k.0, list_beq_iff k' node.id),
    Aligned-skip k' c dict dict nodes (ap (λ z. contains z (ids nodes)) k.0 ∙ d.0)
        (Keyed-Aligned dict nodes d.1 k.1),
  )

  Keyed-modify :
      (id : Text) (f : ℕ → ℕ) (dict : Dict Text ℕ) (nodes : List (Node N))
      → Keyed dict nodes
      → Keyed (modify id f dict) nodes
  unfolding modify
  Keyed-modify id f [] nodes k = k
  Keyed-modify id f (_ ∷ _) [] k = absurd k
  Keyed-modify id f ((k', c) ∷ dict) (node ∷ nodes) k =
      elim (k' == id)
        as (λ t.
          Keyed (if t then (k', f c) ∷ dict else (k', c) ∷ modify id f dict) (node ∷ nodes)) [
            | true ↦ k
            | false ↦ (k.0, Keyed-modify id f dict nodes k.1)
          ]

  pub Keyed-count_inbound :
      (edges : List (Edge N)) (dict : Dict Text ℕ) (nodes : List (Node N))
      → Keyed dict nodes
      → Keyed (count_inbound edges dict) nodes
  unfolding count_inbound
  Keyed-count_inbound [] dict nodes k = k
  Keyed-count_inbound (e ∷ edges) dict nodes k =
      Keyed-count_inbound edges _ nodes (Keyed-modify e.to.node (λ c. c + 1) dict nodes k)

  abbrev pub zeros : List (Node N) → Dict Text ℕ
  zeros = map (λ node. (node.id, 0))

  pub Keyed-zeros : (nodes : List (Node N)) → Keyed (zeros nodes) nodes
  Keyed-zeros [] = tt
  Keyed-zeros (node ∷ nodes) = (refl, Keyed-zeros nodes)

  pub absent :
      (v : Text) (node : Node N) (nodes : List (Node N))
      → NoDup (ids (node ∷ nodes))
      → contains v (ids nodes) ≡ true
      → (node.id == v) ≡ false
  absent v node nodes d c = elim (Bool-cases (node.id == v)) [
    | inl e ↦
        let same : contains node.id (ids nodes) ≡ contains v (ids nodes) =
          ap (λ z. contains z (ids nodes)) ((list_beq_iff node.id v).0 e) in
        absurd (ground (arith, d.0))
    | inr e ↦ e
  ]
