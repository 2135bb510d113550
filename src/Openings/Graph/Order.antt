-- ===== src/Openings/Graph/Order.antt =====
-- What `validate_graph` of crates/openings/src/parser.rs accepts, on indices: the graphs whose nodes can
-- be numbered along the edges.
use runloop.Prelude.{
  ℕ, zero, suc, ◌≤◌, ◌<◌, ◌≡◌, ap, ◌∙◌, inl, inr, true, false, not, ◌&&◌, some, List, [], ◌∷◌,
  arith, if◌then◌else◌, Bool-cases, ◌==◌, beq_refl, length, All, nat_eq, nat_beq_iff,
}
use runloop.Runtime.Set.{contains, NoDup}
use runloop.Openings.Graph.{visit}
use runloop.Openings.Graph.Count.{count-contains, count-full, count-all}
use runloop.Openings.Graph.Degrees.{Ends, open_into, between}
use runloop.Openings.Graph.Kahn.{Topo, InRange, Kahn, visit-Ended}

open-between :
    (done : List ℕ) (a v : ℕ) (edges : Ends)
    → open_into done v edges ≡ 0
    → 0 < between a v edges
    → contains a done ≡ true
unfolding open_into between
open-between done a v [] o b = absurd (omega arith)
open-between done a v ((x, y) ∷ edges) o b = elim (Bool-cases (x == a)) [
  | inl e ↦
      let same : contains x done ≡ contains a done =
        ap (λ z. contains z done) ((nat_beq_iff x a).0 e) in
      ground (arith, same, open-between done a v edges)
  | inr e ↦ ground (arith, open-between done a v edges)
]

-- how many indices were taken before this one
unfoldable position : ℕ → List ℕ → ℕ
position v [] = 0
position v (x ∷ done) = if x == v then length done else position v done

position-lt : (v : ℕ) (done : List ℕ) → contains v done ≡ true → position v done < length done
unfolding position contains
position-lt v [] c = absurd (ground arith)
position-lt v (x ∷ done) c = ground (arith, position-lt v done)

differs :
    (x a : ℕ) (done : List ℕ) → contains x done ≡ false → contains a done ≡ true → (x == a) ≡ false
differs x a done o i = elim (Bool-cases (x == a)) [
  | inl e ↦
      let same : contains x done ≡ contains a done =
        ap (λ z. contains z done) ((nat_beq_iff x a).0 e) in
      absurd (ground arith)
  | inr e ↦ e
]

Topo-position :
    (edges : Ends) (a v : ℕ) (done : List ℕ)
    → Topo edges done
    → NoDup done
    → contains v done ≡ true
    → 0 < between a v edges
    → (contains a done ≡ true) × (position a done < position v done)
unfolding position contains
Topo-position edges a v [] t d c b = absurd (ground arith)
Topo-position edges a v (x ∷ done) t d c b = elim (Bool-cases (x == v)) [
  | inl e ↦
      let same : x ≡ v = (nat_beq_iff x v).0 e in
      let closed : open_into done v edges ≡ 0 = rw (← same) t.0 in
      let inside : contains a done ≡ true = open-between done a v edges closed b in
      let other : (x == a) ≡ false = differs x a done d.0 inside in
      ground (arith, position-lt a done inside)
  | inr e ↦
      let ih = Topo-position edges a v done t.1 d.1 (ground arith) b in
      let other : (x == a) ≡ false = differs x a done d.0 ih.0 in ground (arith, ih)
]

abbrev pub Numbering : (ℕ → ℕ) → Ends → Type 0
Numbering rank = All (λ (e : ℕ × ℕ). rank e.0 < rank e.1)

-- an edge of the list that is counted
head_between : (a b : ℕ) (edges : Ends) → 0 < between a b ((a, b) ∷ edges)
unfolding between
head_between a b edges = ground (arith, beq_refl a, beq_refl b)

between-later : (x : ℕ × ℕ) (edges : Ends) (a b : ℕ) → between a b edges ≤ between a b (x ∷ edges)
unfolding between
between-later x edges a b = omega arith

-- a source outside the list, of an edge that is still open
open-source :
    (n : ℕ) (rank : ℕ → ℕ) (done : List ℕ) (v : ℕ) (edges : Ends)
    → InRange n edges
    → Numbering rank edges
    → 0 < open_into done v edges
    → (a : ℕ) × (a < n) × (rank a < rank v) × (contains a done ≡ false)
unfolding open_into
open-source n rank done v [] r o h = absurd (omega arith)
open-source n rank done v ((a, b) ∷ edges) r o h =
    elim (Bool-cases (b == v && not (contains a done))) [
      | inl e ↦
          let same : rank b ≡ rank v = ap rank ((nat_beq_iff b v).0 (ground arith)) in
          (a, r.0.0, ground arith, ground arith)
      | inr e ↦ open-source n rank done v edges r.1 o.1 (ground arith)
    ]

module _ (n : ℕ) (edges : Ends) (r : InRange n edges) where
  module _ (m : ℕ) (done : List ℕ) (degrees : ℕ → ℕ) (k : Kahn n edges done degrees [])
      (l : length done ≡ m) where
    -- nothing is left out: the order of the visits numbers the nodes
    complete : m ≡ n → (v : ℕ) → v < n → contains v done ≡ true
    complete e v h =
        count-full n (λ v. contains v done) v (omega (arith, count-contains n done k.fresh k.below))
          h

    numbers :
        m ≡ n
        → (es : Ends) → InRange n es
        → ((a b : ℕ) → between a b es ≤ between a b edges)
        → Numbering (λ v. position v done) es
    numbers e [] i s = tt
    numbers e ((a, b) ∷ es) i s = (
      (Topo-position edges a b done k.topo k.fresh (complete e b i.0.1)
          (omega (arith, head_between a b es, s a b))).1,
      numbers e es i.1 (λ x y. omega (arith, between-later (a, b) es x y, s x y)),
    )

    -- a numbering leaves no node out: the first would have no open edge
    reached :
        (rank : ℕ → ℕ)
        → Numbering rank edges
        → (bound v : ℕ) → rank v < bound
        → v < n
        → contains v done ≡ true
    unfolding contains
    reached rank o zero v b h = absurd (omega arith)
    reached rank o (suc bound) v b h = elim (Bool-cases (contains v done)) [
      | inl e ↦ e
      | inr e ↦
          let (a, in_range, lower, outside) =
            open-source n rank done v edges r o (ground (arith, k.zero_degree v h, k.degree v)) in
          absurd (ground (arith, reached rank o bound a))
    ]

    all_reached : (rank : ℕ → ℕ) → Numbering rank edges → m ≡ n
    all_reached rank o =
        let full =
          count-all n (λ v. contains v done)
            (λ v h. reached rank o (suc (rank v)) v (omega arith) h) in
        omega (arith, full, count-contains n done k.fresh k.below)

  pub visit-numbered : visit n edges ≡ some n → (rank : ℕ → ℕ) × Numbering rank edges
  visit-numbered h =
      let (m, e, ended) = visit-Ended n edges r in
      (
        λ v. position v ended.done,
        numbers m ended.done ended.degrees ended.kahn ended.visited_all (ground arith) edges r
            (λ a b. omega arith),
      )

  pub numbered-visit : (rank : ℕ → ℕ) → Numbering rank edges → visit n edges ≡ some n
  numbered-visit rank o =
      let (m, e, ended) = visit-Ended n edges r in
      e ∙ ap some (all_reached m ended.done ended.degrees ended.kahn ended.visited_all rank o)
