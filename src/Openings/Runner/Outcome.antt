-- ===== src/Openings/Runner/Outcome.antt =====
-- The report of a run of crates/openings/src/runner.rs.
use runloop.Prelude.{
  ◌≡◌, refl, inl, inr, Bool, true, false, not, ◌&&◌, ◌||◌, Option, none, some, List, [], ◌∷◌, arith,
  Bool-cases, ◌==◌, beq_refl, ap_beq, is_nil, any, every, nat_eq, list_eq, list_beq_iff,
}
use mathlib.Core.Path.{subst}
use runloop.Prelude.Dict.{Dict, lookup, contains_key}
use runloop.Prelude.Options.{>>=-eq-some}
use runloop.Runtime.Text.{Text}
use runloop.Runtime.Set.{contains}
use runloop.Openings.Json.{Numbers}
use runloop.Openings.Types.{Node}
use runloop.Openings.Graph.Ends.{ids}
use runloop.Openings.Runner.Report.{NodeState, NodeRecord, NodeAttemptRecord, NodeTrace, RunEvent}
use runloop.Openings.Runner.Env.{Env, Hashing}
use runloop.Openings.Runner.Attempts.{Runner, emit_event}
use runloop.Openings.Runner.Finish.{
  last, is_final, update_attempt, trace_node, trace_nodes, resolved, resolve_states,
}
use runloop.Openings.Runner.Status.{has_succeeded, succeeded, attempted, failed}
use runloop.Openings.Runner.Loop.{recorded_node}

-- a run does not leave a node in another state
abbrev pub has_settled : NodeState → Bool
has_settled NodeState.succeeded = true
has_settled (NodeState.failed _) = true
has_settled NodeState.skipped = true
has_settled _ = false

abbrev is_some {ℓ} : {A : Type ℓ} → Option A → Bool
is_some none = false
is_some (some _) = true

final-settled : (state : NodeState) → is_final state ≡ true → has_settled state ≡ true
unfolding is_final
final-settled NodeState.succeeded h = refl
final-settled (NodeState.failed _) h = refl
final-settled NodeState.pending h = absurd (ground arith)
final-settled NodeState.running h = absurd (ground arith)
final-settled NodeState.skipped h = refl
final-settled NodeState.cancelled h = absurd (ground arith)

is_some-last : {N : Numbers} (xs : List (NodeAttemptRecord N)) → is_some (last xs) ≡ not (is_nil xs)
unfolding last
is_some-last [] = refl
is_some-last (a ∷ []) = refl
is_some-last (a ∷ b ∷ xs) = is_some-last (b ∷ xs)

module _ {N : Numbers} where
  -- the node of this id has a last attempt in the trace
  abbrev pub trace_attempted : Text → List (NodeTrace N) → Bool
  trace_attempted id = any (λ t. t.node_id == id && is_some t.final_attempt)

  abbrev pub trace_succeeded : Text → List (NodeTrace N) → Bool
  trace_succeeded id = any (λ t. t.node_id == id && has_succeeded t.state)

module _ {N : Numbers} (E : Env N) (R : Runner N) (run_failed : Bool)
    (processed : Dict Text Bool) where
  abbrev resolve : Dict Text (NodeRecord N) → E.World → Dict Text (NodeRecord N)
  resolve records w = (resolve_states E R run_failed processed records w).0

  pub resolve-status :
      (v : Text) (records : Dict Text (NodeRecord N)) (w : E.World)
      → (contains_key v (resolve records w) ≡ contains_key v records)
        × (attempted v (resolve records w) ≡ attempted v records)
        × (failed v (resolve records w) ≡ failed v records)
        × ((not (succeeded v records) || succeeded v (resolve records w)) ≡ true)
  unfolding resolve_states resolved lookup is_final
  resolve-status v [] w = (refl, refl, refl, refl)
  resolve-status v ((id, r) ∷ records) w =
      let w' =
        emit_event E R (RunEvent.node_state r.node_id (resolved E R run_failed processed id) 0) w in
      elim (Bool-cases (is_final r.state)) [
        | inl e ↦ ground (arith, resolve-status v records w)
        | inr e ↦ ground (arith, resolve-status v records w')
      ]

  pub resolve-settled :
      (v : Text) (r : NodeRecord N) (records : Dict Text (NodeRecord N)) (w : E.World)
      → lookup v (resolve records w) ≡ some r
      → has_settled r.state ≡ true
  unfolding resolve_states resolved lookup is_final
  resolve-settled v r [] w h = absurd (ground arith)
  resolve-settled v r ((id, r') ∷ records) w h =
      let w' =
        emit_event E R (RunEvent.node_state r'.node_id (resolved E R run_failed processed id) 0)
          w in
      elim (Bool-cases (is_final r'.state)) [
        | inl e ↦
            ground
              (arith, resolve-settled v r records w, final-settled r'.state e, list_beq_iff id v)
        | inr e ↦ ground (arith, resolve-settled v r records w', list_beq_iff id v)
      ]

module _ {N : Numbers} (H : Hashing N) where
  abbrev pub Told : Text → List (Node N) → Dict Text (NodeRecord N) → List (NodeTrace N) → Type 0
  Told v nodes records traces =
      (trace_attempted v traces ≡ (contains v (ids nodes) && attempted v records))
      × (trace_succeeded v traces ≡ (contains v (ids nodes) && succeeded v records))

  cons-status :
      (v : Text) (node : Node N) (nodes : List (Node N)) (records : Dict Text (NodeRecord N))
      (r : NodeRecord N) (traces : List (NodeTrace N))
      → lookup node.id records ≡ some r
      → Told v nodes records traces
      → Told v (node ∷ nodes) records (trace_node H node r ∷ traces)
  unfolding trace_node any contains
  cons-status v node nodes records r traces l ih = elim (Bool-cases (node.id == v)) [
    | inl e ↦
        let at = ap_beq (λ z. lookup z records) node.id v e in
        ground (arith, is_some-last r.attempts)
    | inr e ↦ ground arith
  ]

  -- what the traces of the nodes say is what their records say
  pub trace_nodes-status :
      (v : Text) (nodes : List (Node N)) (records : Dict Text (NodeRecord N)) (hasher : H.Hasher)
      (traces : List (NodeTrace N)) (hasher' : H.Hasher)
      → trace_nodes H nodes records hasher ≡ some (traces, hasher')
      → Told v nodes records traces
  unfolding trace_nodes any contains
  trace_nodes-status v [] records hasher traces hasher' h = ground arith
  trace_nodes-status v (node ∷ nodes) records hasher traces hasher' h =
      let (r, l, h1) = >>=-eq-some (lookup node.id records) _ h in
      let (rest, e, h2) =
        >>=-eq-some (trace_nodes H nodes records (update_attempt H (last r.attempts) hasher)) _
          h1 in
      let ih =
        trace_nodes-status v nodes records (update_attempt H (last r.attempts) hasher) rest.0 rest.1
          e in
      let made : trace_node H node r ∷ rest.0 ≡ traces = ground arith in
      subst (Told v (node ∷ nodes) records) made (cons-status v node nodes records r rest.0 l ih)

  -- every node has a record, so the report is made
  pub trace_nodes-total :
      (nodes : List (Node N)) (records : Dict Text (NodeRecord N)) (hasher : H.Hasher)
      → ((v : Text) → contains v (ids nodes) ≡ true → contains_key v records ≡ true)
      → (traced : List (NodeTrace N) × H.Hasher) × (trace_nodes H nodes records hasher
          ≡ some traced)
  unfolding trace_nodes contains
  trace_nodes-total [] records hasher h = (_, refl)
  trace_nodes-total (node ∷ nodes) records hasher h =
      let (r, l) = recorded_node node.id records (h node.id (ground (arith, beq_refl node.id))) in
      let (rest, e) =
        trace_nodes-total nodes records (update_attempt H (last r.attempts) hasher)
          (λ v i. h v (ground arith)) in
      ((trace_node H node r ∷ rest.0, rest.1), rw (l, e) refl)

  -- a test that the states of the records pass is passed by those of the traces
  pub trace_nodes-every :
      (p : NodeState → Bool) (nodes : List (Node N)) (records : Dict Text (NodeRecord N))
      (hasher : H.Hasher) (traces : List (NodeTrace N)) (hasher' : H.Hasher)
      → ((v : Text) (r : NodeRecord N) → lookup v records ≡ some r → p r.state ≡ true)
      → trace_nodes H nodes records hasher ≡ some (traces, hasher')
      → every (λ t. p t.state) traces ≡ true
  unfolding trace_nodes every trace_node
  trace_nodes-every p [] records hasher [] hasher' a h = refl
  trace_nodes-every p [] records hasher (_ ∷ _) hasher' a h = absurd (ground arith)
  trace_nodes-every p (node ∷ nodes) records hasher traces hasher' a h =
      let (r, l, h1) = >>=-eq-some (lookup node.id records) _ h in
      let (rest, e, h2) =
        >>=-eq-some (trace_nodes H nodes records (update_attempt H (last r.attempts) hasher)) _
          h1 in
      let made : trace_node H node r ∷ rest.0 ≡ traces = ground arith in
      subst (λ (ts : List (NodeTrace N)). every (λ t. p t.state) ts ≡ true) made
        (ground (
          arith,
          a node.id r l,
          trace_nodes-every p nodes records (update_attempt H (last r.attempts) hasher) rest.0
              rest.1 a e,
        ))
