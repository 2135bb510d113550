-- ===== src/Bus/Server/Invariant.antt =====
-- The invariant on the subscribers' ids, and the operations of `Server` in crates/bus/src/lib.rs
-- that touch the topics.
use mathlib.Core.Option
use runloop.Prelude.{
  ℕ, ◌+◌, ◌^◌, ◌≤◌, ◌<◌, String, ◌≡◌, inl, inr, Bool, not, List, [], ◌∷◌, ◌++◌, arith, Bool-cases,
  Option-cases, ◌==◌, filter, All, All-append, All-filter, All-imp, nat_eq, string_eq,
}
use runloop.Prelude.Dict.{Dict, lookup, insert, remove, All-insert, All-remove, All-lookup}
use runloop.Bus.Lru.{Lru}
use runloop.Bus.Env.{Env}
use runloop.Bus.Server.{Server, Subscriber, next_after, remove_subscriber, subscribe, shutdown}
use runloop.Bus.Server.Ids.{Distinct, Below, Below-mono, Distinct-filter, Distinct-snoc}

abbrev pub IsTopic : ℕ → String × List Subscriber → Type 0
IsTopic n e = Below n e.1 × Distinct e.1

-- As long as the counter does not wrap, it is one more.
pub next_after-eq : (id : ℕ) → id + 1 < 2 ^ 64 → next_after id ≡ id + 1
unfolding next_after
next_after-eq id room = omega arith

pub next_after-le : (id : ℕ) → next_after id ≤ id + 1
unfolding next_after
next_after-le id = omega arith

module _ (L : Lru) (E : Env) where
  abbrev pub IsServer : Server L E → Type 0
  IsServer s = All (IsTopic s.next_id) s.topics

  -- the subscribers of a topic that may be missing
  pub subscribers-IsTopic :
      (s : Server L E) (topic : String)
      → IsServer s
      → IsTopic s.next_id (topic, Option.get_or (lookup topic s.topics) [])
  subscribers-IsTopic s topic h = elim (Option-cases (lookup topic s.topics)) [
    | inl missing ↦ rw missing (tt, tt)
    | inr (subs, found) ↦ rw found (All-lookup (IsTopic s.next_id) topic subs s.topics h found)
  ]

  -- a state told by the two fields that the invariant reads
  pub IsServer-of :
      (s : Server L E) (n : ℕ) (topics : Dict String (List Subscriber))
      → s.next_id ≡ n
      → s.topics ≡ topics
      → All (IsTopic n) topics
      → IsServer s
  IsServer-of s n topics same_id same_topics h = rw (same_id, same_topics) h

  pub subscribe-next_id :
      (topic : String) (s : Server L E) → (subscribe L E topic s).1.next_id ≤ s.next_id + 1
  unfolding subscribe
  subscribe-next_id topic s = ground (arith, next_after-le s.next_id)

  pub subscribe-IsServer :
      (topic : String) (s : Server L E)
      → s.next_id + 1 < 2 ^ 64
      → IsServer s
      → IsServer (subscribe L E topic s).1
  unfolding subscribe
  subscribe-IsServer topic s room h = elim (Bool-cases s.closed) [
    | inl shut ↦
        IsServer-of (subscribe L E topic s).1 s.next_id s.topics (ground arith) (ground arith) h
    | inr running ↦
        let others : List Subscriber = Option.get_or (lookup topic s.topics) [] in
        let new : Subscriber = record { id = s.next_id } in
        let old : IsTopic s.next_id (topic, others) = subscribers-IsTopic s topic h in
        let grown : IsTopic (s.next_id + 1) (topic, others ++ new ∷ []) = (
          All-append (λ sub. sub.id < s.next_id + 1) others (new ∷ [])
              (Below-mono s.next_id (s.next_id + 1) others (omega arith) old.0) (omega arith, tt),
          Distinct-snoc others new old.0 old.1,
        ) in
        let rest : All (IsTopic (s.next_id + 1)) s.topics =
          All-imp (IsTopic s.next_id) (IsTopic (s.next_id + 1)) s.topics
            (λ e t. (Below-mono s.next_id (s.next_id + 1) e.1 (omega arith) t.0, t.1)) h in
        IsServer-of (subscribe L E topic s).1 (s.next_id + 1)
          (insert topic (others ++ new ∷ []) s.topics)
          (ground (arith, next_after-eq s.next_id room)) (ground arith)
          (All-insert (IsTopic (s.next_id + 1)) topic (others ++ new ∷ []) s.topics grown rest)
  ]

  -- putting back the subscribers that stay
  pub kept-IsServer :
      (topic : String) (kept : List Subscriber) (n : ℕ) (topics : Dict String (List Subscriber))
      → IsTopic n (topic, kept)
      → All (IsTopic n) topics
      → All (IsTopic n) (elim kept [ [] ↦ remove topic topics | left ↦ insert topic left topics ])
  kept-IsServer topic [] n topics t h = All-remove (IsTopic n) topic topics h
  kept-IsServer topic (sub ∷ subs) n topics t h =
      All-insert (IsTopic n) topic (sub ∷ subs) topics t h

  pub remove_subscriber-IsServer :
      (topic : String) (id : ℕ) (s : Server L E)
      → IsServer s
      → IsServer (remove_subscriber L E topic id s)
  unfolding remove_subscriber
  remove_subscriber-IsServer topic id s h = elim (Option-cases (lookup topic s.topics)) [
    | inl missing ↦
        IsServer-of (remove_subscriber L E topic id s) s.next_id s.topics (ground arith)
          (ground arith) h
    | inr (subs, found) ↦
        let t : IsTopic s.next_id (topic, subs) =
          All-lookup (IsTopic s.next_id) topic subs s.topics h found in
        let stays : Subscriber → Bool = λ sub. not (sub.id == id) in
        IsServer-of (remove_subscriber L E topic id s) s.next_id
          (elim (filter stays subs) [
            | [] ↦ remove topic s.topics
            | left ↦ insert topic left s.topics
          ])
          (ground arith) (ground arith)
          (kept-IsServer topic (filter stays subs) s.next_id s.topics
            (All-filter (λ sub. sub.id < s.next_id) stays subs t.0, Distinct-filter stays subs t.1)
            h)
  ]

  pub shutdown-IsServer : (s : Server L E) → IsServer s → IsServer (shutdown L E s).1
  unfolding shutdown
  shutdown-IsServer s h = elim (Bool-cases s.closed) [
    | inl shut ↦ IsServer-of (shutdown L E s).1 s.next_id s.topics (ground arith) (ground arith) h
    | inr running ↦ IsServer-of (shutdown L E s).1 s.next_id [] (ground arith) (ground arith) tt
  ]
