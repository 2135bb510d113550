-- ===== src/Bus/Publish/Reachable.antt =====
-- Sequences of calls on one `Server` of crates/bus/src/lib.rs.
use runloop.Prelude.{ℕ, ◌+◌, ◌^◌, ◌≤◌, ◌<◌, String, refl, Bool, arith, All-imp}
use runloop.Rmp.Envelope.{MsgPack}
use runloop.Bus.Lru.{Lru}
use runloop.Bus.Message.{Message, PublisherKind, DropNotice}
use runloop.Bus.Env.{Env}
use runloop.Bus.Server.{
  new, Server, next_after, remove_subscriber, subscribe, shutdown, configure_action_decision_acl,
}
use runloop.Bus.Server.Invariant.{
  IsServer, IsServer-of, IsTopic, next_after-eq, next_after-le, subscribe-next_id,
  subscribe-IsServer, remove_subscriber-IsServer, shutdown-IsServer,
}
use runloop.Bus.Server.Ids.{Below-mono}
use runloop.Bus.Publish.{publish}
use runloop.Bus.Publish.Keeps.{remove_subscriber-Keeps}
use runloop.Bus.Publish.Counter.{publish-next_id}
use runloop.Bus.Publish.Invariant.{publish-IsServer}

module _ {Json : Type 0} (L : Lru) (E : Env) (P : MsgPack Json DropNotice) where
  -- one call on the server
  pub data Step : Server L E → Server L E → Type 0 where
    subscribes : (topic : String) (s : Server L E) → Step s (subscribe L E topic s).1
    publishes :
        (topic : String) (m : Message) (emit : Bool) (kind : PublisherKind) (s : Server L E)
        → Step s (publish L E P topic m emit kind s).1
    unsubscribes :
        (topic : String) (id : ℕ) (s : Server L E) → Step s (remove_subscriber L E topic id s)
    configures :
        (ui tui agent : Bool) (s : Server L E)
        → Step s (configure_action_decision_acl L E ui tui agent s)
    shuts_down : (s : Server L E) → Step s (shutdown L E s).1
    -- a subscription on another server of the process
    elsewhere : (s : Server L E) → Step s (record s { next_id = next_after s.next_id })

  -- the calls that lead from one state to another
  pub data Steps : Server L E → Server L E → Type 0 where
    none_yet : (s : Server L E) → Steps s s
    then_one : (s t u : Server L E) → Steps s t → Step t u → Steps s u

  -- whether a call takes an id
  abbrev pub taken : (s t : Server L E) → Step s t → ℕ
  taken _ _ (subscribes topic s) = 1
  taken _ _ (elsewhere s) = 1
  taken _ _ _ = 0

  -- how many calls take one
  abbrev pub subscriptions : (s t : Server L E) → Steps s t → ℕ
  subscriptions _ _ (none_yet s) = 0
  subscriptions _ _ (then_one s t u before last) = subscriptions s t before + taken t u last

  Step-next_id : (s t : Server L E) (call : Step s t) → t.next_id ≤ s.next_id + taken s t call
  unfolding configure_action_decision_acl shutdown
  Step-next_id _ _ (subscribes topic s) = subscribe-next_id L E topic s
  Step-next_id _ _ (publishes topic m emit kind s) =
      ground (arith, publish-next_id L E P topic m emit kind s)
  Step-next_id _ _ (unsubscribes topic id s) =
      ground (arith, (remove_subscriber-Keeps L E topic id s).next_id)
  Step-next_id _ _ (configures ui tui agent s) = ground arith
  Step-next_id _ _ (shuts_down s) = ground arith
  Step-next_id _ _ (elsewhere s) = next_after-le s.next_id

  Steps-next_id :
      (s t : Server L E) (calls : Steps s t) → t.next_id ≤ s.next_id + subscriptions s t calls
  Steps-next_id _ _ (none_yet s) = omega arith
  Steps-next_id _ _ (then_one s t u before last) =
      let a = Steps-next_id s t before in let b = Step-next_id t u last in omega arith

  elsewhere-IsServer :
      (s : Server L E)
      → s.next_id + 1 < 2 ^ 64
      → IsServer L E s
      → IsServer L E (record s { next_id = next_after s.next_id })
  elsewhere-IsServer s room h =
      IsServer-of L E (record s { next_id = next_after s.next_id }) (s.next_id + 1) s.topics
        (next_after-eq s.next_id room) refl
        (All-imp (IsTopic s.next_id) (IsTopic (s.next_id + 1)) s.topics
          (λ e t. (Below-mono s.next_id (s.next_id + 1) e.1 (omega arith) t.0, t.1)) h)

  Step-IsServer :
      (s t : Server L E) (call : Step s t)
      → s.next_id + taken s t call < 2 ^ 64
      → IsServer L E s
      → IsServer L E t
  unfolding configure_action_decision_acl
  Step-IsServer _ _ (subscribes topic s) room h = subscribe-IsServer L E topic s room h
  Step-IsServer _ _ (publishes topic m emit kind s) room h =
      publish-IsServer L E P topic m emit kind s h
  Step-IsServer _ _ (unsubscribes topic id s) room h = remove_subscriber-IsServer L E topic id s h
  Step-IsServer _ _ (configures ui tui agent s) room h = h
  Step-IsServer _ _ (shuts_down s) room h = shutdown-IsServer L E s h
  Step-IsServer _ _ (elsewhere s) room h = elsewhere-IsServer s room h

  Steps-IsServer :
      (s t : Server L E) (calls : Steps s t)
      → s.next_id + subscriptions s t calls < 2 ^ 64
      → IsServer L E s
      → IsServer L E t
  Steps-IsServer _ _ (none_yet s) room h = h
  Steps-IsServer _ _ (then_one s t u before last) room h =
      let reached = Steps-next_id s t before in
      Step-IsServer t u last (omega arith) (Steps-IsServer s t before (omega arith) h)

  -- In every state that calls of subscribe, publish, unsubscribe, configure and shutdown, and
  -- subscriptions on other servers of the process, make from a new server in any number and order,
  -- the subscribers of each topic have pairwise different ids, each below the counter that gives
  -- the next one, as long as the subscriptions do not take the process-wide counter to 2^64, where
  -- it wraps.
  pub reachable-IsServer :
      (first_id : ℕ) (w : E.World) (t : Server L E) (calls : Steps (new L E first_id w) t)
      → first_id + subscriptions (new L E first_id w) t calls < 2 ^ 64
      → IsServer L E t
  unfolding new
  reachable-IsServer first_id w t calls room = Steps-IsServer (new L E first_id w) t calls room tt
