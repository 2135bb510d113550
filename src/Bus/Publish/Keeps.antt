-- ===== src/Bus/Publish/Keeps.antt =====
-- The parts of the server that sending and announcing do not touch, in crates/bus/src/lib.rs.
use mathlib.Core.Option
use runloop.Prelude.{
  ℕ, String, ◌≡◌, refl, ◌∙◌, Bool, true, false, List, [], ◌∷◌, arith, nat_eq, string_eq,
}
use runloop.Prelude.Dict.{lookup}
use runloop.Rmp.Error.{Result, ok, err, Error}
use runloop.Rmp.Buf.{Bytes}
use runloop.Bus.Metrics.{Metrics, next_drop_msg_id, inc_drop}
use runloop.Rmp.Envelope.{MsgPack}
use runloop.Bus.Lru.{Lru}
use runloop.Bus.Message.{BusError, Message, DropReason, DropNotice, drop_topic}
use runloop.Bus.Env.{Env}
use runloop.Bus.Server.{Server, Subscriber, PushError, push_message, remove_subscriber}
use runloop.Bus.Publish.{
  after_notice, push_notices, send_notice, emit_encoded, emit_drop, note_drop,
}

module _ (L : Lru) (E : Env) where
  pub record Keeps (s s' : Server L E) : Type 0 where
    pub dedupes : s'.dedupes ≡ s.dedupes
    pub config : s'.config ≡ s.config
    pub closed : s'.closed ≡ s.closed
    pub next_id : s'.next_id ≡ s.next_id

  pub Keeps-trans : (s t u : Server L E) → Keeps s t → Keeps t u → Keeps s u
  Keeps-trans s t u p q = record {
    dedupes = q.dedupes ∙ p.dedupes;
    config = q.config ∙ p.config;
    closed = q.closed ∙ p.closed;
    next_id = q.next_id ∙ p.next_id;
  }

  pub Keeps-refl : (s : Server L E) → Keeps s s
  Keeps-refl s = record { dedupes = refl; config = refl; closed = refl; next_id = refl }

  -- the counters and the outside world do not matter
  pub Keeps-update :
      (s : Server L E) (m : Metrics) (w : E.World) → Keeps s (record s { metrics = m; world = w })
  Keeps-update s m w = record { dedupes = refl; config = refl; closed = refl; next_id = refl }

  pub push_message-Keeps :
      (sub : Subscriber) (m : Message) (s : Server L E) → Keeps s (push_message L E sub m s).1
  unfolding push_message
  push_message-Keeps sub m s = ground arith

  pub remove_subscriber-Keeps :
      (topic : String) (id : ℕ) (s : Server L E) → Keeps s (remove_subscriber L E topic id s)
  unfolding remove_subscriber
  remove_subscriber-Keeps topic id s = ground arith

module _ {Json : Type 0} (L : Lru) (E : Env) (P : MsgPack Json DropNotice) where
  after_notice-Keeps :
      (sub : Subscriber) (r : Result PushError (Unit {0})) (s : Server L E)
      → Keeps L E s (after_notice L E P sub r s)
  unfolding after_notice
  after_notice-Keeps sub (ok _) s = Keeps-refl L E s
  after_notice-Keeps sub (err PushError.channel_closed) s =
      remove_subscriber-Keeps L E drop_topic sub.id s
  after_notice-Keeps sub (err PushError.timed_out) s = Keeps-refl L E s

  push_notices-Keeps :
      (subs : List Subscriber) (m : Message) (s : Server L E)
      → Keeps L E s (push_notices L E P subs m s)
  unfolding push_notices
  push_notices-Keeps [] m s = Keeps-refl L E s
  push_notices-Keeps (sub ∷ subs) m s =
      let (r, s') = push_message L E sub m s in
      let s'' = after_notice L E P sub r s' in
      let pushed =
        Keeps-trans L E s s' s'' (push_message-Keeps L E sub m s) (after_notice-Keeps sub r s') in
      Keeps-trans L E s s'' (push_notices L E P subs m s'') pushed (push_notices-Keeps subs m s'')

  send_notice-Keeps :
      (r : Result BusError Message) (s : Server L E) → Keeps L E s (send_notice L E P r s)
  unfolding send_notice
  send_notice-Keeps (err _) s = Keeps-refl L E s
  send_notice-Keeps (ok m) s =
      push_notices-Keeps (Option.get_or (lookup drop_topic s.topics) []) m s

  emit_encoded-Keeps :
      (m : Message) (at : ℕ) (r : Result Error Bytes) (s : Server L E)
      → Keeps L E s (emit_encoded L E P m at r s)
  unfolding emit_encoded
  emit_encoded-Keeps m at (err _) s = Keeps-refl L E s
  emit_encoded-Keeps m at (ok payload) s =
      let (_, metrics) = next_drop_msg_id s.metrics in
      let s' = record s { metrics = metrics } in
      Keeps-trans L E s s' _ (Keeps-update L E s metrics s.world) (send_notice-Keeps _ s')

  emit_drop-Keeps :
      (topic : String) (m : Message) (r : DropReason) (at : ℕ) (s : Server L E)
      → Keeps L E s (emit_drop L E P topic m r at s)
  unfolding emit_drop
  emit_drop-Keeps topic m r at s = emit_encoded-Keeps m at _ s

  pub note_drop-Keeps :
      (topic : String) (m : Message) (r : DropReason) (emit : Bool) (s : Server L E)
      → Keeps L E s (note_drop L E P topic m r emit s)
  unfolding note_drop
  note_drop-Keeps topic m r false s = Keeps-update L E s (inc_drop r s.metrics) s.world
  note_drop-Keeps topic m r true s =
      let (at, w) = E.current_millis s.world in
      let s' = record s { metrics = inc_drop r s.metrics; world = w } in
      Keeps-trans L E s s' _ (Keeps-update L E s (inc_drop r s.metrics) w)
        (emit_drop-Keeps topic m r at s')
