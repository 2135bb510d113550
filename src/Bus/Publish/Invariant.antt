-- ===== src/Bus/Publish/Invariant.antt =====
-- The subscribers' ids through a publish of crates/bus/src/lib.rs.
use mathlib.Core.Option
use mathlib.Core.Path.{subst}
use runloop.Prelude.{
  ℕ, String, ◌≡◌, sym, ◌⊎◌, inl, inr, Bool, true, false, none, List, [], ◌∷◌, arith, string_eq,
  nat_eq,
}
use runloop.Prelude.Dict.{lookup}
use runloop.Rmp.Error.{Result, ok, err, Error}
use runloop.Rmp.Header.{dedupe_key}
use runloop.Rmp.Buf.{Bytes}
use runloop.Bus.Metrics
use runloop.Bus.Metrics.{Metrics}
use runloop.Rmp.Envelope.{MsgPack}
use runloop.Bus.Lru.{Lru}
use runloop.Bus.Dedupe.{DedupeReservation, reserve}
use runloop.Bus.Message
use runloop.Bus.Message.{
  BusError, Message, PublisherKind, DropReason, ttl_expired, DropNotice, drop_topic,
}
use runloop.Bus.Env.{Env}
use runloop.Bus.Server.{Server, Subscriber, PushError, push_message, remove_subscriber, set_dedupe}
use runloop.Bus.Server.Invariant.{IsServer, IsServer-of, remove_subscriber-IsServer}
use runloop.Bus.Publish.{
  after_notice, push_notices, send_notice, emit_encoded, emit_drop, note_drop, rollback, deliver,
  Pending, record_result, deliver_each, rollback_each, fan_out, publish,
}

module _ (L : Lru) (E : Env) where
  push_message-IsServer :
      (sub : Subscriber) (m : Message) (s : Server L E)
      → IsServer L E s
      → IsServer L E (push_message L E sub m s).1
  unfolding push_message
  push_message-IsServer sub m s h =
      IsServer-of L E (push_message L E sub m s).1 s.next_id s.topics (ground arith) (ground arith)
        h

module _ {Json : Type 0} (L : Lru) (E : Env) (P : MsgPack Json DropNotice) where
  after_notice-IsServer :
      (sub : Subscriber) (r : Result PushError (Unit {0})) (s : Server L E)
      → IsServer L E s
      → IsServer L E (after_notice L E P sub r s)
  unfolding after_notice
  after_notice-IsServer sub (ok _) s h = h
  after_notice-IsServer sub (err PushError.channel_closed) s h =
      remove_subscriber-IsServer L E drop_topic sub.id s h
  after_notice-IsServer sub (err PushError.timed_out) s h = h

  push_notices-IsServer :
      (subs : List Subscriber) (m : Message) (s : Server L E)
      → IsServer L E s
      → IsServer L E (push_notices L E P subs m s)
  unfolding push_notices
  push_notices-IsServer [] m s h = h
  push_notices-IsServer (sub ∷ subs) m s h =
      let (r, s') = push_message L E sub m s in
      push_notices-IsServer subs m (after_notice L E P sub r s')
        (after_notice-IsServer sub r s' (push_message-IsServer L E sub m s h))

  send_notice-IsServer :
      (r : Result BusError Message) (s : Server L E)
      → IsServer L E s
      → IsServer L E (send_notice L E P r s)
  unfolding send_notice
  send_notice-IsServer (err _) s h = h
  send_notice-IsServer (ok m) s h =
      push_notices-IsServer (Option.get_or (lookup drop_topic s.topics) []) m s h

  emit_encoded-IsServer :
      (m : Message) (at : ℕ) (r : Result Error Bytes) (s : Server L E)
      → IsServer L E s
      → IsServer L E (emit_encoded L E P m at r s)
  unfolding emit_encoded
  emit_encoded-IsServer m at (err _) s h = h
  emit_encoded-IsServer m at (ok payload) s h = send_notice-IsServer _ _ h

  note_drop-IsServer :
      (topic : String) (m : Message) (r : DropReason) (emit : Bool) (s : Server L E)
      → IsServer L E s
      → IsServer L E (note_drop L E P topic m r emit s)
  unfolding note_drop emit_drop
  note_drop-IsServer topic m r false s h = h
  note_drop-IsServer topic m r true s h = emit_encoded-IsServer m _ _ _ h

  rollback-IsServer :
      (r : DedupeReservation) (s : Server L E) → IsServer L E s → IsServer L E (rollback L E P r s)
  unfolding rollback
  rollback-IsServer r s h =
      IsServer-of L E (rollback L E P r s) s.next_id s.topics (ground arith) (ground arith) h

  rollback_each-IsServer :
      (rs : List DedupeReservation) (s : Server L E)
      → IsServer L E s
      → IsServer L E (rollback_each L E P rs s)
  unfolding rollback_each
  rollback_each-IsServer [] s h = h
  rollback_each-IsServer (r ∷ rs) s h =
      rollback_each-IsServer rs (rollback L E P r s) (rollback-IsServer r s h)

  module _ (sub : Subscriber) (topic : String) (m : Message) (now : ℕ) (emit : Bool)
      (s : Server L E) where
    abbrev pub start : Server L E
    start = set_dedupe L E sub.id (reserve L (s.dedupes sub.id) (dedupe_key m.header) now).0 s

    abbrev pub sent : Server L E
    sent = (push_message L E sub m start).1

    -- the four ways a delivery can end
    pub deliver-cases :
        ((deliver L E P sub topic m now emit s).1 ≡ sent)
        ⊎ ((deliver L E P sub topic m now emit s).1
            ≡ note_drop L E P topic m Message.duplicate emit start)
        ⊎ ((deliver L E P sub topic m now emit s).1 ≡ remove_subscriber L E topic sub.id sent)
        ⊎ ((deliver L E P sub topic m now emit s).1
            ≡ note_drop L E P topic m Message.backpressure emit sent)
    unfolding deliver
    deliver-cases = ground arith

    deliver-IsServer : IsServer L E s → IsServer L E (deliver L E P sub topic m now emit s).1
    deliver-IsServer h =
        let started : IsServer L E start = h in
        let pushed : IsServer L E sent = push_message-IsServer L E sub m start started in
        elim deliver-cases [
          | inl e ↦ subst (IsServer L E) (sym e) pushed
          | inr (inl e) ↦
              subst (IsServer L E) (sym e)
                (note_drop-IsServer topic m Message.duplicate emit start started)
          | inr (inr (inl e)) ↦
              subst (IsServer L E) (sym e) (remove_subscriber-IsServer L E topic sub.id sent pushed)
          | inr (inr (inr e)) ↦
              subst (IsServer L E) (sym e)
                (note_drop-IsServer topic m Message.backpressure emit sent pushed)
        ]

  deliver_each-IsServer :
      (subs : List Subscriber) (topic : String) (m : Message) (now : ℕ) (emit : Bool)
      (acc : Pending L E P) (s : Server L E)
      → IsServer L E s
      → IsServer L E (deliver_each L E P subs topic m now emit acc s).1
  unfolding deliver_each
  deliver_each-IsServer [] topic m now emit acc s h = h
  deliver_each-IsServer (sub ∷ subs) topic m now emit acc s h =
      let (r, s') = deliver L E P sub topic m now emit s in
      deliver_each-IsServer subs topic m now emit (record_result L E P topic r acc) s'
        (deliver-IsServer sub topic m now emit s h)

  fan_out-IsServer :
      (topic : String) (m : Message) (emit : Bool) (now : ℕ) (s : Server L E)
      → IsServer L E s
      → IsServer L E (fan_out L E P topic m emit now s).1
  unfolding fan_out
  fan_out-IsServer topic m emit now s h =
      let s' : Server L E = record s { metrics = Metrics.inc_published s.metrics } in
      let subs = Option.get_or (lookup topic s.topics) [] in
      let done = deliver_each L E P subs topic m now emit ([], none) s' in
      rollback_each-IsServer done.0.0 done.1
        (deliver_each-IsServer subs topic m now emit ([], none) s' h)

  module _ (topic : String) (m : Message) (emit : Bool) (kind : PublisherKind)
      (s : Server L E) where
    abbrev pub timed : Server L E
    timed = record s { world = (E.current_millis s.world).1 }

    pub publish-cases :
        ((publish L E P topic m emit kind s).1 ≡ s)
        ⊎ ((publish L E P topic m emit kind s).1 ≡ timed)
        ⊎ ((publish L E P topic m emit kind s).1
            ≡ note_drop L E P topic m Message.ttl_expired emit timed)
        ⊎ ((publish L E P topic m emit kind s).1
            ≡ (fan_out L E P topic m emit (E.current_millis s.world).0 timed).1)
    unfolding publish
    publish-cases = ground arith

    pub publish-IsServer : IsServer L E s → IsServer L E (publish L E P topic m emit kind s).1
    publish-IsServer h = elim publish-cases [
      | inl e ↦ subst (IsServer L E) (sym e) h
      | inr (inl e) ↦ subst (IsServer L E) (sym e) h
      | inr (inr (inl e)) ↦
          subst (IsServer L E) (sym e) (note_drop-IsServer topic m Message.ttl_expired emit timed h)
      | inr (inr (inr e)) ↦
          subst (IsServer L E) (sym e)
            (fan_out-IsServer topic m emit (E.current_millis s.world).0 timed h)
    ]
