-- ===== src/Bus/Publish/Notices.antt =====
-- What the drop notices of crates/bus/src/lib.rs leave in the channels: they add no message of
-- another schema.
use mathlib.Core.Option
use mathlib.Core.List.{append-nil}
use runloop.Prelude.{
  ℕ, String, ◌≡◌, refl, ap, ◌∙◌, Bool, true, false, not, ◌&&◌, List, [], ◌∷◌, ◌++◌, arith,
  if◌then◌else◌, ◌==◌, filter, filter-append, string_eq, nat_eq,
}
use runloop.Prelude.Dict.{lookup}
use runloop.Core.Content.{ct_bus_drop_notice}
use runloop.Rmp.Error.{Result, ok, err, Error}
use runloop.Rmp.Buf.{Bytes}
use runloop.Rmp.Header.{Header}
use runloop.Rmp.Envelope.{MsgPack}
use runloop.Bus.Lru.{Lru}
use runloop.Bus.Message
use runloop.Bus.Message.{BusError, Message, DropReason, DropNotice, drop_topic}
use runloop.Bus.Env.{Env}
use runloop.Bus.Server.{Server, Subscriber, PushError, push_message, remove_subscriber}
use runloop.Bus.Publish.{
  after_notice, push_notices, send_notice, emit_encoded, emit_drop, note_drop,
}

abbrev pub copy_if : Bool → ℕ → Message → List (ℕ × Message)
copy_if b id m = if b then (id, m) ∷ [] else []

abbrev pub accepted : Result PushError (Unit {0}) → Bool
accepted (ok _) = true
accepted (err _) = false

module _ (L : Lru) (E : Env) where
  abbrev pub queue : Server L E → List (ℕ × Message)
  queue s = E.queued s.world

  push_message-queue :
      (sub : Subscriber) (m : Message) (s : Server L E)
      → queue (push_message L E sub m s).1
        ≡ queue s ++ copy_if (accepted (push_message L E sub m s).0) sub.id m
  unfolding push_message
  push_message-queue sub m s =
      let (r, w) = E.try_send sub.id m s.world in
      ground (
        arith,
        E.queued-try_send sub.id m s.world,
        E.queued-send_within s.config.send_timeout sub.id m w,
        append-nil (queue s),
      )

  pub remove_subscriber-queue :
      (topic : String) (id : ℕ) (s : Server L E)
      → queue (remove_subscriber L E topic id s) ≡ queue s
  unfolding remove_subscriber
  remove_subscriber-queue topic id s = ground arith

abbrev pub is_notice : Message → Bool
is_notice m = m.header.schema_id == ct_bus_drop_notice

-- what has been queued, without the drop notices
abbrev pub messages : List (ℕ × Message) → List (ℕ × Message)
messages = filter (λ e. not (is_notice e.1))

messages-copy_if :
    (b : Bool) (id : ℕ) (m : Message)
    → messages (copy_if b id m) ≡ copy_if (b && not (is_notice m)) id m
unfolding filter
messages-copy_if b id m = ground arith

module _ (L : Lru) (E : Env) where
  pub push_message-messages :
      (sub : Subscriber) (m : Message) (s : Server L E)
      → messages (queue L E (push_message L E sub m s).1)
        ≡ messages (queue L E s)
          ++ copy_if (accepted (push_message L E sub m s).0 && not (is_notice m)) sub.id m
  push_message-messages sub m s =
      let sent = accepted (push_message L E sub m s).0 in
      ap messages (push_message-queue L E sub m s)
      ∙ (filter-append (λ e. not (is_notice e.1)) (queue L E s) (copy_if sent sub.id m)
          ∙ rw (messages-copy_if sent sub.id m) refl)

module _ {Json : Type 0} (L : Lru) (E : Env) (P : MsgPack Json DropNotice) where
  after_notice-queue :
      (sub : Subscriber) (r : Result PushError (Unit {0})) (s : Server L E)
      → queue L E (after_notice L E P sub r s) ≡ queue L E s
  unfolding after_notice
  after_notice-queue sub (ok _) s = refl
  after_notice-queue sub (err PushError.channel_closed) s =
      remove_subscriber-queue L E drop_topic sub.id s
  after_notice-queue sub (err PushError.timed_out) s = refl

  push_notices-messages :
      (subs : List Subscriber) (m : Message) (s : Server L E)
      → is_notice m ≡ true
      → messages (queue L E (push_notices L E P subs m s)) ≡ messages (queue L E s)
  unfolding push_notices
  push_notices-messages [] m s h = refl
  push_notices-messages (sub ∷ subs) m s h =
      let (r, s') = push_message L E sub m s in
      push_notices-messages subs m (after_notice L E P sub r s') h
      ∙ (ap messages (after_notice-queue sub r s')
          ∙ (push_message-messages L E sub m s
              ∙ ground (arith, append-nil (messages (queue L E s)))))

  new-schema_id :
      (header : Header) (body : Bytes) (m : Message)
      → Message.new header body ≡ ok m
      → m.header.schema_id ≡ header.schema_id
  unfolding Message.new
  new-schema_id header body m h = ground arith

  send_notice-messages :
      (header : Header) (body : Bytes) (s : Server L E)
      → header.schema_id ≡ ct_bus_drop_notice
      → (r : Result BusError Message) → Message.new header body ≡ r
      → messages (queue L E (send_notice L E P r s)) ≡ messages (queue L E s)
  unfolding send_notice
  send_notice-messages header body s h (err _) e = refl
  send_notice-messages header body s h (ok m) e =
      push_notices-messages (Option.get_or (lookup drop_topic s.topics) []) m s
        (ground (arith, new-schema_id header body m e))

  emit_encoded-messages :
      (m : Message) (at : ℕ) (r : Result Error Bytes) (s : Server L E)
      → messages (queue L E (emit_encoded L E P m at r s)) ≡ messages (queue L E s)
  unfolding emit_encoded
  emit_encoded-messages m at (err _) s = refl
  emit_encoded-messages m at (ok payload) s = send_notice-messages _ payload _ refl _ refl

  -- Counting and announcing a drop adds no message of another schema.
  pub note_drop-messages :
      (topic : String) (m : Message) (reason : DropReason) (emit : Bool) (s : Server L E)
      → messages (queue L E (note_drop L E P topic m reason emit s)) ≡ messages (queue L E s)
  unfolding note_drop emit_drop
  note_drop-messages topic m reason false s = refl
  note_drop-messages topic m reason true s =
      emit_encoded-messages m _ _ _ ∙ ap messages (E.queued-current_millis s.world)
