-- ===== src/Bus/Publish/Refused.antt =====
-- The publishes that the checks of `publish` in crates/bus/src/lib.rs refuse.
use runloop.Prelude.{
  ℕ, String, ◌≡◌, refl, ◌⊎◌, inl, inr, Bool, false, not, ◌&&◌, Option, none, some, arith,
  if◌then◌else◌, ◌==◌, nat_eq,
}
use runloop.Core.Content.{ct_action_decision}
use runloop.Rmp.Error.{ok, err}
use runloop.Rmp.Envelope.{MsgPack}
use runloop.Bus.Lru.{Lru}
use runloop.Bus.Message
use runloop.Bus.Metrics.{inc_drop}
use runloop.Bus.Message.{BusError, Message, PublisherKind, DropNotice}
use runloop.Bus.Env.{Env}
use runloop.Bus.Server.{Server, allowed_action_decision_publisher}
use runloop.Bus.Publish.{note_drop, publish}
use runloop.Bus.Publish.Keeps.{note_drop-Keeps}

-- a decision on an action, from a publisher that may not make one
abbrev pub is_forbidden : (L : Lru) (E : Env) → Message → PublisherKind → Server L E → Bool
is_forbidden L E m kind s =
    m.header.schema_id == ct_action_decision
    && not (allowed_action_decision_publisher s.config kind)

-- the error of a message at a time: its expiry is invalid, or has passed
abbrev pub expiry_error : Message → ℕ → Option BusError
expiry_error m now = elim (Message.is_expired m now) [
  | err e ↦ some e
  | ok expired ↦ if expired then some Message.message_expired else none
]

-- why a publish is refused, if it is
abbrev pub refusal : (L : Lru) (E : Env) → Message → PublisherKind → Server L E → Option BusError
refusal L E m kind s =
    if s.closed
    then some Message.closed
    else if is_forbidden L E m kind s
    then some (Message.forbidden "publisher kind not permitted to publish action.decision")
    else expiry_error m (E.current_millis s.world).0

module _ {Json : Type 0} (L : Lru) (E : Env) (P : MsgPack Json DropNotice) where
  module _ (topic : String) (m : Message) (emit : Bool) (kind : PublisherKind)
      (s : Server L E) where
    abbrev timed : Server L E
    timed = record s { world = (E.current_millis s.world).1 }

    abbrev noted : Bool → Server L E
    noted notify = note_drop L E P topic m Message.ttl_expired notify timed

    refused-cases :
        (notify : Bool) (e : BusError)
        → refusal L E m kind s ≡ some e
        → (publish L E P topic m notify kind s ≡ (err e, s))
          ⊎ (publish L E P topic m notify kind s ≡ (err e, timed))
          ⊎ (publish L E P topic m notify kind s ≡ (err e, noted notify))
    unfolding publish
    refused-cases notify e h = ground arith

    refused-dedupes :
        (e : BusError)
        → refusal L E m kind s ≡ some e
        → ((publish L E P topic m emit kind s).0 ≡ err e)
          × ((publish L E P topic m emit kind s).1.dedupes ≡ s.dedupes)
    refused-dedupes e h = elim (refused-cases emit e h) [
      | inl same ↦ rw same (refl, refl)
      | inr (inl aged) ↦ rw aged (refl, refl)
      | inr (inr told) ↦
          rw told (refl, (note_drop-Keeps L E P topic m Message.ttl_expired emit timed).dedupes)
    ]

    -- When the server is closed, or the message is a decision on an action from a publisher kind
    -- that may not make one, or its expiry is invalid or has passed, in this order, publish returns
    -- that error and leaves every dedupe cache as it is; without notices it also queues nothing,
    -- leaves the topics and does not count a publish.
    pub publish-refusal :
        (e : BusError)
        → refusal L E m kind s ≡ some e
        → let quiet = (publish L E P topic m false kind s).1 in
          ((publish L E P topic m emit kind s).0 ≡ err e)
          × ((publish L E P topic m emit kind s).1.dedupes ≡ s.dedupes)
          × (E.queued quiet.world ≡ E.queued s.world)
          × (quiet.topics ≡ s.topics)
          × (quiet.metrics.published ≡ s.metrics.published)
    unfolding note_drop inc_drop
    publish-refusal e h =
        let (result, dedupes) = refused-dedupes e h in
        let still = E.queued-current_millis s.world in
        elim (refused-cases false e h) [
          | inl same ↦ (result, dedupes, rw same, rw same, rw same)
          | inr (inl aged) ↦ (result, dedupes, rw aged still, rw aged, rw aged)
          | inr (inr told) ↦ (result, dedupes, rw told still, rw told, rw told)
        ]
