-- ===== src/Bus/Publish.antt =====
-- `publish`, `deliver` and `emit_drop` of `Server` in crates/bus/src/lib.rs. The proofs are in the
-- modules below. A call runs with no other task at work on the server while it waits.
pub mod Keeps
pub mod Invariant
pub mod Counter
pub mod Notices
pub mod Outcome
pub mod Queue
pub mod Reachable
pub mod Refused
pub mod Reservations
pub mod Settled
use mathlib.Core.Option
use runloop.Prelude.{
  ℕ, String, Bool, true, false, not, ◌&&◌, Option, none, some, List, [], ◌∷◌, ◌++◌, if◌then◌else◌,
  ◌==◌, nat_eq, string_eq,
}
use runloop.Prelude.Dict.{lookup}
use runloop.Core.Content.{ct_action_decision, ct_bus_drop_notice}
use runloop.Rmp.Error.{Result, ok, err, Error}
use runloop.Rmp.Buf.{Bytes}
use runloop.Rmp.Envelope.{MsgPack, encode_payload}
use runloop.Rmp.Header.{dedupe_key, default}
use runloop.Bus.Lru.{Lru}
use runloop.Bus.Dedupe.{DedupeReservation, commit, reserve, remove}
use runloop.Bus.Message
use runloop.Bus.Message.{
  BusError, Message, PublisherKind, DropReason, ttl_expired, duplicate, backpressure, DropNotice,
  drop_topic,
}
use runloop.Bus.Metrics
use runloop.Bus.Env.{Env}
use runloop.Bus.Server.{
  Server, M, Subscriber, PushError, DeliveryResult, FailureSeverity, update_primary_error,
  set_dedupe, count, push_message, remove_subscriber, allowed_action_decision_publisher,
}

module _ {Json : Type 0} (L : Lru) (E : Env) (P : MsgPack Json DropNotice) where
  after_notice : Subscriber → Result PushError (Unit {0}) → Server L E → Server L E
  after_notice subscriber (ok _) s = s
  after_notice subscriber (err PushError.channel_closed) s =
      remove_subscriber L E drop_topic subscriber.id s
  after_notice subscriber (err PushError.timed_out) s = s

  -- the loop over the subscribers of the drop topic
  unfoldable pub push_notices : List Subscriber → Message → Server L E → Server L E
  unfolding after_notice
  push_notices [] drop_msg s = s
  push_notices (subscriber ∷ subs) drop_msg s =
      let (r, s') = push_message L E subscriber drop_msg s in
      push_notices subs drop_msg (after_notice subscriber r s')

  to_option : Result BusError ℕ → Option ℕ
  to_option (ok n) = some n
  to_option (err e) = none

  abbrev notice_of : String → Message → DropReason → ℕ → DropNotice
  notice_of topic message reason observed_at_ms = record {
    v = 1;
    reason = reason;
    topic = topic;
    trace_id = message.header.trace_id;
    msg_id = message.header.msg_id;
    expires_at_ms = to_option (Message.expires_at message);
    observed_at_ms = observed_at_ms;
  }

  send_notice : Result BusError Message → Server L E → Server L E
  send_notice (err _) s = s
  send_notice (ok drop_msg) s =
      push_notices (Option.get_or (lookup drop_topic s.topics) []) drop_msg s

  -- the part of `emit_drop` behind the encoding
  emit_encoded : Message → ℕ → Result Error Bytes → Server L E → Server L E
  emit_encoded message observed_at_ms (err _) s = s
  emit_encoded message observed_at_ms (ok payload) s =
      let (msg_id, metrics) = Metrics.next_drop_msg_id s.metrics in
      let header = record default {
        schema_id = ct_bus_drop_notice;
        created_at_ms = observed_at_ms;
        ttl_ms = 5_000;
        trace_id = message.header.trace_id;
        msg_id = msg_id;
      } in
      send_notice (Message.new header payload) (record s { metrics = metrics })

  unfoldable pub emit_drop : String → Message → DropReason → ℕ → Server L E → Server L E
  unfolding push_notices to_option send_notice emit_encoded
  emit_drop topic message reason observed_at_ms s =
      let notice = notice_of topic message reason observed_at_ms in
      emit_encoded message observed_at_ms (encode_payload P ct_bus_drop_notice notice none) s

  -- a drop is counted, and announced if asked for
  unfoldable pub note_drop : String → Message → DropReason → Bool → Server L E → Server L E
  note_drop topic message reason emit_notifications s =
      let s' = count L E (Metrics.inc_drop reason) s in
      if emit_notifications
      then (let (observed_at, w) = E.current_millis s'.world in
          emit_drop topic message reason observed_at (record s' { world = w }))
      else s'

  -- `rollback`, which is also what dropping a reservation does
  unfoldable pub rollback : DedupeReservation → Server L E → Server L E
  rollback r s =
      if r.committed then s else set_dedupe L E r.cache (remove L (s.dedupes r.cache) r.key) s

  unfoldable pub deliver : Subscriber → String → Message → ℕ → Bool → M L E DeliveryResult
  unfolding rollback
  deliver subscriber topic message now_ms emit_notifications s =
      let key = dedupe_key message.header in
      let (d, reserved) = reserve L (s.dedupes subscriber.id) key now_ms in
      let s' = set_dedupe L E subscriber.id d s in
      if not reserved
      then (DeliveryResult.delivered, note_drop topic message duplicate emit_notifications s')
      else let reservation : DedupeReservation = record {
        cache = subscriber.id;
        key = key;
        committed = false;
      } in
        let (r, s'') = push_message L E subscriber message s' in
        elim r [
          | ok _ ↦ (DeliveryResult.delivered, rollback (commit reservation) s'')
          | err PushError.channel_closed ↦ (
            DeliveryResult.channel_closed reservation,
            remove_subscriber L E topic subscriber.id s'',
          )
          | err PushError.timed_out ↦ (
            DeliveryResult.backpressure_timed_out reservation,
            note_drop topic message backpressure emit_notifications s'',
          )
        ]

  abbrev pub Pending : Type 0
  Pending = List DedupeReservation × Option (FailureSeverity × BusError)

  -- what a delivery adds to the pending reservations and to the primary error
  unfoldable pub record_result : String → DeliveryResult → Pending → Pending
  record_result topic DeliveryResult.delivered (pending, primary) = (pending, primary)
  record_result topic (DeliveryResult.channel_closed reservation) (pending, primary) = (
    pending ++ reservation ∷ [],
    update_primary_error primary FailureSeverity.channel_closed Message.closed,
  )
  record_result topic (DeliveryResult.backpressure_timed_out reservation) (pending, primary) = (
    pending ++ reservation ∷ [],
    update_primary_error primary FailureSeverity.backpressure_timeout
        (Message.backpressure_timeout topic),
  )

  unfoldable pub deliver_each :
      List Subscriber → String → Message → ℕ → Bool → Pending → M L E Pending
  deliver_each [] topic message now_ms emit_notifications acc s = (acc, s)
  deliver_each (subscriber ∷ subs) topic message now_ms emit_notifications acc s =
      let (r, s') = deliver subscriber topic message now_ms emit_notifications s in
      deliver_each subs topic message now_ms emit_notifications (record_result topic r acc) s'

  unfoldable pub rollback_each : List DedupeReservation → Server L E → Server L E
  rollback_each [] s = s
  rollback_each (r ∷ rs) s = rollback_each rs (rollback r s)

  abbrev pub result_of : Option (FailureSeverity × BusError) → Result BusError (Unit {0})
  result_of none = ok tt
  result_of (some (_, e)) = err e

  -- the part of `publish` behind its checks
  unfoldable pub fan_out : String → Message → Bool → ℕ → M L E (Result BusError (Unit {0}))
  fan_out topic message emit_notifications now_ms s =
      let s' = count L E Metrics.inc_published s in
      let subs = Option.get_or (lookup topic s'.topics) [] in
      let ((pending, primary), s'') =
        deliver_each subs topic message now_ms emit_notifications ([], none) s' in
      (result_of primary, rollback_each pending s'')

  unfoldable pub publish :
      String → Message → Bool → PublisherKind → M L E (Result BusError (Unit {0}))
  publish topic message emit_notifications publisher s =
      if s.closed
      then (err Message.closed, s)
      else if (message.header.schema_id == ct_action_decision)
          && not (allowed_action_decision_publisher s.config publisher)
      then (err (Message.forbidden "publisher kind not permitted to publish action.decision"), s)
      else let (now_ms, w) = E.current_millis s.world in
        let s' = record s { world = w } in
        elim (Message.is_expired message now_ms) [
          | err e ↦ (err e, s')
          | ok true ↦ (
            err Message.message_expired,
            note_drop topic message ttl_expired emit_notifications s',
          )
          | ok false ↦ fan_out topic message emit_notifications now_ms s'
        ]
