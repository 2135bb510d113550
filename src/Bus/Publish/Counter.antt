-- ===== src/Bus/Publish/Counter.antt =====
-- The counter of the subscribers' ids through a publish of crates/bus/src/lib.rs.
use mathlib.Core.Option
use runloop.Prelude.{
  ℕ, String, ◌≡◌, refl, ap, ◌∙◌, inl, inr, Bool, none, List, [], ◌∷◌, arith, string_eq, nat_eq,
}
use runloop.Prelude.Dict.{lookup}
use runloop.Rmp.Envelope.{MsgPack}
use runloop.Bus.Metrics
use runloop.Bus.Lru.{Lru}
use runloop.Bus.Dedupe.{DedupeReservation}
use runloop.Bus.Message
use runloop.Bus.Message.{Message, PublisherKind, DropNotice}
use runloop.Bus.Env.{Env}
use runloop.Bus.Server.{Server, Subscriber}
use runloop.Bus.Publish.{
  rollback, deliver, Pending, record_result, deliver_each, rollback_each, fan_out, publish,
}
use runloop.Bus.Publish.Keeps.{push_message-Keeps, remove_subscriber-Keeps, note_drop-Keeps}
use runloop.Bus.Publish.Invariant.{start, sent, deliver-cases, timed, publish-cases}

module _ {Json : Type 0} (L : Lru) (E : Env) (P : MsgPack Json DropNotice) where
  abbrev counter : Server L E → ℕ
  counter s = s.next_id

  deliver-next_id :
      (sub : Subscriber) (topic : String) (m : Message) (now : ℕ) (emit : Bool) (s : Server L E)
      → (deliver L E P sub topic m now emit s).1.next_id ≡ s.next_id
  deliver-next_id sub topic m now emit s =
      let begun = start L E P sub topic m now emit s in
      let after = sent L E P sub topic m now emit s in
      let pushed : after.next_id ≡ s.next_id = (push_message-Keeps L E sub m begun).next_id in
      elim (deliver-cases L E P sub topic m now emit s) [
        | inl e ↦ ap counter e ∙ pushed
        | inr (inl e) ↦
            ap counter e ∙ (note_drop-Keeps L E P topic m Message.duplicate emit begun).next_id
        | inr (inr (inl e)) ↦
            ap counter e ∙ ((remove_subscriber-Keeps L E topic sub.id after).next_id ∙ pushed)
        | inr (inr (inr e)) ↦
            ap counter e
            ∙ ((note_drop-Keeps L E P topic m Message.backpressure emit after).next_id ∙ pushed)
      ]

  deliver_each-next_id :
      (subs : List Subscriber) (topic : String) (m : Message) (now : ℕ) (emit : Bool)
      (acc : Pending L E P) (s : Server L E)
      → (deliver_each L E P subs topic m now emit acc s).1.next_id ≡ s.next_id
  unfolding deliver_each
  deliver_each-next_id [] topic m now emit acc s = refl
  deliver_each-next_id (sub ∷ subs) topic m now emit acc s =
      let (r, s') = deliver L E P sub topic m now emit s in
      deliver_each-next_id subs topic m now emit (record_result L E P topic r acc) s'
      ∙ deliver-next_id sub topic m now emit s

  rollback_each-next_id :
      (rs : List DedupeReservation) (s : Server L E)
      → (rollback_each L E P rs s).next_id ≡ s.next_id
  unfolding rollback_each rollback
  rollback_each-next_id [] s = refl
  rollback_each-next_id (r ∷ rs) s = rollback_each-next_id rs (rollback L E P r s) ∙ ground arith

  fan_out-next_id :
      (topic : String) (m : Message) (emit : Bool) (now : ℕ) (s : Server L E)
      → (fan_out L E P topic m emit now s).1.next_id ≡ s.next_id
  unfolding fan_out
  fan_out-next_id topic m emit now s =
      let s' : Server L E = record s { metrics = Metrics.inc_published s.metrics } in
      let subs = Option.get_or (lookup topic s.topics) [] in
      let done = deliver_each L E P subs topic m now emit ([], none) s' in
      rollback_each-next_id done.0.0 done.1
      ∙ deliver_each-next_id subs topic m now emit ([], none) s'

  -- A publish takes no id.
  pub publish-next_id :
      (topic : String) (m : Message) (emit : Bool) (kind : PublisherKind) (s : Server L E)
      → (publish L E P topic m emit kind s).1.next_id ≡ s.next_id
  publish-next_id topic m emit kind s =
      let begun = timed L E P topic m emit kind s in
      elim (publish-cases L E P topic m emit kind s) [
        | inl e ↦ ap counter e
        | inr (inl e) ↦ ap counter e
        | inr (inr (inl e)) ↦
            ap counter e ∙ (note_drop-Keeps L E P topic m Message.ttl_expired emit begun).next_id
        | inr (inr (inr e)) ↦
            ap counter e ∙ fan_out-next_id topic m emit (E.current_millis s.world).0 begun
      ]
