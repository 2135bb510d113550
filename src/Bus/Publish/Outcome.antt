-- ===== src/Bus/Publish/Outcome.antt =====
-- The results of the deliveries of a publish of crates/bus/src/lib.rs, and the error that it
-- reports.
use mathlib.Core.Option
use mathlib.Core.Path.{ap₂}
use runloop.Core.Content.{ct_action_decision}
use runloop.Prelude.{
  ℕ, String, ◌≡◌, refl, ap, ◌∙◌, Bool, true, false, not, ◌&&◌, ◌||◌, Option, none, some, List, [],
  ◌∷◌, arith, if◌then◌else◌, ◌==◌, any, nat_eq, string_eq,
}
use runloop.Prelude.Dict.{lookup}
use runloop.Rmp.Error.{Result, ok, err}
use runloop.Rmp.Envelope.{MsgPack}
use runloop.Bus.Lru.{Lru}
use runloop.Bus.Message
use runloop.Bus.Message.{BusError, Message, PublisherKind, DropNotice}
use runloop.Bus.Metrics.{inc_published}
use runloop.Bus.Env.{Env}
use runloop.Bus.Server.{
  Server, Subscriber, DeliveryResult, FailureSeverity, update_primary_error, count,
  allowed_action_decision_publisher,
}
use runloop.Bus.Publish.{Pending, deliver, record_result, deliver_each, fan_out, publish, result_of}

abbrev pub is_closed : DeliveryResult → Bool
is_closed (DeliveryResult.channel_closed _) = true
is_closed _ = false

abbrev pub is_timed_out : DeliveryResult → Bool
is_timed_out (DeliveryResult.backpressure_timed_out _) = true
is_timed_out _ = false

-- A timeout outweighs a closed channel, wherever they stand.
abbrev pub verdict : String → List DeliveryResult → Result BusError (Unit {0})
verdict topic rs =
    if any is_timed_out rs
    then err (Message.backpressure_timeout topic)
    else if any is_closed rs
    then err Message.closed
    else ok tt

-- the primary error when timeouts, or closed channels, have been met
abbrev primary_of : String → Bool → Bool → Option (FailureSeverity × BusError)
primary_of topic true c =
    some (FailureSeverity.backpressure_timeout, Message.backpressure_timeout topic)
primary_of topic false true = some (FailureSeverity.channel_closed, Message.closed)
primary_of topic false false = none

or_assoc : (a b c : Bool) → (a || b || c) ≡ (a || (b || c))
or_assoc a b c = ground arith

module _ {Json : Type 0} (L : Lru) (E : Env) (P : MsgPack Json DropNotice) where
  -- the results of the deliveries, in order
  unfoldable pub outcomes :
      List Subscriber → String → Message → ℕ → Bool → Server L E → List DeliveryResult
  outcomes [] topic m now emit s = []
  outcomes (sub ∷ subs) topic m now emit s =
      let (r, s') = deliver L E P sub topic m now emit s in r ∷ outcomes subs topic m now emit s'

  record_result-primary :
      (topic : String) (t c : Bool) (r : DeliveryResult) (acc : Pending L E P)
      → acc.1 ≡ primary_of topic t c
      → (record_result L E P topic r acc).1
        ≡ primary_of topic (t || is_timed_out r) (c || is_closed r)
  unfolding record_result update_primary_error
  record_result-primary topic t c r acc e = ground arith

  deliver_each-primary :
      (subs : List Subscriber) (topic : String) (m : Message) (now : ℕ) (emit : Bool) (t c : Bool)
      (acc : Pending L E P) (s : Server L E)
      → acc.1 ≡ primary_of topic t c
      → (deliver_each L E P subs topic m now emit acc s).0.1
        ≡ primary_of topic
            (t || any is_timed_out (outcomes subs topic m now emit s))
            (c || any is_closed (outcomes subs topic m now emit s))
  unfolding deliver_each outcomes any
  deliver_each-primary [] topic m now emit t c acc s e = ground arith
  deliver_each-primary (sub ∷ subs) topic m now emit t c acc s e =
      let (r, s') = deliver L E P sub topic m now emit s in
      let step = record_result-primary topic t c r acc e in
      let ih =
        deliver_each-primary subs topic m now emit (t || is_timed_out r) (c || is_closed r)
          (record_result L E P topic r acc) s' step in
      let rest : List DeliveryResult = outcomes subs topic m now emit s' in
      ih
      ∙ ap₂ (primary_of topic) (or_assoc t (is_timed_out r) (any is_timed_out rest))
          (or_assoc c (is_closed r) (any is_closed rest))

  -- the subscribers that a publish reaches
  abbrev pub subscribers_of : String → Server L E → List Subscriber
  subscribers_of topic s = Option.get_or (lookup topic s.topics) []

  verdict-primary :
      (topic : String) (rs : List DeliveryResult)
      → result_of L E P (primary_of topic (any is_timed_out rs) (any is_closed rs))
        ≡ verdict topic rs
  verdict-primary topic rs = ground arith

  fan_out-verdict :
      (topic : String) (m : Message) (emit : Bool) (now : ℕ) (s : Server L E)
      → (fan_out L E P topic m emit now s).0
        ≡ verdict topic
            (outcomes (subscribers_of topic s) topic m now emit (count L E inc_published s))
  unfolding fan_out
  fan_out-verdict topic m emit now s =
      let s' = count L E inc_published s in
      let subs = subscribers_of topic s in
      ap (result_of L E P)
        (deliver_each-primary subs topic m now emit false false ([], none) s' refl)
      ∙ verdict-primary topic (outcomes subs topic m now emit s')

  -- what lets a message through the checks of `publish` at the time `now`
  pub record Admitted (m : Message) (kind : PublisherKind) (s : Server L E) : Type 0 where
    pub is_open : s.closed ≡ false
    pub permitted :
        (m.header.schema_id ≡ ct_action_decision)
        → allowed_action_decision_publisher s.config kind ≡ true
    pub alive : Message.is_expired m (E.current_millis s.world).0 ≡ ok false

  pub publish-fan_out :
      (topic : String) (m : Message) (emit : Bool) (kind : PublisherKind) (s : Server L E)
      → Admitted m kind s
      → publish L E P topic m emit kind s
        ≡ fan_out L E P topic m emit
            (E.current_millis s.world).0
            (record s { world = (E.current_millis s.world).1 })
  unfolding publish
  publish-fan_out topic m emit kind s a =
      let acl : ((m.header.schema_id == ct_action_decision)
            && not (allowed_action_decision_publisher s.config kind))
          ≡ false =
        ground (arith, a.permitted) in
      simp (a.is_open, acl, a.alive)

  -- A publish that its checks admit reports a backpressure timeout if some subscriber's delivery
  -- timed out, else that the channel is closed if some subscriber's was, else success, in whatever
  -- order the subscribers met their errors.
  pub publish-verdict :
      (topic : String) (m : Message) (emit : Bool) (kind : PublisherKind) (s : Server L E)
      → Admitted m kind s
      → (publish L E P topic m emit kind s).0
        ≡ verdict topic (
            outcomes
              (subscribers_of topic s)
              topic
              m
              (E.current_millis s.world).0
              emit
              (count L E inc_published (record s { world = (E.current_millis s.world).1 })))
  publish-verdict topic m emit kind s a =
      let (now, w) = E.current_millis s.world in
      ap (λ r. r.0) (publish-fan_out topic m emit kind s a)
      ∙ fan_out-verdict topic m emit now (record s { world = w })
