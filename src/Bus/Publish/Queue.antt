-- ===== src/Bus/Publish/Queue.antt =====
-- What `publish` of crates/bus/src/lib.rs puts into the channels of its subscribers.
use mathlib.Core.List.{append-nil, append_assoc}
use runloop.Prelude.{
  ℕ, String, ◌≡◌, refl, sym, ap, ◌∙◌, Bool, false, not, ◌&&◌, none, List, [], ◌∷◌, ◌++◌, arith,
  ◌==◌, All, All-imp, string_eq, nat_eq,
}
use runloop.Rmp.Header.{dedupe_key}
use runloop.Rmp.Envelope.{MsgPack}
use runloop.Bus.Lru.{Lru}
use runloop.Bus.Dedupe.{DedupeCache, DedupeReservation, reserve}
use runloop.Bus.Message
use runloop.Bus.Message.{Message, PublisherKind, DropReason, DropNotice}
use runloop.Bus.Metrics.{inc_published}
use runloop.Bus.Env.{Env}
use runloop.Bus.Server.{Server, Subscriber, DeliveryResult, push_message, count}
use runloop.Bus.Server.Ids.{Absent, Distinct}
use runloop.Bus.Publish.{
  Pending, rollback, deliver, record_result, deliver_each, rollback_each, fan_out, publish,
}
use runloop.Bus.Publish.Notices.{
  copy_if, queue, remove_subscriber-queue, is_notice, messages, push_message-messages,
  note_drop-messages,
}
use runloop.Bus.Publish.Outcome.{outcomes, subscribers_of, Admitted, publish-fan_out}
use runloop.Bus.Publish.Reservations.{failed, s1, deliver-dedupes}

-- One copy for each subscriber, in the order of subscription, whose delivery succeeded and whose
-- dedupe cache did not refuse the message.
abbrev pub copies :
    (L : Lru)
    → (ℕ → DedupeCache L)
    → Message
    → ℕ
    → List Subscriber
    → List DeliveryResult
    → List (ℕ × Message)
copies L dedupes m now (sub ∷ subs) (r ∷ rs) =
    copy_if ((reserve L (dedupes sub.id) (dedupe_key m.header) now).1 && not (failed r)) sub.id m
    ++ copies L dedupes m now subs rs
copies L dedupes m now _ _ = []

module _ {Json : Type 0} (L : Lru) (E : Env) (P : MsgPack Json DropNotice) where
  deliver-messages :
      (sub : Subscriber) (topic : String) (m : Message) (now : ℕ) (emit : Bool) (s : Server L E)
      → is_notice m ≡ false
      → messages (queue L E (deliver L E P sub topic m now emit s).1)
        ≡ messages (queue L E s)
          ++ copy_if
              ((reserve L (s.dedupes sub.id) (dedupe_key m.header) now).1
                && not (failed (deliver L E P sub topic m now emit s).0))
              sub.id
              m
  unfolding deliver
  deliver-messages sub topic m now emit s h =
      let start = s1 L E P sub topic m now emit s in
      let (r, sent) = push_message L E sub m start in
      ground (
        arith,
        push_message-messages L E sub m start,
        note_drop-messages L E P topic m Message.duplicate emit start,
        note_drop-messages L E P topic m Message.backpressure emit sent,
        remove_subscriber-queue L E topic sub.id sent,
        append-nil (messages (queue L E s)),
      )

  -- the caches of other subscribers do not matter
  copies-cong :
      (d d' : ℕ → DedupeCache L) (m : Message) (now : ℕ) (subs : List Subscriber)
      (rs : List DeliveryResult)
      → All (λ sub. d sub.id ≡ d' sub.id) subs
      → copies L d m now subs rs ≡ copies L d' m now subs rs
  copies-cong d d' m now [] rs a = refl
  copies-cong d d' m now (sub ∷ subs) [] a = refl
  copies-cong d d' m now (sub ∷ subs) (r ∷ rs) a = rw (a.0, copies-cong d d' m now subs rs a.1) refl

  deliver-others :
      (sub : Subscriber) (topic : String) (m : Message) (now : ℕ) (emit : Bool) (s : Server L E)
      (subs : List Subscriber)
      → Absent sub.id subs
      → All (λ x. (deliver L E P sub topic m now emit s).1.dedupes x.id ≡ s.dedupes x.id) subs
  deliver-others sub topic m now emit s subs a =
      All-imp (λ x. (sub.id == x.id) ≡ false)
        (λ x. (deliver L E P sub topic m now emit s).1.dedupes x.id ≡ s.dedupes x.id) subs
        (λ x h. ap (λ f. f x.id) (deliver-dedupes L E P sub topic m now emit s) ∙ ground arith) a

  deliver_each-messages :
      (subs : List Subscriber) (topic : String) (m : Message) (now : ℕ) (emit : Bool)
      (acc : Pending L E P) (s : Server L E)
      → is_notice m ≡ false
      → Distinct subs
      → messages (queue L E (deliver_each L E P subs topic m now emit acc s).1)
        ≡ messages (queue L E s)
          ++ copies L s.dedupes m now subs (outcomes L E P subs topic m now emit s)
  unfolding deliver_each outcomes
  deliver_each-messages [] topic m now emit acc s h d = sym (append-nil (messages (queue L E s)))
  deliver_each-messages (sub ∷ subs) topic m now emit acc s h d =
      let (r, s') = deliver L E P sub topic m now emit s in
      let rest = outcomes L E P subs topic m now emit s' in
      let ih =
        deliver_each-messages subs topic m now emit (record_result L E P topic r acc) s' h d.1 in
      let same =
        copies-cong s'.dedupes s.dedupes m now subs rest
          (deliver-others sub topic m now emit s subs d.0) in
      ih
      ∙ rw (same, deliver-messages sub topic m now emit s h)
          (append_assoc (messages (queue L E s)) _ _)

  rollback_each-queue :
      (rs : List DedupeReservation) (s : Server L E)
      → queue L E (rollback_each L E P rs s) ≡ queue L E s
  unfolding rollback_each rollback
  rollback_each-queue [] s = refl
  rollback_each-queue (r ∷ rs) s = rollback_each-queue rs (rollback L E P r s) ∙ ground arith

  fan_out-messages :
      (topic : String) (m : Message) (emit : Bool) (now : ℕ) (s : Server L E)
      → is_notice m ≡ false
      → Distinct (subscribers_of L E P topic s)
      → messages (queue L E (fan_out L E P topic m emit now s).1)
        ≡ messages (queue L E s)
          ++ copies L s.dedupes m now (subscribers_of L E P topic s) (
              outcomes L E P
                (subscribers_of L E P topic s)
                topic
                m
                now
                emit
                (count L E inc_published s))
  unfolding fan_out
  fan_out-messages topic m emit now s h d =
      let s' = count L E inc_published s in
      let subs = subscribers_of L E P topic s in
      let done = deliver_each L E P subs topic m now emit ([], none) s' in
      ap messages (rollback_each-queue done.0.0 done.1)
      ∙ deliver_each-messages subs topic m now emit ([], none) s' h d

  -- A publish that its checks admit, of a message that is not itself a drop notice and to
  -- subscribers with different ids, adds to what has been queued, drop notices left aside, exactly
  -- one copy of the message for each subscriber whose dedupe cache did not refuse it and whose
  -- delivery did not fail, in the order of subscription, and nothing else, whether or not drops are
  -- to be announced.
  pub publish-queue :
      (topic : String) (m : Message) (emit : Bool) (kind : PublisherKind) (s : Server L E)
      → Admitted L E P m kind s
      → is_notice m ≡ false
      → Distinct (subscribers_of L E P topic s)
      → let (now, w) = E.current_millis s.world in
        messages (E.queued (publish L E P topic m emit kind s).1.world)
        ≡ messages (E.queued s.world)
          ++ copies L s.dedupes m now (subscribers_of L E P topic s) (
              outcomes L E P
                (subscribers_of L E P topic s)
                topic
                m
                now
                emit
                (count L E inc_published (record s { world = w })))
  publish-queue topic m emit kind s a h d =
      let (now, w) = E.current_millis s.world in
      ap (λ r. messages (queue L E r.1)) (publish-fan_out L E P topic m emit kind s a)
      ∙ (fan_out-messages topic m emit now (record s { world = w }) h d
          ∙ ap
              (λ q.
                messages q
                ++ copies L s.dedupes m now (subscribers_of L E P topic s) (
                    outcomes L E P (subscribers_of L E P topic s) topic m now emit
                      (count L E inc_published (record s { world = w }))))
              (E.queued-current_millis s.world))
