-- ===== src/Bus/Publish/Settled.antt =====
-- The subscribers' dedupe caches after a publish of crates/bus/src/lib.rs.
use runloop.Prelude.{
  ℕ, String, ◌≡◌, refl, ap, ◌∙◌, Bool, true, false, not, none, List, [], ◌∷◌, ◌++◌, arith, ◌==◌,
  beq_refl, any, All, All-append, nat_eq, string_eq,
}
use runloop.Rmp.Envelope.{MsgPack}
use runloop.Rmp.Header.{dedupe_key}
use runloop.Bus.Lru.{Key, Lru}
use runloop.Bus.Dedupe.{DedupeCache, DedupeReservation, reserve}
use runloop.Bus.Dedupe.Reserve.{holds, holds-reserve}
use runloop.Bus.Message.{Message, DropNotice, PublisherKind}
use runloop.Bus.Metrics.{inc_published}
use runloop.Bus.Env.{Env}
use runloop.Bus.Server.Ids.{Absent, Distinct}
use runloop.Bus.Server.{Server, Subscriber, DeliveryResult, count}
use runloop.Bus.Publish.{
  Pending, deliver, record_result, deliver_each, rollback_each, fan_out, publish,
}
use runloop.Bus.Publish.Outcome.{outcomes, subscribers_of, Admitted, publish-fan_out}
use runloop.Bus.Publish.Reservations.{
  s1, failed, pending_of, names, pendings, deliver-dedupes, deliver-pending, deliver_each-pending,
  deliver_each-Absent, any-append, any-pending_of, any-pendings, IsOpen, pending_of-IsOpen,
  pendings-IsOpen, holds-rollback_each,
}

-- None of the reservations is of one of the subscribers.
abbrev Clear : List Subscriber → List DedupeReservation → Type 0
Clear [] rs = Unit
Clear (sub ∷ subs) rs = (any (λ r. sub.id == r.cache) rs ≡ false) × Clear subs rs

module _ {Json : Type 0} (L : Lru) (E : Env) (P : MsgPack Json DropNotice) where
  -- the cache of each subscriber holds the key exactly when its delivery did not fail
  abbrev pub Settled : (ℕ → DedupeCache L) → Key → List Subscriber → List DeliveryResult → Type 0
  Settled dedupes key [] rs = Unit
  Settled dedupes key (sub ∷ subs) [] = ⊥
  Settled dedupes key (sub ∷ subs) (r ∷ rs) =
      (holds L (dedupes sub.id) key ≡ not (failed r)) × Settled dedupes key subs rs

  Clear-pending :
      (id : ℕ) (key : Key) (r : DeliveryResult) (subs : List Subscriber)
      (rs : List DedupeReservation)
      → Absent id subs
      → Clear subs rs
      → Clear subs (rs ++ pending_of id key r)
  Clear-pending id key r [] rs a c = tt
  Clear-pending id key r (sub ∷ subs) rs a c = (
    any-append L E P sub.id rs (pending_of id key r)
        ∙ ground (arith, any-pending_of L E P sub.id id key r, a.0, c.0),
    Clear-pending id key r subs rs a.1 c.1,
  )

  module _ (topic : String) (m : Message) (now : ℕ) (emit : Bool) where
    abbrev key : Key
    key = dedupe_key m.header

    abbrev final : List Subscriber → Pending L E P → Server L E → ℕ → DedupeCache L
    final subs acc s =
        let ((pending, _), s') = deliver_each L E P subs topic m now emit acc s in
        (rollback_each L E P pending s').dedupes

    module _ (sub : Subscriber) (subs : List Subscriber) (acc : Pending L E P)
        (s : Server L E) where
      abbrev r : DeliveryResult
      r = (deliver L E P sub topic m now emit s).0

      abbrev s' : Server L E
      s' = (deliver L E P sub topic m now emit s).1

      abbrev acc' : Pending L E P
      acc' = record_result L E P topic r acc

      abbrev rest : List DedupeReservation
      rest = pendings L E P subs key (outcomes L E P subs topic m now emit s')

      abbrev done : Pending L E P × Server L E
      done = deliver_each L E P subs topic m now emit acc' s'

      acc'-IsOpen : All (IsOpen L E P key) acc.0 → All (IsOpen L E P key) acc'.0
      acc'-IsOpen o = rw (deliver-pending L E P sub topic m now emit s acc) (
          All-append (IsOpen L E P key) acc.0 (pending_of sub.id key r) o
            (pending_of-IsOpen L E P sub.id key r))

      done-IsOpen : All (IsOpen L E P key) acc.0 → All (IsOpen L E P key) done.0.0
      done-IsOpen o = rw (deliver_each-pending L E P subs topic m now emit acc' s') (
          All-append (IsOpen L E P key) acc'.0 rest (acc'-IsOpen o)
            (pendings-IsOpen L E P subs key (outcomes L E P subs topic m now emit s')))

      -- the key was reserved, and no later delivery touched this cache
      held : Absent sub.id subs → holds L (done.1.dedupes sub.id) key ≡ true
      held a =
          let own : (s1 L E P sub topic m now emit s).dedupes sub.id
              ≡ (reserve L (s.dedupes sub.id) key now).0 =
            rw (beq_refl sub.id) in
          ap (λ d. holds L d key)
            (deliver_each-Absent L E P subs topic m now emit acc' s' sub.id a
              ∙ (ap (λ f. f sub.id) (deliver-dedupes L E P sub topic m now emit s) ∙ own))
          ∙ holds-reserve L (s.dedupes sub.id) key now

      -- it is named by its own reservation alone, if that is pending
      named :
          Absent sub.id subs
          → any (names L E P sub.id) acc.0 ≡ false
          → any (names L E P sub.id) done.0.0 ≡ failed r
      named a c =
          ap (any (names L E P sub.id)) (
            deliver_each-pending L E P subs topic m now emit acc' s'
            ∙ ap (λ z. z ++ rest) (deliver-pending L E P sub topic m now emit s acc))
          ∙ (any-append L E P sub.id (acc.0 ++ pending_of sub.id key r) rest
              ∙ ground (
                arith,
                any-append L E P sub.id acc.0 (pending_of sub.id key r),
                any-pending_of L E P sub.id sub.id key r,
                any-pendings L E P sub.id subs key (outcomes L E P subs topic m now emit s') a,
                c,
              ))

      head-settled :
          Absent sub.id subs
          → All (IsOpen L E P key) acc.0
          → any (names L E P sub.id) acc.0 ≡ false
          → holds L (final subs acc' s' sub.id) key ≡ not (failed r)
      head-settled a o c =
          holds-rollback_each L E P done.0.0 key done.1 sub.id (done-IsOpen o)
          ∙ rw (held a, named a c)

    deliver_each-Settled :
        (subs : List Subscriber) (acc : Pending L E P) (s : Server L E)
        → Distinct subs
        → All (IsOpen L E P key) acc.0
        → Clear subs acc.0
        → Settled (final subs acc s) key subs (outcomes L E P subs topic m now emit s)
    unfolding outcomes deliver_each
    deliver_each-Settled [] acc s d o c = tt
    deliver_each-Settled (sub ∷ subs) acc s d o c = (
      head-settled sub subs acc s d.0 o c.0,
      deliver_each-Settled subs (acc' sub subs acc s) (s' sub subs acc s) d.1
          (acc'-IsOpen sub subs acc s o)
          (rw (deliver-pending L E P sub topic m now emit s acc)
            (Clear-pending sub.id key (r sub subs acc s) subs acc.0 d.0 c.1)),
    )

    Clear-nil : (subs : List Subscriber) → Clear subs []
    unfolding any
    Clear-nil [] = tt
    Clear-nil (sub ∷ subs) = (refl, Clear-nil subs)

    fan_out-Settled :
        (s : Server L E)
        → Distinct (subscribers_of L E P topic s)
        → Settled (fan_out L E P topic m emit now s).1.dedupes key (subscribers_of L E P topic s) (
            outcomes L E P
              (subscribers_of L E P topic s)
              topic
              m
              now
              emit
              (count L E inc_published s))
    unfolding fan_out
    fan_out-Settled s d =
        deliver_each-Settled (subscribers_of L E P topic s) ([], none) (count L E inc_published s) d
          tt (Clear-nil (subscribers_of L E P topic s))

  -- After a publish that its checks admit, to subscribers with different ids, the dedupe cache of
  -- each subscriber holds the message's key exactly when that subscriber's delivery did not fail; a
  -- failed one is rolled back, so the message can be sent again.
  pub publish-Settled :
      (topic : String) (m : Message) (emit : Bool) (kind : PublisherKind) (s : Server L E)
      → Admitted L E P m kind s
      → Distinct (subscribers_of L E P topic s)
      → let (now, w) = E.current_millis s.world in
        Settled
          (publish L E P topic m emit kind s).1.dedupes
          (dedupe_key m.header)
          (subscribers_of L E P topic s)
          (outcomes L E P
            (subscribers_of L E P topic s)
            topic
            m
            now
            emit
            (count L E inc_published (record s { world = w })))
  publish-Settled topic m emit kind s a d =
      let (now, w) = E.current_millis s.world in
      rw (publish-fan_out L E P topic m emit kind s a)
        (fan_out-Settled topic m now emit (record s { world = w }) d)
