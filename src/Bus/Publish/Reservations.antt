-- ===== src/Bus/Publish/Reservations.antt =====
-- The reservations that the deliveries of crates/bus/src/lib.rs leave pending.
use mathlib.Core.List.{append-nil, append_assoc}
use runloop.Prelude.{
  ℕ, String, ◌≡◌, refl, sym, ap, ◌∙◌, Bool, false, not, ◌&&◌, ◌||◌, List, [], ◌∷◌, ◌++◌, arith,
  if◌then◌else◌, ◌==◌, any, All, All-append, nat_eq, string_eq,
}
use runloop.Rmp.Error.{Result}
use runloop.Rmp.Envelope.{MsgPack}
use runloop.Rmp.Header.{dedupe_key}
use runloop.Bus.Lru.{Key, Lru}
use runloop.Bus.Dedupe.{DedupeCache, DedupeReservation, reserve}
use runloop.Bus.Dedupe.Reserve.{holds, holds-remove}
use runloop.Bus.Message.{Message, DropNotice, duplicate, backpressure}
use runloop.Bus.Env.{Env}
use runloop.Bus.Server.Ids.{Absent}
use runloop.Bus.Server.{Server, Subscriber, DeliveryResult, PushError, set_dedupe, push_message}
use runloop.Bus.Publish.{Pending, deliver, record_result, deliver_each, rollback, rollback_each}
use runloop.Bus.Publish.Keeps.{push_message-Keeps, remove_subscriber-Keeps, note_drop-Keeps}
use runloop.Bus.Publish.Outcome.{is_closed, is_timed_out, outcomes}

abbrev pub failed : DeliveryResult → Bool
failed r = is_closed r || is_timed_out r

abbrev pub reservation_of : ℕ → Key → DedupeReservation
reservation_of id key = record { cache = id; key = key; committed = false }

-- the reservation that a delivery leaves pending
abbrev pub pending_of : ℕ → Key → DeliveryResult → List DedupeReservation
pending_of id key r = if failed r then reservation_of id key ∷ [] else []

module _ {Json : Type 0} (L : Lru) (E : Env) (P : MsgPack Json DropNotice) where
  module _ (sub : Subscriber) (topic : String) (m : Message) (now : ℕ) (emit : Bool)
      (s : Server L E) where
    abbrev pub reserved : DedupeCache L × Bool
    reserved = reserve L (s.dedupes sub.id) (dedupe_key m.header) now

    abbrev pub s1 : Server L E
    s1 = set_dedupe L E sub.id reserved.0 s

    abbrev pushed : Result PushError (Unit {0}) × Server L E
    pushed = push_message L E sub m s1

    pub deliver-dedupes : (deliver L E P sub topic m now emit s).1.dedupes ≡ s1.dedupes
    unfolding deliver
    deliver-dedupes = ground (
      arith,
      (note_drop-Keeps L E P topic m duplicate emit s1).dedupes,
      (note_drop-Keeps L E P topic m backpressure emit pushed.1).dedupes,
      (push_message-Keeps L E sub m s1).dedupes,
      (remove_subscriber-Keeps L E topic sub.id pushed.1).dedupes,
    )

    pub deliver-pending :
        (acc : Pending L E P)
        → (record_result L E P topic (deliver L E P sub topic m now emit s).0 acc).0
          ≡ acc.0
            ++ pending_of sub.id (dedupe_key m.header) (deliver L E P sub topic m now emit s).0
    unfolding deliver record_result
    deliver-pending acc = ground (arith, append-nil acc.0)

  -- every reservation that the deliveries leave pending
  unfoldable pub pendings : List Subscriber → Key → List DeliveryResult → List DedupeReservation
  pendings (sub ∷ subs) key (r ∷ rs) = pending_of sub.id key r ++ pendings subs key rs
  pendings _ key _ = []

  pub deliver_each-pending :
      (subs : List Subscriber) (topic : String) (m : Message) (now : ℕ) (emit : Bool)
      (acc : Pending L E P) (s : Server L E)
      → (deliver_each L E P subs topic m now emit acc s).0.0
        ≡ acc.0 ++ pendings subs (dedupe_key m.header) (outcomes L E P subs topic m now emit s)
  unfolding deliver_each outcomes pendings
  deliver_each-pending [] topic m now emit acc s = sym (append-nil acc.0)
  deliver_each-pending (sub ∷ subs) topic m now emit acc s =
      let (r, s') = deliver L E P sub topic m now emit s in
      let key = dedupe_key m.header in
      deliver_each-pending subs topic m now emit (record_result L E P topic r acc) s'
      ∙ rw (deliver-pending sub topic m now emit s acc) (
          append_assoc acc.0 (pending_of sub.id key r)
            (pendings subs key (outcomes L E P subs topic m now emit s')))

  pub deliver_each-Absent :
      (subs : List Subscriber) (topic : String) (m : Message) (now : ℕ) (emit : Bool)
      (acc : Pending L E P) (s : Server L E) (id : ℕ)
      → Absent id subs
      → (deliver_each L E P subs topic m now emit acc s).1.dedupes id ≡ s.dedupes id
  unfolding deliver_each
  deliver_each-Absent [] topic m now emit acc s id a = refl
  deliver_each-Absent (sub ∷ subs) topic m now emit acc s id a =
      let (r, s') = deliver L E P sub topic m now emit s in
      deliver_each-Absent subs topic m now emit (record_result L E P topic r acc) s' id a.1
      ∙ (ap (λ f. f id) (deliver-dedupes sub topic m now emit s) ∙ rw a.0)

  abbrev pub names : ℕ → DedupeReservation → Bool
  names id r = id == r.cache

  pub any-append :
      (id : ℕ) (xs ys : List DedupeReservation)
      → any (names id) (xs ++ ys) ≡ (any (names id) xs || any (names id) ys)
  unfolding any
  any-append id [] ys = refl
  any-append id (x ∷ xs) ys = ground (arith, any-append id xs ys)

  pub any-pending_of :
      (id own : ℕ) (key : Key) (r : DeliveryResult)
      → any (names id) (pending_of own key r) ≡ ((id == own) && failed r)
  unfolding any
  any-pending_of id own key r = ground arith

  pub any-pendings :
      (id : ℕ) (subs : List Subscriber) (key : Key) (rs : List DeliveryResult)
      → Absent id subs
      → any (names id) (pendings subs key rs) ≡ false
  unfolding pendings any
  any-pendings id [] key rs a = refl
  any-pendings id (sub ∷ subs) key [] a = refl
  any-pendings id (sub ∷ subs) key (r ∷ rs) a =
      any-append id (pending_of sub.id key r) (pendings subs key rs)
      ∙ ground (arith, any-pending_of id sub.id key r, any-pendings id subs key rs a.1)

  abbrev pub IsOpen : Key → DedupeReservation → Type 0
  IsOpen key r = (r.key ≡ key) × (r.committed ≡ false)

  pub pending_of-IsOpen :
      (id : ℕ) (key : Key) (r : DeliveryResult) → All (IsOpen key) (pending_of id key r)
  pending_of-IsOpen id key DeliveryResult.delivered = tt
  pending_of-IsOpen id key (DeliveryResult.channel_closed _) = ((refl, refl), tt)
  pending_of-IsOpen id key (DeliveryResult.backpressure_timed_out _) = ((refl, refl), tt)

  pub pendings-IsOpen :
      (subs : List Subscriber) (key : Key) (rs : List DeliveryResult)
      → All (IsOpen key) (pendings subs key rs)
  unfolding pendings
  pendings-IsOpen [] key rs = tt
  pendings-IsOpen (sub ∷ subs) key [] = tt
  pendings-IsOpen (sub ∷ subs) key (r ∷ rs) =
      All-append (IsOpen key) (pending_of sub.id key r) (pendings subs key rs)
        (pending_of-IsOpen sub.id key r) (pendings-IsOpen subs key rs)

  -- a rollback takes the key out of the caches that the reservations name, and of no other
  holds-rollback :
      (r : DedupeReservation) (key : Key) (s : Server L E) (id : ℕ)
      → IsOpen key r
      → holds L ((rollback L E P r s).dedupes id) key
        ≡ (holds L (s.dedupes id) key && not (names id r))
  unfolding rollback
  holds-rollback r key s id o = ground (arith, holds-remove L (s.dedupes r.cache) r.key)

  pub holds-rollback_each :
      (rs : List DedupeReservation) (key : Key) (s : Server L E) (id : ℕ)
      → All (IsOpen key) rs
      → holds L ((rollback_each L E P rs s).dedupes id) key
        ≡ (holds L (s.dedupes id) key && not (any (names id) rs))
  unfolding rollback_each any
  holds-rollback_each [] key s id o = ground arith
  holds-rollback_each (r ∷ rs) key s id o =
      holds-rollback_each rs key (rollback L E P r s) id o.1
      ∙ ground (arith, holds-rollback r key s id o.0)
