-- ===== src/Runtime/Audit.antt =====
-- crates/runtime/src/audit.rs: the ring buffer of audit events. An event's time is the clock's, given.
use mathlib.Core.List.{append-nil, append_assoc}
use runloop.Prelude.{
  ℕ, zero, suc, ◌+◌, ◌-◌, ◌≤◌, ◌<◌, ◌≡◌, refl, sym, ap, ◌∙◌, inl, inr, true, false, List, [], ◌∷◌,
  ◌++◌, arith, leb, if◌then◌else◌, Bool-cases, ◌==◌, length, length-append, drop, length-drop,
  nat_eq,
}
use runloop.Runtime.Text.{Text}

pub data AuditCategory : Type 0 where
  capability_denied host_error : AuditCategory

-- `AuditDecision` and `AuditSeverity` are of crates/kb/src/lib.rs.
pub data AuditDecision : Type 0 where
  allow deny : AuditDecision

pub data AuditSeverity : Type 0 where
  info warn error : AuditSeverity

pub record AuditEvent : Type 0 where
  pub ts_ms : ℕ
  pub category : AuditCategory
  pub message : Text

pub record AuditSink : Type 0 where
  pub capacity : ℕ
  pub events : List AuditEvent

abbrev pub pop_front : List AuditEvent → List AuditEvent
pop_front [] = []
pop_front (e ∷ es) = es

unfoldable pub record_event : AuditEvent → AuditSink → AuditSink
record_event event sink =
    let kept : List AuditEvent =
      if length sink.events == sink.capacity then pop_front sink.events else sink.events in
    record sink { events = kept ++ event ∷ [] }

-- the events recorded one after another
unfoldable pub record_events : List AuditEvent → AuditSink → AuditSink
record_events [] sink = sink
record_events (e ∷ es) sink = record_events es (record_event e sink)

-- the last `n` of a list
abbrev pub last : ℕ → List AuditEvent → List AuditEvent
last n xs = drop (length xs - n) xs

drop-append_le :
    (n : ℕ) (xs ys : List AuditEvent) → n ≤ length xs → drop n (xs ++ ys) ≡ drop n xs ++ ys
drop-append_le zero xs ys le = refl
drop-append_le (suc n) [] ys le = absurd (omega arith)
drop-append_le (suc n) (x ∷ xs) ys le = drop-append_le n xs ys (omega arith)

pop_front-drop :
    (n : ℕ) (xs : List AuditEvent) → n < length xs → pop_front (drop n xs) ≡ drop (suc n) xs
pop_front-drop n [] lt = absurd (omega arith)
pop_front-drop zero (x ∷ xs) lt = refl
pop_front-drop (suc n) (x ∷ xs) lt = pop_front-drop n xs (omega arith)

-- one more event, where the sink holds the last of a history
record_event-last :
    (history : List AuditEvent) (event : AuditEvent) (sink : AuditSink)
    → 0 < sink.capacity
    → sink.events ≡ last sink.capacity history
    → (record_event event sink).events ≡ last sink.capacity (history ++ event ∷ [])
unfolding record_event
record_event-last history event sink pos e =
    let cut = length history - sink.capacity in
    let kept : length sink.events ≡ length history - cut = ap length e ∙ length-drop cut history in
    let grown : length (history ++ event ∷ []) ≡ length history + 1 =
      length-append history (event ∷ []) in
    elim (Bool-cases (leb sink.capacity (length history))) [
      | inl full ↦
          let at_capacity : (length sink.events == sink.capacity) ≡ true = ground arith in
          let moved : length (history ++ event ∷ []) - sink.capacity ≡ suc cut = ground arith in
          rw (at_capacity, moved, e, pop_front-drop cut history (ground arith))
            (sym (drop-append_le (suc cut) history (event ∷ []) (ground arith)))
      | inr room ↦
          let below : (length sink.events == sink.capacity) ≡ false = ground arith in
          let whole : cut ≡ 0 = ground arith in
          let still : length (history ++ event ∷ []) - sink.capacity ≡ 0 = ground arith in
          rw (below, still, e, whole) refl
    ]

-- A sink of positive capacity that holds the last events of a history, up to its capacity, still
-- does so after any further events are recorded, for the history with those events.
pub record_events-last :
    (events history : List AuditEvent) (sink : AuditSink)
    → 0 < sink.capacity
    → sink.events ≡ last sink.capacity history
    → (record_events events sink).events ≡ last sink.capacity (history ++ events)
unfolding record_events record_event
record_events-last [] history sink pos e = e ∙ sym (ap (last sink.capacity) (append-nil history))
record_events-last (x ∷ xs) history sink pos e =
    record_events-last xs (history ++ x ∷ []) (record_event x sink) pos
      (record_event-last history x sink pos e)
    ∙ ap (last sink.capacity) (append_assoc history (x ∷ []) xs)
