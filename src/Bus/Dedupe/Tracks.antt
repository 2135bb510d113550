-- ===== src/Bus/Dedupe/Tracks.antt =====
-- The entries of a dedupe cache of crates/bus/src/lib.rs beside the history of what it accepted.
use runloop.Prelude.{
  ℕ, ◌≤◌, ◌<◌, ◌≡◌, sym, ap, ◌∙◌, Bool, true, false, List, [], ◌∷◌, ◌++◌, arith, ltb, if◌then◌else◌,
  length, length-append, filter, any, All, All-append, All-filter, filter-append, filter-filter,
  length-filter-le,
}
use runloop.Bus.Lru.{Key, Entry, Lru, has_key}
use runloop.Bus.Dedupe.{DedupeCache, prune, insert}
use runloop.Bus.Dedupe.Prune.{fresh, IsTimed, drop_stale-filter, prune-entries}

pub IsTimed-mono : (now later : ℕ) (l : List Entry) → now ≤ later → IsTimed now l → IsTimed later l
IsTimed-mono now later [] le h = tt
IsTimed-mono now later (e ∷ l) le h = (omega arith, h.1, IsTimed-mono now later l le h.2)

IsTimed-filter :
    (p : Entry → Bool) (now : ℕ) (l : List Entry) → IsTimed now l → IsTimed now (filter p l)
unfolding filter
IsTimed-filter p now [] h = tt
IsTimed-filter p now (e ∷ l) h =
    elim (p e) as (λ t. IsTimed now (if t then e ∷ filter p l else filter p l)) [
      | true ↦ (h.0, All-filter (λ x. e.1 ≤ x.1) p l h.1, IsTimed-filter p now l h.2)
      | false ↦ IsTimed-filter p now l h.2
    ]

IsTimed-le : (now : ℕ) (l : List Entry) → IsTimed now l → All (λ e. e.1 ≤ now) l
IsTimed-le now [] h = tt
IsTimed-le now (e ∷ l) h = (h.0, IsTimed-le now l h.2)

IsTimed-snoc :
    (now : ℕ) (l : List Entry) (k : Key) → IsTimed now l → IsTimed now (l ++ (k, now) ∷ [])
IsTimed-snoc now [] k h = omega arith
IsTimed-snoc now (e ∷ l) k h =
    (h.0, All-append (λ x. e.1 ≤ x.1) l ((k, now) ∷ []) h.1 (h.0, tt), IsTimed-snoc now l k h.2)

fresh-antitone :
    (age now later : ℕ) (e : Entry)
    → now ≤ later
    → fresh age later e ≡ true
    → fresh age now e ≡ true
fresh-antitone age now later e le h = ground arith

-- The accepted reservations, oldest first. A key is recent if one of them within the window has it.
abbrev pub recent : ℕ → Key → ℕ → List Entry → Bool
recent age k now history = any (has_key k) (filter (fresh age now) history)

-- what is accepted is remembered; a duplicate leaves no trace, so it does not renew its key
abbrev pub window_step : ℕ → Key → ℕ → List Entry → List Entry × Bool
window_step age k now history =
    if recent age k now history then (history, false) else (history ++ (k, now) ∷ [], true)

module _ (L : Lru) where
  pub record Tracks (now : ℕ) (d : DedupeCache L) (history : List Entry) : Type 0 where
    pub timed : IsTimed now (L.entries d.cache)
    pub same :
        (t : ℕ)
        → now ≤ t
        → filter (fresh d.max_age_ms t) (L.entries d.cache) ≡ filter (fresh d.max_age_ms t) history
    pub room : length (L.entries d.cache) ≤ length history

  -- Where the entries of a cache stand in order of time, none later than `now`, `prune` leaves
  -- exactly those that are still within the cache's maximal age, in their order.
  pub prune-filter :
      (d : DedupeCache L) (now : ℕ)
      → IsTimed now (L.entries d.cache)
      → L.entries (prune L d now).cache ≡ filter (fresh d.max_age_ms now) (L.entries d.cache)
  prune-filter d now h =
      (prune-entries L d now).0 ∙ drop_stale-filter d.max_age_ms now (L.entries d.cache) h

  pub prune-Tracks :
      (now later : ℕ) (d : DedupeCache L) (history : List Entry)
      → now ≤ later
      → Tracks now d history
      → Tracks later (prune L d later) history
  prune-Tracks now later d history le t =
      let timed : IsTimed later (L.entries d.cache) =
        IsTimed-mono now later (L.entries d.cache) le t.timed in
      let eq : L.entries (prune L d later).cache
          ≡ filter (fresh d.max_age_ms later) (L.entries d.cache) =
        prune-filter d later timed in
      let age : (prune L d later).max_age_ms ≡ d.max_age_ms = (prune-entries L d later).1 in
      record {
        timed = rw eq (IsTimed-filter (fresh d.max_age_ms later) later (L.entries d.cache) timed);
        same = λ s hs.
            rw
              (
                age,
                eq,
                filter-filter (fresh d.max_age_ms later) (fresh d.max_age_ms s) (L.entries d.cache)
                    (λ e. fresh-antitone d.max_age_ms later s e hs),
              )
              (t.same s (omega arith));
        room = rw eq (
            omega (arith, length-filter-le (fresh d.max_age_ms later) (L.entries d.cache), t.room));
      }

  abbrev pub size_of : DedupeCache L → ℕ
  size_of d = L.capacity d.cache

  -- a new key put into a cache with room
  put-Tracks :
      (now : ℕ) (d : DedupeCache L) (history : List Entry) (k : Key)
      → Tracks now d history
      → any (has_key k) (L.entries d.cache) ≡ false
      → length history < size_of d
      → Tracks now (record d { cache = L.put d.cache k now }) (history ++ (k, now) ∷ [])
  put-Tracks now d history k t absent lt =
      let room : ltb (length (L.entries d.cache)) (size_of d) ≡ true = ground (arith, t.room) in
      let put : L.entries (L.put d.cache k now) ≡ L.entries d.cache ++ (k, now) ∷ [] =
        L.entries-put d.cache k now ∙ rw (absent, room) in
      record {
        timed = rw put (IsTimed-snoc now (L.entries d.cache) k t.timed);
        same = λ s hs. rw (
          put,
          filter-append (fresh d.max_age_ms s) (L.entries d.cache) ((k, now) ∷ []),
          filter-append (fresh d.max_age_ms s) history ((k, now) ∷ []),
          t.same s hs,
        );
        room = rw put (
            omega (
              arith,
              t.room,
              length-append (L.entries d.cache) ((k, now) ∷ []),
              length-append history ((k, now) ∷ []),
            ));
      }

  pub contains-recent :
      (now later : ℕ) (d : DedupeCache L) (history : List Entry) (k : Key)
      → now ≤ later
      → Tracks now d history
      → L.contains (prune L d later).cache k ≡ recent d.max_age_ms k later history
  contains-recent now later d history k le t =
      let timed : IsTimed later (L.entries d.cache) =
        IsTimed-mono now later (L.entries d.cache) le t.timed in
      L.contains-entries (prune L d later).cache k
      ∙ ap (any (has_key k)) (prune-filter d later timed ∙ t.same later le)

  abbrev pub AgeKept : DedupeCache L → DedupeCache L → Type 0
  AgeKept d d' = (d'.max_age_ms ≡ d.max_age_ms) × (size_of d' ≡ size_of d)

  pub prune_kept : (d : DedupeCache L) (now : ℕ) → AgeKept d (prune L d now)
  prune_kept d now = ((prune-entries L d now).1, (prune-entries L d now).2)

  pub insert-Tracks :
      (now : ℕ) (d : DedupeCache L) (history : List Entry) (k : Key)
      → Tracks now d history
      → L.contains d.cache k ≡ false
      → L.entries (prune L d now).cache ≡ L.entries d.cache
      → length history < size_of d
      → Tracks now (insert L d k now) (history ++ (k, now) ∷ []) × AgeKept d (insert L d k now)
  unfolding insert
  insert-Tracks now d history k t absent same lt =
      let (age, size) = prune_kept d now in
      (
        put-Tracks now (prune L d now) history k (prune-Tracks now now d history (omega arith) t)
            (rw same (sym (L.contains-entries d.cache k) ∙ absent)) (rw size lt),
        (age, L.capacity-put (prune L d now).cache k now ∙ size),
      )

  pub prune_again :
      (now : ℕ) (d : DedupeCache L)
      → IsTimed now (L.entries d.cache)
      → L.entries (prune L (prune L d now) now).cache ≡ L.entries (prune L d now).cache
  prune_again now d h =
      let (age, _) = prune_kept d now in
      let eq : L.entries (prune L d now).cache
          ≡ filter (fresh d.max_age_ms now) (L.entries d.cache) =
        prune-filter d now h in
      prune-filter (prune L d now) now
        (rw eq (IsTimed-filter (fresh d.max_age_ms now) now (L.entries d.cache) h))
      ∙ rw (age, eq)
          (filter-filter (fresh d.max_age_ms now) (fresh d.max_age_ms now) (L.entries d.cache)
            (λ e h'. h'))
