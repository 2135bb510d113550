-- ===== src/Bus/Dedupe/Window.antt =====
-- Runs of reservations on a dedupe cache of crates/bus/src/lib.rs, and the ideal window that they
-- are compared with.
use runloop.Prelude.{
  ℕ, ◌+◌, ◌≤◌, ◌<◌, max, ◌≡◌, refl, ◌∙◌, inl, inr, Bool, List, [], ◌∷◌, arith, Bool-cases, length,
  length-append,
}
use runloop.Bus.Lru.{Key, Entry, Lru}
use runloop.Bus.Dedupe.{DedupeCache, prune, contains, reserve, new}
use runloop.Bus.Dedupe.Prune.{IsTimed}
use runloop.Bus.Dedupe.Tracks.{
  recent, window_step, Tracks, IsTimed-mono, prune-Tracks, contains-recent, AgeKept, prune_kept,
  insert-Tracks, prune_again, size_of,
}

module _ (L : Lru) where
  -- One reservation at a time `now` that is not before the last one: it is accepted exactly when the
  -- ideal window accepts it, as long as the cache has room for one more entry.
  pub reserve-Tracks :
      (last now : ℕ) (d : DedupeCache L) (history : List Entry) (k : Key)
      → last ≤ now
      → Tracks L last d history
      → length history < size_of L d
      → ((reserve L d k now).1 ≡ (window_step d.max_age_ms k now history).1)
        × Tracks L now (reserve L d k now).0 (window_step d.max_age_ms k now history).0
        × AgeKept L d (reserve L d k now).0
  unfolding reserve contains
  reserve-Tracks last now d history k le t lt =
      let (age, size) = prune_kept L d now in
      let timed : IsTimed now (L.entries d.cache) =
        IsTimed-mono last now (L.entries d.cache) le t.timed in
      let pruned : Tracks L now (prune L d now) history = prune-Tracks L last now d history le t in
      let seen : L.contains (prune L d now).cache k ≡ recent d.max_age_ms k now history =
        contains-recent L last now d history k le t in
      elim (Bool-cases (recent d.max_age_ms k now history)) [
        | inl old ↦ rw (seen, old) (refl, pruned, (age, size))
        | inr young ↦
            let (tracks, (age', size')) =
              insert-Tracks L now (prune L d now) history k pruned (seen ∙ young)
                (prune_again L now d timed) (rw size lt) in
            rw (seen, young) (refl, tracks, (age' ∙ age, size' ∙ size))
      ]

  -- a run of reservations, each committed, and the same run of the ideal window
  unfoldable pub run : DedupeCache L → List Entry → List Bool
  run d [] = []
  run d ((k, now) ∷ calls) = (reserve L d k now).1 ∷ run (reserve L d k now).0 calls

unfoldable pub ideal : ℕ → List Entry → List Entry → List Bool
ideal age history [] = []
ideal age history ((k, now) ∷ calls) =
    (window_step age k now history).1 ∷ ideal age (window_step age k now history).0 calls

-- the times of a run, none before `last`
abbrev pub IsMonotone : ℕ → List Entry → Type 0
IsMonotone last [] = Unit
IsMonotone last ((k, now) ∷ calls) = (last ≤ now) × IsMonotone now calls

window_step-length :
    (age : ℕ) (k : Key) (now : ℕ) (history : List Entry)
    → length (window_step age k now history).0 ≤ length history + 1
window_step-length age k now history = ground (arith, length-append history ((k, now) ∷ []))

module _ (L : Lru) where
  run-ideal :
      (calls : List Entry) (last : ℕ) (d : DedupeCache L) (history : List Entry)
      → IsMonotone last calls
      → Tracks L last d history
      → length history + length calls ≤ L.capacity d.cache
      → run L d calls ≡ ideal d.max_age_ms history calls
  unfolding run ideal
  run-ideal [] last d history m t le = refl
  run-ideal ((k, now) ∷ calls) last d history m t le =
      let (result, tracks, (age, size)) =
        reserve-Tracks L last now d history k m.0 t (omega arith) in
      let d' : DedupeCache L = (reserve L d k now).0 in
      let ih : run L d' calls
          ≡ ideal d'.max_age_ms (window_step d.max_age_ms k now history).0 calls =
        run-ideal calls now d' (window_step d.max_age_ms k now history).0 m.1 tracks
          (omega (arith, size, window_step-length d.max_age_ms k now history)) in
      rw (result, ih, age)

  -- A new cache, given a run of at most `capacity` reservations at times that never go back,
  -- accepts exactly those that an ideal window accepts: those whose key has no accepted reservation
  -- within the last `max_age` milliseconds. A duplicate does not renew its key.
  pub run-new-ideal :
      (capacity max_age : ℕ) (calls : List Entry)
      → IsMonotone 0 calls
      → length calls ≤ capacity
      → run L (new L capacity max_age) calls ≡ ideal max_age [] calls
  unfolding new
  run-new-ideal capacity max_age calls m le =
      run-ideal calls 0 (record { cache = L.new (max capacity 1); max_age_ms = max_age }) [] m
        (record {
          timed = rw (L.entries-new (max capacity 1)) tt;
          same = λ t h. rw (L.entries-new (max capacity 1));
          room = rw (L.entries-new (max capacity 1)) (omega arith);
        })
        (rw (L.capacity-new (max capacity 1)) (omega arith))
