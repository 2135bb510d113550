-- ===== src/Bus/Dedupe/Prune.antt =====
-- `prune` of crates/bus/src/lib.rs on the entries of the cache.
use runloop.Prelude.{
  ℕ, zero, suc, ◌-◌, ◌≤◌, ◌≡◌, refl, ap, ◌∙◌, inl, inr, Bool, true, not, List, [], ◌∷◌, arith, ltb,
  if◌then◌else◌, Bool-cases, length, filter, All, All-imp,
}
use runloop.Bus.Lru.{Entry, Lru, tail}
use runloop.Bus.Dedupe.{DedupeCache, prune_loop, prune}

-- younger than the window
abbrev pub fresh : ℕ → ℕ → Entry → Bool
fresh max_age now e = not (ltb max_age (now - e.1))

unfoldable pub drop_stale : (Entry → Bool) → List Entry → List Entry
drop_stale p [] = []
drop_stale p (e ∷ l) = let rest = drop_stale p l in if p e then e ∷ l else rest

-- in order of time, none later than `now`
abbrev pub IsTimed : ℕ → List Entry → Type 0
IsTimed now [] = Unit
IsTimed now (e ∷ l) = (e.1 ≤ now) × All (λ x. e.1 ≤ x.1) l × IsTimed now l

drop_stale-sorted : (p : Entry → Bool) (l : List Entry) → All (λ e. p e ≡ true) l → filter p l ≡ l
unfolding filter
drop_stale-sorted p [] h = refl
drop_stale-sorted p (e ∷ l) h = rw (h.0, drop_stale-sorted p l h.1)

-- in a list in order of time the stale entries stand first
pub drop_stale-filter :
    (max_age now : ℕ) (l : List Entry)
    → IsTimed now l
    → drop_stale (fresh max_age now) l ≡ filter (fresh max_age now) l
unfolding drop_stale filter
drop_stale-filter max_age now [] h = refl
drop_stale-filter max_age now (e ∷ l) h = elim (Bool-cases (fresh max_age now e)) [
  | inl young ↦ rw (
    young,
    drop_stale-sorted (fresh max_age now) l
        (All-imp (λ x. e.1 ≤ x.1) (λ x. fresh max_age now x ≡ true) l (λ x le. ground arith) h.1),
  )
  | inr old ↦ rw old (drop_stale-filter max_age now l h.2)
]

module _ (L : Lru) where
  prune_loop-entries :
      (l : List Entry) (fuel : ℕ) (d : DedupeCache L) (now : ℕ)
      → L.entries d.cache ≡ l
      → length l ≤ fuel
      → (L.entries (prune_loop L fuel d now).cache ≡ drop_stale (fresh d.max_age_ms now) l)
        × ((prune_loop L fuel d now).max_age_ms ≡ d.max_age_ms)
        × (L.capacity (prune_loop L fuel d now).cache ≡ L.capacity d.cache)
  unfolding prune_loop drop_stale
  prune_loop-entries [] zero d now e h = (e, refl, refl)
  prune_loop-entries [] (suc fuel) d now e h = ground (arith, L.peek_lru-entries d.cache)
  prune_loop-entries (x ∷ l) zero d now e h = absurd (omega arith)
  prune_loop-entries (x ∷ l) (suc fuel) d now e h =
      let popped : DedupeCache L = record d { cache = L.pop_lru d.cache } in
      let ih =
        prune_loop-entries l fuel popped now (L.entries-pop_lru d.cache ∙ ap tail e)
          (omega arith) in
      ground (arith, L.peek_lru-entries d.cache, L.capacity-pop_lru d.cache, ih)

  -- `prune` drops the entries that are out of the window, from the least recently used on, up to the
  -- first that is not.
  pub prune-entries :
      (d : DedupeCache L) (now : ℕ)
      → (L.entries (prune L d now).cache ≡ drop_stale (fresh d.max_age_ms now) (L.entries d.cache))
        × ((prune L d now).max_age_ms ≡ d.max_age_ms)
        × (L.capacity (prune L d now).cache ≡ L.capacity d.cache)
  unfolding prune
  prune-entries d now =
      prune_loop-entries (L.entries d.cache) (length (L.entries d.cache)) d now refl (omega arith)
