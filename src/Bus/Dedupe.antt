-- ===== src/Bus/Dedupe.antt =====
-- `DedupeCache` and the reservations of crates/bus/src/lib.rs. The proofs are in the modules below.
pub mod Prune
pub mod Reserve
pub mod Tracks
pub mod Window
use runloop.Prelude.{
  ℕ, zero, suc, ◌-◌, max, Bool, true, false, none, some, ltb, if◌then◌else◌, length,
}
use runloop.Bus.Lru.{Key, Lru}

module _ (L : Lru) where
  pub record DedupeCache : Type 0 where
    pub cache : L.Cache
    pub max_age_ms : ℕ

  unfoldable pub new : ℕ → ℕ → DedupeCache
  new capacity max_age_ms = record { cache = L.new (max capacity 1); max_age_ms = max_age_ms }

  -- The `while let` of `prune`, for at most `fuel` entries. `now - ts` is the saturating difference.
  unfoldable pub prune_loop : ℕ → DedupeCache → ℕ → DedupeCache
  prune_loop zero d now = d
  prune_loop (suc fuel) d now = elim (L.peek_lru d.cache) [
    | none ↦ d
    | some (_, ts) ↦
        let rest = prune_loop fuel (record d { cache = L.pop_lru d.cache }) now in
        if ltb d.max_age_ms (now - ts) then rest else d
  ]

  -- one round for each entry
  unfoldable pub prune : DedupeCache → ℕ → DedupeCache
  prune d now = prune_loop (length (L.entries d.cache)) d now

  unfoldable pub contains : DedupeCache → Key → ℕ → DedupeCache × Bool
  contains d key now = let d' = prune d now in (d', L.contains d'.cache key)

  unfoldable pub insert : DedupeCache → Key → ℕ → DedupeCache
  insert d key now = let d' = prune d now in record d' { cache = L.put d'.cache key now }

  unfoldable pub remove : DedupeCache → Key → DedupeCache
  remove d key = record d { cache = L.pop d.cache key }

  -- `Subscriber::reserve` on the subscriber's cache: `false` for `Duplicate`, `true` for a reservation
  unfoldable pub reserve : DedupeCache → Key → ℕ → DedupeCache × Bool
  reserve d key now =
      let (d', duplicate) = contains d key now in
      if duplicate then (d', false) else (insert d' key now, true)

-- `DedupeReservation`; its cache is named by the subscriber that made it.
pub record DedupeReservation : Type 0 where
  pub cache : ℕ
  pub key : Key
  pub committed : Bool

abbrev pub commit : DedupeReservation → DedupeReservation
commit r = record r { committed = true }
