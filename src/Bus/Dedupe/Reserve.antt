-- ===== src/Bus/Dedupe/Reserve.antt =====
-- Which keys a dedupe cache of crates/bus/src/lib.rs holds after a call.
use runloop.Prelude.{
  ℕ, ◌≡◌, refl, ap, ◌∙◌, ◌≢◌, Bool, true, false, List, [], ◌∷◌, ◌++◌, arith, beq_refl, filter, any,
  nat_eq, pair_eq, pair_beq_iff,
}
use runloop.Bus.Lru.{Key, Entry, Lru, has_key, put_entry, without, tail}
use runloop.Bus.Dedupe.{DedupeCache, prune, contains, insert, remove, reserve}

any-append :
    (k : Key) (l r : List Entry) → any (has_key k) r ≡ true → any (has_key k) (l ++ r) ≡ true
unfolding any
any-append k [] r h = h
any-append k (e ∷ l) r h = ground (arith, any-append k l r h)

any-without : (k : Key) (l : List Entry) → any (has_key k) (without k l) ≡ false
unfolding any filter
any-without k [] = refl
any-without k (e ∷ l) = ground (arith, any-without k l)

any-without_ne :
    (k j : Key) (l : List Entry) → k ≢ j → any (has_key j) (without k l) ≡ any (has_key j) l
unfolding any filter
any-without_ne k j [] n = refl
any-without_ne k j (e ∷ l) n =
    ground (arith, any-without_ne k j l n, pair_beq_iff e.0 k, pair_beq_iff e.0 j)

self : (k : Key) (v : ℕ) → any (has_key k) ((k, v) ∷ []) ≡ true
unfolding any
self k v = ground (arith, beq_refl k)

put_entry-has :
    (c : ℕ) (k : Key) (v : ℕ) (l : List Entry) → any (has_key k) (put_entry c k v l) ≡ true
put_entry-has c k v l = ground (
  arith,
  any-append k (without k l) ((k, v) ∷ []) (self k v),
  any-append k l ((k, v) ∷ []) (self k v),
  any-append k (tail l) ((k, v) ∷ []) (self k v),
)

module _ (L : Lru) where
  abbrev pub holds : DedupeCache L → Key → Bool
  holds d k = L.contains d.cache k

  -- whether it is accepted or a duplicate
  pub holds-reserve : (d : DedupeCache L) (k : Key) (now : ℕ) → holds (reserve L d k now).0 k ≡ true
  unfolding reserve contains insert
  holds-reserve d k now =
      let d' = prune L d now in
      let d'' = prune L d' now in
      ground (
        arith,
        L.contains-entries (L.put d''.cache k now) k,
        L.entries-put d''.cache k now,
        put_entry-has (L.capacity d''.cache) k now (L.entries d''.cache),
      )

  pub holds-remove : (d : DedupeCache L) (k : Key) → holds (remove L d k) k ≡ false
  unfolding remove
  holds-remove d k =
      L.contains-entries (L.pop d.cache k) k
      ∙ (ap (any (has_key k)) (L.entries-pop d.cache k) ∙ any-without k (L.entries d.cache))
