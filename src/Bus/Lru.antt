-- ===== src/Bus/Lru.antt =====
-- `LruCache` of the `lru` crate at the key and value types of crates/bus: an interface with the
-- documented behaviour of each call, told on the entries from the least recently used on.
use runloop.Prelude.{
  ℕ, ◌≡◌, refl, Bool, not, Option, none, some, List, [], ◌∷◌, ◌++◌, ltb, if◌then◌else◌, ◌==◌,
  length, filter, any, nat_eq, pair_eq,
}

-- `(trace_id, msg_id)`, and the time of the entry
abbrev pub Key : Type 0
Key = ℕ × ℕ

abbrev pub Entry : Type 0
Entry = Key × ℕ

abbrev pub has_key : Key → Entry → Bool
has_key k e = e.0 == k

abbrev pub head? : List Entry → Option Entry
head? [] = none
head? (e ∷ l) = some e

abbrev pub tail : List Entry → List Entry
tail [] = []
tail (e ∷ l) = l

abbrev pub without : Key → List Entry → List Entry
without k = filter (λ e. not (has_key k e))

-- a present key is moved to the end, and a new one evicts the first entry of a full cache
abbrev pub put_entry : ℕ → Key → ℕ → List Entry → List Entry
put_entry capacity k v l =
    if any (has_key k) l
    then without k l ++ (k, v) ∷ []
    else if ltb (length l) capacity
    then l ++ (k, v) ∷ []
    else tail l ++ (k, v) ∷ []

pub record Lru : Type 1 where
  pub Cache : Type 0
  pub new : ℕ → Cache
  pub contains : Cache → Key → Bool
  pub put : Cache → Key → ℕ → Cache
  pub pop : Cache → Key → Cache
  pub peek_lru : Cache → Option Entry
  pub pop_lru : Cache → Cache
  pub capacity : Cache → ℕ
  pub entries : Cache → List Entry
  pub entries-new : (n : ℕ) → entries (new n) ≡ []
  pub capacity-new : (n : ℕ) → capacity (new n) ≡ n
  pub contains-entries : (c : Cache) (k : Key) → contains c k ≡ any (has_key k) (entries c)
  pub peek_lru-entries : (c : Cache) → peek_lru c ≡ head? (entries c)
  pub entries-pop_lru : (c : Cache) → entries (pop_lru c) ≡ tail (entries c)
  pub capacity-pop_lru : (c : Cache) → capacity (pop_lru c) ≡ capacity c
  pub entries-pop : (c : Cache) (k : Key) → entries (pop c k) ≡ without k (entries c)
  pub capacity-pop : (c : Cache) (k : Key) → capacity (pop c k) ≡ capacity c
  pub entries-put :
      (c : Cache) (k : Key) (v : ℕ) → entries (put c k v) ≡ put_entry (capacity c) k v (entries c)
  pub capacity-put : (c : Cache) (k : Key) (v : ℕ) → capacity (put c k v) ≡ capacity c

-- a cache that is its capacity and its entries
pub record ListCache : Type 0 where
  pub size : ℕ
  pub items : List Entry

abbrev pub list_lru : Lru
list_lru = record {
  Cache = ListCache;
  new = λ n. record { size = n; items = [] };
  contains = λ c k. any (has_key k) c.items;
  put = λ c k v. record c { items = put_entry c.size k v c.items };
  pop = λ c k. record c { items = without k c.items };
  peek_lru = λ c. head? c.items;
  pop_lru = λ c. record c { items = tail c.items };
  capacity = λ c. c.size;
  entries = λ c. c.items;
  entries-new = λ n. refl;
  capacity-new = λ n. refl;
  contains-entries = λ c k. refl;
  peek_lru-entries = λ c. refl;
  entries-pop_lru = λ c. refl;
  capacity-pop_lru = λ c. refl;
  entries-pop = λ c k. refl;
  capacity-pop = λ c k. refl;
  entries-put = λ c k v. refl;
  capacity-put = λ c k v. refl;
}
