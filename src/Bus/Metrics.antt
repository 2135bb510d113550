-- ===== src/Bus/Metrics.antt =====
-- The counters of crates/bus/src/lib.rs and their snapshot.
use runloop.Prelude.{ℕ, ◌+◌, ◌%◌, ◌^◌}
use runloop.Bus.Message.{DropReason, ttl_expired, duplicate, backpressure}

-- the counters are `AtomicU64`, whose `fetch_add` wraps
abbrev pub u64_mod : ℕ
u64_mod = 2 ^ 64

pub record Metrics : Type 0 where
  pub published : ℕ
  pub delivered : ℕ
  pub drops_ttl : ℕ
  pub drops_duplicate : ℕ
  pub drops_backpressure : ℕ
  pub drop_msg_seq : ℕ

-- `Metrics::default()`
abbrev pub zero_counters : Metrics
zero_counters = record {
  published = 0;
  delivered = 0;
  drops_ttl = 0;
  drops_duplicate = 0;
  drops_backpressure = 0;
  drop_msg_seq = 0;
}

pub record BusStats : Type 0 where
  pub published : ℕ
  pub delivered : ℕ
  pub drops_ttl : ℕ
  pub drops_duplicate : ℕ
  pub drops_backpressure : ℕ
  pub queue_depth_max : ℕ
  pub queue_capacity_max : ℕ

abbrev bump : ℕ → ℕ
bump n = (n + 1) % u64_mod

unfoldable pub snapshot : Metrics → BusStats
snapshot m = record {
  published = m.published;
  delivered = m.delivered;
  drops_ttl = m.drops_ttl;
  drops_duplicate = m.drops_duplicate;
  drops_backpressure = m.drops_backpressure;
  queue_depth_max = 0;
  queue_capacity_max = 0;
}

unfoldable pub inc_published : Metrics → Metrics
inc_published m = record m { published = bump m.published }

unfoldable pub inc_delivered : Metrics → Metrics
inc_delivered m = record m { delivered = bump m.delivered }

unfoldable pub inc_drop : DropReason → Metrics → Metrics
inc_drop ttl_expired m = record m { drops_ttl = bump m.drops_ttl }
inc_drop duplicate m = record m { drops_duplicate = bump m.drops_duplicate }
inc_drop backpressure m = record m { drops_backpressure = bump m.drops_backpressure }

-- the counter is left at its next value, which is the number given
unfoldable pub next_drop_msg_id : Metrics → ℕ × Metrics
next_drop_msg_id m = (bump m.drop_msg_seq, record m { drop_msg_seq = bump m.drop_msg_seq })
