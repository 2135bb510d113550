-- ===== src/Rmp/Header/Expiry.antt =====
-- The expiry of a message, in crates/rmp/src/header.rs.
use runloop.Prelude.{ℕ, ◌+◌, ◌≤◌, ◌<◌, ◌≡◌, ◌↔◌, true, false, arith, nat_eq}
use runloop.Rmp.Error.{ok, err, invalid_ttl, invalid_expiry}
use runloop.Rmp.Header.{Header, u64_max, expires_at_ms, is_expired}

-- A message has expired at `now` exactly when its lifetime is positive, its expiry time fits 64
-- bits and `now` has reached it; it is alive exactly when `now` is before it, under the same two
-- conditions; the check fails with `invalid_ttl 0` exactly when the lifetime is 0, and with
-- `invalid_expiry` exactly when the lifetime is positive and the sum is too large.
pub is_expired_iff :
    (h : Header) (now : ℕ)
    → ((is_expired h now ≡ ok true) ↔ (
        (0 < h.ttl_ms)
        × (h.created_at_ms + h.ttl_ms ≤ u64_max)
        × (h.created_at_ms + h.ttl_ms ≤ now)))
      × ((is_expired h now ≡ ok false) ↔ (
          (0 < h.ttl_ms)
          × (h.created_at_ms + h.ttl_ms ≤ u64_max)
          × (now < h.created_at_ms + h.ttl_ms)))
      × ((is_expired h now ≡ err (invalid_ttl 0)) ↔ (h.ttl_ms ≡ 0))
      × ((is_expired h now ≡ err (invalid_expiry h.created_at_ms h.ttl_ms))
          ↔ ((0 < h.ttl_ms) × (u64_max < h.created_at_ms + h.ttl_ms)))
unfolding is_expired expires_at_ms
is_expired_iff h now = ground arith
