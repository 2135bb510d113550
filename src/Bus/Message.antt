-- ===== src/Bus/Message.antt =====
-- The messages, errors and drop notices of crates/bus/src/lib.rs.
use runloop.Prelude.{ℕ, ◌%◌, String, Bool, not, ◌&&◌, Option, if◌then◌else◌, ◌==◌, length, nat_eq}
use runloop.Rmp.Buf.{Bytes}
use runloop.Rmp.Error.{◌>>=◌, Result, ok, err, map_err}
use runloop.Rmp.Error
use runloop.Rmp.Header.{
  Header, u32_mod, expires_at_ms as header_expires_at_ms, is_expired as header_is_expired,
}

abbrev pub drop_topic : String
drop_topic = "rlp/sys/drops"

pub data BusError : Type 0 where
  already_bound not_found : String → BusError
  closed message_expired : BusError
  invalid_ttl : ℕ → BusError
  body_length_mismatch : ℕ → ℕ → BusError
  backpressure_timeout forbidden : String → BusError
  body_type_mismatch : ℕ → String → BusError
  invalid_expiry : ℕ → ℕ → BusError
  unknown_schema : ℕ → BusError

unfoldable pub map_rmp_error : Error.Error → BusError
map_rmp_error (Error.invalid_ttl ttl) = invalid_ttl ttl
map_rmp_error (Error.invalid_expiry created_at_ms ttl_ms) = invalid_expiry created_at_ms ttl_ms
map_rmp_error (Error.body_type_mismatch expected actual) = body_type_mismatch expected actual
map_rmp_error (Error.unknown_schema schema_id) = unknown_schema schema_id
map_rmp_error _ = closed

pub record Message : Type 0 where
  pub header : Header
  pub body : Bytes

-- the length is taken `as u32`
unfoldable pub new : Header → Bytes → Result BusError Message
new header body =
    let actual = length body % u32_mod in
    if not (header.body_len == 0) && not (header.body_len == actual)
    then err (body_length_mismatch header.body_len (length body))
    else let sized = record header { body_len = actual } in
      (do
        _ ← map_err map_rmp_error (header_expires_at_ms sized)
        ok (record { header = sized; body = body }))

unfoldable pub expires_at : Message → Result BusError ℕ
expires_at m = map_err map_rmp_error (header_expires_at_ms m.header)

unfoldable pub is_expired : Message → ℕ → Result BusError Bool
is_expired m now_ms = map_err map_rmp_error (header_is_expired m.header now_ms)

pub data PublisherKind : Type 0 where
  ui tui agent : PublisherKind

pub data DropReason : Type 0 where
  ttl_expired duplicate backpressure : DropReason

pub record DropNotice : Type 0 where
  pub v : ℕ
  pub reason : DropReason
  pub topic : String
  pub trace_id : ℕ
  pub msg_id : ℕ
  pub expires_at_ms : Option ℕ
  pub observed_at_ms : ℕ
