-- ===== src/Bus/Tests.antt =====
-- A concrete bus for crates/bus, and the theorems applied to it.
use mathlib.Core.List.{append-nil}
use text.Mathlib.TextEquality.{eq_iff}
use runloop.Prelude.{
  ℕ, zero, suc, String, ◌≡◌, refl, sym, Bool, true, false, ◌&&◌, Option, none, some, List, [], ◌∷◌,
  ◌++◌, map, arith, if◌then◌else◌, ◌==◌, filter, any, nat_eq, string_eq,
}
use runloop.Prelude.Dict.{lookup}
use runloop.Core.Types.{descriptor_for_schema, id_to_desc}
use runloop.Rmp.Error.{Result, ok, err}
use runloop.Rmp.Buf.{Bytes}
use runloop.Rmp.Header.{default, expires_at_ms, is_expired as header_is_expired}
use runloop.Rmp.Envelope.{MsgPack, encode_payload}
use runloop.Rmp.Meta.{Values, Entries}
use runloop.Rmp.Meta.Plain.{plain}
use runloop.Bus.Lru.{Entry, list_lru}
use runloop.Bus.Dedupe
use runloop.Bus.Dedupe.{DedupeCache, new, prune, reserve, remove, commit}
use runloop.Bus.Dedupe.Prune.{fresh}
use runloop.Bus.Dedupe.Tracks.{prune-filter}
use runloop.Bus.Dedupe.Window.{run, ideal, run-new-ideal}
use runloop.Bus.Message
use runloop.Bus.Message.{Message, DropReason, DropNotice, ui}
use runloop.Bus.Metrics.{inc_published}
use runloop.Bus.Env.{Env, TrySend, TimedSend, try_sent}
use runloop.Bus.Server
use runloop.Bus.Server.{
  Server, Subscriber, DeliveryResult, default_config, count, subscribe, push_message,
  update_primary_error,
}
use runloop.Bus.Server.Ids.{Distinct}
use runloop.Bus.Server.Invariant.{IsServer}
use runloop.Bus.Publish.{
  publish, fan_out, deliver_each, deliver, record_result, rollback_each, rollback, note_drop,
  emit_drop,
}
use runloop.Bus.Publish.Outcome.{outcomes, verdict, subscribers_of, Admitted, publish-verdict}
use runloop.Bus.Publish.Settled.{Settled, publish-Settled}
use runloop.Bus.Publish.Notices.{is_notice, messages}
use runloop.Bus.Publish.Queue.{copies, publish-queue}
use runloop.Bus.Publish.Refused.{refusal, publish-refusal}
use runloop.Bus.Publish.Reachable.{
  Steps, subscribes, publishes, none_yet, then_one, reachable-IsServer,
}

-- Channel 1 is closed, channel 2 is full, and any other has room. It is always time 1000.
abbrev World : Type 0
World = List (ℕ × Message)

abbrev try_send : ℕ → Message → World → TrySend × World
try_send (suc zero) m w = (TrySend.closed, w)
try_send (suc (suc zero)) m w = (TrySend.full, w)
try_send id m w = (TrySend.sent, w ++ (id, m) ∷ [])

queued-try_send :
    (id : ℕ) (m : Message) (w : World)
    → (try_send id m w).1 ≡ w ++ try_sent (try_send id m w).0 id m
queued-try_send (suc zero) m w = sym (append-nil w)
queued-try_send (suc (suc zero)) m w = sym (append-nil w)
queued-try_send zero m w = refl
queued-try_send (suc (suc (suc id))) m w = refl

abbrev clocked : Env
clocked = record {
  World = World;
  current_millis = λ w. (1_000, w);
  channel = λ id cap w. w;
  try_send = try_send;
  send_within = λ ms id m w. (TimedSend.elapsed, w);
  max_capacity = λ w id. 1_024;
  capacity = λ w id. 1_024;
  queued = λ w. w;
  queued-current_millis = λ w. refl;
  queued-channel = λ id cap w. refl;
  queued-try_send = queued-try_send;
  queued-send_within = λ ms id m w. sym (append-nil w);
}

abbrev values : Values (Unit {0})
values = plain (Unit {0})

abbrev code_of : DropReason → ℕ
code_of Message.ttl_expired = 0
code_of Message.duplicate = 1
code_of Message.backpressure = 2

abbrev reason_of : ℕ → DropReason
reason_of zero = Message.ttl_expired
reason_of (suc zero) = Message.duplicate
reason_of _ = Message.backpressure

reason_of-code_of : (r : DropReason) → reason_of (code_of r) ≡ r
reason_of-code_of Message.ttl_expired = refl
reason_of-code_of Message.duplicate = refl
reason_of-code_of Message.backpressure = refl

abbrev notice_type : String
notice_type = "error.bus.drop.notice.v1"

abbrev notice : DropReason → ℕ → ℕ → Option ℕ → ℕ → DropNotice
notice reason trace_id msg_id expires_at_ms observed_at_ms = record {
  v = 1;
  reason = reason;
  topic = "obs";
  trace_id = trace_id;
  msg_id = msg_id;
  expires_at_ms = expires_at_ms;
  observed_at_ms = observed_at_ms;
}

-- an encoder of the notices about one topic, without metadata
abbrev write_notice : String → DropNotice → Option (Entries values) → Result String Bytes
write_notice type_str n (some _) = err "metadata"
write_notice type_str n none =
    if type_str == notice_type && n.topic == "obs" && n.v == 1
    then (elim n.expires_at_ms [
      | some at ↦ ok (code_of n.reason ∷ n.trace_id ∷ n.msg_id ∷ n.observed_at_ms ∷ at ∷ [])
      | none ↦ ok (code_of n.reason ∷ n.trace_id ∷ n.msg_id ∷ n.observed_at_ms ∷ [])
    ])
    else err "another notice"

abbrev read_notice : Bytes → Result String (String × DropNotice × Option (Entries values))
read_notice (r ∷ t ∷ m ∷ o ∷ []) = ok (notice_type, notice (reason_of r) t m none o, none)
read_notice (r ∷ t ∷ m ∷ o ∷ at ∷ []) = ok (notice_type, notice (reason_of r) t m (some at) o, none)
read_notice _ = err "length"

read_notice-write_notice :
    (type_str : String) (n : DropNotice) (metadata : Option (Entries values)) (bytes : Bytes)
    → write_notice type_str n metadata ≡ ok bytes
    → read_notice bytes ≡ ok (type_str, n, metadata)
read_notice-write_notice type_str n (some _) bytes h = absurd (ground arith)
read_notice-write_notice type_str n none bytes h =
    ground (arith, eq_iff type_str notice_type, eq_iff n.topic "obs", reason_of-code_of n.reason)

abbrev notices : MsgPack (Unit {0}) DropNotice
notices = record {
  values = values;
  serialize = write_notice;
  deserialize = read_notice;
  deserialize-serialize = read_notice-write_notice;
}

abbrev message : Message
message = record {
  header = record default { schema_id = 1; created_at_ms = 900; trace_id = 5; msg_id = 6 };
  body = [];
}

abbrev subscriber : ℕ → Subscriber
subscriber id = record { id = id }

abbrev server : Server list_lru clocked
server = record {
  topics =
      ("obs", subscriber 0 ∷ subscriber 1 ∷ subscriber 2 ∷ subscriber 3 ∷ [])
      ∷ ("rlp/sys/drops", subscriber 3 ∷ [])
      ∷ [];
  dedupes = λ id. record { cache = list_lru.new 8; max_age_ms = 30_000 };
  metrics = record {
    published = 0;
    delivered = 0;
    drops_ttl = 0;
    drops_duplicate = 0;
    drops_backpressure = 0;
    drop_msg_seq = 0;
  };
  config = default_config;
  closed = false;
  next_id = 4;
  world = [];
}

message-Admitted : Admitted list_lru clocked notices message ui server
unfolding Message.is_expired header_is_expired expires_at_ms
message-Admitted = record { is_open = refl; permitted = λ h. absurd (ground arith); alive = refl }

abbrev subs : List Subscriber
subs = subscribers_of list_lru clocked notices "obs" server

subs-Distinct : Distinct subs
unfolding lookup
subs-Distinct = ground arith

abbrev results : List DeliveryResult
results =
    outcomes list_lru clocked notices subs "obs" message 1_000 true
      (count list_lru clocked inc_published server)

publish-verdict_example :
    (publish list_lru clocked notices "obs" message true ui server).0 ≡ verdict "obs" results
publish-verdict_example =
    publish-verdict list_lru clocked notices "obs" message true ui server message-Admitted

publish-Settled_example :
    Settled list_lru clocked notices
      (publish list_lru clocked notices "obs" message true ui server).1.dedupes
      (5, 6)
      subs
      results
publish-Settled_example =
    publish-Settled list_lru clocked notices "obs" message true ui server message-Admitted
      subs-Distinct

publish-queue_example :
    messages (publish list_lru clocked notices "obs" message true ui server).1.world
    ≡ copies list_lru server.dedupes message 1_000 subs results
unfolding filter
publish-queue_example =
    publish-queue list_lru clocked notices "obs" message true ui server message-Admitted refl
      subs-Distinct

-- the channel of subscriber 2 is full, and subscriber 3 is told so
notice-queued :
    map {A = ℕ × Message} {B = ℕ × Bool}
      (λ e. (e.0, is_notice e.1))
      (publish list_lru clocked notices "obs" message true ui server).1.world
    ≡ (0, false) ∷ (3, true) ∷ (3, false) ∷ []
unfolding publish fan_out deliver_each deliver record_result rollback_each rollback note_drop
    emit_drop push_message reserve remove update_primary_error lookup Message.is_expired
    header_is_expired expires_at_ms encode_payload Message.new Message.expires_at Dedupe.contains
    any prune Dedupe.prune_loop Server.remove_subscriber descriptor_for_schema id_to_desc filter
notice-queued = refl

abbrev stale : Message
stale = record {
  header = record default {
    schema_id = 1;
    created_at_ms = 900;
    ttl_ms = 50;
    trace_id = 5;
    msg_id = 6;
  };
  body = [];
}

stale-refused : refusal list_lru clocked stale ui server ≡ some Message.message_expired
unfolding Message.is_expired header_is_expired expires_at_ms
stale-refused = refl

publish-refusal_example :
    let quiet = (publish list_lru clocked notices "obs" stale false ui server).1 in
    ((publish list_lru clocked notices "obs" stale true ui server).0 ≡ err Message.message_expired)
    × ((publish list_lru clocked notices "obs" stale true ui server).1.dedupes ≡ server.dedupes)
    × (quiet.world ≡ [])
    × (quiet.topics ≡ server.topics)
    × (quiet.metrics.published ≡ 0)
publish-refusal_example =
    publish-refusal list_lru clocked notices "obs" stale true ui server Message.message_expired
      stale-refused

abbrev first : Server list_lru clocked
first = Server.new list_lru clocked 4 []

abbrev subscribed : Server list_lru clocked
subscribed = (subscribe list_lru clocked "obs" first).1

abbrev published : Server list_lru clocked
published = (publish list_lru clocked notices "obs" message true ui subscribed).1

abbrev calls : Steps list_lru clocked notices first published
calls =
    then_one first subscribed published
      (then_one first first subscribed (none_yet first) (subscribes "obs" first))
      (publishes "obs" message true ui subscribed)

reachable-IsServer_example : IsServer list_lru clocked published
reachable-IsServer_example =
    reachable-IsServer list_lru clocked notices 4 [] published calls (omega arith)

abbrev cache : DedupeCache list_lru
cache = record {
  cache = record { size = 4; items = ((1, 1), 10) ∷ ((1, 2), 900) ∷ [] };
  max_age_ms = 500;
}

prune-filter_example :
    list_lru.entries (prune list_lru cache 1_000).cache
    ≡ filter (fresh 500 1_000) (((1, 1), 10) ∷ ((1, 2), 900) ∷ [])
prune-filter_example =
    prune-filter list_lru cache 1_000 (omega arith, (omega arith, tt), (omega arith, tt, tt))

abbrev reservations : List Entry
reservations = ((1, 1), 10) ∷ ((1, 1), 20) ∷ ((1, 1), 700) ∷ []

run-new-ideal_example : run list_lru (new list_lru 3 500) reservations ≡ ideal 500 [] reservations
run-new-ideal_example =
    run-new-ideal list_lru 3 500 reservations (omega arith, (omega arith, (omega arith, tt)))
      (omega arith)
