-- ===== src/Bus/Server.antt =====
-- `Server` of crates/bus/src/lib.rs: its state and its operations, each from a state to its result
-- and the next state. The proofs are in the modules below.
pub mod Ids
pub mod Invariant
use mathlib.Core.Option
use runloop.Prelude.{
  ℕ, ◌+◌, ◌-◌, ◌%◌, ◌^◌, max, String, Bool, true, false, not, Option, none, some, List, [], ◌∷◌,
  ◌++◌, ltb, if◌then◌else◌, ◌==◌, filter, nat_eq, string_eq,
}
use runloop.Prelude.Dict.{Dict, lookup, insert, remove}
use runloop.Rmp.Error.{Result, ok, err}
use runloop.Rmp.Header.{default_ttl_ms}
use runloop.Bus.Lru.{Lru}
use runloop.Bus.Dedupe
use runloop.Bus.Dedupe.{DedupeCache, DedupeReservation}
use runloop.Bus.Message
use runloop.Bus.Message.{BusError, Message, PublisherKind, ui, tui, agent}
use runloop.Bus.Metrics
use runloop.Bus.Metrics.{Metrics, BusStats}
use runloop.Bus.Env.{Env, TrySend, TimedSend}

pub record BusConfig : Type 0 where
  pub queue_capacity : ℕ
  pub send_timeout : ℕ
  pub dedupe_capacity : ℕ
  pub dedupe_max_age_ms : ℕ
  pub allow_action_decision_ui : Bool
  pub allow_action_decision_tui : Bool
  pub allow_action_decision_agent : Bool

abbrev pub default_config : BusConfig
default_config = record {
  queue_capacity = 1_024;
  send_timeout = 50;
  dedupe_capacity = 65_536;
  dedupe_max_age_ms = default_ttl_ms;
  allow_action_decision_ui = true;
  allow_action_decision_tui = true;
  allow_action_decision_agent = false;
}

-- Its channel `tx` is named by the id. Its dedupe cache is shared by the copies of the subscriber,
-- so it stands in the server's store under the id.
pub record Subscriber : Type 0 where
  pub id : ℕ

pub data PushError : Type 0 where
  channel_closed timed_out : PushError

pub data DeliveryResult : Type 0 where
  delivered : DeliveryResult
  channel_closed : DedupeReservation → DeliveryResult
  backpressure_timed_out : DedupeReservation → DeliveryResult

pub data FailureSeverity : Type 0 where
  channel_closed backpressure_timeout : FailureSeverity

abbrev pub rank : FailureSeverity → ℕ
rank FailureSeverity.channel_closed = 1
rank FailureSeverity.backpressure_timeout = 2

unfoldable pub update_primary_error :
    Option (FailureSeverity × BusError)
    → FailureSeverity
    → BusError
    → Option (FailureSeverity × BusError)
update_primary_error none severity error = some (severity, error)
update_primary_error (some (existing, old)) severity error =
    if ltb (rank existing) (rank severity) then some (severity, error) else some (existing, old)

unfoldable pub allowed_action_decision_publisher : BusConfig → PublisherKind → Bool
allowed_action_decision_publisher c ui = c.allow_action_decision_ui
allowed_action_decision_publisher c tui = c.allow_action_decision_tui
allowed_action_decision_publisher c agent = c.allow_action_decision_agent

-- what `fetch_add` leaves in the counter of ids
unfoldable pub next_after : ℕ → ℕ
next_after id = (id + 1) % 2 ^ 64

module _ (L : Lru) (E : Env) where
  -- `next_id` is the process-wide counter of subscriber ids.
  pub record Server : Type 0 where
    pub topics : Dict String (List Subscriber)
    pub dedupes : ℕ → DedupeCache L
    pub metrics : Metrics
    pub config : BusConfig
    pub closed : Bool
    pub next_id : ℕ
    pub world : E.World

  abbrev pub M : Type 0 → Type 0
  M A = Server → A × Server

  abbrev pub set_dedupe : ℕ → DedupeCache L → Server → Server
  set_dedupe id d s = record s { dedupes = λ i. if i == id then d else s.dedupes i }

  abbrev pub count : (Metrics → Metrics) → Server → Server
  count f s = record s { metrics = f s.metrics }

  -- `first_id` is what the process-wide counter stands at; no id has a cache yet.
  unfoldable pub new : ℕ → E.World → Server
  new first_id w = record {
    topics = [];
    dedupes = λ id. Dedupe.new L 0 0;
    metrics = Metrics.zero_counters;
    config = default_config;
    closed = false;
    next_id = first_id;
    world = w;
  }

  unfoldable pub configure_action_decision_acl : Bool → Bool → Bool → Server → Server
  configure_action_decision_acl allow_ui allow_tui allow_agent s = record s {
    config = record (s.config) {
      allow_action_decision_ui = allow_ui;
      allow_action_decision_tui = allow_tui;
      allow_action_decision_agent = allow_agent;
    };
  }

  unfoldable pub push_message : Subscriber → Message → M (Result PushError (Unit {0}))
  push_message subscriber message s =
      let (r, w) = E.try_send subscriber.id message s.world in
      elim r [
        | TrySend.sent ↦ (ok tt, count Metrics.inc_delivered (record s { world = w }))
        | TrySend.closed ↦ (err PushError.channel_closed, record s { world = w })
        | TrySend.full ↦
            let (t, w') = E.send_within s.config.send_timeout subscriber.id message w in
            elim t [
              | TimedSend.sent ↦ (ok tt, count Metrics.inc_delivered (record s { world = w' }))
              | TimedSend.closed ↦ (err PushError.channel_closed, record s { world = w' })
              | TimedSend.elapsed ↦ (err PushError.timed_out, record s { world = w' })
            ]
      ]

  unfoldable pub remove_subscriber : String → ℕ → Server → Server
  remove_subscriber topic subscriber_id s = elim (lookup topic s.topics) [
    | none ↦ s
    | some subscribers ↦
        let kept : List Subscriber = filter (λ sub. not (sub.id == subscriber_id)) subscribers in
        record s {
          topics = elim kept [ [] ↦ remove topic s.topics | left ↦ insert topic left s.topics ];
        }
  ]

  unfoldable pub subscribe : String → M (Result BusError Subscriber)
  subscribe topic s =
      if s.closed
      then (err Message.closed, s)
      else let subscriber : Subscriber = record { id = s.next_id } in
        let s' =
          set_dedupe s.next_id (Dedupe.new L s.config.dedupe_capacity s.config.dedupe_max_age_ms)
            s in
        let others : List Subscriber = Option.get_or (lookup topic s.topics) [] in
        (
          ok subscriber,
          record s' {
            topics = insert topic (others ++ subscriber ∷ []) s.topics;
            next_id = next_after s.next_id;
            world = E.channel s.next_id s.config.queue_capacity s.world;
          },
        )

  unfoldable pub shutdown : M Bool
  shutdown s = if s.closed then (false, s) else (true, record s { closed = true; topics = [] })

  -- the two maxima over the subscribers of one topic
  unfoldable pub scan_subscribers : List Subscriber → E.World → ℕ × ℕ → ℕ × ℕ
  scan_subscribers [] w acc = acc
  scan_subscribers (sub ∷ subs) w (depth_max, capacity_max) =
      let cap = E.max_capacity w sub.id in
      let backlog = cap - E.capacity w sub.id in
      scan_subscribers subs w (max depth_max backlog, max capacity_max cap)

  unfoldable pub scan_topics : Dict String (List Subscriber) → E.World → ℕ × ℕ → ℕ × ℕ
  scan_topics [] w acc = acc
  scan_topics ((_, subs) ∷ topics) w acc = scan_topics topics w (scan_subscribers subs w acc)

  unfoldable pub snapshot_stats : Server → BusStats
  snapshot_stats s =
      let (depth_max, capacity_max) = scan_topics s.topics s.world (0, 0) in
      record (Metrics.snapshot s.metrics) {
        queue_depth_max = depth_max;
        queue_capacity_max = capacity_max;
      }
