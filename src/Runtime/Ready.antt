-- ===== src/Runtime/Ready.antt =====
-- The readiness barrier between an agent and its host, crates/runtime/src/ready.rs. Several threads call
-- it at once, so a call is told access by access: each access to a shared variable is one step, and the
-- steps of the calls interleave in any order.
pub mod Barrier
pub mod Outcome
mod Tests
use runloop.Prelude.{
  ℕ, zero, suc, Bool, true, false, Option, List, [], ◌∷◌, ◌++◌, if◌then◌else◌, ◌==◌, nat_eq,
}
use runloop.Runtime.Text.{Text}
use runloop.Runtime.Error.{CapDeniedInfo}

pub data ReadyFailure : Type 0 where
  timeout : ReadyFailure
  host : Option CapDeniedInfo → Text → ReadyFailure
  channel_closed : ReadyFailure

pub data ReadyAckKind : Type 0 where
  notify_hostcall mailbox_first_recv : ReadyAckKind

pub data ReadyEvent : Type 0 where
  ready : ReadyAckKind → ReadyEvent
  failed : ReadyFailure → ReadyEvent

-- `sender` says that the sender has not been taken, and `sent` is what the channel has got.
pub record ReadyInner : Type 0 where
  pub host_ready : Bool
  pub guest_ready : Bool
  pub ack : ℕ
  pub completed : Bool
  pub sender : Bool
  pub sent : List ReadyEvent

-- ReadyInner::new
unfoldable pub fresh : ReadyInner
fresh = record {
  host_ready = false;
  guest_ready = false;
  ack = 0;
  completed = false;
  sender = true;
  sent = [];
}

-- A call, by the access that it makes next.
pub data Call : Type 0 where
  store_host_ready : Call
  swap_guest_ready store_ack : ReadyAckKind → Call
  load_completed load_host_ready load_guest_ready load_ack : Call
  swap_completed take_sender : ReadyEvent → Call
  returned : Call

-- The first accesses of `signal_host_ready`, of `signal_guest_ready`, which `notify_hostcall` and
-- `notify_mailbox_recv` call, and of `fail`.
abbrev pub signal_host_ready : Call
signal_host_ready = Call.store_host_ready

abbrev pub signal_guest_ready : ReadyAckKind → Call
signal_guest_ready kind = Call.swap_guest_ready kind

abbrev pub fail : ReadyFailure → Call
fail failure = Call.swap_completed (ReadyEvent.failed failure)

unfoldable pub code_of : ReadyAckKind → ℕ
code_of ReadyAckKind.notify_hostcall = 1
code_of ReadyAckKind.mailbox_first_recv = 2

unfoldable pub kind_of : ℕ → ReadyAckKind
kind_of code = if code == 1 then ReadyAckKind.notify_hostcall else ReadyAckKind.mailbox_first_recv

-- one access, and what the call does next
unfoldable pub advance : Call → ReadyInner → Call × ReadyInner
advance Call.store_host_ready s = (Call.load_completed, record s { host_ready = true })
advance (Call.swap_guest_ready kind) s = (
  (if s.guest_ready then Call.returned else Call.store_ack kind),
  record s { guest_ready = true },
)
advance (Call.store_ack kind) s = (Call.load_completed, record s { ack = code_of kind })
advance Call.load_completed s = (if s.completed then Call.returned else Call.load_host_ready, s)
advance Call.load_host_ready s = (if s.host_ready then Call.load_guest_ready else Call.returned, s)
advance Call.load_guest_ready s = (if s.guest_ready then Call.load_ack else Call.returned, s)
advance Call.load_ack s = (Call.swap_completed (ReadyEvent.ready (kind_of s.ack)), s)
advance (Call.swap_completed event) s =
    ((if s.completed then Call.returned else Call.take_sender event), record s { completed = true })
advance (Call.take_sender event) s = (
  Call.returned,
  record s { sender = false; sent = if s.sender then s.sent ++ event ∷ [] else s.sent },
)
advance Call.returned s = (Call.returned, s)

-- the next access of one of the calls
unfoldable pub advance_at : ℕ → List Call → ReadyInner → List Call × ReadyInner
advance_at i [] s = ([], s)
advance_at zero (c ∷ cs) s = let (c', s') = advance c s in (c' ∷ cs, s')
advance_at (suc i) (c ∷ cs) s = let (cs', s') = advance_at i cs s in (c ∷ cs', s')

-- the calls under a schedule, which names the call that goes on
unfoldable pub run_calls : List ℕ → List Call → ReadyInner → List Call × ReadyInner
run_calls [] cs s = (cs, s)
run_calls (i ∷ schedule) cs s = let (cs', s') = advance_at i cs s in run_calls schedule cs' s'
