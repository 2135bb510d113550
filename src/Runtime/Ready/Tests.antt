-- ===== src/Runtime/Ready/Tests.antt =====
-- Schedules of a host's and a guest's call on the barrier of crates/runtime/src/ready.rs.
use runloop.Prelude.{ℕ, ◌≤◌, ◌≡◌, refl, true, List, [], ◌∷◌, length, any, every, nat_eq}
use runloop.Runtime.Ready.{
  ReadyEvent, ReadyAckKind, ReadyFailure, Call, signal_host_ready, signal_guest_ready, fail, fresh,
  code_of, kind_of, advance, advance_at, run_calls,
}
use runloop.Runtime.Ready.Barrier.{is_returned, justified}
use runloop.Runtime.Ready.Outcome.{is_start, run_calls-justified, run_calls-completes}

-- the host, a guest that calls `notify_hostcall`, and a failure that comes too late
abbrev calls : List Call
calls =
    signal_host_ready
    ∷ signal_guest_ready ReadyAckKind.notify_hostcall
    ∷ fail ReadyFailure.channel_closed
    ∷ []

abbrev schedule : List ℕ
schedule = 1 ∷ 0 ∷ 1 ∷ 0 ∷ 1 ∷ 0 ∷ 1 ∷ 0 ∷ 0 ∷ 1 ∷ 0 ∷ 1 ∷ 0 ∷ 1 ∷ 2 ∷ []

all_start : every is_start calls ≡ true
unfolding every
all_start = refl

all_return : every is_returned (run_calls schedule calls fresh).0 ≡ true
unfolding every run_calls advance_at advance fresh code_of kind_of
all_return = refl

sent_ready :
    (run_calls schedule calls fresh).1.sent ≡ ReadyEvent.ready ReadyAckKind.notify_hostcall ∷ []
unfolding run_calls advance_at advance fresh code_of kind_of
sent_ready = refl

-- The guest has raised its flag and has not yet stored its kind when the host reads it, so that the
-- default kind is sent.
kind_lost :
    (run_calls (1 ∷ 0 ∷ 0 ∷ 0 ∷ 0 ∷ 0 ∷ 0 ∷ 0 ∷ []) calls fresh).1.sent
    ≡ ReadyEvent.ready ReadyAckKind.mailbox_first_recv ∷ []
unfolding run_calls advance_at advance fresh code_of kind_of
kind_lost = refl

run_calls-justified_example :
    let (_, s) = run_calls schedule calls fresh in
    (length s.sent ≤ 1) × (every (justified s) s.sent ≡ true)
run_calls-justified_example = run_calls-justified schedule calls all_start

run_calls-completes_example : length (run_calls schedule calls fresh).1.sent ≡ 1
unfolding any
run_calls-completes_example = run_calls-completes schedule calls all_start refl all_return
