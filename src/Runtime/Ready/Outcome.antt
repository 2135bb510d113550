-- ===== src/Runtime/Ready/Outcome.antt =====
-- What comes out of the readiness barrier of crates/runtime/src/ready.rs, under any interleaving.
use runloop.Prelude.{
  ℕ, ◌+◌, ◌≤◌, ◌≡◌, refl, ◌∙◌, Bool, true, false, not, ◌&&◌, ◌||◌, List, [], ◌∷◌, arith, length,
  is_nil, any, every,
}
use runloop.Runtime.Ready.{ReadyEvent, ReadyInner, Call, fresh, advance_at, run_calls}
use runloop.Runtime.Ready.Barrier.{
  bit, needed, sending, checking, seen, senders, justified, is_host, is_guest, is_fail, is_returned,
  advance_at-Accesses,
}

-- the calls of the barrier's handles, before their first access
abbrev pub is_start : Call → Bool
is_start Call.store_host_ready = true
is_start (Call.swap_guest_ready _) = true
is_start (Call.swap_completed (ReadyEvent.failed _)) = true
is_start _ = false

-- the state of a barrier on which the calls have come this far
abbrev Sound : List Call → ReadyInner → Type 0
Sound cs s =
    (s.sender ≡ is_nil s.sent)
    × (senders cs + length s.sent ≡ bit s.completed)
    × ((not (needed s) || any checking cs) ≡ true)
    × (every (seen s) cs ≡ true)
    × (every (justified s) s.sent ≡ true)

-- what the calls want stays wanted until it is done
abbrev Kept : List Call → List Call → ReadyInner → ReadyInner → Type 0
Kept cs cs' s s' =
    ((s'.host_ready || any is_host cs') ≡ (s.host_ready || any is_host cs))
    × ((s'.guest_ready || any is_guest cs') ≡ (s.guest_ready || any is_guest cs))
    × ((not (s.completed || any is_fail cs) || (s'.completed || any is_fail cs')) ≡ true)

bool_needs :
    (n n' r r' : Bool)
    → (not n || r) ≡ true
    → (not n' || r' || (n && not r)) ≡ true
    → (not n' || r') ≡ true
bool_needs n n' r r' h g = ground arith

at_most_one : (b : Bool) (n : ℕ) → n ≡ bit b → n ≤ 1
at_most_one b n h = ground arith

advance_at-Sound :
    (i : ℕ) (cs : List Call) (s : ReadyInner)
    → Sound cs s
    → let (cs', s') = advance_at i cs s in Sound cs' s' × Kept cs cs' s s'
advance_at-Sound i cs s (h, n, c, e, j) =
    let (cs', s') = advance_at i cs s in
    let a = advance_at-Accesses i cs s h (at_most_one s.completed _ n) e j in
    (
      (
        a.2,
        omega (arith, a.3, n),
        bool_needs (needed s) (needed s') (any checking cs) (any checking cs') c a.4,
        a.8,
        a.9,
      ),
      (a.5, a.6, a.7),
    )

bool_chain : (a b c : Bool) → (not a || b) ≡ true → (not b || c) ≡ true → (not a || c) ≡ true
bool_chain a b c h g = ground arith

run_calls-Sound :
    (schedule : List ℕ) (cs : List Call) (s : ReadyInner)
    → Sound cs s
    → let (cs', s') = run_calls schedule cs s in Sound cs' s' × Kept cs cs' s s'
unfolding run_calls
run_calls-Sound [] cs s h = (h, (refl, refl, ground arith))
run_calls-Sound (i ∷ schedule) cs s h =
    let (cs1, s1) = advance_at i cs s in
    let (cs2, s2) = run_calls schedule cs1 s1 in
    let (h1, k1) = advance_at-Sound i cs s h in
    let (h2, k2) = run_calls-Sound schedule cs1 s1 h1 in
    (
      h2,
      (
        k2.0 ∙ k1.0,
        k2.1 ∙ k1.1,
        bool_chain (s.completed || any is_fail cs) (s1.completed || any is_fail cs1)
            (s2.completed || any is_fail cs2) k1.2 k2.2,
      ),
    )

start_seen : (c : Call) → is_start c ≡ true → (sending c ≡ false) × (seen fresh c ≡ true)
start_seen Call.store_host_ready h = (refl, refl)
start_seen (Call.swap_guest_ready _) h = (refl, refl)
start_seen (Call.swap_completed (ReadyEvent.failed _)) h = (refl, refl)
start_seen (Call.swap_completed (ReadyEvent.ready _)) h = absurd (ground arith)
start_seen (Call.store_ack _) h = absurd (ground arith)
start_seen Call.load_completed h = absurd (ground arith)
start_seen Call.load_host_ready h = absurd (ground arith)
start_seen Call.load_guest_ready h = absurd (ground arith)
start_seen Call.load_ack h = absurd (ground arith)
start_seen (Call.take_sender _) h = absurd (ground arith)
start_seen Call.returned h = absurd (ground arith)

start_calls :
    (cs : List Call) → every is_start cs ≡ true → (senders cs ≡ 0) × (every (seen fresh) cs ≡ true)
unfolding senders every
start_calls [] h = (refl, refl)
start_calls (c ∷ cs) h = ground (arith, start_seen c, start_calls cs)

start-Sound : (cs : List Call) → every is_start cs ≡ true → Sound cs fresh
unfolding fresh every
start-Sound cs h = let (n, e) = start_calls cs h in (refl, omega (arith, n), refl, e, refl)

returned_call :
    (c : Call)
    → is_returned c ≡ true
    → (sending c ≡ false)
      × (checking c ≡ false)
      × (is_host c ≡ false)
      × (is_guest c ≡ false)
      × (is_fail c ≡ false)
returned_call Call.returned h = (refl, refl, refl, refl, refl)
returned_call Call.store_host_ready h = absurd (ground arith)
returned_call (Call.swap_guest_ready _) h = absurd (ground arith)
returned_call (Call.store_ack _) h = absurd (ground arith)
returned_call Call.load_completed h = absurd (ground arith)
returned_call Call.load_host_ready h = absurd (ground arith)
returned_call Call.load_guest_ready h = absurd (ground arith)
returned_call Call.load_ack h = absurd (ground arith)
returned_call (Call.swap_completed _) h = absurd (ground arith)
returned_call (Call.take_sender _) h = absurd (ground arith)

returned_calls :
    (cs : List Call)
    → every is_returned cs ≡ true
    → (senders cs ≡ 0)
      × (any checking cs ≡ false)
      × (any is_host cs ≡ false)
      × (any is_guest cs ≡ false)
      × (any is_fail cs ≡ false)
unfolding senders every any
returned_calls [] h = (refl, refl, refl, refl, refl)
returned_calls (c ∷ cs) h = ground (arith, returned_call c, returned_calls cs)

-- However the accesses of any number of calls on a new barrier interleave, at most one event is
-- sent, and a ready event is sent only when the host and the guest have both signalled.
pub run_calls-justified :
    (schedule : List ℕ) (calls : List Call)
    → every is_start calls ≡ true
    → let (_, s) = run_calls schedule calls fresh in
      (length s.sent ≤ 1) × (every (justified s) s.sent ≡ true)
run_calls-justified schedule calls h =
    let (_, s) = run_calls schedule calls fresh in
    let ((_, n, _, _, j), _) = run_calls-Sound schedule calls fresh (start-Sound calls h) in
    let most : length s.sent ≤ bit s.completed = omega (arith, n) in
    (at_most s.completed (length s.sent) most, j)
  where
    at_most : (b : Bool) (n : ℕ) → n ≤ bit b → n ≤ 1
    at_most b n h = ground arith

bool_done :
    (host guest done : Bool) (sent : ℕ)
    → ((host && guest) || done) ≡ true
    → (not ((host && guest) && not done)) ≡ true
    → sent ≡ bit done
    → sent ≡ 1
bool_done host guest done sent h k n = ground arith

-- However the accesses of any number of calls on a new barrier interleave, when all the calls have
-- returned and among them were a host's and a guest's signal, or a failure, exactly one event has
-- been sent.
pub run_calls-completes :
    (schedule : List ℕ) (calls : List Call)
    → every is_start calls ≡ true
    → ((any is_host calls && any is_guest calls) || any is_fail calls) ≡ true
    → every is_returned (run_calls schedule calls fresh).0 ≡ true
    → length (run_calls schedule calls fresh).1.sent ≡ 1
unfolding fresh
run_calls-completes schedule calls h asked r =
    let (cs, s) = run_calls schedule calls fresh in
    let ((_, n, c, _, _), (kh, kg, kf)) =
      run_calls-Sound schedule calls fresh (start-Sound calls h) in
    let (n0, c0, h0, g0, f0) = returned_calls cs r in
    bool_done s.host_ready s.guest_ready s.completed (length s.sent) (ground arith) (ground arith)
      (omega (arith, n, n0))
