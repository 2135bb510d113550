-- ===== src/Runtime/Ready/Barrier.antt =====
-- The interleavings of the calls on the readiness barrier of crates/runtime/src/ready.rs.
use runloop.Prelude.{
  ℕ, zero, suc, ◌+◌, ◌≤◌, ◌≡◌, refl, inl, inr, Bool, true, false, not, ◌&&◌, ◌||◌, List, [], ◌∷◌,
  ◌++◌, arith, if◌then◌else◌, Bool-cases, length, is_nil, any, every,
}
use runloop.Runtime.Ready.{ReadyEvent, ReadyInner, Call, code_of, advance, advance_at}

abbrev pub bit : Bool → ℕ
bit b = if b then 1 else 0

abbrev both_ready : ReadyInner → Bool
both_ready s = s.host_ready && s.guest_ready

-- the last access of a call whose event goes to the channel
abbrev pub sending : Call → Bool
sending (Call.take_sender _) = true
sending _ = false

-- a call that will look at both flags, or has an event to finish with
abbrev pub checking : Call → Bool
checking (Call.store_ack _) = true
checking Call.load_completed = true
checking Call.load_host_ready = true
checking Call.load_guest_ready = true
checking Call.load_ack = true
checking (Call.swap_completed _) = true
checking _ = false

abbrev pub is_host : Call → Bool
is_host Call.store_host_ready = true
is_host _ = false

abbrev pub is_guest : Call → Bool
is_guest (Call.swap_guest_ready _) = true
is_guest _ = false

abbrev pub is_fail : Call → Bool
is_fail (Call.swap_completed (ReadyEvent.failed _)) = true
is_fail _ = false

abbrev pub is_returned : Call → Bool
is_returned Call.returned = true
is_returned _ = false

-- an event that may be sent
abbrev pub justified : ReadyInner → ReadyEvent → Bool
justified s (ReadyEvent.ready _) = both_ready s
justified s (ReadyEvent.failed _) = true

-- what a call has seen is so
abbrev pub seen : ReadyInner → Call → Bool
seen s Call.load_guest_ready = s.host_ready
seen s Call.load_ack = both_ready s
seen s (Call.swap_completed event) = justified s event
seen s (Call.take_sender event) = justified s event
seen s _ = true

unfoldable pub senders : List Call → ℕ
senders [] = 0
senders (c ∷ cs) = bit (sending c) + senders cs

-- both are ready, and no call has completed the barrier
abbrev pub needed : ReadyInner → Bool
needed s = both_ready s && not s.completed

-- what one access does to the variables and to the call
abbrev Access : Call → Call → ReadyInner → ReadyInner → Type 0
Access c c' s s' =
    ((not s.host_ready || s'.host_ready) ≡ true)
    × ((not s.guest_ready || s'.guest_ready) ≡ true)
    × (s'.sender ≡ is_nil s'.sent)
    × (bit (sending c') + length s'.sent + bit s.completed
        ≡ bit (sending c) + length s.sent + bit s'.completed)
    × ((not (needed s') || checking c' || (needed s && not (checking c))) ≡ true)
    × ((s'.host_ready || is_host c') ≡ (s.host_ready || is_host c))
    × ((s'.guest_ready || is_guest c') ≡ (s.guest_ready || is_guest c))
    × ((not (s.completed || is_fail c) || (s'.completed || is_fail c')) ≡ true)
    × ((not (seen s c) || seen s' c') ≡ true)

advance-Access :
    (c : Call) (s : ReadyInner)
    → s.sender ≡ is_nil s.sent
    → (not (sending c) || is_nil s.sent) ≡ true
    → let (c', s') = advance c s in Access c c' s s'
unfolding advance
advance-Access Call.store_host_ready s h k = ground arith
advance-Access (Call.swap_guest_ready kind) s h k = ground arith
advance-Access (Call.store_ack kind) s h k = ground arith
advance-Access Call.load_completed s h k = ground arith
advance-Access Call.load_host_ready s h k = ground arith
advance-Access Call.load_guest_ready s h k = ground arith
advance-Access Call.load_ack s h k = ground arith
advance-Access (Call.swap_completed event) s h k = ground arith
advance-Access (Call.take_sender event) s h k = ground arith
advance-Access Call.returned s h k = ground arith

-- what has been seen, and what justifies an event, stays so when no flag goes down
module _ (s s' : ReadyInner) (h : (not s.host_ready || s'.host_ready) ≡ true)
    (g : (not s.guest_ready || s'.guest_ready) ≡ true) where
  justified-stays : (e : ReadyEvent) → (not (justified s e) || justified s' e) ≡ true
  justified-stays (ReadyEvent.ready _) = ground arith
  justified-stays (ReadyEvent.failed _) = refl

  every-justified :
      (es : List ReadyEvent) → every (justified s) es ≡ true → every (justified s') es ≡ true
  unfolding every
  every-justified [] e = refl
  every-justified (x ∷ es) e = ground (arith, justified-stays x, every-justified es)

  seen-stays : (c : Call) → (not (seen s c) || seen s' c) ≡ true
  seen-stays Call.load_guest_ready = ground arith
  seen-stays Call.load_ack = ground arith
  seen-stays (Call.swap_completed event) = justified-stays event
  seen-stays (Call.take_sender event) = justified-stays event
  seen-stays Call.store_host_ready = refl
  seen-stays (Call.swap_guest_ready _) = refl
  seen-stays (Call.store_ack _) = refl
  seen-stays Call.load_completed = refl
  seen-stays Call.load_host_ready = refl
  seen-stays Call.returned = refl

  every-seen : (cs : List Call) → every (seen s) cs ≡ true → every (seen s') cs ≡ true
  unfolding every
  every-seen [] e = refl
  every-seen (c ∷ cs) e = ground (arith, seen-stays c, every-seen cs)

every-snoc :
    (f : ReadyEvent → Bool) (es : List ReadyEvent) (e : ReadyEvent)
    → every f es ≡ true
    → f e ≡ true
    → every f (es ++ e ∷ []) ≡ true
unfolding every
every-snoc f [] e h g = ground arith
every-snoc f (x ∷ es) e h g = ground (arith, every-snoc f es e)

advance-justified :
    (c : Call) (s : ReadyInner)
    → seen s c ≡ true
    → every (justified s) s.sent ≡ true
    → let (_, s') = advance c s in every (justified s') s'.sent ≡ true
unfolding advance
advance-justified Call.store_host_ready s h e =
    every-justified s (record s { host_ready = true }) (ground arith) (ground arith) s.sent e
advance-justified (Call.swap_guest_ready _) s h e =
    every-justified s (record s { guest_ready = true }) (ground arith) (ground arith) s.sent e
advance-justified (Call.store_ack kind) s h e =
    every-justified s (record s { ack = code_of kind }) (ground arith) (ground arith) s.sent e
advance-justified Call.load_completed s h e = e
advance-justified Call.load_host_ready s h e = e
advance-justified Call.load_guest_ready s h e = e
advance-justified Call.load_ack s h e = e
advance-justified (Call.swap_completed _) s h e =
    every-justified s (record s { completed = true }) (ground arith) (ground arith) s.sent e
advance-justified (Call.take_sender event) s h e =
    let s' : ReadyInner = (advance (Call.take_sender event) s).1 in
    let old = every-justified s s' (ground arith) (ground arith) s.sent e in
    let new =
      every-snoc (justified s') s.sent event old
        (ground (arith, justified-stays s s' (ground arith) (ground arith) event)) in
    elim (Bool-cases s.sender) [ inl t ↦ rw t new | inr f ↦ rw f old ]
advance-justified Call.returned s h e = e

bool_checked :
    (n n' c c' r : Bool)
    → (not n' || c' || (n && not c)) ≡ true
    → (not n' || (c' || r) || (n && not (c || r))) ≡ true
bool_checked n n' c c' r h = ground arith

bool_kept : (b b' i i' r : Bool) → (b' || i') ≡ (b || i) → (b' || (i' || r)) ≡ (b || (i || r))
bool_kept b b' i i' r h = ground arith

bool_failed :
    (b b' i i' r : Bool)
    → (not (b || i) || (b' || i')) ≡ true
    → (not (b || (i || r)) || (b' || (i' || r))) ≡ true
bool_failed b b' i i' r h = ground arith

bool_still :
    (n n' r r' c : Bool)
    → (not n' || r' || (n && not r)) ≡ true
    → (not n' || (c || r') || (n && not (c || r))) ≡ true
bool_still n n' r r' c h = ground arith

bool_kept_still : (b b' r r' i : Bool) → (b' || r') ≡ (b || r) → (b' || (i || r')) ≡ (b || (i || r))
bool_kept_still b b' r r' i h = ground arith

bool_failed_still :
    (b b' r r' i : Bool)
    → (not (b || r) || (b' || r')) ≡ true
    → (not (b || (i || r)) || (b' || (i || r'))) ≡ true
bool_failed_still b b' r r' i h = ground arith

bool_right : (b r : Bool) → (b && r) ≡ true → r ≡ true
bool_right b r h = ground arith

not_twice :
    (b : Bool) (n : ℕ) (es : List ReadyEvent)
    → bit b + n + length es ≤ 1
    → (not b || is_nil es) ≡ true
not_twice b n [] h = ground arith
not_twice b n (e ∷ es) h = ground arith

bool_left : (b r : Bool) → (b && r) ≡ true → b ≡ true
bool_left b r h = ground arith

bool_seen :
    (b b' r r' : Bool)
    → (not b || b') ≡ true
    → (b && r) ≡ true
    → (r ≡ true → r' ≡ true)
    → (b' && r') ≡ true
bool_seen b b' r r' h e m = ground (arith, m)

-- what one access of one of the calls does
abbrev pub Accesses : List Call → List Call → ReadyInner → ReadyInner → Type 0
Accesses cs cs' s s' =
    ((not s.host_ready || s'.host_ready) ≡ true)
    × ((not s.guest_ready || s'.guest_ready) ≡ true)
    × (s'.sender ≡ is_nil s'.sent)
    × (senders cs' + length s'.sent + bit s.completed
        ≡ senders cs + length s.sent + bit s'.completed)
    × ((not (needed s') || any checking cs' || (needed s && not (any checking cs))) ≡ true)
    × ((s'.host_ready || any is_host cs') ≡ (s.host_ready || any is_host cs))
    × ((s'.guest_ready || any is_guest cs') ≡ (s.guest_ready || any is_guest cs))
    × ((not (s.completed || any is_fail cs) || (s'.completed || any is_fail cs')) ≡ true)
    × (every (seen s') cs' ≡ true)
    × (every (justified s') s'.sent ≡ true)

still-Accesses :
    (s : ReadyInner)
    → s.sender ≡ is_nil s.sent
    → every (justified s) s.sent ≡ true
    → Accesses [] [] s s
unfolding senders any every
still-Accesses s h j = ground arith

-- the first call has made an access, the others none
first-Accesses :
    (c c' : Call) (cs : List Call) (s s' : ReadyInner)
    → Access c c' s s'
    → every (seen s) (c ∷ cs) ≡ true
    → every (justified s') s'.sent ≡ true
    → Accesses (c ∷ cs) (c' ∷ cs) s s'
unfolding senders any every
first-Accesses c c' cs s s' a e j = (
  a.0,
  a.1,
  a.2,
  omega (arith, a.3),
  bool_checked (needed s) (needed s') (checking c) (checking c') (any checking cs) a.4,
  bool_kept s.host_ready s'.host_ready (is_host c) (is_host c') (any is_host cs) a.5,
  bool_kept s.guest_ready s'.guest_ready (is_guest c) (is_guest c') (any is_guest cs) a.6,
  bool_failed s.completed s'.completed (is_fail c) (is_fail c') (any is_fail cs) a.7,
  bool_seen (seen s c) (seen s' c') (every (seen s) cs) (every (seen s') cs) a.8 e
      (every-seen s s' a.0 a.1 cs),
  j,
)

-- the first call stands still
later-Accesses :
    (c : Call) (cs cs' : List Call) (s s' : ReadyInner)
    → Accesses cs cs' s s'
    → seen s c ≡ true
    → Accesses (c ∷ cs) (c ∷ cs') s s'
unfolding senders any every
later-Accesses c cs cs' s s' a e = (
  a.0,
  a.1,
  a.2,
  omega (arith, a.3),
  bool_still (needed s) (needed s') (any checking cs) (any checking cs') (checking c) a.4,
  bool_kept_still s.host_ready s'.host_ready (any is_host cs) (any is_host cs') (is_host c) a.5,
  bool_kept_still s.guest_ready s'.guest_ready (any is_guest cs) (any is_guest cs') (is_guest c)
      a.6,
  bool_failed_still s.completed s'.completed (any is_fail cs) (any is_fail cs') (is_fail c) a.7,
  bool_seen (seen s c) (seen s' c) (seen s c) (every (seen s') cs') (seen-stays s s' a.0 a.1 c)
      (ground arith) (λ _. a.8),
  a.9,
)

pub advance_at-Accesses :
    (i : ℕ) (cs : List Call) (s : ReadyInner)
    → s.sender ≡ is_nil s.sent
    → senders cs + length s.sent ≤ 1
    → every (seen s) cs ≡ true
    → every (justified s) s.sent ≡ true
    → let (cs', s') = advance_at i cs s in Accesses cs cs' s s'
unfolding advance_at senders every
advance_at-Accesses i [] s h k e j = still-Accesses s h j
advance_at-Accesses zero (c ∷ cs) s h k e j =
    let (c', s') = advance c s in
    let seen_c = bool_left (seen s c) (every (seen s) cs) e in
    first-Accesses c c' cs s s' (advance-Access c s h (not_twice (sending c) (senders cs) s.sent k))
      e (advance-justified c s seen_c j)
advance_at-Accesses (suc i) (c ∷ cs) s h k e j =
    let (cs', s') = advance_at i cs s in
    let fewer : senders cs + length s.sent ≤ 1 = omega (arith, k) in
    later-Accesses c cs cs' s s'
      (advance_at-Accesses i cs s h fewer (bool_right (seen s c) (every (seen s) cs) e) j)
      (bool_left (seen s c) (every (seen s) cs) e)
