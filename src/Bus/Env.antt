-- ===== src/Bus/Env.antt =====
-- What the bus takes from outside: tokio's bounded channels and timer, and the clock. A channel is
-- named by the id of its subscriber.
use runloop.Prelude.{ℕ, ◌≡◌, List, [], ◌∷◌, ◌++◌}
use runloop.Bus.Message.{Message}

-- `Sender::try_send`
pub data TrySend : Type 0 where
  sent full closed : TrySend

-- `timeout(d, Sender::send)`
pub data TimedSend : Type 0 where
  sent closed elapsed : TimedSend

abbrev pub try_sent : TrySend → ℕ → Message → List (ℕ × Message)
try_sent TrySend.sent id m = (id, m) ∷ []
try_sent _ id m = []

abbrev pub timed_sent : TimedSend → ℕ → Message → List (ℕ × Message)
timed_sent TimedSend.sent id m = (id, m) ∷ []
timed_sent _ id m = []

-- `queued` is what has ever been put into a channel, oldest first: a send that succeeds puts its
-- message there once, and nothing else does.
pub record Env : Type 1 where
  pub World : Type 0
  pub current_millis : World → ℕ × World
  pub channel : ℕ → ℕ → World → World
  pub try_send : ℕ → Message → World → TrySend × World
  pub send_within : ℕ → ℕ → Message → World → TimedSend × World
  pub max_capacity : World → ℕ → ℕ
  pub capacity : World → ℕ → ℕ
  pub queued : World → List (ℕ × Message)
  pub queued-current_millis : (w : World) → queued (current_millis w).1 ≡ queued w
  pub queued-channel : (id cap : ℕ) (w : World) → queued (channel id cap w) ≡ queued w
  pub queued-try_send :
      (id : ℕ) (m : Message) (w : World)
      → queued (try_send id m w).1 ≡ queued w ++ try_sent (try_send id m w).0 id m
  pub queued-send_within :
      (ms id : ℕ) (m : Message) (w : World)
      → queued (send_within ms id m w).1 ≡ queued w ++ timed_sent (send_within ms id m w).0 id m
