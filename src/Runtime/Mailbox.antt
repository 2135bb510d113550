-- ===== src/Runtime/Mailbox.antt =====
-- `AgentMailbox` of crates/runtime/src/hostcalls.rs: a receiver with room for one envelope looked at.
use runloop.Prelude.{◌≡◌, Option, none, some, List, [], ◌∷◌, arith}
use runloop.Rmp.Header.{Header}
use runloop.Rmp.Buf.{Bytes}

pub record AgentEnvelope : Type 0 where
  pub header : Header
  pub body : Bytes

abbrev pub head? : List AgentEnvelope → Option AgentEnvelope
head? [] = none
head? (e ∷ es) = some e

abbrev pub tail : List AgentEnvelope → List AgentEnvelope
tail [] = []
tail (e ∷ es) = es

-- Tokio's receiver, told by the envelopes that wait in it: `try_recv` takes the first, if there is one.
pub record Receiver : Type 1 where
  pub Rx : Type 0
  pub try_recv : Rx → Option AgentEnvelope × Rx
  pub pending : Rx → List AgentEnvelope
  pub received : (rx : Rx) → (try_recv rx).0 ≡ head? (pending rx)
  pub left : (rx : Rx) → pending (try_recv rx).1 ≡ tail (pending rx)

module _ (R : Receiver) where
  pub record AgentMailbox : Type 0 where
    pub rx : R.Rx
    pub peeked : Option AgentEnvelope

  unfoldable pub try_recv : AgentMailbox → Option AgentEnvelope × AgentMailbox
  try_recv m = elim m.peeked [
    | some envelope ↦ (some envelope, record m { peeked = none })
    | none ↦ let (envelope, rx) = R.try_recv m.rx in (envelope, record m { rx = rx })
  ]

  unfoldable pub peek_meta : AgentMailbox → Option Header × AgentMailbox
  peek_meta m =
      let m' : AgentMailbox = elim m.peeked [
        | some _ ↦ m
        | none ↦ let (envelope, rx) = R.try_recv m.rx in record { rx = rx; peeked = envelope }
      ] in
      (elim m'.peeked [ none ↦ none | some envelope ↦ some envelope.header ], m')

  -- the envelopes that the agent has not received, first to last
  abbrev pub contents : AgentMailbox → List AgentEnvelope
  contents m = elim m.peeked [ none ↦ R.pending m.rx | some envelope ↦ envelope ∷ R.pending m.rx ]

  abbrev pub header_of : Option AgentEnvelope → Option Header
  header_of none = none
  header_of (some envelope) = some envelope.header

  -- A mailbox is a queue: receiving returns the first envelope that waits, the one looked at before
  -- the receiver's, and leaves the others in order, and looking returns the header of that first
  -- envelope and leaves every envelope in its place.
  pub mailbox-fifo :
      (m : AgentMailbox)
      → ((try_recv m).0 ≡ head? (contents m))
        × (contents (try_recv m).1 ≡ tail (contents m))
        × ((peek_meta m).0 ≡ header_of (head? (contents m)))
        × (contents (peek_meta m).1 ≡ contents m)
  unfolding try_recv peek_meta
  mailbox-fifo m = ground (arith, R.received m.rx, R.left m.rx)
