-- ===== src/Runtime/HostTests.antt =====
-- A concrete host state for crates/runtime/src/hostcalls.rs, and the theorems applied to it.
use mathlib.Core.Option
use runloop.Prelude.{
  ℕ, ◌+◌, ◌≡◌, refl, true, false, none, some, List, [], ◌∷◌, ◌++◌, arith, ◌==◌, nat_eq, list_eq,
}
use runloop.Rmp.Header.{default}
use runloop.Runtime.Text.{Text, codes}
use runloop.Runtime.Error.{CapKind}
use runloop.Runtime.Audit.{AuditEvent, AuditCategory, record_events, last, record_events-last}
use runloop.Runtime.Set.{contains}
use runloop.Runtime.Caps.CapabilitySet.{domains, permits}
use runloop.Runtime.Caps.Net.{NetLocation}
use runloop.Runtime.Caps.Effective.{deny_all}
use runloop.Runtime.Hosts.{Url, Outside, host_allows}
use runloop.Runtime.Hostcalls.{HostState}
use runloop.Runtime.Hostcalls.Ensure.{ensure_kb_write}
use runloop.Runtime.Hostcalls.Guards.{
  Check, is_ok, ensure, holds, Accounted, ensure-holds, ensure-Accounted, ensure_kb_write-reported,
  host_allows-default_port,
}
use runloop.Runtime.Mailbox.{
  AgentEnvelope, Receiver, AgentMailbox, try_recv, peek_meta, contents, header_of, head?, tail,
  mailbox-fifo,
}

abbrev site : Url
site = record { scheme = codes "https"; host_str = some (codes "api.example"); port = none }

-- a clock that counts, a hash that is the text, and one known address
abbrev counted : Outside
counted = record {
  World = ℕ;
  now = λ n. (n, n + 1);
  Digest = Text;
  blake3 = λ t. t;
  to_hex = λ t. t;
  parse_url = λ t. some site;
}

abbrev host_state : HostState counted
host_state = record {
  caps = record deny_all { kb_write = domains (codes "notes" ∷ []); time = true };
  audit = record { capacity = 2; events = [] };
  cap_audits = [];
  allowed = 0;
  denied = 0;
  deny_flag = false;
  last_denial = none;
  trace_id = 1;
  agent_id = 2;
  identity = codes "agent";
  audit_policy = record { on_allow = false; on_deny = true };
  world = 0;
}

ensure-holds_example :
    is_ok (ensure counted (Check.kb_write (codes "mail")) host_state).0
    ≡ holds counted (Check.kb_write (codes "mail")) host_state
ensure-holds_example = ensure-holds counted (Check.kb_write (codes "mail")) host_state

ensure-Accounted_example :
    Accounted counted host_state
      (ensure counted (Check.kb_write (codes "mail")) host_state).0
      (ensure counted (Check.kb_write (codes "mail")) host_state).1
ensure-Accounted_example = ensure-Accounted counted (Check.kb_write (codes "mail")) host_state

mail_refused : permits (domains (codes "notes" ∷ [])) (codes "mail") ≡ false
unfolding permits contains
mail_refused = refl

ensure_kb_write-reported_example :
    (is_ok (ensure_kb_write counted (codes "mail") host_state).0 ≡ false)
    × (Option.map (λ i. i.cap) (ensure_kb_write counted (codes "mail") host_state).1.last_denial
        ≡ some CapKind.kb_read)
ensure_kb_write-reported_example =
    ensure_kb_write-reported counted (codes "mail") host_state mail_refused

abbrev entry : NetLocation
entry = record { host = codes "api.example"; port = some 8_443 }

host_allows-default_port_example :
    host_allows counted entry (codes "https://api.example/")
    ≡ (entry.host == Option.get_or site.host_str (codes "https://api.example/"))
host_allows-default_port_example =
    host_allows-default_port counted entry (codes "https://api.example/") site refl refl

abbrev event : ℕ → AuditEvent
event n = record { ts_ms = n; category = AuditCategory.host_error; message = [] }

record_events-last_example :
    (record_events (event 1 ∷ event 2 ∷ event 3 ∷ []) host_state.audit).events
    ≡ last 2 ([] ++ event 1 ∷ event 2 ∷ event 3 ∷ [])
record_events-last_example =
    record_events-last (event 1 ∷ event 2 ∷ event 3 ∷ []) [] host_state.audit (omega arith) refl

abbrev queue : Receiver
queue = record {
  Rx = List AgentEnvelope;
  try_recv = λ rx. (head? rx, tail rx);
  pending = λ rx. rx;
  received = λ rx. refl;
  left = λ rx. refl;
}

abbrev mailbox : AgentMailbox queue
mailbox = record { rx = record { header = default; body = 1 ∷ [] } ∷ []; peeked = none }

mailbox-fifo_example :
    ((try_recv queue mailbox).0 ≡ head? (contents queue mailbox))
    × (contents queue (try_recv queue mailbox).1 ≡ tail (contents queue mailbox))
    × ((peek_meta queue mailbox).0 ≡ header_of queue (head? (contents queue mailbox)))
    × (contents queue (peek_meta queue mailbox).1 ≡ contents queue mailbox)
mailbox-fifo_example = mailbox-fifo queue mailbox
