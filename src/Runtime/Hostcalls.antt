-- ===== src/Runtime/Hostcalls.antt =====
-- The capability checks that crates/runtime/src/hostcalls.rs makes before a host call, with what they
-- record. `AuditPolicy` is of runtime.rs, and the audit record of crates/kb/src/lib.rs.
pub mod Ensure
pub mod Guards
use runloop.Prelude.{
  ℕ, ◌+◌, ◌%◌, ◌^◌, Bool, true, false, not, Option, none, some, List, [], ◌∷◌, ◌++◌, if◌then◌else◌,
  nat_eq, list_eq,
}
use runloop.Rmp.Error.{Result, ok, err}
use runloop.Runtime.Text.{Text, codes}
use runloop.Runtime.Hosts.{Outside}
use runloop.Runtime.Error.{CapDeniedInfo, CapKind, from_label}
use runloop.Runtime.Audit.{
  AuditEvent, AuditCategory, AuditDecision, AuditSeverity, AuditSink, record_event,
}
use runloop.Runtime.Caps.CapabilitySet.{CapabilitySet, none_of, all_of, domains}
use runloop.Runtime.Caps.Net.{NetLocation}
use runloop.Runtime.Caps.Effective.{Caps, is_empty, permits_secret}

pub record AuditPolicy : Type 0 where
  pub on_allow : Bool
  pub on_deny : Bool

unfoldable pub should_emit : AuditPolicy → AuditDecision → Bool
should_emit p AuditDecision.allow = p.on_allow
should_emit p AuditDecision.deny = p.on_deny

module _ (O : Outside) where
  pub record CapAuditRecord : Type 0 where
    pub ts_ms : ℕ
    pub trace_id : ℕ
    pub agent_id : ℕ
    pub cap : Text
    pub op : Text
    pub target : Text
    pub args_hash : O.Digest
    pub decision : AuditDecision
    pub reason : Text
    pub severity : AuditSeverity

  -- The part of `HostState` that the checks read and write, the counters of `HostcallStats` included.
  -- `cap_audits` is the list that the knowledge base keeps in memory.
  pub record HostState : Type 0 where
    pub caps : Caps
    pub audit : AuditSink
    pub cap_audits : List CapAuditRecord
    pub allowed : ℕ
    pub denied : ℕ
    pub deny_flag : Bool
    pub last_denial : Option CapDeniedInfo
    pub trace_id : ℕ
    pub agent_id : ℕ
    pub identity : Text
    pub audit_policy : AuditPolicy
    pub world : O.World

  -- the arguments are hashed only, so they are given as a text
  pub record CapAuditDetails : Type 0 where
    pub cap : Text
    pub op : Text
    pub target : Text
    pub args : Text
    pub reason : Text
    pub severity : AuditSeverity

  -- `KnowledgeBase::record_cap_audit` pushes the entry whether or not it could also be written to the
  -- ledger on disk, which only a line of the log tells and which is left out here.
  unfoldable pub record_cap_audit : AuditDecision → CapAuditDetails → HostState → HostState
  record_cap_audit decision details s =
      if not (should_emit s.audit_policy decision)
      then s
      else let (ts_ms, w) = O.now s.world in
        let entry : CapAuditRecord = record {
          ts_ms = ts_ms;
          trace_id = s.trace_id;
          agent_id = s.agent_id;
          cap = details.cap;
          op = details.op;
          target = details.target;
          args_hash = O.blake3 details.args;
          decision = decision;
          reason = details.reason;
          severity = details.severity;
        } in
        record s { cap_audits = s.cap_audits ++ entry ∷ []; world = w }

  -- `fetch_add` wraps
  abbrev pub bump : ℕ → ℕ
  bump n = (n + 1) % 2 ^ 64

  unfoldable pub allow : Text → Text → Text → Text → HostState → HostState
  allow cap op target args s =
      record_cap_audit AuditDecision.allow
        (record {
          cap = cap;
          op = op;
          target = target;
          args = args;
          reason = codes "granted";
          severity = AuditSeverity.info;
        })
        (record s { allowed = bump s.allowed })

  abbrev denial_message : HostState → Text → Text → Text → Text → Text
  denial_message s cap op target reason =
      codes "capability denied: agent="
      ++ (s.identity
          ++ (codes " cap="
              ++ (cap
                  ++ (codes " op="
                      ++ (op ++ (codes " target=" ++ (target ++ (codes " reason=" ++ reason))))))))

  unfoldable pub record_cap_denial : Text → Text → Text → Text → Text → HostState → HostState
  record_cap_denial cap op target args reason s =
      let (ts_ms, w) = O.now s.world in
      let event : AuditEvent = record {
        ts_ms = ts_ms;
        category = AuditCategory.capability_denied;
        message = denial_message s cap op target reason;
      } in
      let told : HostState = record s {
        denied = bump s.denied;
        deny_flag = true;
        audit = record_event event s.audit;
        world = w;
      } in
      let audited : HostState =
        record_cap_audit AuditDecision.deny
          (record {
            cap = cap;
            op = op;
            target = target;
            args = args;
            reason = reason;
            severity = AuditSeverity.warn;
          })
          told in
      record audited {
        last_denial = some (record {
          cap = from_label cap;
          op = op;
          detail = target;
          reason = reason;
          audit_event = none;
        });
      }

  -- said once of an agent that starts with nothing granted
  unfoldable pub record_caps_empty : HostState → HostState
  record_caps_empty s =
      let (ts_ms, w) = O.now s.world in
      let event : AuditEvent = record {
        ts_ms = ts_ms;
        category = AuditCategory.capability_denied;
        message =
            codes "agent launched with empty capabilities; hostcalls will be denied (identity="
            ++ (s.identity ++ codes ")");
      } in
      record_cap_audit AuditDecision.deny
        (record {
          cap = codes "caps.empty";
          op = codes "_start";
          target = s.identity;
          args = [];
          reason = codes "caps_empty";
          severity = AuditSeverity.warn;
        })
        (record s { audit = record_event event s.audit; world = w })

  abbrev pub M : Type 0 → Type 0
  M A = HostState → A × HostState

  unfoldable pub deny : Text → Text → Text → Text → Text → M Text
  deny cap op target args reason s = (
    codes "capability denied: " ++ (cap ++ (codes " (" ++ (reason ++ codes ")"))),
    record_cap_denial cap op target args reason s,
  )

  unfoldable pub record_external_cap_denial : Text → Text → Text → Text → HostState → HostState
  record_external_cap_denial cap op target reason s =
      record (record_cap_denial cap op target reason reason s) { deny_flag = false }

  unfoldable pub reset_denial_flag : HostState → HostState
  reset_denial_flag s = record s { deny_flag = false; last_denial = none }

  unfoldable pub consume_denial_flag : M Bool
  consume_denial_flag s = (s.deny_flag, record s { deny_flag = false })

  unfoldable pub take_last_denial : M (Option CapDeniedInfo)
  take_last_denial s = (s.last_denial, record s { last_denial = none })
