-- ===== src/Runtime/Hostcalls/Guards.antt =====
-- What the checks of crates/runtime/src/hostcalls.rs grant, and what they record.
use mathlib.Core.Option
use runloop.Prelude.{
  ◌+◌, ◌≡◌, refl, inl, inr, Bool, true, false, not, ◌&&◌, ◌||◌, none, some, arith, if◌then◌else◌,
  Bool-cases, ◌==◌, length, length-append, any, nat_eq, list_eq,
}
use runloop.Rmp.Error.{Result, ok, err}
use runloop.Runtime.Text.{Text, codes, split_once}
use runloop.Runtime.Error.{CapKind, from_label, from_prefix}
use runloop.Runtime.Audit.{AuditDecision}
use runloop.Runtime.Caps.CapabilitySet.{CapabilitySet, none_of, all_of, domains, permits}
use runloop.Runtime.Caps.Net.{NetLocation}
use runloop.Runtime.Caps.Effective.{is_empty, permits_secret, permits_port}
use runloop.Runtime.Hosts.{Outside, Url, host_matches, host_allows, permits_namespace}
use runloop.Runtime.Hostcalls.{
  CapAuditDetails, HostState, should_emit, bump, record_cap_audit, allow, deny, record_cap_denial,
}
use runloop.Runtime.Hostcalls.Ensure.{
  Ensured, granted, refused, is_plain_http, ensure_time, ensure_net, ensure_kb_read,
  ensure_kb_write, ensure_model, ensure_secret, ensure_exec,
}

abbrev pub is_ok : Result Text (Unit {0}) → Bool
is_ok (ok _) = true
is_ok (err _) = false

-- one call of a check
pub data Check : Type 0 where
  time net kb_read kb_write secret : Text → Check
  model exec : Check

permits_namespace-permits :
    (set : CapabilitySet) (name : Text) → permits_namespace set name ≡ permits set name
unfolding permits_namespace permits
permits_namespace-permits none_of name = refl
permits_namespace-permits all_of name = refl
permits_namespace-permits (domains ds) name = refl

module _ (O : Outside) where
  unfoldable pub ensure : Check → Ensured O
  ensure (Check.time op) = ensure_time O op
  ensure (Check.net host) = ensure_net O host
  ensure (Check.kb_read namespace) = ensure_kb_read O namespace
  ensure (Check.kb_write namespace) = ensure_kb_write O namespace
  ensure (Check.secret secret_id) = ensure_secret O secret_id
  ensure Check.model = ensure_model O
  ensure Check.exec = ensure_exec O

  -- what the capabilities say of a check
  abbrev pub holds : Check → HostState O → Bool
  holds (Check.time op) s = s.caps.time
  holds (Check.net host) s =
      any (λ location. host_allows O location host) s.caps.net_hosts
      && (not (is_plain_http O host) || permits_port s.caps 80)
  holds (Check.kb_read namespace) s = permits s.caps.kb_read namespace
  holds (Check.kb_write namespace) s = permits s.caps.kb_write namespace
  holds (Check.secret secret_id) s = permits_secret s.caps secret_id
  holds Check.model s = s.caps.model
  holds Check.exec s = s.caps.exec

  ensure_net-holds :
      (host : Text) (s : HostState O) → is_ok (ensure_net O host s).0 ≡ holds (Check.net host) s
  unfolding ensure_net deny permits_port any
  ensure_net-holds host s = ground arith

  -- Each check before a host call succeeds exactly when the capabilities hold what it asks for:
  -- time, models or exec, the namespace for reading or writing, the secret, and for an address that
  -- some host entry allows it and that plain http is granted if its scheme is http.
  pub ensure-holds : (check : Check) (s : HostState O) → is_ok (ensure check s).0 ≡ holds check s
  unfolding ensure ensure_time ensure_kb_read ensure_kb_write ensure_secret ensure_model ensure_exec
      deny
  ensure-holds (Check.time op) s = ground arith
  ensure-holds (Check.net host) s = ensure_net-holds host s
  ensure-holds (Check.kb_read namespace) s =
      ground (arith, permits_namespace-permits s.caps.kb_read namespace)
  ensure-holds (Check.kb_write namespace) s =
      ground (arith, permits_namespace-permits s.caps.kb_write namespace)
  ensure-holds (Check.secret secret_id) s = ground arith
  ensure-holds Check.model s = ground arith
  ensure-holds Check.exec s = ground arith

  abbrev decision_of : Result Text (Unit {0}) → AuditDecision
  decision_of (ok _) = AuditDecision.allow
  decision_of (err _) = AuditDecision.deny

  -- the books of a state after a check with the result `r`
  pub record Accounted (s : HostState O) (r : Result Text (Unit {0})) (s' : HostState O)
      : Type 0 where
    pub caps : s'.caps ≡ s.caps
    pub allowed : s'.allowed ≡ (if is_ok r then bump O s.allowed else s.allowed)
    pub denied : s'.denied ≡ (if is_ok r then s.denied else bump O s.denied)
    pub flagged : s'.deny_flag ≡ (s.deny_flag || not (is_ok r))
    pub audited :
        length s'.cap_audits
        ≡ length s.cap_audits + (if should_emit s.audit_policy (decision_of r) then 1 else 0)

  -- one entry in the knowledge base, if the policy asks for it, and nothing else but the clock
  record_cap_audit-cap_audits :
      (decision : AuditDecision) (details : CapAuditDetails O) (s : HostState O)
      → length (record_cap_audit O decision details s).cap_audits
        ≡ length s.cap_audits + (if should_emit s.audit_policy decision then 1 else 0)
  unfolding record_cap_audit
  record_cap_audit-cap_audits decision details s =
      elim (Bool-cases (should_emit s.audit_policy decision)) [
        | inl emits ↦ rw emits (length-append s.cap_audits _)
        | inr silent ↦ rw silent (omega arith)
      ]

  Accounted-granted :
      (cap op target args : Text) (s : HostState O)
      → Accounted s (ok tt) (allow O cap op target args s)
  unfolding allow record_cap_audit
  Accounted-granted label op target args s = record {
    caps = ground arith;
    allowed = ground arith;
    denied = ground arith;
    flagged = ground arith;
    audited = record_cap_audit-cap_audits AuditDecision.allow _ _;
  }

  Accounted-refused :
      (cap op target args reason : Text) (s : HostState O) (e : Text)
      → Accounted s (err e) (deny O cap op target args reason s).1
  unfolding deny record_cap_denial record_cap_audit
  Accounted-refused label op target args reason s e = record {
    caps = ground arith;
    allowed = ground arith;
    denied = ground arith;
    flagged = ground arith;
    audited = record_cap_audit-cap_audits AuditDecision.deny _ _;
  }

  abbrev Books : HostState O → Result Text (Unit {0}) × HostState O → Type 0
  Books s x = Accounted s x.0 x.1

  -- the two branches of a check
  Accounted-branches :
      (b : Bool) (cap op target args reason : Text) (s : HostState O)
      → Books s
          (if b then granted O cap op target args s else refused O cap op target args reason s)
  Accounted-branches true label op target args reason s = Accounted-granted label op target args s
  Accounted-branches false label op target args reason s =
      Accounted-refused label op target args reason s _

  ensure_net-Accounted : (host : Text) (s : HostState O) → Books s (ensure_net O host s)
  unfolding ensure_net
  ensure_net-Accounted host s =
      let label : Text = codes "net.http" in
      let op : Text = codes "http_request" in
      elim (is_empty s.caps.net_hosts)
        as (λ t. Books s (
          if t
          then refused O label op host host (codes "no_hosts") s
          else if is_plain_http O host && not s.caps.net_allow_http
          then refused O label op host host (codes "http_not_permitted") s
          else if not (any (λ allowed. host_allows O allowed host) s.caps.net_hosts)
          then refused O label op host host (codes "host_not_permitted") s
          else granted O label op host host s)) [
            | true ↦ Accounted-refused label op host host (codes "no_hosts") s _
            | false ↦
                elim (is_plain_http O host && not s.caps.net_allow_http)
                  as (λ t. Books s (
                    if t
                    then refused O label op host host (codes "http_not_permitted") s
                    else if not (any (λ allowed. host_allows O allowed host) s.caps.net_hosts)
                    then refused O label op host host (codes "host_not_permitted") s
                    else granted O label op host host s)) [
                      | true ↦ Accounted-refused label op host host (codes "http_not_permitted") s _
                      | false ↦
                          elim (any (λ allowed. host_allows O allowed host) s.caps.net_hosts)
                            as (λ t. Books s (
                              if not t
                              then refused O label op host host (codes "host_not_permitted") s
                              else granted O label op host host s)) [
                                | true ↦ Accounted-granted label op host host s
                                | false ↦
                                    Accounted-refused label op host host
                                      (codes "host_not_permitted") s _
                              ]
                    ]
          ]

  -- After any check the capabilities are unchanged, the counter of allowed calls has moved by one,
  -- modulo 2^64, if the check succeeded, and that of denied calls otherwise, the other standing
  -- still, the denial flag is up if it was up or the check failed, and the knowledge base has one
  -- entry more exactly when the audit policy asks for one on that decision.
  pub ensure-Accounted :
      (check : Check) (s : HostState O) → Accounted s (ensure check s).0 (ensure check s).1
  unfolding ensure ensure_time ensure_kb_read ensure_kb_write ensure_secret ensure_model ensure_exec
  ensure-Accounted (Check.time op) s = Accounted-branches s.caps.time _ op _ _ _ s
  ensure-Accounted (Check.net host) s = ensure_net-Accounted host s
  ensure-Accounted (Check.kb_read namespace) s =
      Accounted-branches (permits_namespace s.caps.kb_read namespace) _ _ _ _ _ s
  ensure-Accounted (Check.kb_write namespace) s =
      Accounted-branches (permits_namespace s.caps.kb_write namespace) _ _ _ _ _ s
  ensure-Accounted (Check.secret secret_id) s =
      Accounted-branches (permits_secret s.caps secret_id) _ _ _ _ _ s
  ensure-Accounted Check.model s = Accounted-branches s.caps.model _ _ _ _ _ s
  ensure-Accounted Check.exec s = Accounted-branches s.caps.exec _ _ _ _ _ s

  -- A write to a namespace that the capabilities do not permit is answered with an error, and the
  -- denial that it leaves behind has the kind `kb_read`.
  pub ensure_kb_write-reported :
      (namespace : Text) (s : HostState O)
      → permits s.caps.kb_write namespace ≡ false
      → (is_ok (ensure_kb_write O namespace s).0 ≡ false)
        × (Option.map (λ i. i.cap) (ensure_kb_write O namespace s).1.last_denial
            ≡ some CapKind.kb_read)
  unfolding ensure_kb_write deny record_cap_denial from_label from_prefix split_once
  ensure_kb_write-reported namespace s refused_by =
      ground (arith, permits_namespace-permits s.caps.kb_write namespace)

  -- Where an address is parsed and names no port beside its scheme's own, an entry allows it
  -- exactly when the hosts are equal, whatever port the entry is restricted to.
  pub host_allows-default_port :
      (entry : NetLocation) (host : Text) (url : Url)
      → O.parse_url host ≡ some url
      → url.port ≡ none
      → host_allows O entry host ≡ (entry.host == Option.get_or url.host_str host)
  unfolding host_allows host_matches
  host_allows-default_port entry host url parsed bare = ground arith
