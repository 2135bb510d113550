-- ===== src/Runtime/Hostcalls/Ensure.antt =====
-- The `ensure_*` functions of crates/runtime/src/hostcalls.rs.
use runloop.Prelude.{
  Bool, false, not, ◌&&◌, none, some, [], if◌then◌else◌, ◌==◌, any, nat_eq, list_eq,
}
use runloop.Rmp.Error.{Result, ok, err}
use runloop.Runtime.Text.{Text, codes}
use runloop.Runtime.Caps.Effective.{is_empty, permits_secret}
use runloop.Runtime.Hosts.{Outside, host_allows, permits_namespace, redact_secret_id}
use runloop.Runtime.Hostcalls.{M, allow, deny}

module _ (O : Outside) where
  abbrev pub Ensured : Type 0
  Ensured = M O (Result Text (Unit {0}))

  -- both branches of a check
  abbrev pub granted : Text → Text → Text → Text → Ensured
  granted label op target args s = (ok tt, allow O label op target args s)

  abbrev pub refused : Text → Text → Text → Text → Text → Ensured
  refused label op target args reason s =
      let (e, s') = deny O label op target args reason s in (err e, s')

  unfoldable pub ensure_time : Text → Ensured
  ensure_time op s =
      if s.caps.time
      then granted (codes "time.now") op [] [] s
      else refused (codes "time.now") op [] [] (codes "cap_missing") s

  abbrev pub is_plain_http : Text → Bool
  is_plain_http host = elim (O.parse_url host) [
    | none ↦ false
    | some url ↦ url.scheme == codes "http"
  ]

  unfoldable pub ensure_net : Text → Ensured
  ensure_net host s =
      let cap = codes "net.http" in
      let op = codes "http_request" in
      if is_empty s.caps.net_hosts
      then refused cap op host host (codes "no_hosts") s
      else if is_plain_http host && not s.caps.net_allow_http
      then refused cap op host host (codes "http_not_permitted") s
      else if not (any (λ allowed. host_allows O allowed host) s.caps.net_hosts)
      then refused cap op host host (codes "host_not_permitted") s
      else granted cap op host host s

  unfoldable pub ensure_kb_read : Text → Ensured
  ensure_kb_read namespace s =
      let cap = codes "kb.read" in
      let op = codes "kb_read" in
      if permits_namespace s.caps.kb_read namespace
      then granted cap op namespace namespace s
      else refused cap op namespace namespace (codes "namespace_not_permitted") s

  unfoldable pub ensure_kb_write : Text → Ensured
  ensure_kb_write namespace s =
      let cap = codes "kb.write" in
      let op = codes "kb_write" in
      if permits_namespace s.caps.kb_write namespace
      then granted cap op namespace namespace s
      else refused cap op namespace namespace (codes "namespace_not_permitted") s

  unfoldable pub ensure_model : Ensured
  ensure_model s =
      let cap = codes "model.use" in
      let op = codes "model_complete" in
      if s.caps.model then granted cap op [] [] s else refused cap op [] [] (codes "cap_missing") s

  unfoldable pub ensure_secret : Text → Ensured
  ensure_secret secret_id s =
      let redacted = redact_secret_id O secret_id in
      let cap = codes "secrets.get" in
      let op = codes "resolve_secret" in
      if permits_secret s.caps secret_id
      then granted cap op redacted redacted s
      else refused cap op redacted redacted (codes "secret_not_permitted") s

  unfoldable pub ensure_exec : Ensured
  ensure_exec s =
      let cap = codes "exec.spawn" in
      let op = codes "exec_spawn" in
      if s.caps.exec then granted cap op [] [] s else refused cap op [] [] (codes "cap_missing") s
