-- ===== src/Runtime/Error.antt =====
-- crates/runtime/src/error.rs: the kind of capability that a denial names, and the errors of the
-- runtime.
pub mod Labels
use runloop.Prelude.{
  ℕ, String, Bool, ◌||◌, Option, none, some, List, if◌then◌else◌, ◌==◌, string_eq, nat_eq, list_eq,
}
use runloop.Runtime.Text.{Text, codes, split_once}

pub data CapKind : Type 0 where
  fs net time kb_read kb_write model secrets exec other : CapKind

abbrev is : String → Text → Bool
is name s = s == codes name

unfoldable pub from_prefix : Text → CapKind
from_prefix s =
    if is "fs" s || is "fs_ro" s || is "fs_rw" s
    then CapKind.fs
    else if is "net" s || is "net.http" s
    then CapKind.net
    else if is "time" s
    then CapKind.time
    else if is "kb" s || is "kb.read" s
    then CapKind.kb_read
    else if is "kb.write" s
    then CapKind.kb_write
    else if is "model" s
    then CapKind.model
    else if is "secrets" s
    then CapKind.secrets
    else if is "exec" s
    then CapKind.exec
    else CapKind.other

unfoldable pub from_label : Text → CapKind
from_label label = elim (split_once b'.' label) [
  | some (prefix, _) ↦ from_prefix prefix
  | none ↦ from_prefix label
]

pub record CapDeniedInfo : Type 0 where
  pub cap : CapKind
  pub op : Text
  pub detail : Text
  pub reason : Text
  pub audit_event : Option ℕ

-- The errors of other libraries are told by their texts.
pub data Error : Type 0 where
  invalid_policy_format : Error
  policy_parse invalid_fs_entry invalid_network_host invalid_capability_entry : Text → Error
  cap_denied : CapDeniedInfo → Error
  unknown_agent : Error
  agent_already_exists spawn_failed : Text → Error
  ready_timeout : ℕ → Text → Error
  agent_join_failed : Text → Error
  stats_unavailable : Error
  io wasmtime toml config override : Text → Error
  secrets_missing : Text → List Text → Error
