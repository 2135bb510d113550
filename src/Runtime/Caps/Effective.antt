-- ===== src/Runtime/Caps/Effective.antt =====
-- `Caps` of crates/runtime/src/caps.rs: what an agent may do, and its restriction by overrides.
use runloop.Prelude.{
  ℕ, Bool, true, false, not, ◌&&◌, List, [], map, if◌then◌else◌, ◌==◌, any, nat_eq, list_eq,
  option_eq,
}
use runloop.Runtime.Text.{Text}
use runloop.Runtime.FsPath.{FsPath}
use runloop.Runtime.Set.{contains, intersection}
use runloop.Runtime.Caps.CapabilitySet.{CapabilitySet, none_of, intersects, is_none_of}
use runloop.Runtime.Caps.Fs.{FsCapability, merge_fs}
use runloop.Runtime.Caps.Net.{NetLocation, merge_hosts, Resolver, SocketAddr, matches}

pub record Caps : Type 0 where
  pub fs : List FsCapability
  pub net_hosts : List NetLocation
  pub net_allow_http : Bool
  pub time : Bool
  pub kb_read : CapabilitySet
  pub kb_write : CapabilitySet
  pub model : Bool
  pub secrets : List Text
  pub exec : Bool

abbrev pub deny_all : Caps
deny_all = record {
  fs = [];
  net_hosts = [];
  net_allow_http = false;
  time = false;
  kb_read = none_of;
  kb_write = none_of;
  model = false;
  secrets = [];
  exec = false;
}

abbrev pub is_empty {ℓ} : {A : Type ℓ} → List A → Bool
is_empty [] = true
is_empty _ = false

unfoldable pub is_effectively_empty : Caps → Bool
is_effectively_empty c =
    is_empty c.fs
    && is_empty c.net_hosts
    && not c.time
    && is_none_of c.kb_read
    && is_none_of c.kb_write
    && not c.model
    && is_empty c.secrets
    && not c.exec

unfoldable pub permits_secret : Caps → Text → Bool
permits_secret c secret_id = contains secret_id c.secrets

unfoldable pub permits_host : (R : Resolver) → Caps → SocketAddr R → Bool
permits_host R c addr =
    if is_empty c.net_hosts then false else any (λ host. matches R host addr) c.net_hosts

unfoldable pub permits_port : Caps → ℕ → Bool
permits_port c port = if port == 80 && not c.net_allow_http then false else true

pub record CapsPresence : Type 0 where
  pub fs : Bool
  pub net : Bool
  pub net_allow_http : Bool
  pub time : Bool
  pub kb_read : Bool
  pub kb_write : Bool
  pub model : Bool
  pub secrets : Bool
  pub exec : Bool

pub record CapsParse : Type 0 where
  pub caps : Caps
  pub presence : CapsPresence

unfoldable pub intersect_secrets : List Text → List Text → Bool → List Text
intersect_secrets base overrides present = if not present then base else intersection base overrides

unfoldable pub intersect_with : Caps → Caps → CapsPresence → Caps
intersect_with base overrides presence = record {
  fs = merge_fs base.fs overrides.fs presence.fs;
  net_hosts = merge_hosts base.net_hosts overrides.net_hosts presence.net;
  net_allow_http =
      if presence.net_allow_http
      then base.net_allow_http && overrides.net_allow_http
      else base.net_allow_http;
  time = if presence.time then base.time && overrides.time else base.time;
  kb_read = if presence.kb_read then intersects base.kb_read overrides.kb_read else base.kb_read;
  kb_write =
      if presence.kb_write then intersects base.kb_write overrides.kb_write else base.kb_write;
  model = if presence.model then base.model && overrides.model else base.model;
  secrets = intersect_secrets base.secrets overrides.secrets presence.secrets;
  exec = if presence.exec then base.exec && overrides.exec else base.exec;
}

pub record DebugPreopen : Type 0 where
  pub root : FsPath
  pub dir_read : Bool
  pub dir_write : Bool
  pub dir_create : Bool
  pub file_read : Bool
  pub file_write : Bool
  pub file_create : Bool

abbrev pub preopen_of : FsCapability → DebugPreopen
preopen_of entry =
    if entry.write
    then record {
      root = entry.root;
      dir_read = true;
      dir_write = true;
      dir_create = true;
      file_read = true;
      file_write = true;
      file_create = true;
    }
    else record {
      root = entry.root;
      dir_read = true;
      dir_write = false;
      dir_create = false;
      file_read = true;
      file_write = false;
      file_create = false;
    }

unfoldable pub debug_preopens : Caps → List DebugPreopen
debug_preopens c = map preopen_of c.fs
