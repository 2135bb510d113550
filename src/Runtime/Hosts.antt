-- ===== src/Runtime/Hosts.antt =====
-- What crates/runtime/src/hostcalls.rs takes from outside, and its rules on hosts, namespaces and secret
-- ids.
use runloop.Prelude.{
  ℕ, Bool, true, false, not, Option, none, some, ◌++◌, if◌then◌else◌, ◌==◌, nat_eq, list_eq,
}
use runloop.Runtime.Text.{Text, codes}
use runloop.Runtime.Set.{contains}
use runloop.Runtime.Caps.CapabilitySet.{CapabilitySet, none_of, all_of, domains}
use runloop.Runtime.Caps.Net.{NetLocation}

-- what `Url` tells of a parsed address; `port` is missing where it is the scheme's own
pub record Url : Type 0 where
  pub scheme : Text
  pub host_str : Option Text
  pub port : Option ℕ

-- The clock, the hash of blake3 over the bytes of a text, and the parser of the `url` crate.
pub record Outside : Type 1 where
  pub World : Type 0
  pub now : World → ℕ × World
  pub Digest : Type 0
  pub blake3 : Text → Digest
  pub to_hex : Digest → Text
  pub parse_url : Text → Option Url

unfoldable pub host_matches : NetLocation → Text → Option ℕ → Bool
host_matches entry host port =
    if (elim entry.port [
      | none ↦ false
      | some expected ↦ elim port [ none ↦ false | some own ↦ not (own == expected) ]
    ])
    then false
    else entry.host == host

unfoldable pub permits_namespace : CapabilitySet → Text → Bool
permits_namespace all_of namespace = true
permits_namespace none_of namespace = false
permits_namespace (domains ds) namespace = contains namespace ds

module _ (O : Outside) where
  unfoldable pub host_allows : NetLocation → Text → Bool
  host_allows entry host = elim (O.parse_url host) [
    | none ↦ host_matches entry host none
    | some url ↦ host_matches entry (elim url.host_str [ none ↦ host | some own ↦ own ]) url.port
  ]

  unfoldable pub redact_secret_id : Text → Text
  redact_secret_id secret_id = codes "secret#" ++ O.to_hex (O.blake3 secret_id)
