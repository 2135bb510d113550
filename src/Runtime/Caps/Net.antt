-- ===== src/Runtime/Caps/Net.antt =====
-- `NetLocation` and the lists of hosts of crates/runtime/src/caps.rs.
pub mod Merge
pub mod Parsed
use runloop.Prelude.{
  ℕ, ◌≡◌, ◌↔◌, Bool, true, false, not, ◌&&◌, Option, none, some, List, [], ◌∷◌, ◌++◌, arith,
  if◌then◌else◌, Eq, ◌==◌, any, nat_eq, list_eq, list_beq_iff, option_eq, option_beq_iff,
}
use runloop.Prelude.Dict.{Dict, lookup, insert}
use runloop.Rmp.Error.{Result, ok, err}
use runloop.Runtime.Text.{Text, trim, split_once, parse_u16}
use runloop.Runtime.Error.{Error}
use runloop.Runtime.Set.{contains, retain_new}

pub record NetLocation : Type 0 where
  pub host : Text
  pub port : Option ℕ

abbrev net_beq : NetLocation → NetLocation → Bool
net_beq a b = a.host == b.host && a.port == b.port

pub net_beq_iff : (a b : NetLocation) → (net_beq a b ≡ true) ↔ (a ≡ b)
net_beq_iff a b = ground (arith, list_beq_iff a.host b.host, option_beq_iff a.port b.port)

instance abbrev pub net_eq : Eq NetLocation
net_eq = record { beq = net_beq; beq_iff = net_beq_iff }

unfoldable pub parse : Text → Result Error NetLocation
parse raw = elim (trim raw) [
  | [] ↦ err (Error.invalid_network_host raw)
  | whole ↦ elim (split_once b':' raw) [
    | none ↦ ok (record { host = whole; port = none })
    | some (host, port_raw) ↦ elim (parse_u16 port_raw) [
      | none ↦ err (Error.invalid_network_host raw)
      | some port ↦ ok (record { host = trim host; port = some port })
    ]
  ]
]

-- Addresses, their textual form, and the resolver of the system, asked for a host and a port.
pub record Resolver : Type 1 where
  pub Ip : Type 0
  pub ip_eq : Eq Ip
  pub parse_ip : Text → Option Ip
  pub to_socket_addrs : Text → ℕ → Option (List (Ip × ℕ))

module _ (R : Resolver) where
  pub record SocketAddr : Type 0 where
    pub ip : R.Ip
    pub port : ℕ

  unfoldable pub resolves_to : Text → ℕ → R.Ip → Bool
  resolves_to host port ip = elim (R.parse_ip host) [
    | some own ↦ R.ip_eq.beq own ip
    | none ↦ elim (R.to_socket_addrs host port) [
      | none ↦ false
      | some candidates ↦ any (λ candidate. R.ip_eq.beq candidate.0 ip) candidates
    ]
  ]

  unfoldable pub matches : NetLocation → SocketAddr → Bool
  matches location addr = elim location.port [
    | none ↦ resolves_to location.host addr.port addr.ip
    | some port ↦ if port == addr.port then resolves_to location.host port addr.ip else false
  ]

unfoldable pub dedupe_hosts : List NetLocation → List NetLocation
dedupe_hosts = retain_new []

-- the loop that fills `by_host`
unfoldable pub ports_by_host :
    List NetLocation → Dict Text (List (Option ℕ)) → Dict Text (List (Option ℕ))
ports_by_host [] by_host = by_host
ports_by_host (entry ∷ entries) by_host =
    let ports : List (Option ℕ) = elim (lookup entry.host by_host) [ none ↦ [] | some ps ↦ ps ] in
    ports_by_host entries (insert entry.host (ports ++ entry.port ∷ []) by_host)

-- an entry for each port of `ports`, those that name one
unfoldable pub at_ports : Text → List (Option ℕ) → List NetLocation
at_ports host [] = []
at_ports host (none ∷ ports) = at_ports host ports
at_ports host (some port ∷ ports) = record { host = host; port = some port } ∷ at_ports host ports

-- what the loop over the base pushes for one entry
unfoldable pub narrowed : Dict Text (List (Option ℕ)) → NetLocation → List NetLocation
narrowed by_host entry = elim (lookup entry.host by_host) [
  | none ↦ []
  | some ports ↦ if any (λ p. p == none) ports then entry ∷ [] else (elim entry.port [
    | some port ↦ if contains (some port) ports then entry ∷ [] else []
    | none ↦ at_ports entry.host ports
  ])
]

unfoldable pub narrow_each : Dict Text (List (Option ℕ)) → List NetLocation → List NetLocation
narrow_each by_host [] = []
narrow_each by_host (entry ∷ base) = narrowed by_host entry ++ narrow_each by_host base

unfoldable pub merge_hosts : List NetLocation → List NetLocation → Bool → List NetLocation
merge_hosts base overrides present =
    if not present then base else dedupe_hosts (narrow_each (ports_by_host overrides []) base)
