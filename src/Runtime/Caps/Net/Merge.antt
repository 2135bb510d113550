-- ===== src/Runtime/Caps/Net/Merge.antt =====
-- `merge_hosts` of crates/runtime/src/caps.rs and the addresses that its result lets in.
use runloop.Prelude.{
  ℕ, ◌≡◌, refl, inl, inr, Bool, true, false, not, ◌&&◌, ◌||◌, Option, none, some, List, [], ◌∷◌,
  ◌++◌, arith, Option-cases, Eq, ◌==◌, any, nat_eq, list_eq, list_beq_iff, option_eq,
  option_beq_iff, nat_beq_iff,
}
use runloop.Prelude.Dict.{Dict, lookup, insert, lookup-insert}
use runloop.Runtime.Text.{Text}
use runloop.Runtime.Set.{contains, contains-append, any-retain_new}
use runloop.Runtime.Caps.Net.{
  net_eq, NetLocation, net_beq_iff, Resolver, SocketAddr, resolves_to, matches, dedupe_hosts,
  ports_by_host, at_ports, narrowed, narrow_each, merge_hosts,
}

contains-any {ℓ} :
    {A : Type ℓ} ⦃e : Eq A⦄ (q : A → Bool) (x : A) (xs : List A)
    → contains x xs ≡ true
    → q x ≡ true
    → any q xs ≡ true
unfolding contains any
contains-any q x [] c h = absurd (ground arith)
contains-any ⦃e⦄ q x (y ∷ ys) c h = ground (arith, e.beq_iff y x, contains-any q x ys)

any-is_none : (ports : List (Option ℕ)) → any (λ p. p == none) ports ≡ contains none ports
unfolding contains any
any-is_none [] = refl
any-is_none (p ∷ ports) = ground (arith, any-is_none ports)

any-append {ℓ} :
    {A : Type ℓ} (q : A → Bool) (xs ys : List A) → any q (xs ++ ys) ≡ (any q xs || any q ys)
unfolding any
any-append q [] ys = refl
any-append q (x ∷ xs) ys = ground (arith, any-append q xs ys)

abbrev ports_of : Text → Dict Text (List (Option ℕ)) → List (Option ℕ)
ports_of host by_host = elim (lookup host by_host) [ none ↦ [] | some ps ↦ ps ]

abbrev entry_of : Text → Option ℕ → NetLocation
entry_of host port = record { host = host; port = port }

-- the map holds the ports of the entries, by host
contains-ports_by_host :
    (host : Text) (p : Option ℕ) (entries : List NetLocation) (m : Dict Text (List (Option ℕ)))
    → contains p (ports_of host (ports_by_host entries m))
      ≡ (contains (entry_of host p) entries || contains p (ports_of host m))
unfolding contains ports_by_host
contains-ports_by_host host p [] m = refl
contains-ports_by_host host p (entry ∷ entries) m = ground (
  arith,
  contains-ports_by_host host p entries
      (insert entry.host (ports_of entry.host m ++ entry.port ∷ []) m),
  lookup-insert entry.host host (ports_of entry.host m ++ entry.port ∷ []) m,
  contains-append p (ports_of entry.host m) (entry.port ∷ []),
  list_beq_iff entry.host host,
  option_beq_iff entry.port p,
  net_beq_iff entry (entry_of host p),
)

module _ (R : Resolver) (addr : SocketAddr R) where
  abbrev pub lets_in : List NetLocation → Bool
  lets_in = any (λ location. matches R location addr)

  abbrev reached : Text → Bool
  reached host = resolves_to R host addr.port addr.ip

  lets_in-at_ports :
      (host : Text) (ports : List (Option ℕ))
      → lets_in (at_ports host ports) ≡ true
      → (reached host && contains (some addr.port) ports) ≡ true
  unfolding at_ports any contains matches
  lets_in-at_ports host [] h = absurd (ground arith)
  lets_in-at_ports host (none ∷ ports) h = ground (arith, lets_in-at_ports host ports)
  lets_in-at_ports host (some port ∷ ports) h =
      ground (arith, nat_beq_iff port addr.port, lets_in-at_ports host ports)

  -- the overrides name the host, without a port or with the one of the address
  abbrev covers : Text → Dict Text (List (Option ℕ)) → Bool
  covers host m = contains none (ports_of host m) || contains (some addr.port) (ports_of host m)

  lets_in-narrowed :
      (m : Dict Text (List (Option ℕ))) (entry : NetLocation)
      → lets_in (narrowed m entry) ≡ true
      → (matches R entry addr && (reached entry.host && covers entry.host m)) ≡ true
  unfolding narrowed any matches contains
  lets_in-narrowed m entry h = elim (Option-cases (lookup entry.host m)) [
    | inl e ↦ ground arith
    | inr (ports, e) ↦ ground (arith, any-is_none ports, lets_in-at_ports entry.host ports)
  ]

  covers-lets_in :
      (host : Text) (overrides : List NetLocation)
      → reached host ≡ true
      → covers host (ports_by_host overrides []) ≡ true
      → lets_in overrides ≡ true
  unfolding matches lookup contains
  covers-lets_in host overrides r c = ground (
    arith,
    contains-ports_by_host host none overrides [],
    contains-ports_by_host host (some addr.port) overrides [],
    contains-any (λ location. matches R location addr) (entry_of host none) overrides,
    contains-any (λ location. matches R location addr) (entry_of host (some addr.port)) overrides,
  )

  lets_in-narrow_each :
      (overrides base : List NetLocation)
      → lets_in (narrow_each (ports_by_host overrides []) base) ≡ true
      → (lets_in base && lets_in overrides) ≡ true
  unfolding narrow_each any
  lets_in-narrow_each overrides [] h = absurd (ground arith)
  lets_in-narrow_each overrides (entry ∷ base) h =
      let m = ports_by_host overrides [] in
      ground (
        arith,
        any-append (λ location. matches R location addr) (narrowed m entry) (narrow_each m base),
        lets_in-narrowed m entry,
        covers-lets_in entry.host overrides,
        lets_in-narrow_each overrides base,
      )

  pub lets_in-merge_hosts :
      (base overrides : List NetLocation) (present : Bool)
      → lets_in (merge_hosts base overrides present) ≡ true
      → (lets_in base && (not present || lets_in overrides)) ≡ true
  unfolding merge_hosts dedupe_hosts
  lets_in-merge_hosts base overrides false h = ground arith
  lets_in-merge_hosts base overrides true h =
      let m = ports_by_host overrides [] in
      lets_in-narrow_each overrides base
        (any-retain_new (λ location. matches R location addr) [] (narrow_each m base) h)
