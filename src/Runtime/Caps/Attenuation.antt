-- ===== src/Runtime/Caps/Attenuation.antt =====
-- What capabilities of crates/runtime/src/caps.rs permit, before and after a restriction by
-- overrides.
use runloop.Prelude.{
  ℕ, ◌≡◌, refl, Bool, true, false, not, ◌&&◌, ◌||◌, List, [], ◌∷◌, map, arith, ◌==◌, filter, any,
  nat_eq, list_eq,
}
use runloop.Runtime.Text.{Text}
use runloop.Runtime.FsPath.{FsPath}
use runloop.Runtime.Set.{contains, contains-intersection, retain_new}
use runloop.Runtime.Caps.CapabilitySet.{permits, permits-intersects, intersects}
use runloop.Runtime.Caps.Fs.{
  FsCapability, reads, writes, reads-merge_fs, writes-merge_fs, merge_fs, retain_overridden,
}
use runloop.Runtime.Caps.Net.{
  Resolver, SocketAddr, merge_hosts, narrow_each, dedupe_hosts, NetLocation,
}
use runloop.Runtime.Caps.Net.Merge.{lets_in, lets_in-merge_hosts}
use runloop.Runtime.Caps.Effective.{
  Caps, CapsPresence, is_effectively_empty, permits_secret, permits_host, permits_port,
  intersect_secrets, intersect_with, DebugPreopen, preopen_of, debug_preopens,
}

permits_host-lets_in :
    (R : Resolver) (c : Caps) (addr : SocketAddr R)
    → permits_host R c addr ≡ lets_in R addr c.net_hosts
unfolding permits_host any
permits_host-lets_in R c addr = ground arith

-- An address that restricted capabilities permit is permitted by the base, and by the overrides too
-- where these mention the network.
pub permits_host-intersect_with :
    (R : Resolver) (base overrides : Caps) (presence : CapsPresence) (addr : SocketAddr R)
    → permits_host R (intersect_with base overrides presence) addr ≡ true
    → (permits_host R base addr && (not presence.net || permits_host R overrides addr)) ≡ true
unfolding intersect_with
permits_host-intersect_with R base overrides presence addr h = ground (
  arith,
  permits_host-lets_in R (intersect_with base overrides presence) addr,
  permits_host-lets_in R base addr,
  permits_host-lets_in R overrides addr,
  lets_in-merge_hosts R addr base.net_hosts overrides.net_hosts presence.net,
)

-- A root is readable under restricted capabilities exactly when it is under the base and, where the
-- overrides mention the filesystem, under them too; it is writable only if it is writable under the
-- base and, where they mention it, under the overrides.
pub fs-intersect_with :
    (root : FsPath) (base overrides : Caps) (presence : CapsPresence)
    → let merged = intersect_with base overrides presence in
      (reads root merged.fs ≡ (reads root base.fs && (not presence.fs || reads root overrides.fs)))
      × ((not (writes root merged.fs)
            || (writes root base.fs && (not presence.fs || writes root overrides.fs)))
          ≡ true)
unfolding intersect_with
fs-intersect_with root base overrides presence = (
  reads-merge_fs root base.fs overrides.fs presence.fs,
  ground (arith, writes-merge_fs root base.fs overrides.fs presence.fs),
)

-- Time, models and exec are granted by restricted capabilities exactly when the base grants them
-- and the overrides either do not mention them or grant them too; the same holds of each port.
pub flags-intersect_with :
    (port : ℕ) (base overrides : Caps) (presence : CapsPresence)
    → let merged = intersect_with base overrides presence in
      (merged.time ≡ (base.time && (not presence.time || overrides.time)))
      × (merged.model ≡ (base.model && (not presence.model || overrides.model)))
      × (merged.exec ≡ (base.exec && (not presence.exec || overrides.exec)))
      × (permits_port merged port ≡ (
          permits_port base port && (not presence.net_allow_http || permits_port overrides port)))
unfolding intersect_with permits_port
flags-intersect_with port base overrides presence = ground arith

-- A knowledge-base domain is permitted for reading, or for writing, and a secret is permitted, by
-- restricted capabilities exactly when the base permits it and the overrides either do not mention
-- the capability or permit it too.
pub sets-intersect_with :
    (name : Text) (base overrides : Caps) (presence : CapsPresence)
    → let merged = intersect_with base overrides presence in
      (permits merged.kb_read name
        ≡ (permits base.kb_read name && (not presence.kb_read || permits overrides.kb_read name)))
      × (permits merged.kb_write name ≡ (
          permits base.kb_write name && (not presence.kb_write || permits overrides.kb_write name)))
      × (permits_secret merged name
          ≡ (permits_secret base name && (not presence.secrets || permits_secret overrides name)))
unfolding intersect_with permits_secret intersect_secrets
sets-intersect_with name base overrides presence = ground (
  arith,
  permits-intersects base.kb_read overrides.kb_read name,
  permits-intersects base.kb_write overrides.kb_write name,
  contains-intersection name base.secrets overrides.secrets,
)

merge_fs-nil : (overrides : List FsCapability) (b : Bool) → merge_fs [] overrides b ≡ []
unfolding merge_fs retain_overridden
merge_fs-nil overrides b = ground arith

merge_hosts-nil : (overrides : List NetLocation) (b : Bool) → merge_hosts [] overrides b ≡ []
unfolding merge_hosts narrow_each dedupe_hosts retain_new
merge_hosts-nil overrides b = ground arith

intersect_secrets-nil : (overrides : List Text) (b : Bool) → intersect_secrets [] overrides b ≡ []
unfolding intersect_secrets filter
intersect_secrets-nil overrides b = ground arith

-- Capabilities that count as effectively empty grant neither time nor the model nor running a
-- program, permit no address, no secret, no domain for reading or writing and no root, and count as
-- effectively empty after any overrides too.
pub is_effectively_empty-denies :
    (R : Resolver) (c overrides : Caps) (presence : CapsPresence) (addr : SocketAddr R)
    (name : Text) (root : FsPath)
    → is_effectively_empty c ≡ true
    → ((c.time || c.model || c.exec) ≡ false)
      × (permits_host R c addr ≡ false)
      × (permits_secret c name ≡ false)
      × (permits c.kb_read name ≡ false)
      × (permits c.kb_write name ≡ false)
      × (reads root c.fs ≡ false)
      × (is_effectively_empty (intersect_with c overrides presence) ≡ true)
unfolding is_effectively_empty permits_host permits_secret permits contains reads any intersect_with
    intersects
is_effectively_empty-denies R c overrides presence addr name root h = (
  ground arith,
  ground arith,
  ground arith,
  ground arith,
  ground arith,
  ground arith,
  ground (
    arith,
    merge_fs-nil overrides.fs presence.fs,
    merge_hosts-nil overrides.net_hosts presence.net,
    intersect_secrets-nil overrides.secrets presence.secrets,
  ),
)

-- a preopened directory that can be changed in any way
abbrev pub changes : FsPath → DebugPreopen → Bool
changes root p = p.root == root && (p.dir_write || p.dir_create || p.file_write || p.file_create)

abbrev pub shows : FsPath → DebugPreopen → Bool
shows root p = p.root == root && p.dir_read && p.file_read

preopens-rights :
    (root : FsPath) (entries : List FsCapability)
    → (any (changes root) (map preopen_of entries) ≡ writes root entries)
      × (any (shows root) (map preopen_of entries) ≡ reads root entries)
unfolding any writes reads
preopens-rights root [] = (refl, refl)
preopens-rights root (entry ∷ entries) = ground (arith, preopens-rights root entries)

-- A root is preopened with some right to write or create exactly when the capabilities have a
-- writable entry for it, and with the rights to read exactly when they have an entry for it.
pub debug_preopens-rights :
    (root : FsPath) (c : Caps)
    → (any (changes root) (debug_preopens c) ≡ writes root c.fs)
      × (any (shows root) (debug_preopens c) ≡ reads root c.fs)
unfolding debug_preopens
debug_preopens-rights root c = preopens-rights root c.fs
