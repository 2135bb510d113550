-- ===== src/Runtime/Caps/Fs.antt =====
-- The filesystem entries of crates/runtime/src/caps.rs.
use runloop.Prelude.{
  ◌≡◌, refl, ◌↔◌, Bool, true, false, not, ◌&&◌, ◌||◌, Option, none, some, List, [], ◌∷◌, ◌++◌, map,
  arith, if◌then◌else◌, Eq, ◌==◌, any, nat_eq, list_eq, bool_eq, list_beq_iff, bool_beq_iff,
  option_eq,
}
use runloop.Prelude.Dict.{Dict, lookup, insert, lookup-insert}
use runloop.Runtime.Text.{Text, codes, strip_prefix}
use runloop.Runtime.FsPath.{FsPath}
use runloop.Runtime.Set.{retain_new}

pub record FsCapability : Type 0 where
  pub root : FsPath
  pub write : Bool

abbrev fs_beq : FsCapability → FsCapability → Bool
fs_beq a b = a.root == b.root && a.write == b.write

pub fs_beq_iff : (a b : FsCapability) → (fs_beq a b ≡ true) ↔ (a ≡ b)
fs_beq_iff a b = ground (arith, list_beq_iff a.root b.root, bool_beq_iff a.write b.write)

instance abbrev pub fs_eq : Eq FsCapability
fs_eq = record { beq = fs_beq; beq_iff = fs_beq_iff }

unfoldable pub dedupe_fs : List FsCapability → List FsCapability
dedupe_fs = retain_new []

-- the loop that fills the map: the last entry of a root stands
unfoldable pub override_map : List FsCapability → Dict FsPath Bool → Dict FsPath Bool
override_map [] map = map
override_map (entry ∷ entries) map = override_map entries (insert entry.root entry.write map)

-- the loop over the base entries
unfoldable pub retain_overridden : Dict FsPath Bool → List FsCapability → List FsCapability
retain_overridden map [] = []
retain_overridden map (entry ∷ entries) =
    let rest = retain_overridden map entries in
    elim (lookup entry.root map) [
      | none ↦ rest
      | some write ↦ record { root = entry.root; write = entry.write && write } ∷ rest
    ]

unfoldable pub merge_fs : List FsCapability → List FsCapability → Bool → List FsCapability
merge_fs base overrides present =
    if not present then base else retain_overridden (override_map overrides []) base

abbrev is_tilde : Text → Bool
is_tilde raw = raw == codes "~"

unfoldable pub expand_tilde : Text → Option Text → Text
expand_tilde raw home =
    if is_tilde raw
    then (elim home [ none ↦ raw | some dir ↦ dir ])
    else (elim (strip_prefix (codes "~/") raw) [
      | none ↦ raw
      | some rest ↦ elim home [ none ↦ raw | some dir ↦ dir ++ b'/' ∷ rest ]
    ])

-- the root is preopened
unfoldable pub reads : FsPath → List FsCapability → Bool
reads root = any (λ entry. entry.root == root)

-- the root is preopened for writing
unfoldable pub writes : FsPath → List FsCapability → Bool
writes root = any (λ entry. entry.root == root && entry.write)

-- what the map says of a root, an entry of the list before what it said
lookup-override_map :
    (root : FsPath) (entries : List FsCapability) (map : Dict FsPath Bool)
    → (lookup root (override_map entries map) ≡ none)
      ↔ ((reads root entries ≡ false) × (lookup root map ≡ none))
unfolding override_map reads any
lookup-override_map root [] map = ground arith
lookup-override_map root (entry ∷ entries) map = ground (
  arith,
  lookup-override_map root entries (insert entry.root entry.write map),
  lookup-insert entry.root root entry.write map,
)

override_map-writes :
    (root : FsPath) (entries : List FsCapability) (map : Dict FsPath Bool)
    → lookup root (override_map entries map) ≡ some true
    → (writes root entries || lookup root map == some true) ≡ true
unfolding override_map writes any
override_map-writes root [] map h = ground arith
override_map-writes root (entry ∷ entries) map h = ground (
  arith,
  override_map-writes root entries (insert entry.root entry.write map),
  lookup-insert entry.root root entry.write map,
)

reads-retain_overridden :
    (root : FsPath) (map : Dict FsPath Bool) (base : List FsCapability)
    → reads root (retain_overridden map base) ≡ (reads root base && not (lookup root map == none))
unfolding retain_overridden reads any
reads-retain_overridden root map [] = refl
reads-retain_overridden root map (entry ∷ base) =
    ground (arith, list_beq_iff entry.root root, reads-retain_overridden root map base)

writes-retain_overridden :
    (root : FsPath) (map : Dict FsPath Bool) (base : List FsCapability)
    → writes root (retain_overridden map base) ≡ (writes root base && lookup root map == some true)
unfolding retain_overridden writes any
writes-retain_overridden root map [] = refl
writes-retain_overridden root map (entry ∷ base) =
    ground (arith, list_beq_iff entry.root root, writes-retain_overridden root map base)

pub reads-merge_fs :
    (root : FsPath) (base overrides : List FsCapability) (present : Bool)
    → reads root (merge_fs base overrides present)
      ≡ (reads root base && (not present || reads root overrides))
unfolding merge_fs lookup
reads-merge_fs root base overrides false = ground arith
reads-merge_fs root base overrides true = ground (
  arith,
  lookup-override_map root overrides [],
  reads-retain_overridden root (override_map overrides []) base,
)

pub writes-merge_fs :
    (root : FsPath) (base overrides : List FsCapability) (present : Bool)
    → writes root (merge_fs base overrides present) ≡ true
    → (writes root base && (not present || writes root overrides)) ≡ true
unfolding merge_fs lookup
writes-merge_fs root base overrides false h = ground arith
writes-merge_fs root base overrides true h = ground (
  arith,
  override_map-writes root overrides [],
  writes-retain_overridden root (override_map overrides []) base,
)
