-- ===== src/Runtime/Caps/Parse/Absent.antt =====
-- What `from_policy` of crates/runtime/src/caps.rs makes of a capability that is not in the policy.
use mathlib.Core.Path.{subst}
use runloop.Prelude.{
  String, ◌≡◌, refl, sym, ◌⊎◌, inl, inr, Bool, true, false, not, ◌&&◌, ◌||◌, Option, none, some, [],
  arith, Option-cases, nat_eq, list_eq, option_eq,
}
use runloop.Rmp.Error.{Result, ok, ◌>>=◌, >>=-eq-ok}
use runloop.Runtime.Text.{Text}
use runloop.Runtime.Error.{Error}
use runloop.Runtime.Toml.{array, table, Toml, Table, get, as_table}
use runloop.Runtime.Caps.CapabilitySet.{CapabilitySet, is_none_of}
use runloop.Runtime.Caps.Fs.{dedupe_fs}
use runloop.Runtime.Caps.Effective.{CapsPresence, CapsParse, is_empty}
use runloop.Runtime.Caps.Parse.{
  NetParse, FsParseResult, push_fs_key, parse_fs, parse_bool, parse_capability_set, parse_secrets,
  parse_net_table, parse_net, from_table, from_policy,
}
use runloop.Runtime.Set.{retain_new}

-- Each capability is mentioned, or it is not granted.
abbrev pub granted_if_present : CapsParse → Bool
granted_if_present r =
    (r.presence.fs || is_empty r.caps.fs)
    && (r.presence.net || is_empty r.caps.net_hosts)
    && (r.presence.net_allow_http || not r.caps.net_allow_http)
    && (r.presence.time || not r.caps.time)
    && (r.presence.kb_read || is_none_of r.caps.kb_read)
    && (r.presence.kb_write || is_none_of r.caps.kb_write)
    && (r.presence.model || not r.caps.model)
    && (r.presence.secrets || is_empty r.caps.secrets)
    && (r.presence.exec || not r.caps.exec)

module _ (T : Toml) where
  -- the table under the key `capabilities`, or one without keys
  abbrev pub capabilities_of : T.Value → Table T
  capabilities_of value = elim (get T "capabilities" value) [
    | none ↦ λ key. none
    | some inner ↦ elim (as_table T inner) [ none ↦ λ key. none | some tbl ↦ tbl ]
  ]

  abbrev pub mentions : Option T.Value → Bool
  mentions none = false
  mentions (some _) = true

  -- an entry of the files counts where it is a list
  abbrev pub lists : Option T.Value → Bool
  lists none = false
  lists (some v) = elim (T.view v) [ array _ ↦ true | _ ↦ false ]

  -- `http` is allowed or forbidden by a key in the table `net`
  abbrev pub mentions_http : Option T.Value → Bool
  mentions_http none = false
  mentions_http (some v) = elim (T.view v) [
    | table inner ↦ mentions (inner "allow_http")
    | _ ↦ false
  ]

  -- which capabilities have a key in a table
  abbrev pub mentioned : Table T → CapsPresence
  mentioned tbl = record {
    fs = lists (tbl "fs") || lists (tbl "fs_ro") || lists (tbl "fs_rw");
    net = mentions (tbl "net");
    net_allow_http = mentions_http (tbl "net");
    time = mentions (tbl "time");
    kb_read = mentions (tbl "kb_read");
    kb_write = mentions (tbl "kb_write");
    model = mentions (tbl "model");
    secrets = mentions (tbl "secrets");
    exec = mentions (tbl "exec");
  }

module _ (T : Toml) (home : Option Text) where
  push_fs_key-present :
      (tbl : Table T) (key : String) (write : Bool) (acc r : FsParseResult T home)
      → push_fs_key T home tbl key write acc ≡ ok r
      → r.1 ≡ (acc.1 || lists T (tbl key))
  unfolding push_fs_key
  push_fs_key-present tbl key write acc r h = ground arith

  push_fs_key-cases :
      (tbl : Table T) (key : String) (write : Bool) (acc r : FsParseResult T home)
      → push_fs_key T home tbl key write acc ≡ ok r
      → (r ≡ acc) ⊎ (r.1 ≡ true)
  unfolding push_fs_key
  push_fs_key-cases tbl key write acc r h = ground arith

  deduped-absent :
      (whole r : FsParseResult T home)
      → (whole.1 || is_empty whole.0) ≡ true
      → ◌≡◌ {A = Result Error (FsParseResult T home)} (ok (dedupe_fs whole.0, whole.1)) (ok r)
      → (r.1 || is_empty r.0) ≡ true
  unfolding dedupe_fs retain_new
  deduped-absent whole r a h = ground arith

  push_fs_key-absent :
      (tbl : Table T) (key : String) (write : Bool) (acc r : FsParseResult T home)
      → (acc.1 || is_empty acc.0) ≡ true
      → push_fs_key T home tbl key write acc ≡ ok r
      → (r.1 || is_empty r.0) ≡ true
  unfolding push_fs_key
  push_fs_key-absent tbl key write acc r a h = elim (push_fs_key-cases tbl key write acc r h) [
    | inl e ↦ subst (λ x. (x.1 || is_empty x.0) ≡ true) (sym e) a
    | inr e ↦ ground arith
  ]

  parse_fs-absent :
      (tbl : Table T) (r : FsParseResult T home)
      → parse_fs T home tbl ≡ ok r
      → ((r.1 || is_empty r.0) ≡ true) × (r.1 ≡ (mentioned T tbl).fs)
  unfolding parse_fs
  parse_fs-absent tbl r h =
      let start : FsParseResult T home = ([], false) in
      let (whole, whole_ok, last) =
        >>=-eq-ok
          (push_fs_key T home tbl "fs" false start
            >>= (λ plain. push_fs_key T home tbl "fs_ro" false plain)
            >>= (λ read_only. push_fs_key T home tbl "fs_rw" true read_only))
          (λ whole. ok (dedupe_fs whole.0, whole.1)) h in
      let (read_only, read_only_ok, third) =
        >>=-eq-ok
          (push_fs_key T home tbl "fs" false start
            >>= (λ plain. push_fs_key T home tbl "fs_ro" false plain))
          (λ read_only. push_fs_key T home tbl "fs_rw" true read_only) whole_ok in
      let (plain, first, second) =
        >>=-eq-ok (push_fs_key T home tbl "fs" false start)
          (λ plain. push_fs_key T home tbl "fs_ro" false plain) read_only_ok in
      let a = push_fs_key-absent tbl "fs" false start plain refl first in
      let b = push_fs_key-absent tbl "fs_ro" false plain read_only a second in
      let c = push_fs_key-absent tbl "fs_rw" true read_only whole b third in
      let d = push_fs_key-present tbl "fs" false start plain first in
      let e = push_fs_key-present tbl "fs_ro" false plain read_only second in
      let f = push_fs_key-present tbl "fs_rw" true read_only whole third in
      (deduped-absent whole r c last, ground arith)

  parse_net-absent :
      (tbl : Table T) (r : NetParse T home)
      → parse_net T home tbl ≡ ok r
      → (((r.present || is_empty r.hosts) && (r.allow_http_present || not r.allow_http)) ≡ true)
        × (r.present ≡ mentions T (tbl "net"))
        × (r.allow_http_present ≡ mentions_http T (tbl "net"))
  unfolding parse_net parse_net_table
  parse_net-absent tbl r h = (ground arith, ground arith, ground arith)

  parse_bool-absent :
      (v : Option T.Value)
      → (((parse_bool T home v).1 || not (parse_bool T home v).0) ≡ true)
        × ((parse_bool T home v).1 ≡ mentions T v)
  unfolding parse_bool
  parse_bool-absent v = (ground arith, ground arith)

  parse_capability_set-absent :
      (v : Option T.Value) (r : CapabilitySet × Bool)
      → parse_capability_set T home v ≡ ok r
      → ((r.1 || is_none_of r.0) ≡ true) × (r.1 ≡ mentions T v)
  unfolding parse_capability_set
  parse_capability_set-absent v r h = (ground arith, ground arith)

  parse_secrets-absent :
      (v : Option T.Value)
      → (((parse_secrets T home v).1 || is_empty (parse_secrets T home v).0) ≡ true)
        × ((parse_secrets T home v).1 ≡ mentions T v)
  unfolding parse_secrets
  parse_secrets-absent v = (ground arith, ground arith)

  from_table-absent :
      (tbl : Table T) (r : CapsParse)
      → from_table T home tbl ≡ ok r
      → (r.presence ≡ mentioned T tbl) × (granted_if_present r ≡ true)
  unfolding from_table
  from_table-absent tbl r h =
      let (fs, fs_ok, h1) = >>=-eq-ok (parse_fs T home tbl) _ h in
      let (net, net_ok, h2) = >>=-eq-ok (parse_net T home tbl) _ h1 in
      let (kb_read, read_ok, h3) = >>=-eq-ok (parse_capability_set T home (tbl "kb_read")) _ h2 in
      let (kb_write, write_ok, last) =
        >>=-eq-ok (parse_capability_set T home (tbl "kb_write")) _ h3 in
      let a = parse_fs-absent tbl fs fs_ok in
      let b = parse_net-absent tbl net net_ok in
      let c = parse_capability_set-absent (tbl "kb_read") kb_read read_ok in
      let d = parse_capability_set-absent (tbl "kb_write") kb_write write_ok in
      let e = parse_bool-absent (tbl "time") in
      let f = parse_bool-absent (tbl "model") in
      let g = parse_bool-absent (tbl "exec") in
      let i = parse_secrets-absent (tbl "secrets") in (ground (arith, last), ground (arith, last))

  capabilities_of-table :
      (value inner : T.Value) (tbl : Table T)
      → get T "capabilities" value ≡ some inner
      → as_table T inner ≡ some tbl
      → capabilities_of T value ≡ tbl
  capabilities_of-table value inner tbl e e' = ground arith

  -- Whatever policy is accepted, the parser notes each of the nine capabilities as present exactly
  -- when its key stands in the policy's table of capabilities (for the files, one of three keys
  -- with a list, and for plain http a key of the table `net`), and a capability that is not present
  -- is not granted.
  pub from_policy-absent :
      (value : T.Value) (r : CapsParse)
      → from_policy T home value ≡ ok r
      → (r.presence ≡ mentioned T (capabilities_of T value)) × (granted_if_present r ≡ true)
  unfolding from_policy
  from_policy-absent value r h = elim (Option-cases (get T "capabilities" value)) [
    | inl e ↦ absurd (ground arith)
    | inr (inner, e) ↦ elim (Option-cases (as_table T inner)) [
      | inl e' ↦ absurd (ground arith)
      | inr (tbl, e') ↦
          rw (capabilities_of-table value inner tbl e e') (from_table-absent tbl r (ground arith))
    ]
  ]
