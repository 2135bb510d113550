-- ===== src/Runtime/Caps/Parse/Unique.antt =====
-- The lists of entries of a policy that crates/runtime/src/caps.rs has parsed.
use mathlib.Core.Path.{subst}
use runloop.Prelude.{◌≡◌, sym, ◌≢◌, inl, inr, true, false, Option, List, [], arith, Option-cases}
use runloop.Rmp.Error.{ok, err, ◌>>=◌, >>=-eq-ok, Result-cases}
use runloop.Runtime.Text.{Text}
use runloop.Runtime.Error.{Error}
use runloop.Runtime.Toml.{Toml, Table, get, as_table, as_array}
use runloop.Runtime.Set.{NoDup, NoDup-retain_new}
use runloop.Runtime.Caps.Fs.{fs_eq, FsCapability, dedupe_fs}
use runloop.Runtime.Caps.Net.{net_eq, NetLocation, dedupe_hosts}
use runloop.Runtime.Caps.Effective.{CapsParse}
use runloop.Runtime.Caps.Parse.{
  NetParse, FsParseResult, push_fs_key, parse_fs, parse_net_table, parse_net, push_hosts,
  parse_capability_set, from_table, from_policy,
}

module _ (T : Toml) (home : Option Text) where
  NoDup-fs : (entries : List FsCapability) → NoDup (dedupe_fs entries)
  unfolding dedupe_fs
  NoDup-fs entries = NoDup-retain_new [] entries

  NoDup-hosts : (hosts : List NetLocation) → NoDup (dedupe_hosts hosts)
  unfolding dedupe_hosts
  NoDup-hosts hosts = NoDup-retain_new [] hosts

  parse_fs-deduped :
      (tbl : Table T) (r : FsParseResult T home)
      → parse_fs T home tbl ≡ ok r
      → (entries : List FsCapability) × (dedupe_fs entries ≡ r.0)
  unfolding parse_fs
  parse_fs-deduped tbl r h =
      let (whole, _, last) =
        >>=-eq-ok
          (push_fs_key T home tbl "fs" false ([], false)
            >>= (λ plain. push_fs_key T home tbl "fs_ro" false plain)
            >>= (λ read_only. push_fs_key T home tbl "fs_rw" true read_only))
          (λ whole. ok (dedupe_fs whole.0, whole.1)) h in
      (whole.0, ground arith)

  pushed-NoDup :
      (entries : List T.Value) (r : NetParse T home)
      → ((hosts : List NetLocation)
          → push_hosts T home entries [] ≡ ok hosts
          → r.hosts ≡ dedupe_hosts hosts)
      → ((e : Error) → push_hosts T home entries [] ≢ err e)
      → NoDup r.hosts
  pushed-NoDup entries r same good = elim (Result-cases (push_hosts T home entries [])) [
    | inl (e, bad) ↦ absurd (good e bad)
    | inr (hosts, pushed) ↦ subst NoDup (sym (same hosts pushed)) (NoDup-hosts hosts)
  ]

  parse_net_table-NoDup :
      (tbl : Table T) (r : NetParse T home) → parse_net_table T home tbl ≡ ok r → NoDup r.hosts
  unfolding parse_net_table
  parse_net_table-NoDup tbl r h = elim (Option-cases (tbl "hosts")) [
    | inl e ↦ absurd (ground arith)
    | inr (value, e) ↦ elim (Option-cases (as_array T value)) [
      | inl e' ↦ absurd (ground arith)
      | inr (entries, e') ↦
          pushed-NoDup entries r (λ hosts pushed. ground arith) (λ error bad. absurd (ground arith))
    ]
  ]

  parse_net-NoDup :
      (tbl : Table T) (r : NetParse T home) → parse_net T home tbl ≡ ok r → NoDup r.hosts
  unfolding parse_net
  parse_net-NoDup tbl r h = elim (Option-cases (tbl "net")) [
    | inl e ↦ let none_given : r.hosts ≡ [] = ground arith in subst NoDup (sym none_given) tt
    | inr (value, e) ↦ elim (Option-cases (as_array T value)) [
      | inr (entries, e') ↦
          pushed-NoDup entries r (λ hosts pushed. ground arith) (λ error bad. absurd (ground arith))
      | inl e' ↦ elim (Option-cases (as_table T value)) [
        | inl e'' ↦ absurd (ground arith)
        | inr (inner, e'') ↦ parse_net_table-NoDup inner r (ground arith)
      ]
    ]
  ]

  from_table-NoDup :
      (tbl : Table T) (r : CapsParse)
      → from_table T home tbl ≡ ok r
      → NoDup r.caps.fs × NoDup r.caps.net_hosts
  unfolding from_table
  from_table-NoDup tbl r h =
      let (fs, fs_ok, h1) = >>=-eq-ok (parse_fs T home tbl) _ h in
      let (net, net_ok, h2) = >>=-eq-ok (parse_net T home tbl) _ h1 in
      let (kb_read, _, h3) = >>=-eq-ok (parse_capability_set T home (tbl "kb_read")) _ h2 in
      let (kb_write, _, last) = >>=-eq-ok (parse_capability_set T home (tbl "kb_write")) _ h3 in
      let (entries, deduped) = parse_fs-deduped tbl fs fs_ok in
      let same_fs : dedupe_fs entries ≡ r.caps.fs = ground arith in
      let same_hosts : net.hosts ≡ r.caps.net_hosts = ground arith in
      (
        subst NoDup same_fs (NoDup-fs entries),
        subst NoDup same_hosts (parse_net-NoDup tbl net net_ok),
      )

  -- Whatever policy is accepted, its filesystem entries are pairwise different, and so are its
  -- network hosts.
  pub from_policy-NoDup :
      (value : T.Value) (r : CapsParse)
      → from_policy T home value ≡ ok r
      → NoDup r.caps.fs × NoDup r.caps.net_hosts
  unfolding from_policy
  from_policy-NoDup value r h = elim (Option-cases (get T "capabilities" value)) [
    | inl e ↦ absurd (ground arith)
    | inr (inner, e) ↦ elim (Option-cases (as_table T inner)) [
      | inl e' ↦ absurd (ground arith)
      | inr (tbl, e') ↦ from_table-NoDup tbl r (ground arith)
    ]
  ]
