-- ===== src/Runtime/Tests.antt =====
-- A concrete policy, resolver and set of capabilities for crates/runtime, and the theorems applied to
-- them.
use runloop.Prelude.{
  ℕ, String, ◌≡◌, refl, ◌≢◌, Bool, true, false, not, ◌&&◌, ◌||◌, Option, none, some, List, [], ◌∷◌,
  if◌then◌else◌, ◌==◌, length, filter, any, nat_eq, list_eq, string_eq,
}
use runloop.Prelude.Dict.{insert, lookup}
use runloop.Rmp.Error.{ok}
use runloop.Runtime.Text.{
  Text, codes, has, trim, split_once, parse_u16, parse_digits, is_whitespace, trim_start, trim_end,
  strip_prefix,
}
use runloop.Runtime.Error.{CapKind, from_label}
use runloop.Runtime.Error.Labels.{from_label-ne_kb_write}
use runloop.Runtime.Toml.{View, Toml}
use runloop.Runtime.FsPath.{FsPath, path_of, pieces}
use runloop.Runtime.Set.{NoDup, contains, retain_new}
use runloop.Runtime.Caps.CapabilitySet.{none_of, permits}
use runloop.Runtime.Caps.Fs.{fs_eq, reads, writes, dedupe_fs, expand_tilde}
use runloop.Runtime.Caps.Net.{
  net_eq, Resolver, SocketAddr, parse, matches, resolves_to, dedupe_hosts, merge_hosts,
  ports_by_host, narrow_each, narrowed, at_ports,
}
use runloop.Runtime.Caps.Net.Parsed.{port_in_range, parse-in_range}
use runloop.Runtime.Caps.Effective.{
  Caps, CapsParse, deny_all, permits_host, permits_secret, intersect_with, is_effectively_empty,
}
use runloop.Runtime.Caps.Parse.{
  from_policy, from_table, parse_fs, push_fs_key, push_fs_entries, parse_fs_entry, parse_net,
  push_hosts, parse_capability_set, parse_bool, parse_secrets, collect_texts, insert_domains,
  parse_net_table,
}
use runloop.Runtime.Caps.Parse.Absent.{
  granted_if_present, mentioned, capabilities_of, from_policy-absent,
}
use runloop.Runtime.Caps.Parse.Unique.{from_policy-NoDup}
use runloop.Runtime.Caps.Attenuation.{
  permits_host-intersect_with, fs-intersect_with, sets-intersect_with, is_effectively_empty-denies,
}

mutual
  pub data Doc : Type 0 where
    text : Text → Doc
    flag : Bool → Doc
    items : Docs → Doc
    fields : Fields → Doc

  pub data Docs : Type 0 where
    nil : Docs
    cons : Doc → Docs → Docs

  pub data Fields : Type 0 where
    end : Fields
    field : String → Doc → Fields → Fields

abbrev docs : Docs → List Doc
docs nil = []
docs (cons d ds) = d ∷ docs ds

abbrev find : Fields → String → Option Doc
find end key = none
find (field name d fs) key = let rest = find fs key in if name == key then some d else rest

abbrev view_doc : Doc → View Doc
view_doc (text s) = View.string s
view_doc (flag b) = View.boolean b
view_doc (items ds) = View.array (docs ds)
view_doc (fields fs) = View.table (find fs)

abbrev documents : Toml
documents = record { Value = Doc; view = view_doc; debug = λ d. codes "value" }

abbrev policy : Doc
policy = fields (
    field "capabilities"
      (fields (
        field "fs" (items (cons (text (codes "~/data")) nil)) (
          field "fs_ro" (items (cons (text (codes "~/data")) nil)) (
            field "net" (items (cons (text (codes "api.example:443")) nil))
              (field "time" (flag true) end)))))
      end)

abbrev data_dir : FsPath
data_dir = codes "/" ∷ codes "home" ∷ codes "ada" ∷ codes "data" ∷ []

abbrev parsed : CapsParse
parsed = record {
  caps = record deny_all {
    fs = record { root = data_dir; write = false } ∷ [];
    net_hosts = record { host = codes "api.example"; port = some 443 } ∷ [];
    time = true;
  };
  presence = record {
    fs = true;
    net = true;
    net_allow_http = false;
    time = true;
    kb_read = false;
    kb_write = false;
    model = false;
    secrets = false;
    exec = false;
  };
}

policy-parsed : from_policy documents (some (codes "/home/ada")) policy ≡ ok parsed
unfolding path_of pieces filter from_policy from_table parse_fs push_fs_key push_fs_entries
    parse_fs_entry trim is_whitespace parse_net push_hosts parse split_once parse_u16
    parse_capability_set dedupe_fs dedupe_hosts parse_bool parse_secrets retain_new contains
    expand_tilde strip_prefix collect_texts insert_domains parse_net_table parse_digits trim_end
    trim_start
policy-parsed = refl

from_policy-absent_example :
    (parsed.presence ≡ mentioned documents (capabilities_of documents policy))
    × (granted_if_present parsed ≡ true)
from_policy-absent_example =
    from_policy-absent documents (some (codes "/home/ada")) policy parsed policy-parsed

from_policy-NoDup_example : NoDup parsed.caps.fs × NoDup parsed.caps.net_hosts
from_policy-NoDup_example =
    from_policy-NoDup documents (some (codes "/home/ada")) policy parsed policy-parsed

from_label-ne_kb_write_example : from_label (codes "kb.write") ≢ CapKind.kb_write
from_label-ne_kb_write_example = from_label-ne_kb_write (codes "kb.write")

parse-in_range_example :
    (port_in_range (some 443) ≡ true) × (has b':' (codes "api.example") ≡ false)
unfolding parse trim trim_start trim_end is_whitespace split_once parse_u16 parse_digits
parse-in_range_example =
    parse-in_range (codes "api.example:443")
      (record { host = codes "api.example"; port = some 443 }) refl

-- a resolver that gives a host the number of its characters
abbrev by_length : Resolver
by_length = record {
  Ip = ℕ;
  ip_eq = nat_eq;
  parse_ip = λ host. none;
  to_socket_addrs = λ host port. some ((length host, port) ∷ []);
}

abbrev address : SocketAddr by_length
address = record { ip = 11; port = 443 }

-- the same host on every port, and the directory for writing
abbrev overrides : Caps
overrides = record deny_all {
  fs = record { root = data_dir; write = true } ∷ [];
  net_hosts = record { host = codes "api.example"; port = none } ∷ [];
}

merged-permits :
    permits_host by_length (intersect_with parsed.caps overrides parsed.presence) address ≡ true
unfolding permits_host intersect_with merge_hosts ports_by_host narrow_each narrowed at_ports
    dedupe_hosts retain_new contains matches resolves_to any insert lookup
merged-permits = refl

permits_host-intersect_with_example :
    (permits_host by_length parsed.caps address
      && (not true || permits_host by_length overrides address))
    ≡ true
permits_host-intersect_with_example =
    permits_host-intersect_with by_length parsed.caps overrides parsed.presence address
      merged-permits

fs-intersect_with_example :
    let merged = intersect_with parsed.caps overrides parsed.presence in
    let root : FsPath = data_dir in
    (reads root merged.fs ≡ (reads root parsed.caps.fs && (not true || reads root overrides.fs)))
    × ((not (writes root merged.fs)
          || (writes root parsed.caps.fs && (not true || writes root overrides.fs)))
        ≡ true)
fs-intersect_with_example = fs-intersect_with data_dir parsed.caps overrides parsed.presence

sets-intersect_with_example :
    let merged = intersect_with parsed.caps overrides parsed.presence in
    let name : Text = codes "mail" in
    (permits merged.kb_read name ≡ (permits none_of name && (not false || permits none_of name)))
    × (permits merged.kb_write name ≡ (permits none_of name && (not false || permits none_of name)))
    × (permits_secret merged name
        ≡ (permits_secret parsed.caps name && (not false || permits_secret overrides name)))
sets-intersect_with_example =
    sets-intersect_with (codes "mail") parsed.caps overrides parsed.presence

is_effectively_empty-denies_example :
    (false ≡ false)
    × (permits_host by_length deny_all address ≡ false)
    × (permits_secret deny_all (codes "token") ≡ false)
    × (permits none_of (codes "token") ≡ false)
    × (permits none_of (codes "token") ≡ false)
    × (reads data_dir [] ≡ false)
    × (is_effectively_empty (intersect_with deny_all overrides parsed.presence) ≡ true)
unfolding is_effectively_empty
is_effectively_empty-denies_example =
    is_effectively_empty-denies by_length deny_all overrides parsed.presence address (codes "token")
      data_dir refl
