-- ===== src/Runtime/Caps/Parse.antt =====
-- `Caps::from_policy` of crates/runtime/src/caps.rs and the parsers it calls. `home` is the variable
-- HOME of the process.
pub mod Absent
pub mod Unique
use runloop.Prelude.{
  String, Bool, true, false, Option, none, some, List, [], ◌∷◌, ◌++◌, if◌then◌else◌, nat_eq,
  list_eq, option_eq,
}
use runloop.Rmp.Error.{Result, ok, err, ◌>>=◌}
use runloop.Runtime.Text.{Text, codes, trim}
use runloop.Runtime.Error.{Error}
use runloop.Runtime.Toml.{
  boolean, array, table, Toml, Table, as_str, as_bool, as_array, as_table, get,
}
use runloop.Runtime.FsPath.{path_of}
use runloop.Runtime.Set.{set_insert}
use runloop.Runtime.Caps.CapabilitySet.{CapabilitySet, none_of, all_of, domains_or_none}
use runloop.Runtime.Caps.Fs.{FsCapability, dedupe_fs, expand_tilde}
use runloop.Runtime.Caps.Net
use runloop.Runtime.Caps.Net.{NetLocation, dedupe_hosts}
use runloop.Runtime.Caps.Effective.{CapsParse, is_empty}

module _ (T : Toml) (home : Option Text) where
  unfoldable pub parse_fs_entry : T.Value → Bool → Result Error FsCapability
  parse_fs_entry value write = elim (as_str T value) [
    | none ↦ err (Error.invalid_fs_entry (T.debug value))
    | some raw ↦
        if is_empty (trim raw)
        then err (Error.invalid_fs_entry raw)
        else ok (record { root = path_of (expand_tilde raw home); write = write })
  ]

  -- the loop over the entries of one key
  unfoldable pub push_fs_entries :
      Bool → List T.Value → List FsCapability → Result Error (List FsCapability)
  push_fs_entries write [] fs_entries = ok fs_entries
  push_fs_entries write (value ∷ values) fs_entries =
      parse_fs_entry value write
      >>= (λ entry. push_fs_entries write values (fs_entries ++ entry ∷ []))

  abbrev pub FsParseResult : Type 0
  FsParseResult = List FsCapability × Bool

  -- `if let Some(Value::Array(entries)) = table.get(key)`
  unfoldable pub push_fs_key : Table T → String → Bool → FsParseResult → Result Error FsParseResult
  push_fs_key tbl key write (fs_entries, present) = elim (tbl key) [
    | none ↦ ok (fs_entries, present)
    | some value ↦ elim (as_array T value) [
      | none ↦ ok (fs_entries, present)
      | some entries ↦
          push_fs_entries write entries fs_entries >>= (λ fs_entries'. ok (fs_entries', true))
    ]
  ]

  unfoldable pub parse_fs : Table T → Result Error FsParseResult
  parse_fs tbl =
      push_fs_key tbl "fs" false ([], false)
      >>= (λ plain. push_fs_key tbl "fs_ro" false plain)
      >>= (λ read_only. push_fs_key tbl "fs_rw" true read_only)
      >>= (λ whole. ok (dedupe_fs whole.0, whole.1))

  unfoldable pub parse_bool : Option T.Value → Bool × Bool
  parse_bool none = (false, false)
  parse_bool (some value) = elim (as_bool T value) [ some b ↦ (b, true) | none ↦ (false, true) ]

  -- the loop over the domains
  unfoldable pub insert_domains : List T.Value → List Text → Result Error (List Text)
  insert_domains [] items = ok items
  insert_domains (entry ∷ entries) items = elim (as_str T entry) [
    | none ↦ err (Error.invalid_capability_entry (T.debug entry))
    | some domain ↦
        insert_domains entries
          (if is_empty (trim domain) then items else set_insert (trim domain) items)
  ]

  unfoldable pub parse_capability_set : Option T.Value → Result Error (CapabilitySet × Bool)
  parse_capability_set none = ok (none_of, false)
  parse_capability_set (some value) = elim (T.view value) [
    | boolean flag ↦ ok (if flag then all_of else none_of, true)
    | array entries ↦ insert_domains entries [] >>= (λ items. ok (domains_or_none items, true))
    | _ ↦ err (Error.invalid_capability_entry (T.debug value))
  ]

  -- `filter_map(Value::as_str)` collected into a set
  unfoldable pub collect_texts : List T.Value → List Text → List Text
  collect_texts [] set = set
  collect_texts (value ∷ values) set =
      collect_texts values (elim (as_str T value) [ none ↦ set | some s ↦ set_insert s set ])

  unfoldable pub parse_secrets : Option T.Value → List Text × Bool
  parse_secrets none = ([], false)
  parse_secrets (some value) = elim (as_array T value) [
    | none ↦ ([], true)
    | some arr ↦ (collect_texts arr [], true)
  ]

  -- the loop over the hosts
  unfoldable pub push_hosts : List T.Value → List NetLocation → Result Error (List NetLocation)
  push_hosts [] hosts = ok hosts
  push_hosts (entry ∷ entries) hosts = elim (as_str T entry) [
    | none ↦ err (Error.invalid_network_host (T.debug entry))
    | some raw ↦ Net.parse raw >>= (λ location. push_hosts entries (hosts ++ location ∷ []))
  ]

  pub record NetParse : Type 0 where
    pub hosts : List NetLocation
    pub allow_http : Bool
    pub present : Bool
    pub allow_http_present : Bool

  abbrev is_some {ℓ} : {A : Type ℓ} → Option A → Bool
  is_some none = false
  is_some (some _) = true

  unfoldable pub parse_net_table : Table T → Result Error NetParse
  parse_net_table tbl = elim (tbl "hosts") [
    | none ↦ err (Error.invalid_network_host (codes "missing net.hosts"))
    | some hosts_value ↦ elim (as_array T hosts_value) [
      | none ↦ err (Error.invalid_network_host (codes "net.hosts must be array"))
      | some host_list ↦ push_hosts host_list [] >>= (λ hosts. ok (record {
        hosts = dedupe_hosts hosts;
        allow_http = elim (tbl "allow_http") [
          | none ↦ false
          | some v ↦ elim (as_bool T v) [ none ↦ false | some b ↦ b ]
        ];
        present = true;
        allow_http_present = is_some (tbl "allow_http");
      }))
    ]
  ]

  unfoldable pub parse_net : Table T → Result Error NetParse
  parse_net tbl = elim (tbl "net") [
    | none ↦
        ok (record { hosts = []; allow_http = false; present = false; allow_http_present = false })
    | some value ↦ elim (T.view value) [
      | array entries ↦ push_hosts entries [] >>= (λ hosts. ok (record {
        hosts = dedupe_hosts hosts;
        allow_http = false;
        present = true;
        allow_http_present = false;
      }))
      | table inner ↦ parse_net_table inner
      | _ ↦ err (Error.invalid_network_host (T.debug value))
    ]
  ]

  -- the part of `from_policy` behind the table
  unfoldable pub from_table : Table T → Result Error CapsParse
  from_table tbl = parse_fs tbl >>= (λ fs_entries. parse_net tbl >>= (λ net.
      parse_capability_set (tbl "kb_read") >>= (λ kb_read.
        parse_capability_set (tbl "kb_write") >>= (λ kb_write.
          let time = parse_bool (tbl "time") in
          let model = parse_bool (tbl "model") in
          let exec = parse_bool (tbl "exec") in
          let secrets = parse_secrets (tbl "secrets") in
          ok (record {
            caps = record {
              fs = fs_entries.0;
              net_hosts = net.hosts;
              net_allow_http = net.allow_http;
              time = time.0;
              kb_read = kb_read.0;
              kb_write = kb_write.0;
              model = model.0;
              secrets = secrets.0;
              exec = exec.0;
            };
            presence = record {
              fs = fs_entries.1;
              net = net.present;
              net_allow_http = net.allow_http_present;
              time = time.1;
              kb_read = kb_read.1;
              kb_write = kb_write.1;
              model = model.1;
              secrets = secrets.1;
              exec = exec.1;
            };
          })))))

  unfoldable pub from_policy : T.Value → Result Error CapsParse
  from_policy value = elim (get T "capabilities" value) [
    | none ↦ err Error.invalid_policy_format
    | some inner ↦ elim (as_table T inner) [
      | none ↦ err Error.invalid_policy_format
      | some tbl ↦ from_table tbl
    ]
  ]
