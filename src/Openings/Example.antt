-- ===== src/Openings/Example.antt =====
-- A small opening of two nodes, as a document and as crates/openings/src/parser.rs reads it.
use runloop.Prelude.{
  ℕ, ◌-◌, ◌≡◌, refl, Bool, Option, none, some, List, [], ◌∷◌, ltb, leb, any, every, nat_eq, list_eq,
  option_eq,
}
use runloop.Prelude.Dict.{lookup, insert}
use runloop.Runtime.Text.{
  Text, codes, trim, trim_start, trim_end, is_whitespace, split_once, strip_prefix,
}
use runloop.Rmp.Error.{ok}
use runloop.Openings.Json.{ℤ, pos, negsuc, Numbers, Json, Items, Fields, get_field, insert_field}
use runloop.Openings.Yaml.{Yaml}
use runloop.Openings.Types.{NodeKind, Node, Opening, SourceLocation}
use runloop.Openings.Parser.Document.{
  parse_opening_str, parse_mapping, parse_edge, parse_each_edge, parse_edges, parse_success,
  parse_artifacts, parse_params,
}
use runloop.Openings.Parser.Nodes.{
  parse_nodes, parse_each, parse_node, parse_body, parse_limits, parse_args, parse_tags,
  parse_timeout, parse_budget, collect_tags, is_mailer, disables_confirmation,
}
use runloop.Openings.Parser.Fields.{
  expect_string_in, expect_string, expect_u32, expect_string_list, parse_policy,
  yaml_map_to_json_map, insert_entries, default_retry,
}
use runloop.Openings.Parser.Hints.{parse_schema_hints}
use runloop.Openings.Parser.Templates.{
  apply_param_templates, apply_value, apply_templates_array, substitute, extract_template,
  validate_no_templates, validate_items, validate_values, has_braces,
}
use runloop.Openings.Parser.Terms.{
  parse_use, parse_target, parse_agent_reference, check_agent, valid_identifier,
  parse_port_predicate, split_operator, symbol, parse_port_reference,
}
use runloop.Openings.Strings.{
  split, split_on, strip_suffix, is_identifier_char, is_digit, contains_text, find,
}
use runloop.Openings.Graph.{
  validate_graph, index_edges, index_of, index_nodes, visit, drain, release, sources, adjacency,
  indegree,
}
use runloop.Runtime.Set.{contains}
use runloop.Openings.Locate.{locate_node, locate_edge, locate_pattern, locate_index}

abbrev of_int : ℤ → ℕ
of_int (pos n) = n
of_int (negsuc n) = 0

abbrev pub numbers : Numbers
numbers = record {
  F64 = ℕ;
  sub = λ a b. a - b;
  abs = λ a. a;
  f64_ltb = ltb;
  f64_leb = leb;
  epsilon = 1;
  of_int = of_int;
  parse_f64 = λ s. none;
  F32 = ℕ;
  f32_tenths = λ n. n;
  to_f32 = λ n. n;
  Number = ℕ;
  as_i64 = λ n. some (pos n);
  as_u64 = λ n. some n;
  as_f64 = λ n. some n;
}

abbrev entries : Fields numbers → List (Json numbers × Json numbers)
entries Fields.end = []
entries (Fields.field key value rest) = (Json.string key, value) ∷ entries rest

abbrev elements : Items numbers → List (Json numbers)
elements Items.nil = []
elements (Items.cons x xs) = x ∷ elements xs

abbrev string_of : Json numbers → Option Text
string_of (Json.string s) = some s
string_of _ = none

abbrev mapping_of : Json numbers → Option (Fields numbers)
mapping_of (Json.object m) = some m
mapping_of _ = none

abbrev sequence_of : Json numbers → Option (List (Json numbers))
sequence_of (Json.array xs) = some (elements xs)
sequence_of _ = none

abbrev number_of : Json numbers → Option ℕ
number_of (Json.number n) = some n
number_of _ = none

abbrev bool_of : Json numbers → Option Bool
bool_of (Json.bool b) = some b
bool_of _ = none

-- documents that are JSON, whatever their text
abbrev pub yaml : Json numbers → Yaml numbers
yaml document = record {
  Value = Json numbers;
  Mapping = Fields numbers;
  get = get_field;
  entries = entries;
  as_mapping = mapping_of;
  as_sequence = sequence_of;
  as_str = string_of;
  as_bool = bool_of;
  as_i64 = λ v. elim (number_of v) [ none ↦ none | some n ↦ some (pos n) ];
  as_u64 = number_of;
  as_f64 = number_of;
  to_json = ok;
  from_str = λ s. ok document;
}

abbrev pub text : Text → Json numbers
text = Json.string

abbrev node_entry : Text → Text → Json numbers
node_entry id use_value = Json.object (
    Fields.field (codes "id") (text id) (
      Fields.field (codes "use") (text use_value) (
        Fields.field (codes "with")
          (Json.object (Fields.field (codes "tone") (text (codes "{{params.tone}}")) Fields.end))
          Fields.end)))

abbrev edge_entry : Text → Text → Json numbers
edge_entry from to =
    Json.object
      (Fields.field (codes "from") (text from) (Fields.field (codes "to") (text to) Fields.end))

abbrev pub document : Json numbers
document = Json.object (
    Fields.field (codes "version") (Json.number 0) (
      Fields.field (codes "name") (text (codes "mail")) (
        Fields.field (codes "params")
          (Json.object (Fields.field (codes "tone") (text (codes "warm")) Fields.end))
          (Fields.field (codes "nodes")
            (Json.array (
              Items.cons (node_entry (codes "draft") (codes "agent:writer"))
                (Items.cons (node_entry (codes "send") (codes "agent:mailer")) Items.nil)))
            (Fields.field (codes "edges")
              (Json.array (Items.cons (edge_entry (codes "draft.out") (codes "send.in")) Items.nil))
              Fields.end)))))

abbrev pub start : SourceLocation
start = record { line = 1; column = 1 }

abbrev pub tone : Fields numbers
tone = Fields.field (codes "tone") (text (codes "warm")) Fields.end

abbrev pub agent_node : Text → Text → Node numbers
agent_node id agent = record {
  id = id;
  kind = NodeKind.agent (record { name = agent; variant = none });
  args = tone;
  schema_hints = record { hint = none };
  retry = record {
    max_attempts = 0;
    initial_backoff_ms = 0;
    max_backoff_ms = none;
    multiplier = 0;
    jitter = 0;
  };
  timeout_ms = none;
  budget_tokens = none;
  tags = [];
  location = start;
}

abbrev pub mail : Opening numbers
mail = record {
  version = 0;
  name = codes "mail";
  goals = [];
  params = tone;
  policy = record { budget_tokens = none; timeout_ms = none; confirm_external = none };
  nodes =
      agent_node (codes "draft") (codes "writer") ∷ agent_node (codes "send") (codes "mailer") ∷ [];
  edges =
      record {
        from = record { node = codes "draft"; port = codes "out" };
        predicate = none;
        to = record { node = codes "send"; port = codes "in" };
        location = start;
      }
      ∷ [];
  success = none;
  artifacts = record { save = [] };
}

pub mail_parsed : parse_opening_str (yaml document) [] ≡ ok mail
unfolding parse_opening_str parse_mapping parse_edge parse_each_edge parse_edges parse_success
    parse_artifacts parse_params parse_nodes parse_each parse_node parse_body parse_limits
    parse_args parse_tags parse_timeout parse_budget collect_tags is_mailer disables_confirmation
    expect_string_in expect_string expect_u32 expect_string_list parse_policy yaml_map_to_json_map
    insert_entries default_retry parse_schema_hints apply_param_templates apply_value
    apply_templates_array substitute extract_template validate_no_templates validate_items
    validate_values has_braces parse_use parse_target parse_agent_reference check_agent
    valid_identifier parse_port_predicate split_operator symbol parse_port_reference split split_on
    strip_suffix is_identifier_char is_digit contains_text find get_field insert_field
    validate_graph index_edges index_of index_nodes visit drain release sources adjacency indegree
    lookup insert contains trim trim_start trim_end is_whitespace split_once strip_prefix every any
    locate_node locate_edge locate_pattern locate_index
mail_parsed = refl
