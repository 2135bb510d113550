-- ===== src/Openings/Tests.antt =====
-- A small opening for crates/openings, with its parser, runner and replay: the theorems at an example.
use runloop.Openings.Runner.Status.{has_failed}
use runloop.Openings.Runner.Outcome.{has_settled}
use runloop.Prelude.{
  ℕ, ◌+◌, ◌≡◌, refl, ◌↔◌, true, not, ◌||◌, Option, none, some, List, [], ◌∷◌, ◌++◌, every, All,
  nat_eq, list_eq, option_eq,
}
use runloop.Prelude.Dict.{Dict, lookup}
use runloop.Runtime.Text.{Text, codes, trim, trim_start, trim_end, is_whitespace, strip_prefix}
use runloop.Rmp.Error.{ok}
use runloop.Openings.Json.{Fields, get_field}
use runloop.Openings.Predicates.{Ports}
use runloop.Openings.Runner.Report.{
  NodeExecution, RunReport, NodeState, NodeRecord, RunTrace, NodeTrace,
}
use runloop.Openings.Runner.Env.{Env, Hashing, Execution}
use runloop.Openings.Runner.Attempts.{Runner, max_attempts, execute_node}
use runloop.Openings.Parser.Templates.{
  apply_param_templates, apply_value, substitute, extract_template, validate_no_templates,
  validate_values, has_braces,
}
use runloop.Openings.Parser.Terms.{valid_identifier}
use runloop.Openings.Strings.{split_on, strip_suffix, is_identifier_char, is_digit, contains_text}
use runloop.Openings.Graph.{validate_graph}
use runloop.Runtime.Set.{contains, NoDup}
use runloop.Openings.Runner.Finish.{trace_nodes, last, run}
use runloop.Openings.Graph.Ends.{Known, ids, Ranked}
use runloop.Openings.Graph.Valid.{validate_graph_iff}
use runloop.Openings.Parser.Accepted.{parse_opening_str-Accepted, parse_opening_str-runs, Accepted}
use runloop.Openings.Runner.Correct.{run-total, run-sequenced, run-settled, TracesSequenced}
use runloop.Openings.Runner.Retries.{execute_node-Ends, Ends}
use runloop.Openings.Parser.Substituted.{apply_param_templates-clean}
use runloop.Openings.Replay.{replay, Executor}
use runloop.Openings.Replay.Matches.{replay-matches, Recorded}
use runloop.Openings.Example.{
  agent_node, document, mail, mail_parsed, numbers, start, text, tone, yaml,
}

abbrev greeting : Ports numbers
greeting = (codes "out", text (codes "hello") ∷ []) ∷ []

-- a clock that counts, and an executor that always completes
abbrev world : Env numbers
world = record {
  World = ℕ;
  now = λ n. (n, n + 1);
  new_agent_id = λ n. (n, n + 1);
  execute_within = λ ms request n. (Execution.finished (NodeExecution.completed greeting), n);
  back_off = λ retry attempt n. n;
  send_event = λ event n. n;
  show_error = λ e. [];
}

abbrev hashing : Hashing numbers
hashing = record {
  Hasher = Text;
  new = [];
  update = λ h t. h ++ t;
  Hash = Text;
  finalize = λ h. h;
  as_bytes = λ h. h;
  to_hex = λ h. h;
  serialize = λ v. codes "json";
}

abbrev runner : Runner numbers
runner = record { opening = mail; trace_id = 1; opening_id = 2; observed = true }

ids_differ : NoDup (ids mail.nodes)
unfolding contains
ids_differ = (refl, (refl, tt))

ends_joined : Known mail.nodes mail.edges
unfolding contains
ends_joined = ((refl, refl), tt)

-- an executor that answers as the recorded run did, and the records of that run
abbrev answering : Executor numbers
answering = record {
  World = ℕ;
  new_agent_id = λ n. (n, n + 1);
  execute = λ request n. (ok (NodeExecution.completed greeting), n);
}

abbrev record_of : Text → Dict Text (NodeRecord numbers)
record_of id =
    (
      id,
      record {
        node_id = id;
        state = NodeState.succeeded;
        attempts =
            record {
              attempt = 1;
              started_at = 0;
              finished_at = 1;
              inputs = [];
              output = some greeting;
              error = none;
            }
            ∷ [];
      },
    )
    ∷ []

abbrev records : Dict Text (NodeRecord numbers)
records = record_of (codes "draft") ++ record_of (codes "send")

abbrev traced : Option (List (NodeTrace numbers) × Text)
traced = trace_nodes hashing mail.nodes records []

abbrev recorded_trace : RunTrace numbers
recorded_trace = record {
  trace_id = 1;
  opening_id = 2;
  nodes = elim traced [ none ↦ [] | some t ↦ t.0 ];
  ladder = [];
  final_hash = elim traced [ none ↦ [] | some t ↦ t.1 ];
  success = true;
}

traced_all :
    trace_nodes hashing mail.nodes records []
    ≡ some (recorded_trace.nodes, recorded_trace.final_hash)
unfolding trace_nodes lookup
traced_all = refl

agreed :
    All
      (Recorded hashing answering mail recorded_trace
        (λ node inputs attempt. NodeExecution.completed greeting)
        (λ request w. refl)
        records)
      mail.nodes
unfolding lookup last
agreed = ((greeting, refl, refl, refl), ((greeting, refl, refl, refl), tt))

validate_graph_iff_example :
    (validate_graph mail.nodes mail.edges start ≡ ok tt)
    ↔ (Known mail.nodes mail.edges × ((rank : Text → ℕ) × Ranked rank mail.edges))
validate_graph_iff_example = validate_graph_iff mail.nodes mail.edges start

parse_opening_str-Accepted_example : (mail.version ≡ 0) × Accepted mail
parse_opening_str-Accepted_example = parse_opening_str-Accepted (yaml document) [] mail mail_parsed

parse_opening_str-runs_example :
    (rep : RunReport numbers) × (w : ℕ) × (run world runner hashing 7 ≡ some (rep, w))
parse_opening_str-runs_example =
    parse_opening_str-runs (yaml document) [] world hashing runner 7 mail_parsed

abbrev outcome : (rep : RunReport numbers) × (w : ℕ) × (run world runner hashing 7 ≡ some (rep, w))
outcome = run-total world runner hashing 7 ids_differ ends_joined

run-sequenced_example : TracesSequenced world runner hashing outcome.0.trace.nodes
run-sequenced_example =
    run-sequenced world runner hashing 7 outcome.0 outcome.1 ids_differ ends_joined outcome.2

run-settled_example :
    (every (λ t. has_settled t.state) outcome.0.trace.nodes ≡ true)
    × ((not outcome.0.trace.success || every (λ t. not (has_failed t.state)) outcome.0.trace.nodes)
        ≡ true)
run-settled_example =
    run-settled world runner hashing 7 outcome.0 outcome.1 ids_differ ends_joined outcome.2

abbrev drafted : NodeRecord numbers
drafted = record { node_id = codes "draft"; state = NodeState.pending; attempts = [] }

execute_node-Ends_example :
    (o : Option (Ports numbers)) × (after : NodeRecord numbers) × (w : ℕ) × (execute_node world
        runner
        (agent_node (codes "draft") (codes "writer"))
        []
        drafted
        7
      ≡ some ((o, after), w))
    × Ends world runner (agent_node (codes "draft") (codes "writer")) drafted 1 o after
unfolding max_attempts
execute_node-Ends_example =
    execute_node-Ends world runner (agent_node (codes "draft") (codes "writer")) [] drafted 7

abbrev templated : Fields numbers
templated = Fields.field (codes "tone") (text (codes "{{params.tone}}")) Fields.end

templated_applied : apply_param_templates tone start templated ≡ ok tone
unfolding apply_param_templates apply_value substitute extract_template validate_no_templates
    has_braces contains_text split_on strip_prefix strip_suffix trim trim_start trim_end
    is_whitespace valid_identifier every is_identifier_char is_digit get_field
templated_applied = refl

apply_param_templates-clean_example :
    (validate_values start tone ≡ ok tt) × (apply_param_templates tone start tone ≡ ok tone)
apply_param_templates-clean_example =
    apply_param_templates-clean tone start templated tone templated_applied

replay-matches_example :
    (replay hashing answering mail recorded_trace 3).0
    ≡ ok (record { matches = true; mismatches = []; replay_hash = recorded_trace.final_hash })
replay-matches_example =
    replay-matches hashing answering mail recorded_trace
      (λ node inputs attempt. NodeExecution.completed greeting) (λ request w. refl) records
      recorded_trace.final_hash 3 ids_differ agreed traced_all refl
