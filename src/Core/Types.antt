-- ===== src/Core/Types.antt =====
-- The registry of crates/core/src/content_types.rs: which type string goes with which schema id.
-- The proofs are in the module below.
pub mod Laws
use Prim.Native.String
use mathlib.Core.Option
use runloop.Prelude.{ℕ, String, Option, List, [], ◌∷◌, ◌++◌, map, drop, nat_eq, string_eq}
use runloop.Prelude.Dict.{Dict, lookup, insert, values}
use runloop.Core.Content.{
  ct_action_decision, ct_action_request, ct_agent_hello, ct_agent_log_line, ct_artifact,
  ct_bus_drop_notice, ct_contacts_resolved, ct_context_bundle, ct_control, ct_critique, ct_ctrl_req,
  ct_ctrl_resp, ct_draft_email, ct_error_report, ct_executor_agent_request,
  ct_executor_agent_response, ct_hostcall_req, ct_hostcall_res, ct_init, ct_intent,
  ct_intent_contacts_resolve, ct_intent_context_gather, ct_intent_draft_write,
  ct_intent_review_draft, ct_intent_send_mail, ct_mail_result, ct_metrics_snapshot, ct_observation,
  ct_opening_event, ct_review_critique, ct_run_event, ct_runtime_hello, ct_state_delta,
  ct_tool_call, ct_tool_result, ct_trace_line,
}

pub data TypeFamily : Type 0 where
  observation intent artifact tool_result critique state_delta error : TypeFamily

-- `prefix`, and the macro `family_prefix!`
abbrev pub prefix : TypeFamily → String
prefix observation = "observation"
prefix intent = "intent"
prefix artifact = "artifact"
prefix tool_result = "toolresult"
prefix critique = "critique"
prefix state_delta = "statedelta"
prefix error = "error"

pub record TypeDescriptor : Type 0 where
  pub schema_id : ℕ
  pub family : TypeFamily
  pub kind : String
  pub version : ℕ
  pub type_str : String
  pub json_schema_id : String

infixr 65 ◌<>◌
-- concat!
abbrev ◌<>◌ : String → String → String
a <> b = String.◌++◌ a b

-- The macro `type_descriptor!`; `token` is the text of the version, which `stringify!` gives.
abbrev type_descriptor : ℕ → TypeFamily → String → ℕ → String → TypeDescriptor
type_descriptor schema family kind version token = record {
  schema_id = schema;
  family = family;
  kind = kind;
  version = version;
  type_str = prefix family <> "." <> kind <> ".v" <> token;
  json_schema_id = "schema://runloop/" <> prefix family <> "." <> kind <> ".v" <> token <> "#";
}

abbrev pub descriptors : List TypeDescriptor
descriptors =
    type_descriptor ct_observation observation "generic" 1 "1"
    ∷ type_descriptor ct_intent intent "generic" 1 "1"
    ∷ type_descriptor ct_tool_call intent "tool_call" 1 "1"
    ∷ type_descriptor ct_tool_result tool_result "generic" 1 "1"
    ∷ type_descriptor ct_artifact artifact "generic" 1 "1"
    ∷ type_descriptor ct_critique critique "generic" 1 "1"
    ∷ type_descriptor ct_state_delta state_delta "generic" 1 "1"
    ∷ type_descriptor ct_run_event observation "run.event" 1 "1"
    ∷ type_descriptor ct_control intent "control" 1 "1"
    ∷ type_descriptor ct_error_report error "report" 1 "1"
    ∷ type_descriptor ct_agent_hello observation "agent.hello" 1 "1"
    ∷ type_descriptor ct_runtime_hello observation "runtime.hello" 1 "1"
    ∷ type_descriptor ct_init intent "init" 1 "1"
    ∷ type_descriptor ct_hostcall_req intent "hostcall.request" 1 "1"
    ∷ type_descriptor ct_hostcall_res tool_result "hostcall.response" 1 "1"
    ∷ type_descriptor ct_intent_contacts_resolve intent "contacts.resolve" 1 "1"
    ∷ type_descriptor ct_contacts_resolved tool_result "contacts.resolved" 1 "1"
    ∷ type_descriptor ct_intent_context_gather intent "context.gather" 1 "1"
    ∷ type_descriptor ct_context_bundle observation "context.bundle" 1 "1"
    ∷ type_descriptor ct_intent_draft_write intent "draft.write" 1 "1"
    ∷ type_descriptor ct_draft_email artifact "draft.email" 1 "1"
    ∷ type_descriptor ct_intent_review_draft intent "review.draft" 1 "1"
    ∷ type_descriptor ct_review_critique critique "review" 1 "1"
    ∷ type_descriptor ct_intent_send_mail intent "send.mail" 1 "1"
    ∷ type_descriptor ct_mail_result tool_result "mail.result" 1 "1"
    ∷ type_descriptor ct_executor_agent_request intent "executor.agent.request" 1 "1"
    ∷ type_descriptor ct_executor_agent_response tool_result "executor.agent.response" 1 "1"
    ∷ type_descriptor ct_ctrl_req intent "ctrl.request" 1 "1"
    ∷ type_descriptor ct_ctrl_resp tool_result "ctrl.response" 1 "1"
    ∷ type_descriptor ct_metrics_snapshot observation "metrics.snapshot" 1 "1"
    ∷ type_descriptor ct_opening_event observation "opening.event" 1 "1"
    ∷ type_descriptor ct_trace_line observation "trace.line" 1 "1"
    ∷ type_descriptor ct_agent_log_line observation "agent.log" 1 "1"
    ∷ type_descriptor ct_action_request intent "action.request" 1 "1"
    ∷ type_descriptor ct_action_decision tool_result "action.decision" 1 "1"
    ∷ type_descriptor ct_bus_drop_notice error "bus.drop.notice" 1 "1"
    ∷ []

-- the loop that fills `ID_TO_DESC`
unfoldable pub fill_ids : List TypeDescriptor → Dict ℕ TypeDescriptor → Dict ℕ TypeDescriptor
fill_ids [] map = map
fill_ids (desc ∷ descs) map = fill_ids descs (insert desc.schema_id desc map)

unfoldable pub id_to_desc : Dict ℕ TypeDescriptor
unfolding fill_ids insert
id_to_desc = fill_ids descriptors []

-- `collect` over an iteration order of `ID_TO_DESC.values()`
unfoldable pub collect_types :
    List TypeDescriptor → Dict String TypeDescriptor → Dict String TypeDescriptor
collect_types [] map = map
collect_types (desc ∷ descs) map = collect_types descs (insert desc.type_str desc map)

unfoldable pub type_to_desc : Dict String TypeDescriptor
unfolding collect_types insert id_to_desc
type_to_desc = collect_types (values id_to_desc) []

unfoldable pub descriptor_for_schema : ℕ → Option TypeDescriptor
unfolding lookup
descriptor_for_schema schema_id = lookup schema_id id_to_desc

unfoldable pub descriptor_for_type : String → Option TypeDescriptor
unfolding lookup
descriptor_for_type type_str = lookup type_str type_to_desc

unfoldable pub type_name_for : ℕ → Option String
unfolding descriptor_for_schema
type_name_for schema_id = Option.map (λ d. d.type_str) (descriptor_for_schema schema_id)

unfoldable pub schema_for : String → Option ℕ
unfolding descriptor_for_type
schema_for type_name = Option.map (λ d. d.schema_id) (descriptor_for_type type_name)

unfoldable pub family_for_schema : ℕ → Option TypeFamily
unfolding descriptor_for_schema
family_for_schema schema_id = Option.map (λ d. d.family) (descriptor_for_schema schema_id)
