-- ===== src/Core/Content.antt =====
-- The content-type identifiers of crates/core/src/content.rs.
use Prim.Native.Nat.{ℕ}

abbrev pub ct_invalid : ℕ
ct_invalid = 0

abbrev pub ct_observation : ℕ
ct_observation = 1

abbrev pub ct_intent : ℕ
ct_intent = 2

abbrev pub ct_tool_call : ℕ
ct_tool_call = 3

abbrev pub ct_tool_result : ℕ
ct_tool_result = 4

abbrev pub ct_artifact : ℕ
ct_artifact = 5

abbrev pub ct_critique : ℕ
ct_critique = 6

abbrev pub ct_state_delta : ℕ
ct_state_delta = 7

abbrev pub ct_run_event : ℕ
ct_run_event = 8

abbrev pub ct_control : ℕ
ct_control = 9

abbrev pub ct_error_report : ℕ
ct_error_report = 10

abbrev pub ct_agent_hello : ℕ
ct_agent_hello = 100

abbrev pub ct_runtime_hello : ℕ
ct_runtime_hello = 101

abbrev pub ct_init : ℕ
ct_init = 102

abbrev pub ct_hostcall_req : ℕ
ct_hostcall_req = 110

abbrev pub ct_hostcall_res : ℕ
ct_hostcall_res = 111

abbrev pub ct_intent_contacts_resolve : ℕ
ct_intent_contacts_resolve = 200

abbrev pub ct_contacts_resolved : ℕ
ct_contacts_resolved = 201

abbrev pub ct_intent_context_gather : ℕ
ct_intent_context_gather = 210

abbrev pub ct_context_bundle : ℕ
ct_context_bundle = 211

abbrev pub ct_intent_draft_write : ℕ
ct_intent_draft_write = 220

abbrev pub ct_draft_email : ℕ
ct_draft_email = 221

abbrev pub ct_intent_review_draft : ℕ
ct_intent_review_draft = 230

abbrev pub ct_review_critique : ℕ
ct_review_critique = 231

abbrev pub ct_intent_send_mail : ℕ
ct_intent_send_mail = 240

abbrev pub ct_mail_result : ℕ
ct_mail_result = 241

abbrev pub ct_executor_agent_request : ℕ
ct_executor_agent_request = 4000

abbrev pub ct_executor_agent_response : ℕ
ct_executor_agent_response = 4001

abbrev pub ct_ctrl_req : ℕ
ct_ctrl_req = 2001

abbrev pub ct_ctrl_resp : ℕ
ct_ctrl_resp = 2002

abbrev pub ct_metrics_snapshot : ℕ
ct_metrics_snapshot = 3001

abbrev pub ct_opening_event : ℕ
ct_opening_event = 3002

abbrev pub ct_trace_line : ℕ
ct_trace_line = 3003

abbrev pub ct_agent_log_line : ℕ
ct_agent_log_line = 3004

abbrev pub ct_action_request : ℕ
ct_action_request = 3005

abbrev pub ct_action_decision : ℕ
ct_action_decision = 3006

abbrev pub ct_bus_drop_notice : ℕ
ct_bus_drop_notice = 3007
