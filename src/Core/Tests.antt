-- ===== src/Core/Tests.antt =====
-- The registry of crates/core/src/content_types.rs at one type.
use runloop.Prelude.{◌≡◌, ◌↔◌, some}
use runloop.Core.Types.{type_name_for, schema_for}
use runloop.Core.Types.Laws.{type_name_for_iff}

type_name_for_iff_example :
    (type_name_for 3 ≡ some "intent.tool_call.v1") ↔ (schema_for "intent.tool_call.v1" ≡ some 3)
type_name_for_iff_example = type_name_for_iff 3 "intent.tool_call.v1"
