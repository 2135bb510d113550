-- ===== src/Runtime/Error/Labels.antt =====
-- The kinds of capability that a denial can name, in crates/runtime/src/error.rs.
use runloop.Prelude.{
  ◌≡◌, ap, ◌≢◌, inl, inr, true, false, arith, Option-cases, any, nat_eq, list_eq, list_beq_iff,
}
use runloop.Runtime.Text.{Text, codes, has, split_once, split_once-before, split_once-none}
use runloop.Runtime.Error.{CapKind, from_prefix, from_label}

-- only the one text stands for `kb_write`
from_prefix-kb_write : (s : Text) → from_prefix s ≡ CapKind.kb_write → s ≡ codes "kb.write"
unfolding from_prefix
from_prefix-kb_write s h = ground (arith, list_beq_iff s (codes "kb.write"))

undotted-ne_kb_write : (s : Text) → has b'.' s ≡ false → from_prefix s ≢ CapKind.kb_write
unfolding any
undotted-ne_kb_write s d h =
    let dotted : has b'.' s ≡ true = ap (has b'.') (from_prefix-kb_write s h) in
    absurd (ground arith)

-- No label at all is given the kind `kb_write`, the label "kb.write" that a denied write carries
-- included: a label is cut at its first dot, and what stands before it is never "kb.write".
pub from_label-ne_kb_write : (label : Text) → from_label label ≢ CapKind.kb_write
unfolding from_label
from_label-ne_kb_write label h = elim (Option-cases (split_once b'.' label)) [
  | inl e ↦ undotted-ne_kb_write label (split_once-none b'.' label e) (ground arith)
  | inr ((prefix, rest), e) ↦
      undotted-ne_kb_write prefix (split_once-before b'.' label prefix rest e) (ground arith)
]
