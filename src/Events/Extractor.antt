-- ===== src/Events/Extractor.antt =====
-- events/extractor.go: the event id and the source of an event.
use eventnative.Base.{none, some, [], text_eq}
use eventnative.Base.Text.{Text, codes}
use eventnative.Value.{Object, as_object, as_text}
use eventnative.Value.Objects.{lookup}
use eventnative.Typing.{GoLibrary}

abbrev pub flat_id_key : Text
flat_id_key = codes "eventn_ctx_event_id"

-- The id in the nested form, `eventn_ctx.event_id`.
unfoldable pub nested_event_id : GoLibrary → Object → Text
unfolding lookup as_object
nested_event_id go event = elim (lookup (codes "eventn_ctx") event) [
  | none ↦ []
  | some raw ↦ elim (as_object raw) [
    | none ↦ []
    | some eventn ↦ elim (lookup (codes "event_id") eventn) [ none ↦ [] | some id ↦ go.sprint id ]
  ]
]

-- `ExtractEventId`; events are never nil here.
unfoldable pub extract_event_id : GoLibrary → Object → Text
unfolding nested_event_id lookup
extract_event_id go event = elim (lookup flat_id_key event) [
  | some id ↦ go.sprint id
  | none ↦ nested_event_id go event
]

unfoldable pub extract_src : Object → Text
unfolding lookup as_text
extract_src event = elim (lookup (codes "src") event) [
  | none ↦ []
  | some src ↦ elim (as_text src) [ none ↦ [] | some s ↦ s ]
]
