-- ===== src/Events/Enricher.antt =====
-- events/enricher.go: what a source adds to its objects. The nested object is stored back: the two
-- share it in Go.
use eventnative.Base.{none, some, ◌++◌}
use eventnative.Base.Text.{Text, codes}
use eventnative.Value.{text, object, Object, empty, field, as_object}
use eventnative.Value.Objects.{lookup, insert}
use eventnative.Drivers.{Calendar, TimeInterval, to_text}

abbrev eventn_key : Text
eventn_key = codes "eventn_ctx"

-- `EnrichWithEventId` and `EnrichWithCollection`, which differ in the key.
unfoldable pub enrich_with : Text → Text → Object → Object
unfolding lookup insert as_object
enrich_with key value o = elim (lookup eventn_key o) [
  | none ↦ insert eventn_key (object (field key (text value) empty)) o
  | some eventn_object ↦ elim (as_object eventn_object) [
    | some eventn ↦ elim (lookup key eventn) [
      | none ↦ insert eventn_key (object (insert key (text value) eventn)) o
      | some _ ↦ o
    ]
    | none ↦ insert (eventn_key ++ (codes "_" ++ key)) (text value) o
  ]
]

unfoldable pub enrich_with_event_id : Text → Object → Object
unfolding enrich_with
enrich_with_event_id event_id = enrich_with (codes "event_id") event_id

unfoldable pub enrich_with_collection : Text → Object → Object
unfolding enrich_with
enrich_with_collection collection = enrich_with (codes "collection_id") collection

unfoldable pub enrich_with_time_interval : Calendar → TimeInterval → Object → Object
unfolding to_text insert
enrich_with_time_interval cal interval =
    insert (eventn_key ++ codes "_time_interval") (text (to_text cal interval))
