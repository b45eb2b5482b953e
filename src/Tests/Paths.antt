-- ===== src/Tests/Paths.antt =====
-- Paths into objects and flattening (jsonutils/path.go, schema/flattener.go), run.
use eventnative.Base.{
  ◌≡◌, refl, inl, inr, true, false, Option, none, some, [], ◌∷◌, text_eq, nat_eq, arith,
  if◌then◌else◌,
}
use eventnative.Base.Text.{codes}
use eventnative.Value.{text, Object, empty}
use eventnative.Value.Objects.{lookup, insert}
use eventnative.JsonPath.{
  JsonPath, is_empty, get, get_and_remove, set, set_parts, new_json_path, to_text,
}
use eventnative.JsonPath.Laws.{get-set, set-eq-is_blocked, is_blocked}
use eventnative.JsonPath.Frame.{get_elsewhere}
use eventnative.JsonPath.Syntax.{new_json_path-to_text}
use eventnative.Schema.Flattener.{
  reformat, flatten, flatten_fields, flatten_object, inner_key, is_special, replace_special,
}
use eventnative.Schema.Flattener.Laws.{flatten_object-IsRow, IsRow}
use eventnative.Tests.Fixtures.{sample_go, sample_event}

abbrev user_id : JsonPath
user_id = record { parts = codes "user" ∷ codes "id" ∷ [] }

abbrev user_name : JsonPath
user_name = record { parts = codes "user" ∷ codes "name" ∷ [] }

set_done : (set user_name sample_event (text (codes "n"))).1 ≡ true
unfolding set set_parts lookup text_eq
set_done = refl

get-set_example :
    get user_name (set user_name sample_event (text (codes "n"))).0 ≡ some (text (codes "n"))
unfolding is_empty
get-set_example = get-set user_name sample_event (text (codes "n")) refl set_done

abbrev below_id : JsonPath
below_id = record { parts = codes "user" ∷ codes "id" ∷ codes "x" ∷ [] }

set-eq-is_blocked_example : set below_id sample_event (text []) ≡ (
    if is_blocked below_id.parts sample_event
    then (sample_event, false)
    else ((set below_id sample_event (text [])).0, true))
set-eq-is_blocked_example = set-eq-is_blocked below_id sample_event (text [])

get_elsewhere_example :
    (get user_id (set user_name sample_event (text [])).0 ≡ get user_id sample_event)
    × (get user_id (get_and_remove user_name sample_event).0 ≡ get user_id sample_event)
get_elsewhere_example =
    get_elsewhere user_id user_name sample_event (text []) (inr (refl, inl (λ h. ground arith)))

new_json_path-to_text_example : new_json_path (to_text user_id) ≡ user_id
new_json_path-to_text_example =
    new_json_path-to_text (codes "user") (codes "id" ∷ []) (omega arith) (λ h. ground arith)

abbrev row_of : Option Object → Object
row_of none = empty
row_of (some row) = row

flattened :
    flatten_object sample_go sample_event ≡ some (row_of (flatten_object sample_go sample_event))
unfolding flatten_object flatten_fields flatten inner_key reformat is_special replace_special insert
    lookup text_eq nat_eq
flattened = refl

flatten_object-IsRow_example : IsRow (row_of (flatten_object sample_go sample_event))
flatten_object-IsRow_example =
    flatten_object-IsRow sample_go sample_event (row_of (flatten_object sample_go sample_event))
      flattened
