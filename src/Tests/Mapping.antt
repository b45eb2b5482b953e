-- ===== src/Tests/Mapping.antt =====
-- The mapping rules (schema/field_mapper.go, schema/mapping_step.go), run.
use eventnative.Base.{◌≡◌, refl, true, false, some, [], ◌∷◌, text_eq, nat_eq}
use eventnative.Base.Dict.{Dict}
use eventnative.Base.Result.{Result, ok, err}
use eventnative.Base.Text.{Text, codes}
use eventnative.Value.{nothing, Object, empty}
use eventnative.Value.Objects.{lookup, insert}
use eventnative.Schema.Mappings.{
  move, constant, default, MappingField, Mapping, MappingError, blocked, is_known,
}
use eventnative.Schema.FieldMapper.{MappingRule, Mapper, field_mapper, dummy, new_field_mapper}
use eventnative.Schema.MapObject.{Targets, shared, apply_rule, map}
use eventnative.Schema.MapObject.Laws.{FailsAt, map-blocked}
use eventnative.Schema.BatchHeader.{BatchHeader}
use eventnative.Schema.MappingStep.{StepError, execute, type_field, type_fields}
use eventnative.Schema.Flattener.{reformat, inner_key, is_special}
use eventnative.Typing.{type_from_value, reformat_value, data_type_eq}
use eventnative.Typing.Converter.{convert, default_type}
use eventnative.Schema.MappingStep.Laws.{IsHeaderOf, execute-IsHeaderOf}
use eventnative.Tests.Fixtures.{sample_go, sample_event}

-- /user/id goes to /id.
abbrev move_id : MappingField
move_id = record {
  src = codes "/user/id";
  dst = codes "/id";
  action = move;
  cast_type = codes "integer";
  value = nothing;
}

abbrev mapping : Mapping
mapping = record { keep_unmapped = some false; fields = move_id ∷ [] }

abbrev made : Result MappingError (Mapper × Dict Text Text)
made = new_field_mapper default [] (some mapping)

abbrev mapper_of : Result MappingError (Mapper × Dict Text Text) → Mapper × Dict Text Text
mapper_of (ok m) = m
mapper_of (err e) = (dummy, [])

made_ok : made ≡ ok (mapper_of made)
unfolding new_field_mapper text_eq
made_ok = refl

abbrev rule : MappingRule
rule = record {
  source = record { parts = codes "user" ∷ codes "id" ∷ [] };
  destination = record { parts = codes "id" ∷ [] };
  action = move;
  value = nothing;
}

abbrev targets_of : Result MappingError Targets → Targets
targets_of (ok t) = t
targets_of (err e) = shared empty

moved :
    apply_rule rule (shared sample_event) ≡ ok (targets_of (apply_rule rule (shared sample_event)))
unfolding apply_rule lookup text_eq
moved = refl

abbrev object_of : Result MappingError Object → Object
object_of (ok o) = o
object_of (err e) = empty

abbrev mapped : Object
mapped = object_of (map (field_mapper (rule ∷ []) false) sample_event)

map_done : map (field_mapper (rule ∷ []) false) sample_event ≡ ok mapped
unfolding map lookup text_eq
map_done = refl

-- The destination is below a number.
abbrev blocked_rule : MappingRule
blocked_rule = record rule {
  destination = record { parts = codes "user" ∷ codes "id" ∷ codes "x" ∷ [] };
}

abbrev error_of : Result MappingError Object → MappingError
error_of (ok o) = blocked []
error_of (err e) = e

abbrev constant_rule : MappingRule
constant_rule = record blocked_rule { action = constant }

map_failed :
    map (field_mapper (constant_rule ∷ []) true) sample_event
    ≡ err (error_of (map (field_mapper (constant_rule ∷ []) true) sample_event))
unfolding map lookup text_eq
map_failed = refl

map-blocked_example :
    FailsAt
      (constant_rule ∷ [])
      (shared sample_event)
      (error_of (map (field_mapper (constant_rule ∷ []) true) sample_event))
unfolding is_known
map-blocked_example =
    map-blocked (field_mapper (constant_rule ∷ []) true) sample_event
      (error_of (map (field_mapper (constant_rule ∷ []) true) sample_event)) (refl, tt) map_failed

abbrev step : Result StepError (BatchHeader × Object)
step = execute sample_go dummy (codes "events") sample_event

abbrev table_of : Result StepError (BatchHeader × Object) → BatchHeader × Object
table_of (ok r) = r
table_of (err e) = (record { table_name = []; fields = [] }, empty)

step_done : step ≡ ok (table_of step)
unfolding execute type_fields insert text_eq reformat inner_key is_special type_field
    type_from_value reformat_value default_type convert data_type_eq
step_done = refl

execute-IsHeaderOf_example : IsHeaderOf (codes "events") (table_of step).0 (table_of step).1
execute-IsHeaderOf_example =
    execute-IsHeaderOf sample_go dummy (codes "events") sample_event (table_of step).0
      (table_of step).1 step_done
