-- ===== src/Schema/MappingStep.antt =====
-- schema/mapping_step.go: mapping, flattening, default type casts and the header of one row.
pub mod Laws
use eventnative.Base.{Option, none, some, [], ◌==◌, text_eq, if◌then◌else◌}
use eventnative.Base.Dict as Dict
use eventnative.Base.Result.{Result, ok, err, ◌>>=◌}
use eventnative.Base.Text.{Text}
use eventnative.Value.{Value, Object, empty, field}
use eventnative.Value.Objects.{insert}
use eventnative.Typing.{DataType, GoLibrary, reformat_value, type_from_value}
use eventnative.Typing.Converter.{convert, default_type}
use eventnative.Schema.Flattener.{flatten_object}
use eventnative.Schema.Mappings.{MappingError}
use eventnative.Schema.FieldMapper.{Mapper}
use eventnative.Schema.MapObject as MapObject
use eventnative.Schema.BatchHeader.{Fields, BatchHeader, new_field}

pub data StepError : Type 0 where
  mapping_failed : MappingError → StepError
  flattening_failed : StepError
  untyped default_cast_failed : Text → StepError

-- One round of the loop over the flat object: the type of the column and the value of the row.
unfoldable pub type_field : GoLibrary → Text → Value → Result StepError (DataType × Value)
type_field go k v =
    let v' = reformat_value go v in
    elim (type_from_value v') [
      | none ↦ err (untyped k)
      | some t ↦ elim (default_type k) [
        | none ↦ ok (t, v')
        | some t' ↦ elim (convert go t' v') [
          | none ↦ err (default_cast_failed k)
          | some w ↦ ok (t', w)
        ]
      ]
    ]

unfoldable pub type_fields :
    GoLibrary → Object → Fields → Object → Result StepError (Fields × Object)
type_fields go empty fields row = ok (fields, row)
type_fields go (field k v o) fields row = type_field go k v >>= λ (t, w).
    type_fields go o (Dict.insert k (new_field t) fields) (insert k w row)

unfoldable pub map_object : Mapper → Object → Result StepError Object
unfolding MapObject.map
map_object mapper object = elim (MapObject.map mapper object) [
  | err e ↦ err (mapping_failed e)
  | ok mapped ↦ ok mapped
]

unfoldable pub flatten_mapped : GoLibrary → Object → Result StepError Object
unfolding flatten_object
flatten_mapped go mapped = elim (flatten_object go mapped) [
  | none ↦ err flattening_failed
  | some flat ↦ ok flat
]

-- `Execute`. The row starts as the flat object, and every one of its fields is written again.
unfoldable pub execute :
    GoLibrary → Mapper → Text → Object → Result StepError (BatchHeader × Object)
unfolding map_object flatten_mapped
execute go mapper table_name object = map_object mapper object >>= λ mapped.
    flatten_mapped go mapped >>= λ flat. type_fields go flat [] flat >>= λ (fields, row).
    ok (record { table_name = table_name; fields = fields }, row)
