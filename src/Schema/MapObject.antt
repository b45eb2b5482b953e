-- ===== src/Schema/MapObject.antt =====
-- schema/field_mapper.go: `Map` and `applyMapping`.
pub mod Laws
pub mod Strict
use eventnative.Base.{Bool, true, false, Option, none, some, List, [], ◌∷◌, if◌then◌else◌}
use eventnative.Base.Result.{Result, ok, err, ◌>>=◌}
use eventnative.Base.Text.{Text}
use eventnative.Value.{Value, Object, empty}
use eventnative.Value.Objects.{lookup, insert}
use eventnative.JsonPath.{JsonPath, get_and_remove, set}
use eventnative.Schema.Mappings.{
  move, remove, cast, constant, other_action, MappingError, unknown_action, blocked,
}
use eventnative.Schema.FieldMapper.{MappingRule, Mapper, dummy, field_mapper, system_fields}

-- The source and the destination map, which are one map if unmapped fields are kept.
pub data Targets : Type 0 where
  shared : Object → Targets
  separate : Object → Object → Targets

abbrev pub source_of : Targets → Object
source_of (shared o) = o
source_of (separate s d) = s

abbrev pub destination_of : Targets → Object
destination_of (shared o) = o
destination_of (separate s d) = d

-- `rule.source.GetAndRemove(sourceObj)`
unfoldable pub take_source : JsonPath → Targets → Targets × Option Value
unfolding get_and_remove
take_source p (shared o) = let (o', v) = get_and_remove p o in (shared o', v)
take_source p (separate s d) = let (s', v) = get_and_remove p s in (separate s' d, v)

-- `rule.destination.Set(destinationObj, value)`
unfoldable pub set_destination : JsonPath → Value → Targets → Result MappingError Targets
unfolding set
set_destination p v (shared o) =
    let (o', done) = set p o v in if done then ok (shared o') else err (blocked p.parts)
set_destination p v (separate s d) =
    let (d', done) = set p d v in if done then ok (separate s d') else err (blocked p.parts)

-- A value that was found is put at the destination.
unfoldable pub put_found : JsonPath → Option Value → Targets → Result MappingError Targets
unfolding set_destination
put_found p none t = ok t
put_found p (some v) t = set_destination p v t

-- One round of the loop.
unfoldable pub apply_rule : MappingRule → Targets → Result MappingError Targets
unfolding take_source set_destination put_found
apply_rule rule t = elim rule.action [
  | remove ↦ ok (take_source rule.source t).0
  | move ↦ let (t', found) = take_source rule.source t in put_found rule.destination found t'
  | cast ↦ ok t
  | constant ↦ set_destination rule.destination rule.value t
  | other_action a ↦ err (unknown_action (other_action a))
]

unfoldable pub apply_mapping : List MappingRule → Targets → Result MappingError Targets
unfolding apply_rule
apply_mapping [] t = ok t
apply_mapping (rule ∷ rules) t = apply_rule rule t >>= λ t'. apply_mapping rules t'

-- The loop over `SystemFields`.
unfoldable pub copy_fields : List Text → Object → Object → Object
copy_fields [] object mapped = mapped
copy_fields (name ∷ names) object mapped =
    copy_fields names object
      (elim (lookup name object) [ none ↦ mapped | some v ↦ insert name v mapped ])

-- `Map` of both mappers.
unfoldable pub map : Mapper → Object → Result MappingError Object
unfolding apply_mapping copy_fields
map dummy object = ok object
map (field_mapper rules true) object =
    apply_mapping rules (shared object) >>= λ t. ok (destination_of t)
map (field_mapper rules false) object = apply_mapping rules (separate object empty) >>= λ t.
    ok (copy_fields system_fields (source_of t) (destination_of t))
