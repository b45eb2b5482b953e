-- ===== src/Schema/FieldMapper.antt =====
-- schema/field_mapper.go: the mapping rules and how they are read.
pub mod Rules
use eventnative.Base.{
  ℕ, Bool, true, false, Option, none, some, List, [], ◌∷◌, ◌++◌, ◌==◌, nat_eq, text_eq,
  if◌then◌else◌, ◌||◌, ◌&&◌,
}
use eventnative.Base.Dict as Dict
use eventnative.Base.Dict.{Dict}
use eventnative.Base.Result.{Result, ok, err, ◌>>=◌}
use eventnative.Base.Text.{Text, codes, split, split_text, replace_char, contains_char}
use eventnative.Value.{Value, nothing}
use eventnative.JsonPath.{JsonPath, new_json_path, is_empty, field_name, format_prefix_suffix}
use eventnative.Schema.Mappings.{
  Action, move, remove, FieldMappingType, default, MappingField, Mapping, MappingError, malformed,
  empty_source, malformed_cast, validate,
}

pub record MappingRule : Type 0 where
  pub source : JsonPath
  pub destination : JsonPath
  pub action : Action
  pub value : Value

-- `DummyMapper` and `FieldMapper`
pub data Mapper : Type 0 where
  dummy : Mapper
  field_mapper : List MappingRule → Bool → Mapper

-- The rules and the sql type casts that are collected.
abbrev pub Collected : Type 0
Collected = List MappingRule × Dict Text Text

abbrev pub system_fields : List Text
system_fields = codes "_timestamp" ∷ codes "eventn_ctx_event_id" ∷ codes "src" ∷ []

-- One round of the loop over the fields of the new style.
unfoldable pub read_field : MappingField → Collected → Result MappingError Collected
unfolding validate new_json_path field_name Dict.insert
read_field mf (rules, casts) = validate mf >>= λ _.
    let rule : MappingRule = record {
      source = new_json_path mf.src;
      destination = new_json_path mf.dst;
      action = mf.action;
      value = mf.value;
    } in
    ok (
      rules ++ rule ∷ [],
      if mf.cast_type == []
          then casts
          else Dict.insert (field_name rule.destination) mf.cast_type casts,
    )

unfoldable pub read_fields : List MappingField → Collected → Result MappingError Collected
unfolding read_field
read_fields [] found = ok found
read_fields (mf ∷ mfs) found = read_field mf found >>= λ more. read_fields mfs more

-- A cast rule of the old style, `... -> (integer) /field2`, from the part behind the arrow.
unfoldable pub read_cast : Text → Text → List Text → Collected → Result MappingError Collected
unfolding new_json_path format_prefix_suffix replace_char Dict.insert
read_cast mapping source (cast_part ∷ path ∷ []) (rules, casts) =
    let formatted_destination = replace_char b'/' (codes "_") (format_prefix_suffix path) in
    let cast_type = replace_char b'(' [] cast_part in
    let rule : MappingRule = record {
      source = new_json_path source;
      destination = new_json_path path;
      action = move;
      value = nothing;
    } in
    ok (rules ++ rule ∷ [], Dict.insert formatted_destination cast_type casts)
read_cast mapping source _ found = err (malformed_cast mapping)

-- A rule without a cast: an empty destination removes the source.
unfoldable pub plain_rule : Text → Text → MappingRule
unfolding new_json_path is_empty
plain_rule source destination = record {
  source = new_json_path source;
  destination = new_json_path destination;
  action = if is_empty (new_json_path destination) then remove else move;
  value = nothing;
}

-- One round of the loop over the mappings of the old style, from the parts around the arrow.
unfoldable pub read_parts : Text → List Text → Collected → Result MappingError Collected
unfolding contains_char split plain_rule read_cast
read_parts mapping (source ∷ destination ∷ []) (rules, casts) =
    if source == []
    then err (empty_source mapping)
    else if contains_char destination b')'
    then read_cast mapping source (split destination b')') (rules, casts)
    else ok (rules ++ plain_rule source destination ∷ [], casts)
read_parts mapping _ found = err (malformed mapping)

unfoldable pub read_mappings : List Text → Collected → Result MappingError Collected
unfolding read_parts split_text replace_char
read_mappings [] found = ok found
read_mappings (mapping ∷ mappings) found =
    read_parts mapping (split_text (replace_char b' ' [] mapping) (codes "->")) found >>= λ more.
    read_mappings mappings more

is_default : FieldMappingType → Bool
is_default default = true
is_default _ = false

-- A mapping with no fields counts as none.
unfoldable pub given_fields : Option Mapping → List MappingField
given_fields none = []
given_fields (some m) = m.fields

unfoldable pub keeps_unmapped : Option Mapping → Bool
keeps_unmapped none = true
keeps_unmapped (some m) = elim m.keep_unmapped [ none ↦ true | some keep ↦ keep ]

read_old_style : FieldMappingType → List Text → Result MappingError (Mapper × Dict Text Text)
unfolding read_mappings is_default
read_old_style style [] = ok (dummy, [])
read_old_style style (mapping ∷ mappings) =
    read_mappings (mapping ∷ mappings) ([], []) >>= λ (rules, casts).
    ok (field_mapper rules (is_default style), casts)

read_new_style : Bool → List MappingField → Result MappingError (Mapper × Dict Text Text)
unfolding read_fields
read_new_style keep mfs =
    read_fields mfs ([], []) >>= λ (rules, casts). ok (field_mapper rules keep, casts)

-- `NewFieldMapper`: the new style wins where both are given.
unfoldable pub new_field_mapper :
    FieldMappingType → List Text → Option Mapping → Result MappingError (Mapper × Dict Text Text)
unfolding read_old_style read_new_style given_fields keeps_unmapped
new_field_mapper style mappings mapping = elim (given_fields mapping) [
  | [] ↦ read_old_style style mappings
  | mf ∷ mfs ↦ read_new_style (keeps_unmapped mapping) (mf ∷ mfs)
]
