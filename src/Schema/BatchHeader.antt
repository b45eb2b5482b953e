-- ===== src/Schema/BatchHeader.antt =====
-- schema/batch_header.go: the fields of a table, with the types that occurred in them.
pub mod Laws
pub mod Types
pub mod Columns
use eventnative.Base.{
  Bool, true, false, Option, none, some, List, [], ◌∷◌, ◌==◌, text_eq, if◌then◌else◌,
}
use eventnative.Base.Dict.{Dict, lookup, insert}
use eventnative.Base.Text.{Text}
use eventnative.Typing.{DataType, unknown, data_type_eq}
use eventnative.Typing.Converter.{get_common_ancestor_type}

pub record Field : Type 0 where
  pub data_type : Option DataType
  pub type_occurrence : Dict DataType Bool

abbrev pub Fields : Type 0
Fields = Dict Text Field

pub record BatchHeader : Type 0 where
  pub table_name : Text
  pub fields : Fields

-- `Exists`; a nil header is `none`.
unfoldable pub exists : Option BatchHeader → Bool
exists none = false
exists (some bh) = elim bh.fields [ [] ↦ false | _ ↦ true ]

unfoldable pub new_field : DataType → Field
new_field t = record { data_type = some t; type_occurrence = (t, true) ∷ [] }

-- The inner loop of `Merge`: a new type is recorded, and wipes the known type.
unfoldable pub add_types : Dict DataType Bool → Field → Field
unfolding lookup insert data_type_eq
add_types [] current = current
add_types ((t, _) ∷ others) current = add_types others (elim (lookup t current.type_occurrence) [
  | some _ ↦ current
  | none ↦ record { data_type = none; type_occurrence = insert t true current.type_occurrence }
])

-- One round of the outer loop.
unfoldable pub merge_field : Text → Field → Fields → Fields
unfolding add_types lookup insert
merge_field name other f = elim (lookup name f) [
  | some current ↦ insert name (add_types other.type_occurrence current) f
  | none ↦ insert name other f
]

unfoldable pub merge : Fields → Fields → Fields
unfolding merge_field
merge f [] = f
merge f ((name, other) ∷ others) = merge (merge_field name other f) others

unfoldable pub header : Fields → List Text
header [] = []
header ((name, _) ∷ fields) = name ∷ header fields

-- The loop of `GetType` over the other types.
unfoldable pub common_type : DataType → Dict DataType Bool → DataType
unfolding get_common_ancestor_type
common_type common [] = common
common_type common ((t, _) ∷ types) = common_type (get_common_ancestor_type common t) types

unfoldable pub common_of : Dict DataType Bool → DataType
unfolding common_type
common_of [] = unknown
common_of ((t, _) ∷ types) = common_type t types

-- `GetType`. The receiver is a copy, so that the type put into it is lost.
unfoldable pub get_type : Field → DataType
unfolding common_of
get_type f = elim f.data_type [ some t ↦ t | none ↦ common_of f.type_occurrence ]
