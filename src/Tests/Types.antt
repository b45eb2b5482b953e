-- ===== src/Tests/Types.antt =====
-- The types and the headers of tables (typing, schema/batch_header.go), run.
use mathlib.Core.Option.{none-ne-some}
use eventnative.Base.{◌≡◌, refl, sym, ◌∙◌, true, some, [], ◌∷◌, text_eq, nat_eq, arith}
use eventnative.Base.Dict.{lookup, insert, lookup-nil, NodupKeys}
use eventnative.Base.Int.{pos}
use eventnative.Base.Text.{codes}
use eventnative.Value.{Value, integer, boolean, int64, text}
use eventnative.Typing.{
  DataType, bool, int64_type, float64_type, string_type, timestamp_type, data_type_eq,
  type_from_value,
}
use eventnative.Typing.Converter.{convert, is_convertible, get_common_ancestor_type}
use eventnative.Typing.Lattice.{join_least}
use eventnative.Typing.Conversion.{type_from_value-convert, convert-join}
use eventnative.Schema.BatchHeader.{Fields, new_field, merge}
use eventnative.Schema.BatchHeader.Types.{occurs}
use eventnative.Schema.BatchHeader.Laws.{AreFields, new_field-IsField, insert-AreFields}
use eventnative.Schema.BatchHeader.Columns.{
  column_type, column_type-merge_comm, is_convertible-column_type,
}
use eventnative.Tests.Fixtures.{sample_go}

number_and_flag : get_common_ancestor_type bool timestamp_type ≡ string_type
unfolding get_common_ancestor_type data_type_eq
number_and_flag = refl

join_least_example :
    is_convertible sample_go (get_common_ancestor_type bool int64_type) float64_type ≡ true
unfolding is_convertible data_type_eq
join_least_example = join_least sample_go bool int64_type float64_type refl refl

one_as_text : convert sample_go string_type (boolean true) ≡ some (text (codes "true"))
unfolding convert data_type_eq
one_as_text = refl

type_from_value-convert_example : type_from_value (text (codes "true")) ≡ some string_type
type_from_value-convert_example =
    type_from_value-convert sample_go string_type (boolean true) (text (codes "true")) one_as_text

convert-join_example :
    (w : Value) × (convert sample_go
        (get_common_ancestor_type int64_type float64_type)
        (integer int64 (pos 7))
      ≡ some w)
unfolding type_from_value
convert-join_example =
    convert-join sample_go int64_type float64_type (integer int64 (pos 7)) refl (λ h. ground arith)

-- Headers of one and of two columns.
abbrev left : Fields
left = insert (codes "a") (new_field int64_type) []

abbrev right : Fields
right = insert (codes "b") (new_field bool) (insert (codes "a") (new_field string_type) [])

no_fields : AreFields []
no_fields n field e = absurd (none-ne-some field (sym (lookup-nil n) ∙ e))

left-AreFields : AreFields left
left-AreFields =
    insert-AreFields (codes "a") (new_field int64_type) [] (new_field-IsField int64_type) no_fields

right-AreFields : AreFields right
right-AreFields = insert-AreFields (codes "b") (new_field bool) _ (new_field-IsField bool) (
    insert-AreFields (codes "a") (new_field string_type) [] (new_field-IsField string_type)
      no_fields)

left-NodupKeys : NodupKeys left
unfolding insert lookup
left-NodupKeys = (refl, tt)

right-NodupKeys : NodupKeys right
unfolding insert lookup text_eq
right-NodupKeys = (refl, (refl, tt))

column_type-merge_comm_example :
    column_type (codes "a") (merge left right) ≡ column_type (codes "a") (merge right left)
column_type-merge_comm_example =
    column_type-merge_comm (codes "a") left right left-NodupKeys right-NodupKeys left-AreFields
      right-AreFields

is_convertible-column_type_example :
    is_convertible sample_go bool (column_type (codes "b") right) ≡ true
unfolding insert lookup text_eq occurs new_field data_type_eq
is_convertible-column_type_example =
    is_convertible-column_type sample_go (codes "b") right bool right-AreFields (λ h. ground arith)
      refl

same_types :
    (u : DataType)
    → occurs u ((int64_type, true) ∷ (bool, true) ∷ [])
      ≡ occurs u ((bool, true) ∷ (int64_type, true) ∷ [])
unfolding occurs lookup
same_types u = ground arith
