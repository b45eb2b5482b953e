-- ===== src/Typing/Converter.antt =====
-- typing/converter.go: the typecast tree, the conversion rules and the conversions.
use eventnative.Base.{
  ◌&&◌, Bool, true, false, Option, none, some, ◌==◌, text_eq, ltb, if◌then◌else◌,
}
use eventnative.Base.Int.{pos, format_int}
use eventnative.Base.Text.{Text, codes, replace_char}
use mathlib.Core.Option
use mathlib.Core.List.{[]}
use eventnative.Value.{Value, boolean, text, integer, floating, instant, int64, float32, float64}
use eventnative.Typing.{
  DataType, unknown, bool, int64_type, float64_type, string_type, timestamp_type, rank, GoLibrary,
  data_type_eq, type_from_value,
}

-- timestamp/format.go
abbrev pub layout : Text
layout = codes "2006-01-02T15:04:05.000000Z"

abbrev pub deprecated_layout : Text
deprecated_layout = codes "2006-01-02T15:04:05.000Z"

abbrev pub timestamp_key : Text
timestamp_key = codes "_timestamp"

-- `*typeNode`, with `nil`.
pub data TypeNode : Type 0 where
  leaf : TypeNode
  node : DataType → TypeNode → TypeNode → TypeNode

unfoldable pub typecast_tree : TypeNode
typecast_tree =
    node string_type (node float64_type (node int64_type (node bool leaf leaf) leaf) leaf)
      (node timestamp_type leaf leaf)

-- The loop goes down the tree from its root.
unfoldable pub lowest_common_ancestor : TypeNode → DataType → DataType → DataType
lowest_common_ancestor leaf t1 t2 = unknown
lowest_common_ancestor (node t left right) t1 t2 =
    let in_right = lowest_common_ancestor right t1 t2 in
    let in_left = lowest_common_ancestor left t1 t2 in
    if ltb (rank t) (rank t1) && ltb (rank t) (rank t2)
    then in_right
    else if ltb (rank t1) (rank t) && ltb (rank t2) (rank t)
    then in_left
    else t

unfoldable pub get_common_ancestor_type : DataType → DataType → DataType
unfolding lowest_common_ancestor typecast_tree
get_common_ancestor_type t1 t2 = lowest_common_ancestor typecast_tree t1 t2

-- The conversions, each with the values that it takes; the error is `none`.
unfoldable pub number_to_string : GoLibrary → Value → Option Value
number_to_string go (integer k i) = some (text (format_int i))
number_to_string go (floating float64 f) = some (text (go.format_float f))
number_to_string go (floating float32 f) = some (text (go.format_float (go.widen f)))
number_to_string go (text s) = some (text s)
number_to_string go _ = none

unfoldable pub timestamp_to_string : GoLibrary → Value → Option Value
timestamp_to_string go (instant t) = some (text (go.format_time layout t))
timestamp_to_string go (text s) = some (text s)
timestamp_to_string go _ = none

unfoldable pub number_to_float : GoLibrary → Value → Option Value
number_to_float go (integer k i) = some (floating float64 (go.float_of_int i))
number_to_float go (floating float32 f) = some (floating float64 (go.widen f))
number_to_float go (floating float64 f) = some (floating float64 f)
number_to_float go _ = none

unfoldable pub bool_to_string : Value → Option Value
bool_to_string (boolean b) = some (text (if b then codes "true" else codes "false"))
bool_to_string _ = none

unfoldable pub bool_to_number : Value → Option Value
bool_to_number (boolean b) = some (integer int64 (if b then pos 1 else pos 0))
bool_to_number _ = none

unfoldable pub bool_to_float : GoLibrary → Value → Option Value
bool_to_float go (boolean b) =
    some (floating float64 (go.float_of_int (if b then pos 1 else pos 0)))
bool_to_float go _ = none

-- `v.(string)` panics on any other value; `Convert` calls it on texts alone.
unfoldable pub string_to_timestamp : GoLibrary → Value → Option Value
string_to_timestamp go (text s) = elim (go.parse_time layout s) [
  | some t ↦ some (instant t)
  | none ↦ Option.map instant (go.parse_time deprecated_layout s)
]
string_to_timestamp go _ = none

unfoldable pub string_to_float : GoLibrary → Text → Option Value
string_to_float go s = Option.map (floating float64) (go.parse_float s)

-- The replacer drops commas and spaces.
unfoldable pub string_with_commas_to_float : GoLibrary → Text → Option Value
unfolding string_to_float
string_with_commas_to_float go s =
    string_to_float go (replace_char b' ' [] (replace_char b',' [] s))

-- The map `convertRules`.
unfoldable pub convert_rule : GoLibrary → DataType → DataType → Option (Value → Option Value)
unfolding number_to_string timestamp_to_string number_to_float bool_to_string bool_to_number
    bool_to_float string_to_timestamp
convert_rule go bool string_type = some bool_to_string
convert_rule go int64_type string_type = some (number_to_string go)
convert_rule go float64_type string_type = some (number_to_string go)
convert_rule go timestamp_type string_type = some (timestamp_to_string go)
convert_rule go bool int64_type = some bool_to_number
convert_rule go bool float64_type = some (bool_to_float go)
convert_rule go int64_type float64_type = some (number_to_float go)
convert_rule go string_type timestamp_type = some (string_to_timestamp go)
convert_rule go _ _ = none

unfoldable pub is_convertible : GoLibrary → DataType → DataType → Bool
unfolding convert_rule
is_convertible go from to =
    if from == to then true else elim (convert_rule go from to) [ some f ↦ true | none ↦ false ]

unfoldable pub convert : GoLibrary → DataType → Value → Option Value
unfolding convert_rule type_from_value
convert go to v = elim (type_from_value v) [
  | none ↦ none
  | some current ↦
      if current == to
      then some v
      else elim (convert_rule go current to) [ none ↦ none | some f ↦ f v ]
]

-- The map `DefaultTypes`.
unfoldable pub default_type : Text → Option DataType
default_type k =
    if k == timestamp_key
    then some timestamp_type
    else if k == codes "eventn_ctx_utc_time"
    then some timestamp_type
    else none
