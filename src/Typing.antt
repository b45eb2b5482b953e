-- ===== src/Typing.antt =====
-- typing/datatype.go: the column types, their names, and the type of a value.
pub mod Converter
pub mod Lattice
pub mod Conversion
use eventnative.Base.{
  ℕ, ◌≡◌, ◌&&◌, Bool, true, false, Option, none, some, Eq, ◌==◌, text_eq, leb, ◌+◌, map,
  if◌then◌else◌,
}
use eventnative.Base.Int.{ℤ}
use eventnative.Base.Text.{Text, codes, trim_space, contains_char}
use eventnative.Value.{
  Value, nothing, boolean, text, integer, floating, instant, number, slice, object, int64, float64,
}

-- In the order of the iota values 0 to 5.
pub data DataType : Type 0 where
  unknown bool int64_type float64_type string_type timestamp_type : DataType

data_type_discrete : Discrete DataType
data_type_discrete = hlevel

instance unfoldable pub data_type_eq : Eq DataType
unfolding data_type_discrete
data_type_eq = record { dec = data_type_discrete }

abbrev pub rank : DataType → ℕ
rank unknown = 0
rank bool = 1
rank int64_type = 2
rank float64_type = 3
rank string_type = 4
rank timestamp_type = 5

-- What the program takes from `strconv`, `time`, `unicode` and `encoding/json`, beyond what the
-- model defines.
pub record GoLibrary : Type 0 where
  -- `time.Parse(layout, s)` and `t.Format(layout)`
  pub parse_time : Text → Text → Option ℕ
  pub format_time : Text → ℕ → Text
  -- `float64(i)`, `float64(f)` of a float32, `strconv.FormatFloat(f, 'f', -1, 64)`
  pub float_of_int : ℤ → ℕ
  pub widen : ℕ → ℕ
  pub format_float : ℕ → Text
  -- `strconv.ParseFloat(s, 64)`, `strconv.ParseInt(s, 10, 64)`
  pub parse_float : Text → Option ℕ
  pub parse_int : Text → Option ℤ
  -- `json.Marshal`
  pub marshal : Value → Option Text
  -- `unicode.ToLower`
  pub lower : ℕ → ℕ
  -- `fmt.Sprint`
  pub sprint : Value → Text

-- The map `inputStringToType`.
unfoldable pub input_string_to_type : Text → Option DataType
input_string_to_type s =
    if s == codes "string"
    then some string_type
    else if s == codes "integer"
    then some int64_type
    else if s == codes "double"
    then some float64_type
    else if s == codes "timestamp"
    then some timestamp_type
    else if s == codes "boolean"
    then some bool
    else none

-- The map `typeToInputString`, as `StringFromType` reads it.
unfoldable pub string_from_type : DataType → Option Text
string_from_type string_type = some (codes "string")
string_from_type int64_type = some (codes "integer")
string_from_type float64_type = some (codes "double")
string_from_type timestamp_type = some (codes "timestamp")
string_from_type bool = some (codes "boolean")
string_from_type unknown = none

-- `TypeFromString`; the error is `none`.
unfoldable pub type_from_string : GoLibrary → Text → Option DataType
unfolding input_string_to_type
type_from_string go t = input_string_to_type (map go.lower (trim_space t))

-- `ReformatValue`: a number that cannot be parsed stays as it is.
unfoldable pub reformat_value : GoLibrary → Value → Value
reformat_value go (number s) =
    if contains_char s b'.'
    then elim (go.parse_float s) [ none ↦ number s | some f ↦ floating float64 f ]
    else elim (go.parse_int s) [ none ↦ number s | some i ↦ integer int64 i ]
reformat_value go v = v

-- `TypeFromValue`; the error is `none`.
unfoldable pub type_from_value : Value → Option DataType
type_from_value (text s) = some string_type
type_from_value (floating k f) = some float64_type
type_from_value (integer k i) = some int64_type
type_from_value (instant t) = some timestamp_type
type_from_value (boolean b) = some bool
type_from_value _ = none
