-- ===== src/Value.antt =====
-- Go's dynamic values (`interface{}`) as events hold them, and JSON objects
-- (`map[string]interface{}`), with `maputils/copy.go`.
pub mod Objects
use eventnative.Base.{ℕ, Bool, Option, none, some}
use eventnative.Base.Int.{ℤ}
use eventnative.Base.Text.{Text}

pub data IntKind : Type 0 where
  int int8 int16 int32 int64 : IntKind

pub data FloatKind : Type 0 where
  float32 float64 : FloatKind

-- A float is its bit pattern, a `time.Time` its nanoseconds since the zero time, in UTC. Slices of
-- any other element type do not occur.
mutual
  pub data Value : Type 0 where
    nothing : Value
    boolean : Bool → Value
    text : Text → Value
    integer : IntKind → ℤ → Value
    floating : FloatKind → ℕ → Value
    instant : ℕ → Value
    number : Text → Value
    slice : Items → Value
    object : Object → Value

  pub data Items : Type 0 where
    nil : Items
    item : Value → Items → Items

  pub data Object : Type 0 where
    empty : Object
    field : Text → Value → Object → Object

-- `sub, ok := v.(map[string]interface{})`
unfoldable pub as_object : Value → Option Object
as_object (object o) = some o
as_object _ = none

-- `s, ok := v.(string)`
unfoldable pub as_text : Value → Option Text
as_text (text s) = some s
as_text _ = none
