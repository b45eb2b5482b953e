-- ===== src/Typing/Conversion.antt =====
-- What `Convert` returns, and the names of the types.
use Prim.Native.String.{String}
use mathlib.Core.Option.{some-injective}
use eventnative.Base.{
  ℕ, ◌≤◌, ◌≡◌, refl, some, none, arith, ◌≢◌, inl, inr, Option-cases, map, [], ◌∷◌, text_eq, nat_eq,
}
use eventnative.Base.Lists.{All}
use eventnative.Base.Text.{Text, codes, trim_space}
use eventnative.Value.{Value}
use eventnative.Typing.{
  DataType, unknown, bool, int64_type, float64_type, string_type, timestamp_type, GoLibrary,
  type_from_value, data_type_eq, string_from_type, type_from_string, input_string_to_type,
}
use eventnative.Typing.Converter.{convert, get_common_ancestor_type as join}

-- What `Convert` returns has the type that was asked for.
pub type_from_value-convert :
    (go : GoLibrary) (to : DataType) (v w : Value)
    → convert go to v ≡ some w
    → type_from_value w ≡ some to
unfolding convert type_from_value
type_from_value-convert go to v w h = ground arith

convert-join-ne-none :
    (go : GoLibrary) (t u : DataType) (v : Value)
    → type_from_value v ≡ some t
    → u ≢ unknown
    → convert go (join t u) v ≢ none
unfolding convert join
convert-join-ne-none go t u v h k = ground arith

-- The conversion of a value to the common ancestor of its type and a known type never fails.
pub convert-join :
    (go : GoLibrary) (t u : DataType) (v : Value)
    → type_from_value v ≡ some t
    → u ≢ unknown
    → (w : Value) × (convert go (join t u) v ≡ some w)
convert-join go t u v h k = elim (Option-cases (convert go (join t u) v)) [
  | inl e ↦ absurd (convert-join-ne-none go t u v h k e)
  | inr r ↦ r
]

pub convert_self :
    (go : GoLibrary) (t : DataType) (v : Value)
    → type_from_value v ≡ some t
    → convert go t v ≡ some v
unfolding convert type_from_value
convert_self go t v h = ground arith

-- The letters of ASCII that are lower case already.
abbrev pub IsLower : GoLibrary → ℕ → Type 0
IsLower go c = b'a' ≤ c → c ≤ b'z' → go.lower c ≡ c

lower_each :
    (go : GoLibrary) (s : Text)
    → ((c : ℕ) → IsLower go c)
    → All (λ c. (b'a' ≤ c) × (c ≤ b'z')) s
    → map go.lower s ≡ s
lower_each go [] h a = refl
lower_each go (c ∷ s) h ((lo, hi), a) = ground (arith, h c lo hi, lower_each go s h a)

named :
    (go : GoLibrary) (name : String) (t : DataType)
    → ((c : ℕ) → IsLower go c)
    → trim_space (codes name) ≡ codes name
    → All (λ c. (b'a' ≤ c) × (c ≤ b'z')) (codes name)
    → input_string_to_type (codes name) ≡ some t
    → type_from_string go (codes name) ≡ some t
unfolding type_from_string
named go name t h trimmed letters known = rw (trimmed, lower_each go (codes name) h letters) known

-- Where the lower case letters of ASCII stay as they are in lower case: the name of a type is
-- read back as that type.
pub type_from_string-string_from_type :
    (go : GoLibrary) (t : DataType) (s : Text)
    → ((c : ℕ) → IsLower go c)
    → string_from_type t ≡ some s
    → type_from_string go s ≡ some t
unfolding string_from_type input_string_to_type trim_space nat_eq text_eq
type_from_string-string_from_type go string_type s h e =
    rw (← some-injective _ _ e) (named go "string" string_type h refl (omega arith) refl)
type_from_string-string_from_type go int64_type s h e =
    rw (← some-injective _ _ e) (named go "integer" int64_type h refl (omega arith) refl)
type_from_string-string_from_type go float64_type s h e =
    rw (← some-injective _ _ e) (named go "double" float64_type h refl (omega arith) refl)
type_from_string-string_from_type go timestamp_type s h e =
    rw (← some-injective _ _ e) (named go "timestamp" timestamp_type h refl (omega arith) refl)
type_from_string-string_from_type go bool s h e =
    rw (← some-injective _ _ e) (named go "boolean" bool h refl (omega arith) refl)
type_from_string-string_from_type go unknown s h e = cc

-- The type of a value is never unknown.
pub type_from_value-known : (v : Value) (t : DataType) → type_from_value v ≡ some t → t ≢ unknown
unfolding type_from_value
type_from_value-known v t h = ground arith
