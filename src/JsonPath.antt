-- ===== src/JsonPath.antt =====
-- jsonutils/path.go: paths into JSON objects. Go changes the object in place; here an operation
-- returns the object that it leaves behind.
pub mod Laws
pub mod Frame
pub mod Syntax
use eventnative.Base.{
  ◌≡◌, ◌&&◌, Bool, true, false, Option, none, some, List, [], ◌∷◌, ◌++◌, ◌==◌, text_eq, nat_eq,
  if◌then◌else◌,
}
use eventnative.Base.Text.{Text, codes, split, join, has_prefix, ends_with, drop_last}
use eventnative.Value.{Value, object, Object, empty, as_object}
use eventnative.Value.Objects.{lookup, insert, erase}

-- `FormatPrefixSuffix`
unfoldable pub format_prefix_suffix : Text → Text
unfolding ends_with drop_last nat_eq
format_prefix_suffix [] = []
format_prefix_suffix (c ∷ s) =
    let key : Text = if c == b'/' then s else c ∷ s in
    if ends_with key b'/' then drop_last key else key

pub record JsonPath : Type 0 where
  pub parts : List Text

-- One empty part is no part.
unfoldable pub path_parts : List Text → List Text
path_parts ([] ∷ []) = []
path_parts parts = parts

unfoldable pub new_json_path : Text → JsonPath
unfolding format_prefix_suffix split path_parts
new_json_path path = record { parts = path_parts (split (format_prefix_suffix path) b'/') }

unfoldable pub is_empty : JsonPath → Bool
is_empty jp = elim jp.parts [ [] ↦ true | _ ↦ false ]

-- `String` and `FieldName`
unfoldable pub to_text : JsonPath → Text
unfolding join
to_text jp = b'/' ∷ join jp.parts (codes "/")

unfoldable pub field_name : JsonPath → Text
unfolding join
field_name jp = join jp.parts (codes "_")

-- The loop of `getAndRemove`, with the object that it leaves and the value, if there is one.
unfoldable pub get_and_remove_parts : List Text → Object → Bool → Object × Option Value
unfolding as_object
get_and_remove_parts [] obj remove = (obj, none)
get_and_remove_parts (key ∷ []) obj remove = elim (lookup key obj) [
  | none ↦ (obj, none)
  | some value ↦ (if remove then erase key obj else obj, some value)
]
get_and_remove_parts (key ∷ next ∷ parts) obj remove = elim (lookup key obj) [
  | none ↦ (obj, none)
  | some found ↦ elim (as_object found) [
    | none ↦ (obj, none)
    | some sub ↦
        let (sub', value) = get_and_remove_parts (next ∷ parts) sub remove in
        (insert key (object sub') obj, value)
  ]
]

-- `Get` and `GetAndRemove`
unfoldable pub get : JsonPath → Object → Option Value
unfolding get_and_remove_parts
get jp obj = (get_and_remove_parts jp.parts obj false).1

unfoldable pub get_and_remove : JsonPath → Object → Object × Option Value
unfolding get_and_remove_parts
get_and_remove jp obj = get_and_remove_parts jp.parts obj true

-- The loop of `Set`, with the object that it leaves; `false` is the error.
unfoldable pub set_parts : List Text → Object → Value → Object × Bool
unfolding as_object
set_parts [] obj value = (obj, true)
set_parts (key ∷ []) obj value = (insert key value obj, true)
set_parts (key ∷ next ∷ parts) obj value = elim (lookup key obj) [
  | none ↦
      let (sub', done) = set_parts (next ∷ parts) empty value in
      (insert key (object sub') obj, done)
  | some found ↦ elim (as_object found) [
    | none ↦ (obj, false)
    | some sub ↦
        let (sub', done) = set_parts (next ∷ parts) sub value in
        (insert key (object sub') obj, done)
  ]
]

-- `Set`; objects are never nil here.
unfoldable pub set : JsonPath → Object → Value → Object × Bool
unfolding set_parts
set jp obj value = set_parts jp.parts obj value
