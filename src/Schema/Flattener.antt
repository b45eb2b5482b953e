-- ===== src/Schema/Flattener.antt =====
-- schema/flattener.go: nested objects become one flat object, with reformatted keys.
pub mod Laws
use eventnative.Base.{
  ℕ, ◌≡◌, ◌||◌, Bool, true, false, Option, none, some, List, [], ◌∷◌, ◌++◌, map, ◌==◌, nat_eq,
  text_eq, if◌then◌else◌,
}
use eventnative.Base.Text.{Text, codes, contains_char}
use eventnative.Value.{
  Value, nothing, boolean, text, integer, floating, instant, number, slice, object, Object, empty,
  field,
}
use eventnative.Value.Objects.{insert}
use eventnative.Typing.{GoLibrary}

-- The characters that the replacer turns into an underscore.
unfoldable pub is_special : ℕ → Bool
unfolding contains_char nat_eq
is_special c = contains_char (codes "()$[]{}@!#%&,.;:^- ") c

unfoldable pub replace_special : ℕ → ℕ
replace_special c = if is_special c then b'_' else c

-- `Reformat`, with both flags as `NewFlattener` sets them.
unfoldable pub reformat : GoLibrary → Text → Text
unfolding replace_special
reformat go key = map replace_special (map go.lower key)

unfoldable pub inner_key : Text → Text → Text
inner_key key k = if key == [] then k else key ++ b'_' ∷ k

-- `flatten` adds the leaves of a value to the destination; `none` is an error of `json.Marshal`.
unfoldable mutual
  pub flatten : GoLibrary → Value → Text → Object → Option Object
  flatten go (slice items) key destination = elim (go.marshal (slice items)) [
    | none ↦ none
    | some b ↦ some (insert (reformat go key) (text b) destination)
  ]
  flatten go (object o) key destination = flatten_fields go o (reformat go key) destination
  flatten go nothing key destination = some destination
  flatten go v key destination = some (insert (reformat go key) v destination)

  pub flatten_fields : GoLibrary → Object → Text → Object → Option Object
  flatten_fields go empty key destination = some destination
  flatten_fields go (field k v o) key destination =
      elim (flatten go v (inner_key key k) destination) [
        | none ↦ none
        | some destination' ↦ flatten_fields go o key destination'
      ]

unfoldable pub flatten_object : GoLibrary → Object → Option Object
unfolding flatten
flatten_object go json = flatten go (object json) [] empty
