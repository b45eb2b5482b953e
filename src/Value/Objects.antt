-- ===== src/Value/Objects.antt =====
-- The map operations on JSON objects.
use eventnative.Base.{Option, none, some, ◌≡◌, refl, arith, ◌==◌, text_eq, if◌then◌else◌}
use eventnative.Base.Text.{Text}
use eventnative.Value.{Value, object, Object, empty, field, as_object}

-- `v, ok := obj[key]`
unfoldable pub lookup : Text → Object → Option Value
lookup k empty = none
lookup k (field j w o) = if k == j then some w else lookup k o

-- `obj[key] = v`
unfoldable pub insert : Text → Value → Object → Object
insert k v empty = field k v empty
insert k v (field j w o) = if k == j then field k v o else field j w (insert k v o)

-- `delete(obj, key)`
unfoldable pub erase : Text → Object → Object
erase k empty = empty
erase k (field j w o) = let rest = erase k o in if k == j then rest else field j w rest

abbrev pub NodupKeys : Object → Type 0
NodupKeys empty = Unit
NodupKeys (field k _ o) = (lookup k o ≡ none) × NodupKeys o

pub lookup-insert :
    (j k : Text) (v : Value) (o : Object)
    → lookup j (insert k v o) ≡ (if j == k then some v else lookup j o)
unfolding insert lookup
lookup-insert j k v empty = refl
lookup-insert j k v (field i w o) = ground (arith, lookup-insert j k v o)

pub lookup-erase :
    (j k : Text) (o : Object) → lookup j (erase k o) ≡ (if j == k then none else lookup j o)
unfolding erase lookup
lookup-erase j k empty = ground arith
lookup-erase j k (field i w o) = ground (arith, lookup-erase j k o)

pub insert-NodupKeys : (k : Text) (v : Value) (o : Object) → NodupKeys o → NodupKeys (insert k v o)
unfolding insert lookup
insert-NodupKeys k v empty _ = (refl, tt)
insert-NodupKeys k v (field j _ o) (fresh, u) =
    ground (arith, insert-NodupKeys k v o u, lookup-insert j k v o)

pub erase-NodupKeys : (k : Text) (o : Object) → NodupKeys o → NodupKeys (erase k o)
unfolding erase
erase-NodupKeys k empty _ = tt
erase-NodupKeys k (field j _ o) (fresh, u) =
    ground (arith, erase-NodupKeys k o u, lookup-erase j k o)

pub insert_over : (k : Text) (v w : Value) (o : Object) → insert k v (insert k w o) ≡ insert k v o
unfolding insert
insert_over k v w empty = ground arith
insert_over k v w (field j x o) = ground (arith, insert_over k v w o)

-- To write back what is there changes nothing.
pub insert_same : (k : Text) (v : Value) (o : Object) → lookup k o ≡ some v → insert k v o ≡ o
unfolding insert lookup
insert_same k v empty h = cc
insert_same k v (field j w o) h = ground (arith, insert_same k v o)

-- What stands at a key: nothing, an object, or a value of another kind.
pub data Child (k : Text) (o : Object) : Type 0 where
  missing : lookup k o ≡ none → Child k o
  inner : (sub : Object) → lookup k o ≡ some (object sub) → Child k o
  other : (v : Value) → as_object v ≡ none → lookup k o ≡ some v → Child k o

by_lookup : (k : Text) (o : Object) (found : Option Value) → lookup k o ≡ found → Child k o
unfolding as_object
by_lookup k o none e = missing e
by_lookup k o (some (object sub)) e = inner sub e
by_lookup k o (some v) e = other v refl e

pub child : (k : Text) (o : Object) → Child k o
child k o = by_lookup k o (lookup k o) refl
