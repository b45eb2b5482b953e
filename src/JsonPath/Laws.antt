-- ===== src/JsonPath/Laws.antt =====
-- Reading, writing and removing at one path.
use eventnative.Base.{
  ◌≡◌, refl, not, Bool, true, false, none, some, List, [], ◌∷◌, text_eq, arith, if◌then◌else◌,
}
use eventnative.Base.Text.{Text}
use eventnative.Value.{Value, object, Object, empty, as_object}
use eventnative.Value.Objects.{
  lookup, lookup-insert, lookup-erase, insert_same, missing, inner, other, child,
}
use eventnative.JsonPath.{
  JsonPath, get_and_remove_parts, get, get_and_remove, set_parts, set, is_empty,
}

get_parts-same : (ps : List Text) (o : Object) → (get_and_remove_parts ps o false).0 ≡ o
unfolding get_and_remove_parts
get_parts-same [] o = refl
get_parts-same (k ∷ []) o = ground arith
get_parts-same (k ∷ n ∷ ps) o = elim (child k o) [
  | missing e ↦ ground arith
  | inner sub e ↦ ground (arith, get_parts-same (n ∷ ps) sub, insert_same k (object sub) o)
  | other v f e ↦ ground arith
]

-- `Get` changes nothing, and finds what `GetAndRemove` returns.
pub removed_parts-value :
    (ps : List Text) (o : Object)
    → (get_and_remove_parts ps o true).1 ≡ (get_and_remove_parts ps o false).1
unfolding get_and_remove_parts
removed_parts-value [] o = refl
removed_parts-value (k ∷ []) o = ground arith
removed_parts-value (k ∷ n ∷ ps) o = elim (child k o) [
  | missing e ↦ ground arith
  | inner sub e ↦ ground (arith, removed_parts-value (n ∷ ps) sub)
  | other v f e ↦ ground arith
]

set_parts_empty : (ps : List Text) (v : Value) → (set_parts ps empty v).1 ≡ true
unfolding set_parts lookup
set_parts_empty [] v = refl
set_parts_empty (k ∷ []) v = refl
set_parts_empty (k ∷ n ∷ ps) v = set_parts_empty (n ∷ ps) v

set_parts-failed :
    (ps : List Text) (o : Object) (v : Value)
    → (set_parts ps o v).1 ≡ false
    → (set_parts ps o v).0 ≡ o
unfolding set_parts
set_parts-failed [] o v h = cc
set_parts-failed (k ∷ []) o v h = cc
set_parts-failed (k ∷ n ∷ ps) o v h = elim (child k o) [
  | missing e ↦ ground (arith, set_parts_empty (n ∷ ps) v)
  | inner sub e ↦ ground (arith, set_parts-failed (n ∷ ps) sub v, insert_same k (object sub) o)
  | other w f e ↦ ground arith
]

get_parts-set_parts :
    (k : Text) (ps : List Text) (o : Object) (v : Value)
    → (set_parts (k ∷ ps) o v).1 ≡ true
    → (get_and_remove_parts (k ∷ ps) (set_parts (k ∷ ps) o v).0 false).1 ≡ some v
unfolding set_parts get_and_remove_parts
get_parts-set_parts k [] o v done = ground (arith, lookup-insert k k v o)
get_parts-set_parts k (n ∷ ps) o v done = elim (child k o) [
  | missing e ↦ ground (
    arith,
    get_parts-set_parts n ps empty v,
    lookup-insert k k (object (set_parts (n ∷ ps) empty v).0) o,
  )
  | inner sub e ↦ ground (
    arith,
    get_parts-set_parts n ps sub v,
    lookup-insert k k (object (set_parts (n ∷ ps) sub v).0) o,
  )
  | other w f e ↦ ground arith
]

get_parts-removed :
    (ps : List Text) (o : Object)
    → (get_and_remove_parts ps (get_and_remove_parts ps o true).0 false).1 ≡ none
unfolding get_and_remove_parts
get_parts-removed [] o = refl
get_parts-removed (k ∷ []) o = ground (arith, lookup-erase k k o)
get_parts-removed (k ∷ n ∷ ps) o = elim (child k o) [
  | missing e ↦ ground arith
  | inner sub e ↦ ground (
    arith,
    get_parts-removed (n ∷ ps) sub,
    lookup-insert k k (object (get_and_remove_parts (n ∷ ps) sub true).0) o,
  )
  | other w f e ↦ ground arith
]

-- Whether a proper prefix of the path leads to a value that is no object.
unfoldable pub is_blocked : List Text → Object → Bool
is_blocked [] o = false
is_blocked (k ∷ []) o = false
is_blocked (k ∷ n ∷ ps) o = elim (lookup k o) [
  | none ↦ false
  | some found ↦ elim (as_object found) [ none ↦ true | some sub ↦ is_blocked (n ∷ ps) sub ]
]

set_parts-eq-not-is_blocked :
    (ps : List Text) (o : Object) (v : Value) → (set_parts ps o v).1 ≡ not (is_blocked ps o)
unfolding set_parts is_blocked
set_parts-eq-not-is_blocked [] o v = refl
set_parts-eq-not-is_blocked (k ∷ []) o v = refl
set_parts-eq-not-is_blocked (k ∷ n ∷ ps) o v = elim (child k o) [
  | missing e ↦ ground (arith, set_parts_empty (n ∷ ps) v)
  | inner sub e ↦ ground (arith, set_parts-eq-not-is_blocked (n ∷ ps) sub v)
  | other w f e ↦ ground arith
]

get-set_at :
    (ps : List Text) (o : Object) (v : Value)
    → is_empty (record { parts = ps }) ≡ false
    → (set (record { parts = ps }) o v).1 ≡ true
    → get (record { parts = ps }) (set (record { parts = ps }) o v).0 ≡ some v
unfolding set get is_empty
get-set_at [] o v h e = cc
get-set_at (k ∷ ps) o v h e = get_parts-set_parts k ps o v e

module _ (jp : JsonPath) (o : Object) where
  -- Removing a value returns what reading returns, and reading finds nothing afterwards.
  pub get_and_remove_lem :
      ((get_and_remove jp o).1 ≡ get jp o) × (get jp (get_and_remove jp o).0 ≡ none)
  unfolding get_and_remove get
  get_and_remove_lem = (removed_parts-value jp.parts o, get_parts-removed jp.parts o)

  -- A value written at a path that is not empty is found there, unless the write fails.
  pub get-set :
      (v : Value) → is_empty jp ≡ false → (set jp o v).1 ≡ true → get jp (set jp o v).0 ≡ some v
  get-set v h e = get-set_at jp.parts o v h e

  -- A write fails exactly where a proper prefix of the path leads to a value that is no object, and
  -- then it leaves the object as it was.
  pub set-eq-is_blocked :
      (v : Value)
      → set jp o v ≡ (if is_blocked jp.parts o then (o, false) else ((set jp o v).0, true))
  unfolding set
  set-eq-is_blocked v =
      ground (arith, set_parts-eq-not-is_blocked jp.parts o v, set_parts-failed jp.parts o v)
