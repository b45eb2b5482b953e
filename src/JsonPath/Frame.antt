-- ===== src/JsonPath/Frame.antt =====
-- An operation at one path leaves the values at other paths alone.
use eventnative.Base.{
  ◌≡◌, refl, ◌≢◌, ◌⊎◌, inl, inr, true, false, none, List, [], ◌∷◌, text_eq, arith,
}
use eventnative.Base.Text.{Text}
use eventnative.Value.{Value, object, Object, empty}
use eventnative.Value.Objects.{lookup, lookup-insert, lookup-erase, missing, inner, other, child}
use eventnative.JsonPath.{JsonPath, get_and_remove_parts, get, get_and_remove, set_parts, set}

-- Neither path begins with the other.
abbrev pub Diverge : List Text → List Text → Type 0
Diverge (j ∷ ps) (k ∷ qs) = (j ≢ k) ⊎ ((j ≡ k) × Diverge ps qs)
Diverge _ _ = ⊥

get_parts_empty : (ps : List Text) → (get_and_remove_parts ps empty false).1 ≡ none
unfolding get_and_remove_parts lookup
get_parts_empty [] = refl
get_parts_empty (k ∷ []) = refl
get_parts_empty (k ∷ n ∷ ps) = refl

get_at_other_head :
    (j : Text) (ps : List Text) (o o' : Object)
    → lookup j o ≡ lookup j o'
    → (get_and_remove_parts (j ∷ ps) o false).1 ≡ (get_and_remove_parts (j ∷ ps) o' false).1
unfolding get_and_remove_parts
get_at_other_head j [] o o' e = ground arith
get_at_other_head j (n ∷ ps) o o' e = ground arith

pub set_parts-lookup :
    (j k : Text) (ps : List Text) (o : Object) (v : Value)
    → j ≢ k
    → lookup j (set_parts (k ∷ ps) o v).0 ≡ lookup j o
unfolding set_parts
set_parts-lookup j k [] o v h = ground (arith, lookup-insert j k v o)
set_parts-lookup j k (n ∷ ps) o v h = elim (child k o) [
  | missing e ↦ ground (arith, lookup-insert j k (object (set_parts (n ∷ ps) empty v).0) o)
  | inner sub e ↦ ground (arith, lookup-insert j k (object (set_parts (n ∷ ps) sub v).0) o)
  | other w f e ↦ ground arith
]

pub removed_parts-lookup :
    (j k : Text) (ps : List Text) (o : Object)
    → j ≢ k
    → lookup j (get_and_remove_parts (k ∷ ps) o true).0 ≡ lookup j o
unfolding get_and_remove_parts
removed_parts-lookup j k [] o h = ground (arith, lookup-erase j k o)
removed_parts-lookup j k (n ∷ ps) o h = elim (child k o) [
  | missing e ↦ ground arith
  | inner sub e ↦
      ground (arith, lookup-insert j k (object (get_and_remove_parts (n ∷ ps) sub true).0) o)
  | other w f e ↦ ground arith
]

module _ (k n m : Text) (qs ps : List Text) (o : Object) where
  below_set :
      (v : Value)
      → ((sub : Object)
          → (get_and_remove_parts (n ∷ qs) (set_parts (m ∷ ps) sub v).0 false).1
            ≡ (get_and_remove_parts (n ∷ qs) sub false).1)
      → (get_and_remove_parts (k ∷ n ∷ qs) (set_parts (k ∷ m ∷ ps) o v).0 false).1
        ≡ (get_and_remove_parts (k ∷ n ∷ qs) o false).1
  unfolding get_and_remove_parts set_parts
  below_set v ih = elim (child k o) [
    | missing c ↦ ground (
      arith,
      ih empty,
      get_parts_empty (n ∷ qs),
      lookup-insert k k (object (set_parts (m ∷ ps) empty v).0) o,
    )
    | inner sub c ↦
        ground (arith, ih sub, lookup-insert k k (object (set_parts (m ∷ ps) sub v).0) o)
    | other w f c ↦ ground arith
  ]

  below_removed :
      ((sub : Object)
        → (get_and_remove_parts (n ∷ qs) (get_and_remove_parts (m ∷ ps) sub true).0 false).1
          ≡ (get_and_remove_parts (n ∷ qs) sub false).1)
      → (get_and_remove_parts (k ∷ n ∷ qs) (get_and_remove_parts (k ∷ m ∷ ps) o true).0 false).1
        ≡ (get_and_remove_parts (k ∷ n ∷ qs) o false).1
  unfolding get_and_remove_parts
  below_removed ih = elim (child k o) [
    | missing c ↦ ground arith
    | inner sub c ↦
        ground
          (arith, ih sub, lookup-insert k k (object (get_and_remove_parts (m ∷ ps) sub true).0) o)
    | other w f c ↦ ground arith
  ]

get_parts-set_parts :
    (qs ps : List Text) (o : Object) (v : Value)
    → Diverge qs ps
    → (get_and_remove_parts qs (set_parts ps o v).0 false).1 ≡ (get_and_remove_parts qs o false).1
get_parts-set_parts (j ∷ qs) (k ∷ ps) o v (inl h) =
    get_at_other_head j qs _ o (set_parts-lookup j k ps o v h)
get_parts-set_parts (j ∷ []) (k ∷ ps) o v (inr (e, d)) = absurd d
get_parts-set_parts (j ∷ n ∷ qs) (k ∷ []) o v (inr (e, d)) = absurd d
get_parts-set_parts (j ∷ n ∷ qs) (k ∷ m ∷ ps) o v (inr (e, d)) =
    rw e (below_set k n m qs ps o v λ sub. get_parts-set_parts (n ∷ qs) (m ∷ ps) sub v d)
get_parts-set_parts _ _ o v d = absurd d

get_parts-removed_parts :
    (qs ps : List Text) (o : Object)
    → Diverge qs ps
    → (get_and_remove_parts qs (get_and_remove_parts ps o true).0 false).1
      ≡ (get_and_remove_parts qs o false).1
get_parts-removed_parts (j ∷ qs) (k ∷ ps) o (inl h) =
    get_at_other_head j qs _ o (removed_parts-lookup j k ps o h)
get_parts-removed_parts (j ∷ []) (k ∷ ps) o (inr (e, d)) = absurd d
get_parts-removed_parts (j ∷ n ∷ qs) (k ∷ []) o (inr (e, d)) = absurd d
get_parts-removed_parts (j ∷ n ∷ qs) (k ∷ m ∷ ps) o (inr (e, d)) =
    rw e (below_removed k n m qs ps o λ sub. get_parts-removed_parts (n ∷ qs) (m ∷ ps) sub d)
get_parts-removed_parts _ _ o d = absurd d

-- A write or a removal at one path leaves the value at every diverging path alone.
pub get_elsewhere :
    (q p : JsonPath) (o : Object) (v : Value)
    → Diverge q.parts p.parts
    → (get q (set p o v).0 ≡ get q o) × (get q (get_and_remove p o).0 ≡ get q o)
unfolding get set get_and_remove
get_elsewhere q p o v d =
    (get_parts-set_parts q.parts p.parts o v d, get_parts-removed_parts q.parts p.parts o d)
