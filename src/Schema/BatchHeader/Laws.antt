-- ===== src/Schema/BatchHeader/Laws.antt =====
-- Merging the headers of a table's rows.
use eventnative.Base.{
  ◌≡◌, refl, sym, ◌||◌, ◌&&◌, Bool, true, false, Option, none, some, [], ◌∷◌, ◌==◌, text_eq, arith,
  if◌then◌else◌, Option-cases, inl, inr,
}
use eventnative.Base.Dict.{Dict, lookup, insert, lookup-insert, lookup-cons, NodupKeys}
use eventnative.Base.Text.{Text}
use eventnative.Typing.{DataType, data_type_eq}
use eventnative.Schema.BatchHeader.{
  Field, Fields, new_field, add_types, merge_field, merge, common_of, get_type,
}
use eventnative.Schema.BatchHeader.Types.{occurs}

-- A type that a field knows is the common type of those that occurred, and some type did occur.
pub record IsField (f : Field) : Type 0 where
  pub known : (t : DataType) → f.data_type ≡ some t → common_of f.type_occurrence ≡ t

pub new_field-IsField : (t : DataType) → IsField (new_field t)
unfolding new_field common_of
new_field-IsField t = record { known = λ u e. ground arith }

pub get_type-eq-common_of : (f : Field) → IsField f → get_type f ≡ common_of f.type_occurrence
unfolding get_type
get_type-eq-common_of f h = elim (Option-cases f.data_type) [
  | inl wiped ↦ rw wiped refl
  | inr (t, e) ↦ rw e (sym (h.known t e))
]

occurs-insert :
    (u t : DataType) (types : Dict DataType Bool)
    → occurs u (insert t true types) ≡ (u == t || occurs u types)
unfolding occurs
occurs-insert u t types = ground (arith, lookup-insert u t true types)

occurs-cons :
    (u t : DataType) (b : Bool) (types : Dict DataType Bool)
    → occurs u ((t, b) ∷ types) ≡ (u == t || occurs u types)
unfolding occurs lookup
occurs-cons u t b types = ground arith

occurs_of_lookup :
    (u : DataType) (types : Dict DataType Bool) {b : Bool}
    → lookup u types ≡ some b
    → occurs u types ≡ true
unfolding occurs
occurs_of_lookup u types h = ground arith

or_false : (b : Bool) → b ≡ (b || false)
or_false b = ground arith

occurs_nil : (u : DataType) → occurs u [] ≡ false
unfolding occurs lookup
occurs_nil u = refl

occurs-add_types :
    (u : DataType) (others : Dict DataType Bool) (f : Field)
    → occurs u (add_types others f).type_occurrence
      ≡ (occurs u f.type_occurrence || occurs u others)
unfolding add_types
occurs-add_types u [] f = rw occurs_nil (or_false (occurs u f.type_occurrence))
occurs-add_types u ((t, b) ∷ others) f = elim (Option-cases (lookup t f.type_occurrence)) [
  | inr (c, e) ↦ ground (
    arith,
    occurs-add_types u others f,
    occurs-cons u t b others,
    occurs_of_lookup t f.type_occurrence e,
  )
  | inl e ↦ ground (
    arith,
    occurs-add_types u others
        (record { data_type = none; type_occurrence = insert t true f.type_occurrence }),
    occurs-cons u t b others,
    occurs-insert u t f.type_occurrence,
  )
]

add_types-IsField :
    (others : Dict DataType Bool) (f : Field) → IsField f → IsField (add_types others f)
unfolding add_types
add_types-IsField [] f h = h
add_types-IsField ((t, b) ∷ others) f h = elim (Option-cases (lookup t f.type_occurrence)) [
  | inr (c, e) ↦ rw e (add_types-IsField others f h)
  | inl e ↦ rw e (add_types-IsField others _ (record { known = λ u k. cc }))
]

abbrev pub types_of : Text → Fields → Dict DataType Bool
types_of name f = elim (lookup name f) [ none ↦ [] | some field ↦ field.type_occurrence ]

abbrev pub AreFields : Fields → Type 0
AreFields f = (name : Text) (field : Field) → lookup name f ≡ some field → IsField field

add_to : Option Field → Field → Field
add_to none other = other
add_to (some current) other = add_types other.type_occurrence current

lookup-merge_field :
    (name n : Text) (other : Field) (f : Fields)
    → lookup n (merge_field name other f)
      ≡ (if n == name then some (add_to (lookup name f) other) else lookup n f)
unfolding merge_field add_to
lookup-merge_field name n other f = elim (Option-cases (lookup name f)) [
  | inl e ↦ ground (arith, lookup-insert n name other f)
  | inr (current, e) ↦
      ground (arith, lookup-insert n name (add_types other.type_occurrence current) f)
]

pub merge_field-AreFields :
    (name : Text) (other : Field) (f : Fields)
    → IsField other
    → AreFields f
    → AreFields (merge_field name other f)
unfolding add_to
merge_field-AreFields name other f h hs n field e = elim (text_eq.dec n name) [
  | no differ ↦ hs n field (ground (arith, lookup-merge_field name n other f))
  | yes same ↦
      let found : add_to (lookup name f) other ≡ field =
        ground (arith, lookup-merge_field name n other f) in
      rw (← found) (added (lookup name f) refl)
]
  where
    added : (o : Option Field) → lookup name f ≡ o → IsField (add_to o other)
    added none missing = h
    added (some current) present =
        add_types-IsField other.type_occurrence current (hs name current present)

types_of-merge_field :
    (u : DataType) (name n : Text) (other : Field) (f : Fields)
    → occurs u (types_of n (merge_field name other f))
      ≡ (occurs u (types_of n f) || (n == name && occurs u other.type_occurrence))
unfolding add_to
types_of-merge_field u name n other f = elim (Option-cases (lookup name f)) [
  | inl e ↦ ground (arith, lookup-merge_field name n other f, occurs_nil u)
  | inr (current, e) ↦
      ground
        (arith, lookup-merge_field name n other f, occurs-add_types u other.type_occurrence current)
]

-- Where the names of the merged header are unique: a merge records, for every column, the types
-- of both headers and no other.
pub occurs-merge :
    (u : DataType) (n : Text) (f g : Fields)
    → NodupKeys g
    → occurs u (types_of n (merge f g)) ≡ (occurs u (types_of n f) || occurs u (types_of n g))
unfolding merge lookup
occurs-merge u n f [] _ = rw occurs_nil (or_false _)
occurs-merge u n f ((name, other) ∷ g) (fresh, h) = ground (
  arith,
  occurs-merge u n (merge_field name other f) g h,
  types_of-merge_field u name n other f,
  lookup-cons n name other g,
  occurs_nil u,
)

pub insert-AreFields :
    (name : Text) (other : Field) (f : Fields)
    → IsField other
    → AreFields f
    → AreFields (insert name other f)
insert-AreFields name other f h hs n field e = elim (text_eq.dec n name) [
  | yes same ↦
      let found : other ≡ field = ground (arith, lookup-insert n name other f) in rw (← found) h
  | no differ ↦ hs n field (ground (arith, lookup-insert n name other f))
]
