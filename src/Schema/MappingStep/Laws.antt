-- ===== src/Schema/MappingStep/Laws.antt =====
-- The header of a row describes the row.
use eventnative.Base.{
  ◌≡◌, refl, sym, ◌∙◌, ◌≢◌, true, false, Option, none, some, [], text_eq, arith, if◌then◌else◌,
  Option-cases, inl, inr,
}
use mathlib.Core.Path.{subst}
use mathlib.Core.Logic.{ite}
use mathlib.Core.Option.{none-ne-some}
use eventnative.Base.Dict as Dict
use eventnative.Base.Dict.{lookup-nil, lookup-insert, NodupKeys, insert-NodupKeys}
use eventnative.Base.Result.{ok, >>=-eq-ok, ok-injective}
use eventnative.Base.Text.{Text}
use eventnative.Value.{Value, Object, empty, field}
use eventnative.Value.Objects.{lookup, insert}
use eventnative.Value.Objects as Objects
use eventnative.Typing.{DataType, GoLibrary, reformat_value, type_from_value}
use eventnative.Typing.Converter.{default_type}
use eventnative.Typing.Conversion.{type_from_value-convert}
use eventnative.Schema.BatchHeader.{Field, Fields, BatchHeader, new_field}
use eventnative.Schema.BatchHeader.Laws.{IsField, AreFields, new_field-IsField, insert-AreFields}
use eventnative.Schema.FieldMapper.{Mapper}
use eventnative.Schema.MappingStep.{type_field, type_fields, map_object, flatten_mapped, execute}

-- A column and a value go together: both are absent, or the column has the type of the value.
abbrev pub Agrees : Option Field → Option Value → Type 0
Agrees none none = Unit
Agrees (some f) (some v) = (t : DataType) × (f ≡ new_field t) × (type_from_value v ≡ some t)
Agrees _ _ = ⊥

abbrev pub Describes : Fields → Object → Type 0
Describes fields row = (k : Text) → Agrees (Dict.lookup k fields) (lookup k row)

type_field-typed :
    (go : GoLibrary) (k : Text) (v : Value) (t : DataType) (w : Value)
    → type_field go k v ≡ ok (t, w)
    → type_from_value w ≡ some t
unfolding type_field
type_field-typed go k v t w h = elim (Option-cases (default_type k)) [
  | inl free ↦ ground arith
  | inr (t', fixed) ↦ ground (arith, type_from_value-convert go t' (reformat_value go v) w)
]

-- A round of the loop writes both sides of its key, and no other.
round-Agrees :
    (k j : Text) (t : DataType) (w : Value) (fields : Fields) (row : Object)
    → type_from_value w ≡ some t
    → (k ≢ j → Agrees (Dict.lookup k fields) (lookup k row))
    → Agrees (Dict.lookup k (Dict.insert j (new_field t) fields)) (lookup k (insert j w row))
round-Agrees k j t w fields row typed h =
    rw (lookup-insert, Objects.lookup-insert) (chosen (text_eq.dec k j))
  where
    chosen :
        (d : Dec (k ≡ j))
        → Agrees
            (if (ite d true false) then some (new_field t) else Dict.lookup k fields)
            (if (ite d true false) then some w else lookup k row)
    chosen (yes p) = (t, refl, typed)
    chosen (no n) = h n

absent_behind :
    (k j : Text) (v : Value) (o : Object)
    → k ≢ j
    → lookup k o ≡ none
    → lookup k (field j v o) ≡ none
unfolding lookup
absent_behind k j v o n h = ground arith

type_fields-Agrees :
    (go : GoLibrary) (o : Object) (fields fields' : Fields) (row row' : Object) (k : Text)
    → (lookup k o ≡ none → Agrees (Dict.lookup k fields) (lookup k row))
    → type_fields go o fields row ≡ ok (fields', row')
    → Agrees (Dict.lookup k fields') (lookup k row')
unfolding type_fields lookup
type_fields-Agrees go empty fields fields' row row' k h e =
    subst (λ c. Agrees (Dict.lookup k c.0) (lookup k c.1)) (ok-injective e) (h refl)
type_fields-Agrees go (field j v o) fields fields' row row' k h e =
    let ((t, w), typed, rest) = >>=-eq-ok (type_field go j v) _ e in
    type_fields-Agrees go o _ fields' _ row' k
      (λ absent.
        round-Agrees k j t w fields row (type_field-typed go j v t w typed)
          λ n. h (absent_behind k j v o n absent))
      rest

type_fields-AreFields :
    (go : GoLibrary) (o : Object) (fields fields' : Fields) (row row' : Object)
    → AreFields fields × NodupKeys fields
    → type_fields go o fields row ≡ ok (fields', row')
    → AreFields fields' × NodupKeys fields'
unfolding type_fields
type_fields-AreFields go empty fields fields' row row' h e =
    subst (λ c. AreFields c.0 × NodupKeys c.0) (ok-injective e) h
type_fields-AreFields go (field j v o) fields fields' row row' (h, u) e =
    let ((t, w), typed, rest) = >>=-eq-ok (type_field go j v) _ e in
    type_fields-AreFields go o _ fields' _ row'
      (
        insert-AreFields j (new_field t) fields (new_field-IsField t) h,
        insert-NodupKeys j (new_field t) fields u,
      )
      rest

-- The header of one row: it is well formed, and each column has the type of the row's value.
pub record IsHeaderOf (name : Text) (bh : BatchHeader) (row : Object) : Type 0 where
  pub named : bh.table_name ≡ name
  pub fields : AreFields bh.fields
  pub unique : NodupKeys bh.fields
  pub describes : Describes bh.fields row

start-Agrees :
    (flat : Object) (k : Text) → lookup k flat ≡ none → Agrees (Dict.lookup k []) (lookup k flat)
start-Agrees flat k h = rw (h, lookup-nil) tt

-- A step that succeeds yields a header of its row: they have the same keys, and every column has
-- the type of the value.
pub execute-IsHeaderOf :
    (go : GoLibrary) (mapper : Mapper) (name : Text) (o : Object) (bh : BatchHeader) (row : Object)
    → execute go mapper name o ≡ ok (bh, row)
    → IsHeaderOf name bh row
unfolding execute
execute-IsHeaderOf go mapper name o bh row h =
    let (mapped, _, h') = >>=-eq-ok (map_object mapper o) _ h in
    let (flat, _, h'') = >>=-eq-ok (flatten_mapped go mapped) _ h' in
    let ((fields, found), typed, done) = >>=-eq-ok (type_fields go flat [] flat) _ h'' in
    let (valid, unique) =
      type_fields-AreFields go flat [] fields flat found ((λ n f e. no_fields n f e), tt) typed in
    subst (λ c. IsHeaderOf name c.0 c.1) (ok-injective done)
      (record {
        named = refl;
        fields = valid;
        unique = unique;
        describes =
            λ k. type_fields-Agrees go flat [] fields flat found k (start-Agrees flat k) typed;
      })
  where
    no_fields : (n : Text) (f : Field) → Dict.lookup n [] ≡ some f → IsField f
    no_fields n f e = absurd (none-ne-some f (sym (lookup-nil n) ∙ e))
