-- ===== src/Schema/BatchHeader/Columns.antt =====
-- The column types of merged headers.
use eventnative.Base.{
  ◌≡◌, refl, sym, ◌∙◌, ◌||◌, ◌≢◌, Bool, true, Option, none, some, [], ◌∷◌, text_eq, arith,
  Option-cases, inl, inr,
}
use eventnative.Base.Dict.{lookup, NodupKeys, insert-NodupKeys}
use eventnative.Base.Text.{Text}
use eventnative.Typing.{DataType, unknown, GoLibrary, data_type_eq}
use eventnative.Typing.Converter.{get_common_ancestor_type as join, is_convertible}
use eventnative.Typing.Lattice.{is_convertible-join}
use eventnative.Schema.BatchHeader.{Field, Fields, merge_field, merge, common_of, get_type}
use eventnative.Schema.BatchHeader.Types.{occurs, common_of-occurs, common_of_ext}
use eventnative.Schema.BatchHeader.Laws.{
  AreFields, types_of, get_type-eq-common_of, merge_field-AreFields, occurs-merge,
}

pub merge-AreFields :
    (f g : Fields) → NodupKeys g → AreFields f → AreFields g → AreFields (merge f g)
unfolding merge lookup
merge-AreFields f [] _ hf hg = hf
merge-AreFields f ((name, other) ∷ g) (fresh, u) hf hg =
    merge-AreFields (merge_field name other f) g u
      (merge_field-AreFields name other f (hg name other (ground arith)) hf)
      (λ n field e. hg n field (ground arith))

pub merge-NodupKeys : (f g : Fields) → NodupKeys f → NodupKeys (merge f g)
unfolding merge merge_field
merge-NodupKeys f [] h = h
merge-NodupKeys f ((name, other) ∷ g) h =
    merge-NodupKeys (merge_field name other f) g (step (lookup name f))
  where
    step : Option Field → NodupKeys (merge_field name other f)
    step o = elim (Option-cases (lookup name f)) [
      | inl e ↦ rw (e, merge_field) (insert-NodupKeys name other f h)
      | inr (current, e) ↦ rw (e, merge_field) (insert-NodupKeys name _ f h)
    ]

-- The type of a column; a column that is absent has none.
abbrev pub column_type : Text → Fields → DataType
column_type n f = elim (lookup n f) [ none ↦ unknown | some field ↦ get_type field ]

column_type-eq-common_of :
    (n : Text) (f : Fields) → AreFields f → column_type n f ≡ common_of (types_of n f)
unfolding common_of
column_type-eq-common_of n f h = elim (Option-cases (lookup n f)) [
  | inl e ↦ rw (e, column_type, types_of) refl
  | inr (field, e) ↦ rw (e, column_type, types_of) (get_type-eq-common_of field (h n field e))
]

or_comm : (a b : Bool) → (a || b) ≡ (b || a)
or_comm a b = ground arith

-- For two headers with unique names whose fields know their type only where it is the common
-- one: the order in which they are merged does not change the type of any column.
pub column_type-merge_comm :
    (n : Text) (f g : Fields)
    → NodupKeys f
    → NodupKeys g
    → AreFields f
    → AreFields g
    → column_type n (merge f g) ≡ column_type n (merge g f)
column_type-merge_comm n f g uf ug hf hg =
    column_type-eq-common_of n (merge f g) (merge-AreFields f g ug hf hg)
    ∙ (common_of_ext _ _ (λ u.
          occurs-merge u n f g ug
          ∙ (or_comm (occurs u (types_of n f)) (occurs u (types_of n g))
              ∙ sym (occurs-merge u n g f uf)))
        ∙ sym (column_type-eq-common_of n (merge g f) (merge-AreFields g f uf hg hf)))

pub known_above : (u w : DataType) → u ≢ unknown → join u w ≡ w → w ≢ unknown
unfolding join
known_above u w h e = ground arith

-- In a header whose fields know their type only where it is the common one: every known type
-- that occurred in a column converts to the type of the column.
pub is_convertible-column_type :
    (go : GoLibrary) (n : Text) (f : Fields) (u : DataType)
    → AreFields f
    → u ≢ unknown
    → occurs u (types_of n f) ≡ true
    → is_convertible go u (column_type n f) ≡ true
is_convertible-column_type go n f u h k e =
    let above = common_of-occurs u (types_of n f) e in
    rw (column_type-eq-common_of n f h, ← above)
      (is_convertible-join go u _ k (known_above u _ k above))

pub column_type-above :
    (n : Text) (f : Fields) (u : DataType)
    → AreFields f
    → occurs u (types_of n f) ≡ true
    → join u (column_type n f) ≡ column_type n f
column_type-above n f u h e =
    rw (column_type-eq-common_of n f h) (common_of-occurs u (types_of n f) e)
