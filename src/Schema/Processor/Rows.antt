-- ===== src/Schema/Processor/Rows.antt =====
-- Every row of a table's file fits the header of the file.
use mathlib.Core.Path.{subst}
use eventnative.Base.{
  ◌≡◌, refl, ◌∙◌, ◌||◌, Bool, true, Option, none, some, [], ◌∷◌, text_eq, arith, Option-cases,
  Bool-cases, inl, inr,
}
use eventnative.Base.Dict as Dict
use eventnative.Base.Dict.{Dict, lookup-nil, lookup-insert, NodupKeys}
use eventnative.Base.Lists.{All, All-concat, All-mono}
use eventnative.Base.Text.{Text}
use eventnative.Value.{Value, Object}
use eventnative.Value.Objects.{lookup}
use eventnative.Typing.{DataType, GoLibrary, type_from_value, data_type_eq}
use eventnative.Typing.Converter.{convert}
use eventnative.Typing.Conversion.{convert-join, type_from_value-known}
use eventnative.Schema.BatchHeader.{Field, Fields, BatchHeader, new_field, merge, exists}
use eventnative.Schema.BatchHeader.Types.{occurs}
use eventnative.Schema.BatchHeader.Laws.{AreFields, types_of, occurs-merge}
use eventnative.Schema.BatchHeader.Columns.{
  merge-AreFields, merge-NodupKeys, column_type, column_type-above, known_above,
}
use eventnative.Schema.MappingStep.Laws.{Agrees, Describes, IsHeaderOf}
use eventnative.Schema.Processor.{ProcessedFile, Files, append_row, add_row}

-- The type of every value of the row occurred in its column.
abbrev pub RowFits : Fields → Object → Type 0
RowFits fields row =
    (k : Text) (v : Value)
    → lookup k row ≡ some v
    → (t : DataType) × (type_from_value v ≡ some t) × (occurs t (types_of k fields) ≡ true)

occurs-new_field : (t : DataType) → occurs t (new_field t).type_occurrence ≡ true
unfolding occurs new_field Dict.lookup
occurs-new_field t = ground arith

fits_of_Agrees :
    (k : Text) (fields : Fields) (v : Value)
    → Agrees (Dict.lookup k fields) (some v)
    → (t : DataType) × (type_from_value v ≡ some t) × (occurs t (types_of k fields) ≡ true)
fits_of_Agrees k fields v a = by_column (Dict.lookup k fields) refl a
  where
    by_column :
        (o : Option Field)
        → Dict.lookup k fields ≡ o
        → Agrees o (some v)
        → (t : DataType) × (type_from_value v ≡ some t) × (occurs t (types_of k fields) ≡ true)
    by_column none e h = absurd h
    by_column (some f) e (t, same, typed) = (t, typed, rw (e, types_of, same) (occurs-new_field t))

Describes-RowFits : (fields : Fields) (row : Object) → Describes fields row → RowFits fields row
Describes-RowFits fields row d k v e = fits_of_Agrees k fields v (rw e at (d k))

or_left : (a b : Bool) → a ≡ true → (a || b) ≡ true
or_left a b h = ground arith

or_right : (a b : Bool) → b ≡ true → (a || b) ≡ true
or_right a b h = ground arith

RowFits-merge_left :
    (f g : Fields) (row : Object) → NodupKeys g → RowFits f row → RowFits (merge f g) row
RowFits-merge_left f g row u h k v e =
    let (t, typed, occurred) = h k v e in (t, typed, occurs-merge t k f g u ∙ or_left _ _ occurred)

RowFits-merge_right :
    (f g : Fields) (row : Object) → NodupKeys g → RowFits g row → RowFits (merge f g) row
RowFits-merge_right f g row u h k v e =
    let (t, typed, occurred) = h k v e in (t, typed, occurs-merge t k f g u ∙ or_right _ _ occurred)

pub record IsFile (name : Text) (f : ProcessedFile) : Type 0 where
  pub named : f.batch_header.table_name ≡ name
  pub fields : AreFields f.batch_header.fields
  pub unique : NodupKeys f.batch_header.fields
  pub fits : All (RowFits f.batch_header.fields) f.payload

abbrev pub AreFiles : Files → Type 0
AreFiles files = (name : Text) (f : ProcessedFile) → Dict.lookup name files ≡ some f → IsFile name f

append_row-IsFile :
    (name : Text) (f : ProcessedFile) (bh : BatchHeader) (row : Object)
    → IsFile name f
    → IsHeaderOf name bh row
    → IsFile name (append_row f bh row)
unfolding append_row
append_row-IsFile name f bh row h r = record {
  named = h.named;
  fields = merge-AreFields f.batch_header.fields bh.fields r.unique h.fields r.fields;
  unique = merge-NodupKeys f.batch_header.fields bh.fields h.unique;
  fits =
      All-concat (RowFits _) f.payload
        (All-mono (RowFits _) (RowFits _) f.payload
          (λ o. RowFits-merge_left f.batch_header.fields bh.fields o r.unique) h.fits)
        (RowFits-merge_right f.batch_header.fields bh.fields row r.unique
          (Describes-RowFits bh.fields row r.describes));
}

insert-AreFiles :
    (name : Text) (f : ProcessedFile) (files : Files)
    → IsFile name f
    → AreFiles files
    → AreFiles (Dict.insert name f files)
insert-AreFiles name f files h hs n g e = elim (text_eq.dec n name) [
  | yes same ↦
      let found : f ≡ g = ground (arith, lookup-insert n name f files) in rw (same, ← found) h
  | no differ ↦ hs n g (ground (arith, lookup-insert n name f files))
]

first_row :
    (file_name : Text) (bh : BatchHeader) (row : Object)
    → IsHeaderOf bh.table_name bh row
    → IsFile bh.table_name (record { file_name = file_name; batch_header = bh; payload = row ∷ [] })
first_row file_name bh row r = record {
  named = refl;
  fields = r.fields;
  unique = r.unique;
  fits = (Describes-RowFits bh.fields row r.describes, tt);
}

pub add_row-AreFiles :
    (file_name : Text) (bh : BatchHeader) (row : Object) (files : Files)
    → (exists (some bh) ≡ true → IsHeaderOf bh.table_name bh row)
    → AreFiles files
    → AreFiles (add_row file_name bh row files)
unfolding add_row
add_row-AreFiles file_name bh row files r hs = elim (Bool-cases (exists (some bh))) [
  | inr nothing_new ↦ rw (nothing_new, add_row) hs
  | inl new ↦ elim (Option-cases (Dict.lookup bh.table_name files)) [
    | inl first ↦
        rw (new, first, add_row)
          (insert-AreFiles bh.table_name _ files (first_row file_name bh row (r new)) hs)
    | inr (f, more) ↦
        rw (new, more, add_row)
          (insert-AreFiles bh.table_name _ files
            (append_row-IsFile bh.table_name f bh row (hs bh.table_name f more) (r new)) hs)
  ]
]

-- Every value of a file's row converts to the type of its column.
pub convert_of_IsFile :
    (go : GoLibrary) (name : Text) (f : ProcessedFile) (row : Object) (k : Text) (v : Value)
    → RowFits f.batch_header.fields row
    → IsFile name f
    → lookup k row ≡ some v
    → (w : Value) × (convert go (column_type k f.batch_header.fields) v ≡ some w)
convert_of_IsFile go name f row k v fits h e =
    let (t, typed, occurred) = fits k v e in
    let above = column_type-above k f.batch_header.fields t h.fields occurred in
    let known = type_from_value-known v t typed in
    subst (λ c. (w : Value) × (convert go c v ≡ some w)) above
      (convert-join go t (column_type k f.batch_header.fields) v typed
        (known_above t (column_type k f.batch_header.fields) known above))
