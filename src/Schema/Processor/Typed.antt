-- ===== src/Schema/Processor/Typed.antt =====
-- The rows that a payload yields convert to the types of their columns.
use mathlib.Core.Option.{some-injective}
use eventnative.Base.{ℕ, zero, suc, ◌≡◌, Bool, Option, some, List, [], ◌∷◌, text_eq}
use eventnative.Base.Dict as Dict
use eventnative.Base.Dict.{Dict}
use eventnative.Base.Lists.{get_elem?, All}
use eventnative.Base.Result.{ok}
use eventnative.Base.Text.{Text}
use eventnative.Value.{Value, Object}
use eventnative.Value.Objects.{lookup}
use eventnative.Typing.{GoLibrary, type_from_value}
use eventnative.Typing.Converter.{convert}
use eventnative.Typing.Conversion.{type_from_value-convert}
use eventnative.Schema.BatchHeader.Columns.{column_type}
use eventnative.Schema.Processor.{
  Processor, ProcessedFile, FailedEvent, Files, process_file_payload,
}
use eventnative.Schema.Processor.Rows.{RowFits, convert_of_IsFile}
use eventnative.Schema.Processor.Sound.{process_file_payload-IsSound}

All-get_elem? {ℓ κ} :
    {A : Type ℓ} (P : A → Type κ) (xs : List A) (i : ℕ) (x : A)
    → All P xs
    → get_elem? xs i ≡ some x
    → P x
All-get_elem? P [] i x a h = cc
All-get_elem? P (y ∷ xs) zero x (p, a) h = rw (← some-injective _ _ h) p
All-get_elem? P (y ∷ xs) (suc i) x (p, a) h = All-get_elem? P xs i x a h

-- Every value of every row that a payload yields converts to the type of its column, and what it
-- converts to has that type.
pub process_file_payload-convert :
    (go : GoLibrary) (p : Processor) (file_name : Text) (uploaded : Dict Text Bool)
    (parse : Text → Option Object) (payload : Text) (files : Files) (failed : List FailedEvent)
    (name : Text) (f : ProcessedFile) (i : ℕ) (row : Object) (k : Text) (v : Value)
    → process_file_payload go p file_name uploaded parse payload ≡ ok (files, failed)
    → Dict.lookup name files ≡ some f
    → get_elem? f.payload i ≡ some row
    → lookup k row ≡ some v
    → (w : Value) × (convert go (column_type k f.batch_header.fields) v ≡ some w)
      × (type_from_value w ≡ some (column_type k f.batch_header.fields))
process_file_payload-convert go p file_name uploaded parse payload files failed name f i row k v
      done found at_i at_k =
    let (is_file, _) =
      process_file_payload-IsSound go p file_name uploaded parse payload files failed name f done
        found in
    let fits = All-get_elem? (RowFits f.batch_header.fields) f.payload i row is_file.fits at_i in
    let (w, converted) = convert_of_IsFile go name f row k v fits is_file at_k in
    (w, converted, type_from_value-convert go (column_type k f.batch_header.fields) v w converted)
