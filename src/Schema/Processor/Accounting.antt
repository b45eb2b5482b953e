-- ===== src/Schema/Processor/Accounting.antt =====
-- Where each line of a payload ends up.
use eventnative.Base.{
  ℕ, ◌+◌, ◌≡◌, ◌≢◌, Bool, true, false, Option, none, some, List, [], ◌∷◌, ◌++◌, text_eq, arith,
  if◌then◌else◌, Option-cases, inl, inr,
}
use eventnative.Base.Dict as Dict
use eventnative.Base.Dict.{Dict, NodupKeys, insert-NodupKeys}
use eventnative.Base.Lists.{length, length-append}
use eventnative.Base.Result.{Result, ok, err, >>=-eq-ok}
use eventnative.Base.Text.{Text}
use eventnative.Value.{Object}
use eventnative.Typing.{GoLibrary}
use eventnative.Events.Extractor.{extract_event_id}
use eventnative.Schema.BatchHeader.{BatchHeader, exists}
use eventnative.Schema.Processor.{
  ProcessError, skip_object, Processor, process_object, ProcessedFile, FailedEvent, Files,
  append_row, add_row, settle, process_line, process_lines, process_file_payload, terminated_lines,
}

-- Rows in the files of all tables.
unfoldable pub row_count : Files → ℕ
row_count [] = 0
row_count ((_, f) ∷ files) = length f.payload + row_count files

row_count-insert_new :
    (name : Text) (f : ProcessedFile) (files : Files)
    → Dict.lookup name files ≡ none
    → row_count (Dict.insert name f files) ≡ row_count files + length f.payload
unfolding row_count Dict.insert Dict.lookup
row_count-insert_new name f [] h = omega arith
row_count-insert_new name f ((j, g) ∷ files) h = ground (arith, row_count-insert_new name f files)

row_count-insert_old :
    (name : Text) (f g : ProcessedFile) (files : Files)
    → Dict.lookup name files ≡ some g
    → row_count (Dict.insert name f files) + length g.payload ≡ row_count files + length f.payload
unfolding row_count Dict.insert Dict.lookup
row_count-insert_old name f g [] h = cc
row_count-insert_old name f g ((j, e) ∷ files) h =
    ground (arith, row_count-insert_old name f g files)

abbrev one_if : Bool → ℕ
one_if b = if b then 1 else 0

row_count-add_row :
    (file_name : Text) (bh : BatchHeader) (row : Object) (files : Files)
    → row_count (add_row file_name bh row files) ≡ row_count files + one_if (exists (some bh))
unfolding add_row append_row
row_count-add_row file_name bh row files = elim (Option-cases (Dict.lookup bh.table_name files)) [
  | inl first ↦ ground (
    arith,
    row_count-insert_new bh.table_name
        (record { file_name = file_name; batch_header = bh; payload = row ∷ [] }) files,
  )
  | inr (f, more) ↦ ground (
    arith,
    row_count-insert_old bh.table_name (append_row f bh row) f files,
    length-append f.payload (row ∷ []),
  )
]

-- The three ends of an object: a row of a table, a failed event, or neither.
unfoldable pub is_stored : Result ProcessError (BatchHeader × Object) → Bool
is_stored (ok (bh, row)) = exists (some bh)
is_stored (err e) = false

unfoldable pub is_failed : Result ProcessError (BatchHeader × Object) → Bool
is_failed (ok r) = false
is_failed (err skip_object) = false
is_failed (err e) = true

module _ (go : GoLibrary) (p : Processor) (file_name : Text) (uploaded : Dict Text Bool)
    (parse : Text → Option Object) where
  -- How many of the lines satisfy a test of their object's result.
  unfoldable pub count_lines : (Result ProcessError (BatchHeader × Object) → Bool) → List Text → ℕ
  count_lines test [] = 0
  count_lines test (line ∷ lines) =
      elim (parse (line ++ 10 ∷ [])) [
        | none ↦ 0
        | some o ↦ one_if (test (process_object go p uploaded o).1)
      ]
      + count_lines test lines

  process_line-parsed :
      (line : Text) (files files' : Files) (failed failed' : List FailedEvent)
      → parse (line ++ 10 ∷ []) ≡ none
      → process_line go p file_name uploaded parse line (files, failed) ≢ ok (files', failed')
  unfolding process_line
  process_line-parsed line files files' failed failed' broken h = ground arith

  settle-counts :
      (line : Text) (o : Object) (r : Result ProcessError (BatchHeader × Object))
      (files files' : Files) (failed failed' : List FailedEvent)
      → settle go p file_name uploaded line o r (files, failed) ≡ ok (files', failed')
      → (row_count files' ≡ row_count files + one_if (is_stored r))
        × (length failed' ≡ length failed + one_if (is_failed r))
  unfolding settle is_stored is_failed
  settle-counts line o (ok (bh, row)) files files' failed failed' h =
      ground (arith, row_count-add_row file_name bh row files)
  settle-counts line o (err skip_object) files files' failed failed' h = ground arith
  settle-counts line o (err e) files files' failed failed' h = ground (
    arith,
    length-append failed
        (record { event = line; error = e; event_id = extract_event_id go o } ∷ []),
  )

  process_lines-counts :
      (lines : List Text) (files files' : Files) (failed failed' : List FailedEvent)
      → process_lines go p file_name uploaded parse lines (files, failed) ≡ ok (files', failed')
      → (row_count files' ≡ row_count files + count_lines is_stored lines)
        × (length failed' ≡ length failed + count_lines is_failed lines)
  unfolding process_lines count_lines process_line
  process_lines-counts [] files files' failed failed' h = ground arith
  process_lines-counts (line ∷ lines) files files' failed failed' h =
      let ((more, failed''), step, rest) =
        >>=-eq-ok (process_line go p file_name uploaded parse line (files, failed)) _ h in
      elim (Option-cases (parse (line ++ 10 ∷ []))) [
        | inl broken ↦ absurd (process_line-parsed line files more failed failed'' broken step)
        | inr (o, parsed) ↦
            let r = (process_object go p uploaded o).1 in
            let (stored, lost) =
              settle-counts line (process_object go p uploaded o).0 r files more failed failed''
                (rw (parsed, process_line) at step) in
            let (stored', lost') = process_lines-counts lines more files' failed'' failed' rest in
            rw (count_lines, parsed) (omega arith, omega arith)
      ]

-- When a payload is processed without an error, no terminated line is lost and none is counted
-- twice: the files hold one row for each line whose object yields a header that is not empty,
-- and there is one failed event for each line whose object fails.
pub process_file_payload-counts :
    (go : GoLibrary) (p : Processor) (file_name : Text) (uploaded : Dict Text Bool)
    (parse : Text → Option Object) (payload : Text) (files : Files) (failed : List FailedEvent)
    → process_file_payload go p file_name uploaded parse payload ≡ ok (files, failed)
    → (row_count files
        ≡ count_lines go p file_name uploaded parse is_stored (terminated_lines [] payload))
      × (length failed
          ≡ count_lines go p file_name uploaded parse is_failed (terminated_lines [] payload))
unfolding process_file_payload row_count
process_file_payload-counts go p file_name uploaded parse payload files failed h =
    let (stored, lost) =
      process_lines-counts go p file_name uploaded parse (terminated_lines [] payload) [] files []
        failed h in
    (omega arith, omega arith)
