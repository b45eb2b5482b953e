-- ===== src/Schema/Processor/Names.antt =====
-- The files of a payload stand under the names of their tables, each once.
use mathlib.Core.Path.{subst}
use eventnative.Base.{
  ◌≡◌, refl, Bool, Option, some, List, [], ◌∷◌, ◌++◌, text_eq, arith, Option-cases, inl, inr,
}
use eventnative.Base.Dict as Dict
use eventnative.Base.Dict.{Dict, NodupKeys, insert-NodupKeys}
use eventnative.Base.Result.{Result, ok, err, >>=-eq-ok}
use eventnative.Base.Text.{Text}
use eventnative.Value.{Object}
use eventnative.Typing.{GoLibrary}
use eventnative.Schema.BatchHeader.{BatchHeader}
use eventnative.Schema.Processor.{
  ProcessError, skip_object, Processor, process_object, ProcessedFile, FailedEvent, Files,
  append_row, add_row, settle, process_line, process_lines, process_file_payload, terminated_lines,
}

-- Every file stands under the name of its table.
abbrev pub AreNamed : Files → Type 0
AreNamed [] = Unit
AreNamed ((k, f) ∷ files) = (f.batch_header.table_name ≡ k) × AreNamed files

AreNamed-lookup :
    (files : Files) (k : Text) (f : ProcessedFile)
    → AreNamed files
    → Dict.lookup k files ≡ some f
    → f.batch_header.table_name ≡ k
unfolding Dict.lookup
AreNamed-lookup [] k f a h = cc
AreNamed-lookup ((j, g) ∷ files) k f (named, a) h = ground (arith, AreNamed-lookup files k f a)

insert-AreNamed :
    (files : Files) (f : ProcessedFile)
    → AreNamed files
    → AreNamed (Dict.insert f.batch_header.table_name f files)
unfolding Dict.insert
insert-AreNamed [] f a = (refl, tt)
insert-AreNamed ((j, g) ∷ files) f (named, a) = ground (arith, insert-AreNamed files f a)

abbrev pub IsKeyed : Files → Type 0
IsKeyed files = NodupKeys files × AreNamed files

add_row-IsKeyed :
    (file_name : Text) (bh : BatchHeader) (row : Object) (files : Files)
    → IsKeyed files
    → IsKeyed (add_row file_name bh row files)
unfolding add_row append_row
add_row-IsKeyed file_name bh row files (unique, named) =
    elim (Option-cases (Dict.lookup bh.table_name files)) [
      | inl first ↦
          let f : ProcessedFile = record {
            file_name = file_name;
            batch_header = bh;
            payload = row ∷ [];
          } in
          ground
            (arith, insert-NodupKeys bh.table_name f files unique, insert-AreNamed files f named)
      | inr (f, more) ↦
          let g = append_row f bh row in
          let same = AreNamed-lookup files bh.table_name f named more in
          ground (
            arith,
            insert-NodupKeys bh.table_name g files unique,
            subst (λ n. AreNamed (Dict.insert n g files)) same (insert-AreNamed files g named),
          )
    ]

module _ (go : GoLibrary) (p : Processor) (file_name : Text) (uploaded : Dict Text Bool) where
  settle-IsKeyed :
      (line : Text) (o : Object) (r : Result ProcessError (BatchHeader × Object))
      (files files' : Files) (failed failed' : List FailedEvent)
      → settle go p file_name uploaded line o r (files, failed) ≡ ok (files', failed')
      → IsKeyed files
      → IsKeyed files'
  unfolding settle
  settle-IsKeyed line o (ok (bh, row)) files files' failed failed' h k =
      ground (arith, add_row-IsKeyed file_name bh row files k)
  settle-IsKeyed line o (err skip_object) files files' failed failed' h k = ground arith
  settle-IsKeyed line o (err e) files files' failed failed' h k = ground arith

  process_line-IsKeyed :
      (parse : Text → Option Object) (line : Text) (files files' : Files)
      (failed failed' : List FailedEvent)
      → process_line go p file_name uploaded parse line (files, failed) ≡ ok (files', failed')
      → IsKeyed files
      → IsKeyed files'
  unfolding process_line
  process_line-IsKeyed parse line files files' failed failed' h k =
      elim (Option-cases (parse (line ++ 10 ∷ []))) [
        | inl broken ↦ absurd (ground arith)
        | inr (o, parsed) ↦
            settle-IsKeyed line (process_object go p uploaded o).0
              (process_object go p uploaded o).1 files files' failed failed'
              (rw (parsed, process_line) at h) k
      ]

  process_lines-IsKeyed :
      (parse : Text → Option Object) (lines : List Text) (files files' : Files)
      (failed failed' : List FailedEvent)
      → process_lines go p file_name uploaded parse lines (files, failed) ≡ ok (files', failed')
      → IsKeyed files
      → IsKeyed files'
  unfolding process_lines
  process_lines-IsKeyed parse [] files files' failed failed' h k = ground arith
  process_lines-IsKeyed parse (line ∷ lines) files files' failed failed' h k =
      let ((more, failed''), step, rest) =
        >>=-eq-ok (process_line go p file_name uploaded parse line (files, failed)) _ h in
      process_lines-IsKeyed parse lines more files' failed'' failed' rest
        (process_line-IsKeyed parse line files more failed failed'' step k)

  pub process_file_payload-IsKeyed :
      (parse : Text → Option Object) (payload : Text) (files : Files) (failed : List FailedEvent)
      → process_file_payload go p file_name uploaded parse payload ≡ ok (files, failed)
      → IsKeyed files
  unfolding process_file_payload
  process_file_payload-IsKeyed parse payload files failed h =
      process_lines-IsKeyed parse (terminated_lines [] payload) [] files [] failed h (tt, tt)
