-- ===== src/Schema/Processor/Sound.antt =====
-- What a processed payload yields: sound files for tables that are not uploaded yet.
use mathlib.Core.Path.{subst}
use mathlib.Core.Option.{none-ne-some}
use eventnative.Base.{
  ◌≡◌, refl, sym, ap, ◌∙◌, ◌≢◌, Bool, true, Option, none, some, List, [], ◌∷◌, ◌++◌, ◌==◌, text_eq,
  arith, Option-cases, Bool-cases, inl, inr,
}
use eventnative.Base.Dict as Dict
use eventnative.Base.Dict.{Dict, lookup-nil, lookup-insert, NodupKeys}
use eventnative.Base.Result.{Result, ok, err, >>=-eq-ok, ok-injective, Result-cases}
use eventnative.Base.Text.{Text}
use eventnative.Value.{Object}
use eventnative.Typing.{GoLibrary, data_type_eq}
use eventnative.Schema.BatchHeader.{BatchHeader, exists}
use eventnative.Schema.MappingStep.{execute}
use eventnative.Schema.MappingStep.Laws.{IsHeaderOf, execute-IsHeaderOf}
use eventnative.Schema.Processor.{
  ProcessError, skip_object, Processor, enrich, copy_map, extract, map_step, process_named,
  process_object, ProcessedFile, FailedEvent, Files, append_row, add_row, settle, process_line,
  process_lines, process_file_payload, terminated_lines,
}
use eventnative.Schema.Processor.Rows.{IsFile, AreFiles, add_row-AreFiles}

map_step-IsHeaderOf :
    (go : GoLibrary) (p : Processor) (name : Text) (o : Object) (bh : BatchHeader) (row : Object)
    → map_step go p name o ≡ ok (bh, row)
    → IsHeaderOf name bh row
unfolding map_step
map_step-IsHeaderOf go p name o bh row h =
    elim (Result-cases (execute go p.mapper name (enrich p.rules (copy_map o)))) [
      | inl (r, done) ↦
          execute-IsHeaderOf go p.mapper name (enrich p.rules (copy_map o)) bh row
            (done ∙ ap ok (ok-injective {E = ProcessError} (rw (done, map_step) at h)))
      | inr (e, failed) ↦ ground arith
    ]

abbrev IsNew : Dict Text Bool → BatchHeader → Object → Type 0
IsNew uploaded bh row =
    IsHeaderOf bh.table_name bh row × (Dict.lookup bh.table_name uploaded ≡ none)

process_named-IsNew :
    (go : GoLibrary) (p : Processor) (uploaded : Dict Text Bool) (o : Object) (name : Text)
    (bh : BatchHeader) (row : Object)
    → process_named go p uploaded o name ≡ ok (bh, row)
    → exists (some bh) ≡ true
    → IsNew uploaded bh row
unfolding process_named exists
process_named-IsNew go p uploaded o name bh row h full = elim (Bool-cases (name == [])) [
  | inl skipped ↦ ground arith
  | inr named ↦ elim (Option-cases (Dict.lookup name uploaded)) [
    | inr (b, done) ↦
        let same : ◌≡◌ {A = BatchHeader} (record { table_name = []; fields = [] }) bh =
          ground arith in
        ground arith
    | inl fresh ↦
        let r = map_step-IsHeaderOf go p name o bh row (ground arith) in
        (subst (λ n. IsHeaderOf n bh row) (sym r.named) r, rw r.named fresh)
  ]
]

-- A header that is not empty belongs to its row, and its table was not uploaded already.
process_object-IsNew :
    (go : GoLibrary) (p : Processor) (uploaded : Dict Text Bool) (o : Object) (bh : BatchHeader)
    (row : Object)
    → (process_object go p uploaded o).1 ≡ ok (bh, row)
    → exists (some bh) ≡ true
    → IsNew uploaded bh row
unfolding process_object
process_object-IsNew go p uploaded o bh row h full =
    let (name, _, h') = >>=-eq-ok (extract go p o).1 _ h in
    process_named-IsNew go p uploaded (extract go p o).0 name bh row h' full

-- No file is for a table that was uploaded already.
abbrev pub AreNew : Dict Text Bool → Files → Type 0
AreNew uploaded files =
    (name : Text) (f : ProcessedFile)
    → Dict.lookup name files ≡ some f
    → Dict.lookup name uploaded ≡ none

add_row_elsewhere :
    (file_name : Text) (bh : BatchHeader) (row : Object) (files : Files) (name : Text)
    → name ≢ bh.table_name
    → Dict.lookup name (add_row file_name bh row files) ≡ Dict.lookup name files
unfolding add_row
add_row_elsewhere file_name bh row files name differ =
    elim (Option-cases (Dict.lookup bh.table_name files)) [
      | inl first ↦ ground (
        arith,
        lookup-insert name bh.table_name
            (record { file_name = file_name; batch_header = bh; payload = row ∷ [] }) files,
      )
      | inr (f, more) ↦ ground (arith, lookup-insert name bh.table_name (append_row f bh row) files)
    ]

add_row-AreNew :
    (uploaded : Dict Text Bool) (file_name : Text) (bh : BatchHeader) (row : Object) (files : Files)
    → (exists (some bh) ≡ true → Dict.lookup bh.table_name uploaded ≡ none)
    → AreNew uploaded files
    → AreNew uploaded (add_row file_name bh row files)
unfolding add_row
add_row-AreNew uploaded file_name bh row files new hs name f e =
    elim (text_eq.dec name bh.table_name) [
      | yes same ↦ elim (Bool-cases (exists (some bh))) [
        | inl full ↦ rw same (new full)
        | inr nothing_new ↦ hs name f (ground arith)
      ]
      | no differ ↦ hs name f (sym (add_row_elsewhere file_name bh row files name differ) ∙ e)
    ]

module _ (go : GoLibrary) (p : Processor) (file_name : Text) (uploaded : Dict Text Bool) where
  abbrev IsSound : Files → Type 0
  IsSound files = AreFiles files × AreNew uploaded files

  settle-IsSound :
      (line : Text) (o : Object) (r : Result ProcessError (BatchHeader × Object))
      (files files' : Files) (failed failed' : List FailedEvent)
      → ((bh : BatchHeader) (row : Object)
          → r ≡ ok (bh, row)
          → exists (some bh) ≡ true
          → IsNew uploaded bh row)
      → settle go p file_name uploaded line o r (files, failed) ≡ ok (files', failed')
      → IsSound files
      → IsSound files'
  unfolding settle
  settle-IsSound line o (ok (bh, row)) files files' failed failed' new h (hs, ns) =
      subst (λ c. IsSound c.0) (ok-injective h)
        (
          add_row-AreFiles file_name bh row files (λ full. (new bh row refl full).0) hs,
          add_row-AreNew uploaded file_name bh row files (λ full. (new bh row refl full).1) ns,
        )
  settle-IsSound line o (err skip_object) files files' failed failed' new h s =
      subst (λ c. IsSound c.0) (ok-injective h) s
  settle-IsSound line o (err e) files files' failed failed' new h s =
      elim (Bool-cases p.break_on_error) [
        | inl stop ↦ ground arith
        | inr go_on ↦ let same : files ≡ files' = ground arith in subst IsSound same s
      ]

  process_line-IsSound :
      (parse : Text → Option Object) (line : Text) (files files' : Files)
      (failed failed' : List FailedEvent)
      → process_line go p file_name uploaded parse line (files, failed) ≡ ok (files', failed')
      → IsSound files
      → IsSound files'
  unfolding process_line
  process_line-IsSound parse line files files' failed failed' h s =
      elim (Option-cases (parse (line ++ 10 ∷ []))) [
        | inl broken ↦ ground arith
        | inr (o, parsed) ↦
            settle-IsSound line (process_object go p uploaded o).0
              (process_object go p uploaded o).1 files files' failed failed'
              (λ bh row e full. process_object-IsNew go p uploaded o bh row e full)
              (rw (parsed, process_line) at h) s
      ]

  process_lines-IsSound :
      (parse : Text → Option Object) (lines : List Text) (files files' : Files)
      (failed failed' : List FailedEvent)
      → process_lines go p file_name uploaded parse lines (files, failed) ≡ ok (files', failed')
      → IsSound files
      → IsSound files'
  unfolding process_lines
  process_lines-IsSound parse [] files files' failed failed' h s =
      subst (λ c. IsSound c.0) (ok-injective h) s
  process_lines-IsSound parse (line ∷ lines) files files' failed failed' h s =
      let ((more, failed''), step, rest) =
        >>=-eq-ok (process_line go p file_name uploaded parse line (files, failed)) _ h in
      process_lines-IsSound parse lines more files' failed'' failed' rest
        (process_line-IsSound parse line files more failed failed'' step s)

no_files-AreFiles : AreFiles []
no_files-AreFiles name f e = absurd (none-ne-some f (sym (lookup-nil name) ∙ e))

no_files-AreNew : (uploaded : Dict Text Bool) → AreNew uploaded []
no_files-AreNew uploaded name f e = absurd (none-ne-some f (sym (lookup-nil name) ∙ e))

-- In every file that a processed payload yields, the header has the name of the table, its
-- names are unique, its fields know their type only where it is the common one, and it covers
-- the rows: the type of each value occurred in its column. The table was not uploaded already.
pub process_file_payload-IsSound :
    (go : GoLibrary) (p : Processor) (file_name : Text) (uploaded : Dict Text Bool)
    (parse : Text → Option Object) (payload : Text) (files : Files) (failed : List FailedEvent)
    (name : Text) (f : ProcessedFile)
    → process_file_payload go p file_name uploaded parse payload ≡ ok (files, failed)
    → Dict.lookup name files ≡ some f
    → IsFile name f × (Dict.lookup name uploaded ≡ none)
unfolding process_file_payload
process_file_payload-IsSound go p file_name uploaded parse payload files failed name f h e =
    let (all_files, all_new) =
      process_lines-IsSound go p file_name uploaded parse (terminated_lines [] payload) [] files []
        failed h (no_files-AreFiles, no_files-AreNew uploaded) in
    (all_files name f e, all_new name f e)
