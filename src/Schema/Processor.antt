-- ===== src/Schema/Processor.antt =====
-- schema/processor.go, schema/table_name_extractor.go and maputils/copy.go: from events to the rows
-- and headers of each table.
pub mod Rows
pub mod Sound
pub mod Accounting
pub mod Typed
pub mod Names
use eventnative.Base.{
  ℕ, Bool, true, false, Option, none, some, List, [], ◌∷◌, ◌++◌, ◌==◌, nat_eq, text_eq,
  if◌then◌else◌,
}
use eventnative.Base.Dict as Dict
use eventnative.Base.Dict.{Dict}
use eventnative.Base.Result.{Result, ok, err, ◌>>=◌}
use eventnative.Base.Text.{Text, codes, replace_text}
use eventnative.Value.{Value, instant, object, Object, empty, field, as_text}
use eventnative.Value.Objects.{lookup, insert}
use eventnative.Typing.{GoLibrary}
use eventnative.Typing.Converter.{layout, timestamp_key}
use eventnative.Events.Extractor.{extract_event_id}
use eventnative.Schema.Flattener.{reformat}
use eventnative.Schema.FieldMapper.{Mapper}
use eventnative.Schema.MappingStep.{StepError, execute}
use eventnative.Schema.BatchHeader.{Fields, BatchHeader, exists, merge}

-- `skip_object` is `ErrSkipObject`. A panic of a type assertion or of the template is recovered.
pub data ProcessError : Type 0 where
  no_timestamp malformed_timestamp panicked template_failed : ProcessError
  skip_object parse_failed : ProcessError
  step_failed : StepError → ProcessError

-- `tmpl.Execute` is the package text/template's, and the rules are those of the configuration.
pub record Processor : Type 0 where
  pub template : Object → Option Text
  pub rules : List (Object → Object)
  pub mapper : Mapper
  pub break_on_error : Bool

-- `CopyMap`
unfoldable mutual
  pub copy_value : Value → Value
  copy_value (object o) = object (copy_map o)
  copy_value v = v

  pub copy_map : Object → Object
  copy_map empty = empty
  copy_map (field k v o) = field k (copy_value v) (copy_map o)

-- The table name of an executed template.
unfoldable pub format_name : GoLibrary → Text → Text
unfolding replace_text reformat
format_name go out = reformat go (replace_text (codes "<no value>") (codes "null") out)

-- `Extract`, with the object whose timestamp it has parsed in place.
unfoldable pub extract : GoLibrary → Processor → Object → Object × Result ProcessError Text
unfolding lookup insert as_text
extract go p o = elim (lookup timestamp_key o) [
  | none ↦ (o, err no_timestamp)
  | some ts ↦ elim (as_text ts) [
    | none ↦ (o, err panicked)
    | some s ↦ elim (go.parse_time layout s) [
      | none ↦ (o, err malformed_timestamp)
      | some t ↦
          let o' = insert timestamp_key (instant t) o in
          elim (p.template o') [
            | none ↦ (o', err template_failed)
            | some out ↦ (o', ok (format_name go out))
          ]
    ]
  ]
]

-- `LookupEnrichmentStep.Execute`
unfoldable pub enrich : List (Object → Object) → Object → Object
enrich [] o = o
enrich (rule ∷ rules) o = enrich rules (rule o)

unfoldable pub map_step :
    GoLibrary → Processor → Text → Object → Result ProcessError (BatchHeader × Object)
map_step go p table_name o = elim (execute go p.mapper table_name (enrich p.rules (copy_map o))) [
  | err e ↦ err (step_failed e)
  | ok row ↦ ok row
]

-- `processObject` behind the extraction; a table that is uploaded already has the empty header.
unfoldable pub process_named :
    GoLibrary
    → Processor
    → Dict Text Bool
    → Object
    → Text
    → Result ProcessError (BatchHeader × Object)
process_named go p uploaded o table_name =
    if table_name == [] then err skip_object else elim (Dict.lookup table_name uploaded) [
      | some _ ↦ ok (record { table_name = []; fields = [] }, empty)
      | none ↦ map_step go p table_name o
    ]

unfoldable pub process_object :
    GoLibrary
    → Processor
    → Dict Text Bool
    → Object
    → Object × Result ProcessError (BatchHeader × Object)
process_object go p uploaded o =
    let (o', name) = extract go p o in
    (o', name >>= λ table_name. process_named go p uploaded o' table_name)

pub record ProcessedFile : Type 0 where
  pub file_name : Text
  pub batch_header : BatchHeader
  pub payload : List Object

pub record FailedEvent : Type 0 where
  pub event : Text
  pub error : ProcessError
  pub event_id : Text

abbrev pub Files : Type 0
Files = Dict Text ProcessedFile

-- A row joins the file of its table.
unfoldable pub append_row : ProcessedFile → BatchHeader → Object → ProcessedFile
append_row f bh row = record f {
  batch_header = record (f.batch_header) { fields = merge f.batch_header.fields bh.fields };
  payload = f.payload ++ row ∷ [];
}

unfoldable pub add_row : Text → BatchHeader → Object → Files → Files
add_row file_name bh row files =
    if exists (some bh)
    then elim (Dict.lookup bh.table_name files) [
      | none ↦
          Dict.insert bh.table_name
            (record { file_name = file_name; batch_header = bh; payload = row ∷ [] }) files
      | some f ↦ Dict.insert bh.table_name (append_row f bh row) files
    ]
    else files

-- `ReadBytes('\\n')` in a loop: the lines that a newline ends. What stands behind the last newline is
-- read together with the end of the file, and the loop does not run for it.
unfoldable pub terminated_lines : Text → Text → List Text
terminated_lines cur [] = []
terminated_lines cur (c ∷ s) =
    let closed = cur ∷ terminated_lines [] s in
    let longer = terminated_lines (cur ++ c ∷ []) s in if c == 10 then closed else longer

abbrev pub Progress : Type 0
Progress = Files × List FailedEvent

module _ (go : GoLibrary) (p : Processor) (file_name : Text) (uploaded : Dict Text Bool) where
  -- What the loop does with the result for one line.
  unfoldable pub settle :
      Text
      → Object
      → Result ProcessError (BatchHeader × Object)
      → Progress
      → Result ProcessError Progress
  settle line o (ok (bh, row)) (files, failed) = ok (add_row file_name bh row files, failed)
  settle line o (err skip_object) progress = ok progress
  settle line o (err e) (files, failed) =
      if p.break_on_error
      then err e
      else ok (
        files,
        failed ++ record { event = line; error = e; event_id = extract_event_id go o } ∷ [],
      )

  unfoldable pub process_line :
      (Text → Option Object) → Text → Progress → Result ProcessError Progress
  process_line parse line progress = elim (parse (line ++ 10 ∷ [])) [
    | none ↦ err parse_failed
    | some o ↦ let (o', result) = process_object go p uploaded o in settle line o' result progress
  ]

  unfoldable pub process_lines :
      (Text → Option Object) → List Text → Progress → Result ProcessError Progress
  process_lines parse [] progress = ok progress
  process_lines parse (line ∷ lines) progress =
      process_line parse line progress >>= λ progress'. process_lines parse lines progress'

  -- `ProcessFilePayload`
  unfoldable pub process_file_payload : (Text → Option Object) → Text → Result ProcessError Progress
  unfolding process_lines terminated_lines
  process_file_payload parse payload = process_lines parse (terminated_lines [] payload) ([], [])

-- `ProcessObjects`: the first error, a skipped object included, is returned.
unfoldable pub process_objects :
    GoLibrary → Processor → List Object → Files → Result ProcessError Files
process_objects go p [] files = ok files
process_objects go p (o ∷ objects) files = (process_object go p [] o).1 >>= λ (bh, row).
    process_objects go p objects (add_row [] bh row files)
