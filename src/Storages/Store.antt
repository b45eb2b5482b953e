-- ===== src/Storages/Store.antt =====
-- storages/postgres.go, with storages/utils.go: how a storage takes a file, a chunk of objects, or one
-- event. The other storages differ in how the rows of one table are written (`Writer`); see
-- Storages/Warehouses. The channel of the events cache and the logger of failed events are the
-- sequences of what is sent to them.
pub mod Reports
pub mod Fallbacks
pub mod Written
use eventnative.Base.{
  ℕ, ◌+◌, suc, Bool, true, false, not, ◌&&◌, Option, none, some, List, [], ◌∷◌, ◌++◌, ◌==◌, nat_eq,
  text_eq, if◌then◌else◌,
}
use eventnative.Base.Action.{Action, Effect}
use eventnative.Base.Dict as Dict
use eventnative.Base.Dict.{Dict}
use eventnative.Base.Lists.{length}
use eventnative.Base.Result.{Result, ok, err}
use eventnative.Base.Text.{Text, ends_with}
use eventnative.Value.{Object}
use eventnative.Typing.{GoLibrary, DataType}
use eventnative.Events.Extractor.{extract_event_id}
use eventnative.Schema.Processor.{
  ProcessError, Processor, ProcessedFile, FailedEvent, Files, process_file_payload, process_objects,
}
use eventnative.Schema.Marshaller.{get_payload_len}
use eventnative.Adapters.Table.{Table}
use eventnative.Adapters.Database.{AdapterError}
use eventnative.Adapters.Statements.{DeleteConditions, delete_by_time_chunk_condition}
use eventnative.Storages.TableHelper.{
  EnsureError, Backend, State, map_table_schema, ensure_table, refresh_table_schema,
}

-- `stage_failed` is the error of S3 or of Google Cloud Storage; `no_payload` is the panic of a file
-- none of whose rows can be marshalled.
pub data StoreError : Type 0 where
  not_processed : ProcessError → StoreError
  not_ensured : EnsureError → StoreError
  adapter_failed : AdapterError → StoreError
  stage_failed : Text → StoreError
  no_payload not_supported : StoreError

abbrev pub Outcome : Type 0
Outcome = Result {0, 0} StoreError Unit

-- `linesCount`: `bytes.Count` of new lines, and a last line that none ends.
unfoldable pub count_newlines : Text → ℕ
count_newlines [] = 0
count_newlines (c ∷ s) = let rest = count_newlines s in if c == 10 then suc rest else rest

unfoldable pub lines_count : Text → ℕ
unfolding count_newlines ends_with
lines_count [] = 0
lines_count (c ∷ s) = let n = count_newlines (c ∷ s) in if ends_with (c ∷ s) 10 then n else suc n

pub record StoreResult : Type 0 where
  pub error : Option StoreError
  pub rows_count : ℕ

-- `eventsCache.Error` and `eventsCache.Succeed`
pub data CacheCall : Type 0 where
  cache_error : Text → StoreError → CacheCall
  cache_succeed : Text → Object → Table → CacheCall

-- How rows get into a table that exists: in bulk, in bulk behind a deletion, and one at a time.
pub record Writer (B : Backend) : Type 0 where
  pub bulk_insert : ProcessedFile → Table → Effect B.World StoreError
  pub bulk_update : Table → List Object → DeleteConditions → Effect B.World StoreError
  pub insert_one : Table → Object → Effect B.World StoreError

pub record Storage : Type 1 where
  pub name : Text
  pub backend : Backend
  pub writer : Writer backend
  pub processor : Processor
  pub types : Dict DataType Text
  pub pk_fields : Dict Text Bool

module _ (go : GoLibrary) (S : Storage) where
  open S use {name, backend, writer, processor, types, pk_fields}

  pub record Storing : Type 0 where
    pub helper : State backend
    pub cache_calls : List CacheCall
    pub fallback_log : List FailedEvent

  -- `EnsureTable`, then the write.
  unfoldable pub ensure_and :
      Table
      → (Table → Effect (Backend.World backend) StoreError)
      → Effect (State backend) StoreError
  unfolding ensure_table
  ensure_and table write s =
      let (r, s') = ensure_table backend name table s in
      elim r [
        | err e ↦ (err (not_ensured e), s')
        | ok db ↦ let (r', w) = write db s'.world in (r', record s' { world = w })
      ]

  -- `storeTable`
  unfoldable pub store_table : ProcessedFile → Table → Effect (State backend) StoreError
  unfolding ensure_and
  store_table fdata table = ensure_and table (writer.bulk_insert fdata)

  -- What the cache is told of the rows of a table.
  unfoldable pub report_rows : Outcome → Table → List Object → List CacheCall
  unfolding extract_event_id
  report_rows r table [] = []
  report_rows r table (o ∷ rows) =
      elim r [
        | err e ↦ cache_error (extract_event_id go o) e
        | ok _ ↦ cache_succeed (extract_event_id go o) o table
      ]
      ∷ report_rows r table rows

  unfoldable pub report_failed : List FailedEvent → List CacheCall
  report_failed [] = []
  report_failed (e ∷ failed) = cache_error e.event_id (not_processed e.error) ∷ report_failed failed

  abbrev pub error_of : Outcome → Option StoreError
  error_of (ok _) = none
  error_of (err e) = some e

  abbrev pub succeeded : Outcome → Bool
  succeeded (ok _) = true
  succeeded (err e) = false

  -- `tableResults` and `storeFailedEvents`, with the state.
  pub record Loop : Type 0 where
    pub table_results : Dict Text StoreResult
    pub store_failed_events : Bool
    pub storing : Storing

  -- One round of the loop of `StoreWithParseFunc`.
  unfoldable pub store_file : ProcessedFile → Loop → Loop
  unfolding store_table map_table_schema report_rows get_payload_len Dict.insert
  store_file fdata l =
      let table = map_table_schema types pk_fields fdata.batch_header in
      let st = l.storing in
      let (r, helper) = store_table fdata table st.helper in
      record {
        table_results =
            Dict.insert table.name
              (record { error = error_of r; rows_count = get_payload_len fdata }) l.table_results;
        store_failed_events = l.store_failed_events && succeeded r;
        storing = record st {
          helper = helper;
          cache_calls = st.cache_calls ++ report_rows r table fdata.payload;
        };
      }

  unfoldable pub store_files : Files → Loop → Loop
  unfolding store_file
  store_files [] l = l
  store_files ((_, fdata) ∷ files) l = store_files files (store_file fdata l)

  -- `Fallback`
  unfoldable pub fallback : List FailedEvent → Storing → Storing
  fallback failed st = record st { fallback_log = st.fallback_log ++ failed }

  -- Behind the processing of the payload.
  unfoldable pub store_processed :
      Files → List FailedEvent → Storing → Dict Text StoreResult × Storing
  unfolding store_files report_failed fallback
  store_processed files failed st =
      let l = store_files files (record {
        table_results = [];
        store_failed_events = true;
        storing = record st { cache_calls = st.cache_calls ++ report_failed failed };
      }) in
      (l.table_results, if l.store_failed_events then fallback failed l.storing else l.storing)

  -- `StoreWithParseFunc`: the results by table, the number of failed events (or of all lines), and the
  -- error.
  unfoldable pub store_with_parse_func :
      Text
      → Text
      → Dict Text Bool
      → (Text → Option Object)
      → Storing
      → Result StoreError (Dict Text StoreResult) × ℕ × Storing
  unfolding process_file_payload store_processed lines_count
  store_with_parse_func file_name payload uploaded parse st =
      elim (process_file_payload go processor file_name uploaded parse payload) [
        | err e ↦ (err (not_processed e), lines_count payload, st)
        | ok (files, failed) ↦
            let (results, st') = store_processed files failed st in (ok results, length failed, st')
      ]
