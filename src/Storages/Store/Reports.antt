-- ===== src/Storages/Store/Reports.antt =====
-- What a storage tells the events cache of a file.
use mathlib.Core.List.{append_assoc, append-nil}
use eventnative.Base.{
  ℕ, ◌+◌, ◌≡◌, refl, sym, ap, ◌∙◌, Bool, true, false, Option, none, some, map, text_eq, List, [],
  ◌∷◌, ◌++◌, arith, if◌then◌else◌,
}
use eventnative.Base.Dict as Dict
use eventnative.Base.Dict.{Dict, lookup-insert}
use eventnative.Base.Lists.{length, length-append}
use eventnative.Base.Result.{ok, err}
use eventnative.Base.Text.{Text}
use eventnative.Value.{Object}
use eventnative.Typing.{GoLibrary}
use eventnative.Schema.Processor.{
  ProcessedFile, FailedEvent, Files, process_file_payload, terminated_lines,
}
use eventnative.Schema.Processor.Accounting.{
  row_count, count_lines, is_stored, is_failed, process_file_payload-counts,
}
use eventnative.Schema.Processor.Names.{IsKeyed, process_file_payload-IsKeyed}
use eventnative.Schema.Marshaller.{get_payload_len}
use eventnative.Events.Extractor.{extract_event_id}
use eventnative.Adapters.Table.{Table}
use eventnative.Storages.TableHelper.{map_table_schema}
use eventnative.Storages.Store.{
  StoreResult, CacheCall, cache_error, cache_succeed, not_processed, Outcome, Storage, Storing,
  Loop, store_table, report_rows, report_failed, store_file, store_files, error_of, fallback,
  store_processed, store_with_parse_func,
}

module _ (go : GoLibrary) (S : Storage) where
  length-report_rows :
      (r : Outcome) (table : Table) (rows : List Object)
      → length (report_rows go S r table rows) ≡ length rows
  unfolding report_rows
  length-report_rows r table [] = refl
  length-report_rows r table (o ∷ rows) = omega (arith, length-report_rows r table rows)

  length-report_failed :
      (failed : List FailedEvent) → length (report_failed go S failed) ≡ length failed
  unfolding report_failed
  length-report_failed [] = refl
  length-report_failed (e ∷ failed) = omega (arith, length-report_failed failed)

  abbrev calls_of : Storing go S → ℕ
  calls_of st = length st.cache_calls

  store_files-calls :
      (files : Files) (l : Loop go S)
      → calls_of (store_files go S files l).storing ≡ calls_of l.storing + row_count files
  unfolding store_files row_count store_file
  store_files-calls [] l = omega arith
  store_files-calls ((_, f) ∷ files) l =
      let table = map_table_schema S.types S.pk_fields f.batch_header in
      let r = (store_table go S f table l.storing.helper).0 in
      omega (
        arith,
        store_files-calls files (store_file go S f l),
        length-append l.storing.cache_calls (report_rows go S r table f.payload),
        length-report_rows r table f.payload,
      )

  fallback-calls :
      (b : Bool) (failed : List FailedEvent) (st : Storing go S)
      → calls_of (if b then fallback go S failed st else st) ≡ calls_of st
  unfolding fallback
  fallback-calls true failed st = refl
  fallback-calls false failed st = refl

  abbrev table_of : ProcessedFile → Table
  table_of f = map_table_schema S.types S.pk_fields f.batch_header

  -- What the cache is told of a row, by the result of its table.
  abbrev pub row_report : Option StoreResult → Table → Object → CacheCall
  row_report result table o = elim result [
    | none ↦ cache_succeed (extract_event_id go o) o table
    | some r ↦ elim r.error [
      | none ↦ cache_succeed (extract_event_id go o) o table
      | some e ↦ cache_error (extract_event_id go o) e
    ]
  ]

  -- What the cache is told of the rows of all files, one call for each.
  abbrev pub reports_of : Dict Text StoreResult → Files → List CacheCall
  reports_of results [] = []
  reports_of results ((name, f) ∷ files) =
      map (row_report (Dict.lookup name results) (table_of f)) f.payload ++ reports_of results files

  -- What the cache is told of an event that could not be processed.
  abbrev pub failure_report : FailedEvent → CacheCall
  failure_report e = cache_error e.event_id (not_processed e.error)

  report_failed-map :
      (failed : List FailedEvent) → report_failed go S failed ≡ map failure_report failed
  unfolding report_failed
  report_failed-map [] = refl
  report_failed-map (e ∷ failed) = rw (report_failed-map failed) refl

  report_rows-map :
      (r : Outcome) (n : ℕ) (table : Table) (rows : List Object)
      → report_rows go S r table rows
        ≡ map (row_report (some (record { error = error_of go S r; rows_count = n })) table) rows
  unfolding report_rows
  report_rows-map (ok _) n table [] = refl
  report_rows-map (err e) n table [] = refl
  report_rows-map (ok _) n table (o ∷ rows) = rw (report_rows-map (ok tt) n table rows) refl
  report_rows-map (err e) n table (o ∷ rows) = rw (report_rows-map (err e) n table rows) refl

  -- The result of a table that does not come again stays.
  store_files-lookup :
      (files : Files) (l : Loop go S) (name : Text)
      → IsKeyed files
      → Dict.lookup name files ≡ none
      → Dict.lookup name (store_files go S files l).table_results ≡ Dict.lookup name l.table_results
  unfolding store_files store_file map_table_schema
  store_files-lookup [] l name keyed fresh = refl
  store_files-lookup ((k, f) ∷ files) l name ((absent, unique), (named, rest)) fresh =
      let r' : StoreResult = record {
        error = error_of go S (store_table go S f (table_of f) l.storing.helper).0;
        rows_count = get_payload_len f;
      } in
      store_files-lookup files (store_file go S f l) name (unique, rest) (ground arith)
      ∙ ground (arith, lookup-insert name (table_of f).name r' l.table_results, named)

  store_files-reports :
      (files : Files) (l : Loop go S)
      → IsKeyed files
      → (store_files go S files l).storing.cache_calls
        ≡ l.storing.cache_calls ++ reports_of (store_files go S files l).table_results files
  unfolding store_files store_file map_table_schema
  store_files-reports [] l keyed = sym (append-nil l.storing.cache_calls)
  store_files-reports ((k, f) ∷ files) l ((absent, unique), (named, rest)) =
      let table = table_of f in
      let r = (store_table go S f table l.storing.helper).0 in
      let r' : StoreResult = record { error = error_of go S r; rows_count = get_payload_len f } in
      let l' = store_file go S f l in
      let last = (store_files go S files l').table_results in
      let here : Dict.lookup k last ≡ some r' =
        store_files-lookup files l' k (unique, rest) absent
        ∙ rw named (ground (arith, lookup-insert k k r' l.table_results)) in
      store_files-reports files l' (unique, rest)
      ∙ ap (λ c. (l.storing.cache_calls ++ c) ++ reports_of last files)
          (report_rows-map r (get_payload_len f) table f.payload
            ∙ ap (λ q. map (row_report q table) f.payload) (sym here))
      ∙ append_assoc l.storing.cache_calls (map (row_report (Dict.lookup k last) table) f.payload)
          (reports_of last files)

  fallback-reports :
      (b : Bool) (failed : List FailedEvent) (st : Storing go S)
      → (if b then fallback go S failed st else st).cache_calls ≡ st.cache_calls
  unfolding fallback
  fallback-reports true failed st = refl
  fallback-reports false failed st = refl

  -- The number of the reports.
  store_with_parse_func-calls :
      (file_name payload : Text) (uploaded : Dict Text Bool) (parse : Text → Option Object)
      (st : Storing go S) (files : Files) (failed : List FailedEvent)
      → process_file_payload go S.processor file_name uploaded parse payload ≡ ok (files, failed)
      → calls_of (store_with_parse_func go S file_name payload uploaded parse st).2
        ≡ calls_of st
          + (count_lines go S.processor file_name uploaded parse is_stored
                (terminated_lines [] payload)
              + count_lines go S.processor file_name uploaded parse is_failed
                  (terminated_lines [] payload))
  unfolding store_with_parse_func store_processed fallback
  store_with_parse_func-calls file_name payload uploaded parse st files failed h =
      let started : Loop go S = record {
        table_results = [];
        store_failed_events = true;
        storing = record st { cache_calls = st.cache_calls ++ report_failed go S failed };
      } in
      let l = store_files go S files started in
      let (stored, lost) =
        process_file_payload-counts go S.processor file_name uploaded parse payload files failed
          h in
      rw (store_with_parse_func, h)
        (omega (
          arith,
          fallback-calls l.store_failed_events failed l.storing,
          store_files-calls files started,
          length-append st.cache_calls (report_failed go S failed),
          length-report_failed failed,
          stored,
          lost,
        ))

  -- When a payload is processed without an error, the events cache is told first of each event that
  -- could not be processed, with its error, and then of each row of each file: that it is stored in
  -- the table when the result of the table has no error, and the error of that result otherwise.
  -- These are as many calls as there are terminated lines whose object yields a header that is not
  -- empty or fails.
  pub store_with_parse_func-reports :
      (file_name payload : Text) (uploaded : Dict Text Bool) (parse : Text → Option Object)
      (st : Storing go S) (files : Files) (failed : List FailedEvent)
      → process_file_payload go S.processor file_name uploaded parse payload ≡ ok (files, failed)
      → (results : Dict Text StoreResult) × ((store_with_parse_func go S file_name payload uploaded
            parse st).0
          ≡ ok results)
        × ((store_with_parse_func go S file_name payload uploaded parse st).2.cache_calls
            ≡ st.cache_calls ++ (map failure_report failed ++ reports_of results files))
        × (calls_of (store_with_parse_func go S file_name payload uploaded parse st).2
            ≡ calls_of st
              + (count_lines go S.processor file_name uploaded parse is_stored
                    (terminated_lines [] payload)
                  + count_lines go S.processor file_name uploaded parse is_failed
                      (terminated_lines [] payload)))
  unfolding store_with_parse_func store_processed
  store_with_parse_func-reports file_name payload uploaded parse st files failed h =
      let keyed =
        process_file_payload-IsKeyed go S.processor file_name uploaded parse payload files failed
          h in
      let started : Loop go S = record {
        table_results = [];
        store_failed_events = true;
        storing = record st { cache_calls = st.cache_calls ++ report_failed go S failed };
      } in
      let l = store_files go S files started in
      (
        l.table_results,
        rw (store_with_parse_func, h) refl,
        rw (store_with_parse_func, h)
            (fallback-reports l.store_failed_events failed l.storing
              ∙ store_files-reports files started keyed
              ∙ ap (λ c. (st.cache_calls ++ c) ++ reports_of l.table_results files)
                  (report_failed-map failed)
              ∙ append_assoc st.cache_calls (map failure_report failed)
                  (reports_of l.table_results files)),
        store_with_parse_func-calls file_name payload uploaded parse st files failed h,
      )
