-- ===== src/Storages/Store/Fallbacks.antt =====
-- When the events that could not be processed are handed to the fallback.
use eventnative.Base.{
  ◌≡◌, refl, ap, Bool, true, false, Option, none, some, List, [], ◌∷◌, ◌++◌, text_eq, arith,
  Bool-cases, inl, inr, ◌⊎◌,
}
use eventnative.Base.Dict as Dict
use eventnative.Base.Dict.{Dict, NodupKeys, lookup-insert}
use eventnative.Base.Result.{ok, Result-cases}
use eventnative.Base.Text.{Text}
use eventnative.Value.{Object}
use eventnative.Typing.{GoLibrary}
use eventnative.Schema.Processor.{ProcessedFile, FailedEvent, Files, process_file_payload}
use eventnative.Schema.Processor.Names.{IsKeyed, process_file_payload-IsKeyed}
use eventnative.Schema.Marshaller.{get_payload_len}
use eventnative.Adapters.Table.{Table}
use eventnative.Storages.TableHelper.{map_table_schema}
use eventnative.Storages.Store.{
  StoreError, StoreResult, Outcome, Storage, Storing, Loop, error_of, store_table, report_failed,
  store_file, store_files, fallback, store_processed, store_with_parse_func,
}

abbrev pub NoErrors : Dict Text StoreResult → Type 0
NoErrors [] = Unit
NoErrors ((_, r) ∷ results) = (r.error ≡ none) × NoErrors results

insert-NoErrors :
    (n : Text) (r : StoreResult) (results : Dict Text StoreResult)
    → r.error ≡ none
    → NoErrors results
    → NoErrors (Dict.insert n r results)
unfolding Dict.insert
insert-NoErrors n r [] h a = (h, tt)
insert-NoErrors n r ((m, r') ∷ results) h (h', a) = ground (arith, insert-NoErrors n r results h a)

abbrev ErrorAt : Text → Dict Text StoreResult → Type 0
ErrorAt n results =
    (r : StoreResult) × (e : StoreError) × (Dict.lookup n results ≡ some r) × (r.error ≡ some e)

abbrev pub HasError : Dict Text StoreResult → Type 0
HasError results = (n : Text) × ErrorAt n results

module _ (go : GoLibrary) (S : Storage) where
  abbrev table_of : ProcessedFile → Table
  table_of f = map_table_schema S.types S.pk_fields f.batch_header

  abbrev outcome : ProcessedFile → Loop go S → Outcome
  outcome f l = (store_table go S f (table_of f) l.storing.helper).0

  store_files-flag :
      (files : Files) (l : Loop go S)
      → (store_files go S files l).store_failed_events ≡ true
      → l.store_failed_events ≡ true
  unfolding store_files store_file
  store_files-flag [] l h = h
  store_files-flag ((_, f) ∷ files) l h =
      ground (arith, store_files-flag files (store_file go S f l) h)

  store_file-NoErrors :
      (f : ProcessedFile) (l : Loop go S)
      → NoErrors l.table_results
      → (store_file go S f l).store_failed_events ≡ true
      → NoErrors (store_file go S f l).table_results
  unfolding store_file
  store_file-NoErrors f l clean h = elim (Result-cases (outcome f l)) [
    | inl (t, won) ↦
        insert-NoErrors (table_of f).name
          (record { error = error_of go S (outcome f l); rows_count = get_payload_len f })
          l.table_results (rw won refl) clean
    | inr (e, lost) ↦ absurd (ground arith)
  ]

  store_files-NoErrors :
      (files : Files) (l : Loop go S)
      → NoErrors l.table_results
      → (store_files go S files l).store_failed_events ≡ true
      → NoErrors (store_files go S files l).table_results
  unfolding store_files
  store_files-NoErrors [] l clean h = clean
  store_files-NoErrors ((_, f) ∷ files) l clean h =
      store_files-NoErrors files (store_file go S f l)
        (store_file-NoErrors f l clean (store_files-flag files (store_file go S f l) h)) h

  -- An error so far is that of a table that does not come again.
  abbrev Lasting : Files → Loop go S → Type 0
  Lasting files l =
      l.store_failed_events ≡ false
      → (n : Text) × (Dict.lookup n files ≡ none) × ErrorAt n l.table_results

  store_file-Lasting :
      (k : Text) (f : ProcessedFile) (files : Files) (l : Loop go S)
      → Dict.lookup k files ≡ none
      → f.batch_header.table_name ≡ k
      → Lasting ((k, f) ∷ files) l
      → Lasting files (store_file go S f l)
  unfolding store_file map_table_schema
  store_file-Lasting k f files l fresh named lasting h =
      let r' : StoreResult = record {
        error = error_of go S (outcome f l);
        rows_count = get_payload_len f;
      } in
      elim (Result-cases (outcome f l)) [
        | inr (e, lost) ↦ (
          k,
          fresh,
          (r', e, rw named (ground (arith, lookup-insert k k r' l.table_results)), ground arith),
        )
        | inl (t, won) ↦
            let (n, other, (r, e, found, failed)) = lasting (ground arith) in
            (
              n,
              ground arith,
              (r, e, ground (arith, lookup-insert n (table_of f).name r' l.table_results), failed),
            )
      ]

  store_files-HasError :
      (files : Files) (l : Loop go S)
      → IsKeyed files
      → Lasting files l
      → (store_files go S files l).store_failed_events ≡ false
      → HasError (store_files go S files l).table_results
  unfolding store_files
  store_files-HasError [] l k lasting h = let (n, _, found) = lasting h in (n, found)
  store_files-HasError ((k, f) ∷ files) l ((fresh, unique), (named, rest)) lasting h =
      store_files-HasError files (store_file go S f l) (unique, rest)
        (store_file-Lasting k f files l fresh named lasting) h

  store_files-log :
      (files : Files) (l : Loop go S)
      → (store_files go S files l).storing.fallback_log ≡ l.storing.fallback_log
  unfolding store_files store_file
  store_files-log [] l = refl
  store_files-log ((_, f) ∷ files) l = store_files-log files (store_file go S f l)

  -- When the payload is processed without an error: if no table of the result has an error, the
  -- events that could not be processed are handed to the fallback, all of them and once; if a table
  -- has one, none is, so that the whole file can be tried again.
  pub store_with_parse_func-fallback :
      (file_name payload : Text) (uploaded : Dict Text Bool) (parse : Text → Option Object)
      (st : Storing go S) (files : Files) (failed : List FailedEvent)
      → process_file_payload go S.processor file_name uploaded parse payload ≡ ok (files, failed)
      → (results : Dict Text StoreResult) × ((store_with_parse_func go S file_name payload uploaded
            parse st).0
          ≡ ok results)
        × (NoErrors results
              × ((store_with_parse_func go S file_name payload uploaded parse st).2.fallback_log
                  ≡ st.fallback_log ++ failed)
            ⊎ HasError results
              × ((store_with_parse_func go S file_name payload uploaded parse st).2.fallback_log
                  ≡ st.fallback_log))
  unfolding store_with_parse_func store_processed fallback
  store_with_parse_func-fallback file_name payload uploaded parse st files failed h =
      let keyed =
        process_file_payload-IsKeyed go S.processor file_name uploaded parse payload files failed
          h in
      let started : Loop go S = record {
        table_results = [];
        store_failed_events = true;
        storing = record st { cache_calls = st.cache_calls ++ report_failed go S failed };
      } in
      let l = store_files go S files started in
      let kept = store_files-log files started in
      (
        l.table_results,
        rw (store_with_parse_func, h) refl,
        elim (Bool-cases l.store_failed_events) [
          | inl all_stored ↦ inl (
            store_files-NoErrors files started tt all_stored,
            rw (store_with_parse_func, h)
                (rw (store_processed, all_stored) (ap (λ t. t ++ failed) kept)),
          )
          | inr some_failed ↦ inr (
            store_files-HasError files started keyed (λ no. absurd (ground arith)) some_failed,
            rw (store_with_parse_func, h) (rw (store_processed, some_failed) kept),
          )
        ],
      )
