-- ===== src/Tests/Stores.antt =====
-- The storages (storages/postgres.go) and the bytes of files (schema/marshaller.go), run.
use eventnative.Base.{text_eq, nat_eq, ℕ, ◌+◌, ◌≡◌, refl, List, [], ◌∷◌, ◌++◌, ◌⊎◌, map}
use eventnative.Base.Dict as Dict
use eventnative.Base.Dict.{Dict}
use eventnative.Base.Int.{pos}
use eventnative.Base.Lists.{length}
use eventnative.Base.Result.{Result, ok}
use eventnative.Base.Text.{Text, codes, join}
use eventnative.Value.{integer, int64, Object, empty, field}
use eventnative.Typing.{int64_type, string_type}
use eventnative.Schema.BatchHeader.{header, new_field}
use eventnative.Schema.Processor.{ProcessedFile, Files, process_objects, terminated_lines}
use eventnative.Schema.Processor.Accounting.{count_lines, is_stored, is_failed, row_count}
use eventnative.Schema.Marshaller.{
  csv_marshaller, json_marshaller, cell, get_payload_bytes_with_header,
}
use eventnative.Schema.Marshaller.Lines.{
  lines_text, marshalled, get_payload_bytes_with_header_lines,
}
use eventnative.Adapters.Statements.{delete_by_time_chunk_condition}
use eventnative.Storages.Store.{StoreError, Storage, Storing, StoreResult, store_with_parse_func}
use eventnative.Storages.Store.Reports.{failure_report, reports_of, store_with_parse_func-reports}
use eventnative.Storages.Store.Fallbacks.{NoErrors, HasError, store_with_parse_func-fallback}
use eventnative.Storages.Sync.{sync_store}
use eventnative.Storages.Sync.Counts.{Updated, sync_store-Updated}
use eventnative.Base.Int.{format_int}
use eventnative.Base.Text.{contains_char, has_prefix, replace_text, replace_text_from}
use eventnative.Value.{as_object, as_text}
use eventnative.Value.Objects as Objects
use eventnative.Typing.{data_type_eq, reformat_value, type_from_value}
use eventnative.Typing.Converter.{convert, convert_rule, default_type}
use eventnative.Schema.BatchHeader.{add_types, exists, merge, merge_field, get_type, common_of}
use eventnative.Schema.Flattener.{
  flatten, flatten_object, inner_key, is_special, reformat, replace_special,
}
use eventnative.Schema.MapObject as MapObject
use eventnative.Schema.MappingStep.{execute, type_fields, flatten_mapped, map_object, type_field}
use eventnative.Schema.Processor.{
  process_object, extract, process_named, format_name, map_step, enrich, copy_map, add_row,
  append_row,
}
use eventnative.Schema.Marshaller.{get_payload_len}
use eventnative.Adapters.Table as Table
use eventnative.Adapters.Table.{diff, new_columns, same_keys, includes, is_nil}
use eventnative.Storages.Sync.{update_tables, payload_rows, override_name}
use eventnative.Storages.TableHelper.{
  map_table_schema, map_columns, ensure_table, refresh_table_schema, get_or_create, with_lock,
  get_or_create_locked, read_version, ensure_known, ensure_locked, follow_version,
  patch_if_different, patch, save, add_columns,
}
use eventnative.Tests.Fixtures.{sample_go, sample_event, sample_processor, sample_parse}
use eventnative.Tests.Pipeline.{outcome, payload, progress_of, processed}
use eventnative.Tests.Tables.{backend, start}

abbrev file : ProcessedFile
file = record {
  file_name = codes "f";
  batch_header = record {
    table_name = codes "events";
    fields = (codes "a", new_field int64_type) ∷ (codes "b", new_field int64_type) ∷ [];
  };
  payload = field (codes "b") (integer int64 (pos 1)) empty ∷ [];
}

get_payload_bytes_with_header_lines_example :
    (get_payload_bytes_with_header sample_go file csv_marshaller ≡ (
      lines_text (
          join (header file.batch_header.fields) (codes "||")
          ∷ map
              (λ o. join (map (cell sample_go o) (header file.batch_header.fields)) (codes "||"))
              file.payload),
      header file.batch_header.fields,
    ))
    × (get_payload_bytes_with_header sample_go file json_marshaller
        ≡ (lines_text (marshalled sample_go file.payload), []))
get_payload_bytes_with_header_lines_example = get_payload_bytes_with_header_lines sample_go file

-- A storage that writes whatever it is given.
abbrev pub storage : Storage
storage = record {
  name = codes "db";
  backend = backend;
  writer = record {
    bulk_insert = λ f t w. (ok tt, w);
    bulk_update = λ t os c w. (ok tt, w);
    insert_one = λ t o w. (ok tt, w);
  };
  processor = sample_processor;
  types = (int64_type, codes "bigint") ∷ (string_type, codes "text") ∷ [];
  pk_fields = [];
}

abbrev storing : Storing sample_go storage
storing = record { helper = start; cache_calls = []; fallback_log = [] }

abbrev stored_payload : Result StoreError (Dict Text StoreResult) × ℕ × Storing sample_go storage
stored_payload = store_with_parse_func sample_go storage (codes "f") payload [] sample_parse storing

store_with_parse_func-reports_example :
    (results : Dict Text StoreResult) × (stored_payload.0 ≡ ok results)
    × (stored_payload.2.cache_calls
        ≡ storing.cache_calls
          ++ (map (failure_report sample_go storage) (progress_of outcome).1
              ++ reports_of sample_go storage results (progress_of outcome).0))
    × (length stored_payload.2.cache_calls
        ≡ length storing.cache_calls
          + (count_lines sample_go sample_processor
                (codes "f")
                []
                sample_parse
                is_stored
                (terminated_lines [] payload)
              + count_lines sample_go sample_processor
                  (codes "f")
                  []
                  sample_parse
                  is_failed
                  (terminated_lines [] payload)))
store_with_parse_func-reports_example =
    store_with_parse_func-reports sample_go storage (codes "f") payload [] sample_parse storing
      (progress_of outcome).0 (progress_of outcome).1 processed

store_with_parse_func-fallback_example :
    (results : Dict Text StoreResult) × (stored_payload.0 ≡ ok results)
    × (NoErrors results
          × (stored_payload.2.fallback_log ≡ storing.fallback_log ++ (progress_of outcome).1)
        ⊎ HasError results × (stored_payload.2.fallback_log ≡ storing.fallback_log))
store_with_parse_func-fallback_example =
    store_with_parse_func-fallback sample_go storage (codes "f") payload [] sample_parse storing
      (progress_of outcome).0 (progress_of outcome).1 processed

abbrev objects : List Object
objects = sample_event ∷ []

synced : (sync_store sample_go storage [] objects (codes "chunk") start).0 ≡ ok 1
unfolding sync_store process_objects process_object extract text_eq nat_eq process_named format_name
    map_step execute enrich copy_map type_fields Dict.insert Dict.lookup format_int contains_char
    has_prefix replace_text replace_text_from add_types exists merge merge_field new_field flatten
    flatten_object inner_key is_special reformat replace_special MapObject.map flatten_mapped
    map_object type_field add_row append_row convert convert_rule default_type data_type_eq
    reformat_value type_from_value Objects.erase Objects.insert Objects.lookup as_object as_text
    update_tables payload_rows get_payload_len override_name map_table_schema map_columns get_type
    ensure_table refresh_table_schema get_or_create with_lock get_or_create_locked read_version
    ensure_known ensure_locked Table.exists diff new_columns same_keys includes is_nil
    follow_version patch_if_different patch save add_columns delete_by_time_chunk_condition
    common_of
synced = refl

sync_store-Updated_example :
    (files : Files) × (process_objects sample_go sample_processor objects [] ≡ ok files)
    × (1 ≡ row_count files)
    × Updated sample_go storage []
        (delete_by_time_chunk_condition (codes "chunk"))
        files
        start
        (sync_store sample_go storage [] objects (codes "chunk") start).1
sync_store-Updated_example =
    sync_store-Updated sample_go storage [] objects (codes "chunk") start 1 synced
