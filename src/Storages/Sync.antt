-- ===== src/Storages/Sync.antt =====
-- storages/postgres.go: `Insert` and `SyncStore`.
pub mod Counts
use eventnative.Base.{ℕ, ◌+◌, Option, none, some, List, [], ◌∷◌, ◌==◌, text_eq, if◌then◌else◌}
use eventnative.Base.Action.{Effect}
use eventnative.Base.Lists.{length}
use eventnative.Base.Result.{Result, ok, err}
use eventnative.Base.Text.{Text}
use eventnative.Value.{Object}
use eventnative.Typing.{GoLibrary}
use eventnative.Schema.Processor.{ProcessedFile, Files, process_objects}
use eventnative.Schema.Marshaller.{get_payload_len}
use eventnative.Adapters.Table.{Table}
use eventnative.Adapters.Statements.{DeleteConditions, delete_by_time_chunk_condition}
use eventnative.Storages.TableHelper.{
  Backend, State, map_table_schema, ensure_table, refresh_table_schema,
}
use eventnative.Storages.Store.{StoreError, not_processed, not_ensured, Writer, Storage}

module _ (go : GoLibrary) (S : Storage) where
  open S use {name, backend, writer, processor, types, pk_fields}

  -- `Insert`: after an error the schema is read again, and the event is inserted once more.
  unfoldable pub insert : Table → Object → Effect (State backend) StoreError
  unfolding ensure_table refresh_table_schema
  insert table event s =
      let (r, s') = ensure_table backend name table s in
      elim r [
        | err e ↦ (err (not_ensured e), s')
        | ok db ↦
            let (first, w) = writer.insert_one db event s'.world in
            let (renewed, s'') =
              refresh_table_schema backend name table (record s' { world = w }) in
            elim first [
              | ok _ ↦ (ok tt, record s' { world = w })
              | err _ ↦ elim renewed [
                | err e ↦ (err (not_ensured e), s'')
                | ok db' ↦
                    let (second, w') = writer.insert_one db' event s''.world in
                    (second, record s'' { world = w' })
              ]
            ]
      ]

  unfoldable pub payload_rows : Files → ℕ
  unfolding get_payload_len
  payload_rows [] = 0
  payload_rows ((_, f) ∷ files) = get_payload_len f + payload_rows files

  -- `SyncStore` behind the processing: the first error ends it.
  unfoldable pub override_name : Text → Table → Table
  override_name overridden table =
      if overridden == [] then table else record table { name = overridden }

  unfoldable pub update_tables :
      Text
      → DeleteConditions
      → ℕ
      → Files
      → State backend
      → Result (StoreError × ℕ) ℕ × State backend
  unfolding ensure_table map_table_schema override_name
  update_tables overridden conditions rows_count [] s = (ok rows_count, s)
  update_tables overridden conditions rows_count ((_, f) ∷ files) s =
      let table = override_name overridden (map_table_schema types pk_fields f.batch_header) in
      let (r, s') = ensure_table backend name table s in
      elim r [
        | err e ↦ (err (not_ensured e, 0), s')
        | ok db ↦
            let (r', w) = writer.bulk_update db f.payload conditions s'.world in
            let rest =
              update_tables overridden conditions rows_count files (record s' { world = w }) in
            elim r' [ err e ↦ (err (e, rows_count), record s' { world = w }) | ok _ ↦ rest ]
      ]

  -- `SyncStore`: an error comes with the number of rows that the caller counts as failed.
  unfoldable pub sync_store :
      Text → List Object → Text → State backend → Result (StoreError × ℕ) ℕ × State backend
  unfolding process_objects update_tables payload_rows delete_by_time_chunk_condition
  sync_store overridden objects time_interval_value s =
      elim (process_objects go processor objects []) [
        | err e ↦ (err (not_processed e, length objects), s)
        | ok files ↦
            update_tables overridden (delete_by_time_chunk_condition time_interval_value)
              (payload_rows files) files s
      ]
