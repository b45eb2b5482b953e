-- ===== src/Storages/Sync/Counts.antt =====
-- The numbers of rows that `SyncStore` returns.
use eventnative.Base.{ℕ, ◌≡◌, refl, ◌∙◌, List, [], ◌∷◌, arith, inl, inr, text_eq}
use eventnative.Base.Result.{ok, Result-cases}
use eventnative.Base.Text.{Text}
use eventnative.Value.{Object}
use eventnative.Typing.{GoLibrary}
use eventnative.Schema.Processor.{ProcessedFile, Files, process_objects}
use eventnative.Schema.Marshaller.{get_payload_len}
use eventnative.Schema.Processor.Accounting.{row_count}
use eventnative.Adapters.Table.{Table}
use eventnative.Adapters.Statements.{DeleteConditions, delete_by_time_chunk_condition}
use eventnative.Storages.TableHelper.{State, map_table_schema, ensure_table}
use eventnative.Storages.Store.{Storage}
use eventnative.Storages.Sync.{override_name, payload_rows, update_tables, sync_store}

payload_rows-row_count :
    (go : GoLibrary) (S : Storage) (files : Files) → payload_rows go S files ≡ row_count files
unfolding payload_rows row_count get_payload_len
payload_rows-row_count go S [] = refl
payload_rows-row_count go S ((_, f) ∷ files) = omega (arith, payload_rows-row_count go S files)

module _ (go : GoLibrary) (S : Storage) (overridden : Text) (conditions : DeleteConditions) where
  abbrev wanted : ProcessedFile → Table
  wanted f = override_name go S overridden (map_table_schema S.types S.pk_fields f.batch_header)

  -- What is left behind a table that was found in `mid` and took the rows.
  abbrev after : ProcessedFile → Table → State S.backend → State S.backend
  after f db mid = record mid { world = (S.writer.bulk_update db f.payload conditions mid.world).1 }

  -- The steps from one state to another in which every file is written to its table, in order, and no
  -- write fails.
  pub data Updated : Files → State S.backend → State S.backend → Type 0 where
    all_updated : (s : State S.backend) → Updated [] s s
    updated :
        (k : Text) (f : ProcessedFile) (files : Files) (s t : State S.backend) (db : Table)
        → (ensure_table S.backend S.name (wanted f) s).0 ≡ ok db
        → (S.writer.bulk_update db f.payload conditions
            (ensure_table S.backend S.name (wanted f) s).1.world).0
          ≡ ok tt
        → Updated files (after f db (ensure_table S.backend S.name (wanted f) s).1) t
        → Updated ((k, f) ∷ files) s t

  update_tables_step :
      (rows : ℕ) (k : Text) (f : ProcessedFile) (files : Files) (s : State S.backend) (db : Table)
      → (ensure_table S.backend S.name (wanted f) s).0 ≡ ok db
      → (S.writer.bulk_update db f.payload conditions
          (ensure_table S.backend S.name (wanted f) s).1.world).0
        ≡ ok tt
      → update_tables go S overridden conditions rows ((k, f) ∷ files) s
        ≡ update_tables go S overridden conditions rows files
            (after f db (ensure_table S.backend S.name (wanted f) s).1)
  unfolding update_tables
  update_tables_step rows k f files s db ensured written =
      rw (ensured, update_tables) (rw (written, update_tables) refl)

  update_tables-Updated :
      (rows : ℕ) (files : Files) (s : State S.backend) (n : ℕ)
      → (update_tables go S overridden conditions rows files s).0 ≡ ok n
      → (n ≡ rows) × Updated files s (update_tables go S overridden conditions rows files s).1
  unfolding update_tables
  update_tables-Updated rows [] s n h = (ground arith, all_updated s)
  update_tables-Updated rows ((k, f) ∷ files) s n h =
      let (r, mid) = ensure_table S.backend S.name (wanted f) s in
      elim (Result-cases r) [
        | inr (e, failed) ↦ absurd (ground arith)
        | inl (db, ensured) ↦
            elim (Result-cases (S.writer.bulk_update db f.payload conditions mid.world).0) [
              | inr (e, failed) ↦ absurd (ground arith)
              | inl (t, written) ↦
                  let one = update_tables_step rows k f files s db ensured written in
                  let (same, rest) =
                    update_tables-Updated rows files (after f db mid) n (rw one at h) in
                  (same, rw one (updated k f files s _ db ensured written rest))
            ]
      ]

-- When `SyncStore` returns no error, all objects were processed without one, every table's rows were
-- written in order, each by an update that succeeded on the table that `EnsureTable` returned, and the
-- number that is returned is that of the rows of all tables.
pub sync_store-Updated :
    (go : GoLibrary) (S : Storage) (overridden : Text) (objects : List Object) (chunk : Text)
    (s : State S.backend) (n : ℕ)
    → (sync_store go S overridden objects chunk s).0 ≡ ok n
    → (files : Files) × (process_objects go S.processor objects [] ≡ ok files)
      × (n ≡ row_count files)
      × Updated go S overridden
          (delete_by_time_chunk_condition chunk)
          files
          s
          (sync_store go S overridden objects chunk s).1
unfolding sync_store
sync_store-Updated go S overridden objects chunk s n h =
    elim (Result-cases (process_objects go S.processor objects [])) [
      | inr (e, failed) ↦ absurd (ground arith)
      | inl (files, processed) ↦
          let (same, steps) =
            update_tables-Updated go S overridden (delete_by_time_chunk_condition chunk)
              (payload_rows go S files) files s n (rw (sync_store, processed) at h) in
          (
            files,
            processed,
            same ∙ payload_rows-row_count go S files,
            rw (sync_store, processed) steps,
          )
    ]
