-- ===== src/Storages/Store/Written.antt =====
-- Where the rows of a table that is stored are written.
use eventnative.Base.{◌≡◌, true, arith, inl, inr}
use eventnative.Base.Result.{ok, Result-cases}
use eventnative.Typing.{GoLibrary}
use eventnative.Schema.Processor.{ProcessedFile}
use eventnative.Adapters.Table.{Table, exists}
use eventnative.Adapters.Table.Laws.{Offers}
use eventnative.Storages.TableHelper.{State, ensure_table}
use eventnative.Storages.TableHelper.Schema.{ensure_table-Offers}
use eventnative.Storages.Store.{Storage, ensure_and, store_table}

-- A table that is stored without an error had its rows written, without an error, to a table of the
-- database that has every column of the data and the same primary keys; and `EnsureTable` had
-- returned that table.
pub store_table-Offers :
    (go : GoLibrary) (S : Storage) (f : ProcessedFile) (table : Table) (s : State S.backend)
    → exists table ≡ true
    → (store_table go S f table s).0 ≡ ok tt
    → (db : Table) × Offers db table
      × ((S.writer.bulk_insert f db (ensure_table S.backend S.name table s).1.world).0 ≡ ok tt)
unfolding store_table ensure_and
store_table-Offers go S f table s full stored =
    elim (Result-cases (ensure_table S.backend S.name table s).0) [
      | inr (e, failed) ↦ absurd (ground arith)
      | inl (db, ensured) ↦ (
        db,
        ensure_table-Offers S.backend S.name table db s full ensured,
        rw (store_table, ensure_and, ensured) at stored,
      )
    ]
