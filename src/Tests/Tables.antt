-- ===== src/Tests/Tables.antt =====
-- Table schemas and their patches (adapters/table.go, storages/table_helper.go), run.
use eventnative.Base.{
  List, ◌++◌, ℕ, ◌+◌, ◌-◌, ◌≡◌, refl, true, false, some, [], ◌∷◌, text_eq, nat_eq,
}
use eventnative.Base.Dict.{lookup, insert}
use eventnative.Base.Result.{Result, ok, err}
use eventnative.Base.Text.{codes}
use eventnative.Adapters.Table.{
  Table, exists, diff, no_change, new_columns, same_keys, includes, is_nil,
}
use eventnative.Adapters.Table.Laws.{Offers}
use eventnative.Storages.TableHelper.{EnsureError, Backend, State, ensure_table}
use eventnative.Storages.TableHelper.Schema.{ensure_table-Offers}
use eventnative.Storages.TableHelper.Locks.{LockCall, Paired, watched, ensure_table-Paired}

abbrev stored : Table
stored = record (no_change (codes "events")) { columns = (codes "a", codes "text") ∷ [] }

abbrev wanted : Table
wanted = record (no_change (codes "events")) {
  columns = (codes "a", codes "text") ∷ (codes "b", codes "bigint") ∷ [];
}

-- A node that counts the locks it holds, over a database that has one column of the table.
abbrev pub backend : Backend
backend = record {
  World = ℕ;
  lock = λ d n w ts. (w + 1, ts, true);
  unlock = λ d n w. w - 1;
  get_table_schema = λ n w. (w, some stored);
  create_table = λ t w. (w, true);
  patch_table_schema = λ t w. (w, true);
  get_version = λ d n w. (w, some 1);
  increment_version = λ d n w. (w, some 2);
}

abbrev pub start : State backend
start = record { world = 0; tables = [] }

abbrev table_of : Result EnsureError Table → Table
table_of (ok t) = t
table_of (err e) = no_change []

ensured :
    (ensure_table backend (codes "db") wanted start).0
    ≡ ok (table_of (ensure_table backend (codes "db") wanted start).0)
unfolding ensure_table insert lookup text_eq exists diff new_columns same_keys includes is_nil
    nat_eq
ensured = refl

ensure_table-Offers_example :
    Offers (table_of (ensure_table backend (codes "db") wanted start).0) wanted
unfolding exists
ensure_table-Offers_example =
    ensure_table-Offers backend (codes "db") wanted
      (table_of (ensure_table backend (codes "db") wanted start).0) start refl ensured

abbrev watched_start : State (watched backend)
watched_start = record { world = (0, []); tables = [] }

ensure_table-Paired_example :
    (calls : List LockCall) × ((ensure_table
        (watched backend)
        (codes "db")
        wanted
        watched_start).1.world.1
      ≡ watched_start.world.1 ++ calls)
    × Paired calls
ensure_table-Paired_example = ensure_table-Paired backend (codes "db") wanted watched_start

nothing_new : exists (diff wanted stored) ≡ false
unfolding exists diff new_columns same_keys includes is_nil lookup text_eq
nothing_new = refl
