-- ===== src/Storages/TableHelper.antt =====
-- storages/table_helper.go: the table schemas kept in memory, and how they follow the data and the
-- database. The database (`adapters.TableManager`) and the cluster's locks and versions
-- (`MonitorKeeper`) are interfaces.
pub mod Locks
pub mod Schema
use eventnative.Base.{
  ℕ, Bool, true, false, not, ◌&&◌, Option, none, some, List, [], ◌∷◌, ◌==◌, nat_eq, text_eq,
  if◌then◌else◌,
}
use eventnative.Base.Dict.{Dict, lookup, insert}
use eventnative.Base.Result.{Result, ok, err}
use eventnative.Base.Text.{Text}
use eventnative.Typing.{DataType, data_type_eq}
use eventnative.Schema.BatchHeader.{Fields, BatchHeader, get_type}
use eventnative.Adapters.Table.{Columns, Table, is_nil, exists, diff}

pub data EnsureError : Type 0 where
  lock_failed schema_failed create_failed version_failed patch_failed increment_failed : EnsureError

abbrev pub Tables : Type 0
Tables = Dict Text Table

-- The interfaces, over a world. While a lock is waited for, other goroutines may change the tables
-- that are kept in memory.
pub record Backend : Type 1 where
  pub World : Type 0
  pub lock : Text → Text → World → Tables → World × Tables × Bool
  pub unlock : Text → Text → World → World
  pub get_table_schema : Text → World → World × Option Table
  pub create_table : Table → World → World × Bool
  pub patch_table_schema : Table → World → World × Bool
  pub get_version : Text → Text → World → World × Option ℕ
  pub increment_version : Text → Text → World → World × Option ℕ

-- `MapTableSchema`: a field whose type has no sql type is left out.
unfoldable pub map_columns : Dict DataType Text → Fields → Columns → Columns
unfolding lookup insert get_type data_type_eq
map_columns types [] columns = columns
map_columns types ((name, field) ∷ fields) columns =
    map_columns types fields (elim (lookup (get_type field) types) [
      | none ↦ columns
      | some sql_type ↦ insert name sql_type columns
    ])

unfoldable pub map_table_schema : Dict DataType Text → Dict Text Bool → BatchHeader → Table
unfolding map_columns
map_table_schema types pk_fields bh = record {
  name = bh.table_name;
  columns = map_columns types bh.fields [];
  pk_fields = pk_fields;
  delete_pk_fields = false;
  version = 0;
}

-- The loop over the columns of the difference.
unfoldable pub add_columns : Columns → Columns → Columns
unfolding insert
add_columns columns [] = columns
add_columns columns ((k, v) ∷ others) = add_columns (insert k v columns) others

-- What `EnsureTable` saves once the database is patched.
unfoldable pub save : Table → Table → ℕ → Table
unfolding add_columns is_nil
save db change new_version = record db {
  columns = add_columns db.columns change.columns;
  pk_fields =
      if change.delete_pk_fields
      then []
      else if is_nil change.pk_fields
      then db.pk_fields
      else change.pk_fields;
  version = new_version;
}

module _ (B : Backend) where
  open B use {
    World, lock, unlock, get_table_schema, create_table, patch_table_schema, get_version,
    increment_version,
  }

  pub record State : Type 0 where
    pub world : World
    pub tables : Tables

  abbrev pub M : Type 0
  M = State → Result EnsureError Table × State

  -- `Lock`, then the rest, with the deferred `Unlock`.
  unfoldable pub with_lock : Text → Text → M → M
  with_lock destination name body s =
      let (w, tables, locked) = lock destination name s.world s.tables in
      let (r, s') = body (record { world = w; tables = tables }) in
      if locked
      then (r, record s' { world = unlock destination name s'.world })
      else (err lock_failed, record { world = w; tables = tables })

  -- A table that does not exist is created, at a new version.
  unfoldable pub create_new : Text → Table → Table → M
  create_new destination data_schema db s =
      let (w, created) = create_table data_schema s.world in
      let (w', version) = increment_version destination data_schema.name w in
      if created
      then elim version [
        | none ↦ (err increment_failed, record s { world = w' })
        | some ver ↦ (
          ok (record db {
            name = data_schema.name;
            columns = data_schema.columns;
            version = ver;
            pk_fields = data_schema.pk_fields;
          }),
          record s { world = w' },
        )
      ]
      else (err create_failed, record s { world = w })

  unfoldable pub read_version : Text → Table → M
  read_version destination db s =
      let (w, version) = get_version destination db.name s.world in
      elim version [
        | none ↦ (err version_failed, record s { world = w })
        | some ver ↦ (ok (record db { version = ver }), record s { world = w })
      ]

  unfoldable pub get_or_create_locked : Text → Table → M
  unfolding exists create_new read_version
  get_or_create_locked destination data_schema s =
      let (w, found) = get_table_schema data_schema.name s.world in
      elim found [
        | none ↦ (err schema_failed, record s { world = w })
        | some db ↦
            if exists db
            then read_version destination db (record s { world = w })
            else create_new destination data_schema db (record s { world = w })
      ]

  -- `getOrCreate`
  unfoldable pub get_or_create : Text → Table → M
  unfolding with_lock get_or_create_locked
  get_or_create destination data_schema =
      with_lock destination data_schema.name (get_or_create_locked destination data_schema)

  abbrev pub remember : Table → State → State
  remember t s = record s { tables = insert t.name t s.tables }

  -- `RefreshTableSchema`
  unfoldable pub refresh_table_schema : Text → Table → M
  unfolding get_or_create insert
  refresh_table_schema destination data_schema s =
      let (r, s') = get_or_create destination data_schema s in
      elim r [ err e ↦ (err e, s') | ok t ↦ (ok t, remember t s') ]

  -- The patch, and what is saved of it. The table of the memory is saved in place; one that was just
  -- read from the database is not put into the memory.
  unfoldable pub patch : Text → Bool → Table → Table → M
  unfolding save insert
  patch destination in_memory db change s =
      let (w, patched) = patch_table_schema change s.world in
      let (w', version) = increment_version destination change.name w in
      if patched
      then elim version [
        | none ↦ (err increment_failed, record s { world = w' })
        | some ver ↦
            let saved = save db change ver in
            (
              ok saved,
              if in_memory
                  then remember saved (record s { world = w' })
                  else record s { world = w' },
            )
      ]
      else (err patch_failed, record s { world = w })

  unfoldable pub patch_if_different : Text → Bool → Table → Table → M
  unfolding exists diff patch
  patch_if_different destination in_memory db data_schema s =
      if exists (diff db data_schema)
      then patch destination in_memory db (diff db data_schema) s
      else (ok db, s)

  -- Behind the version: a table that another node has changed is read again.
  unfoldable pub follow_version : Text → Table → Table → ℕ → M
  unfolding patch_if_different
  follow_version destination db data_schema ver s =
      let (w, found) = get_table_schema db.name s.world in
      if ver == db.version
      then patch_if_different destination true db data_schema s
      else elim found [
        | none ↦ (err schema_failed, record s { world = w })
        | some fresh ↦
            patch_if_different destination false (record fresh { version = ver }) data_schema
              (record s { world = w })
      ]

  -- The table of the memory, which others may have changed during the wait. It is read by its name;
  -- in Go it is the pointer from before the wait, which differs where another goroutine has put a
  -- freshly read table in its place.
  abbrev pub current : Table → State → Table
  current db s = elim (lookup db.name s.tables) [ none ↦ db | some t ↦ t ]

  unfoldable pub ensure_locked : Text → Table → Table → M
  unfolding exists diff lookup follow_version
  ensure_locked destination db0 data_schema s =
      let db = current db0 s in
      let (w, version) = get_version destination db.name s.world in
      if exists (diff db data_schema)
      then elim version [
        | none ↦ (err version_failed, record s { world = w })
        | some ver ↦ follow_version destination db data_schema ver (record s { world = w })
      ]
      else (ok db, s)

  -- `EnsureTable` once the table is known.
  unfoldable pub ensure_known : Text → Table → Table → M
  unfolding with_lock ensure_locked exists diff
  ensure_known destination db data_schema s =
      let locked = with_lock destination db.name (ensure_locked destination db data_schema) s in
      if exists (diff db data_schema) then locked else (ok db, s)

  -- `EnsureTable`
  unfoldable pub ensure_table : Text → Table → M
  unfolding lookup refresh_table_schema ensure_known
  ensure_table destination data_schema s = elim (lookup data_schema.name s.tables) [
    | some db ↦ ensure_known destination db data_schema s
    | none ↦
        let (r, s') = refresh_table_schema destination data_schema s in
        elim r [ err e ↦ (err e, s') | ok db ↦ ensure_known destination db data_schema s' ]
  ]
