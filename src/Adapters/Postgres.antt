-- ===== src/Adapters/Postgres.antt =====
-- adapters/postgres.go: the calls of the adapter. The connection is made elsewhere.
pub mod Atomicity
pub mod Inserts
use eventnative.Base.{
  ℕ, Bool, true, false, not, ◌||◌, Option, none, some, List, [], ◌∷◌, ◌++◌, ◌==◌, text_eq, map,
  if◌then◌else◌,
}
use eventnative.Base.Action.{Action, done, then_do, wrap_error, for_each}
use eventnative.Base.Dict.{Dict, keys, lookup, insert}
use eventnative.Base.Result.{Result, ok, err}
use eventnative.Base.Text.{Text, codes, join}
use eventnative.Value.{Value, nothing, Object}
use eventnative.Value.Objects as Objects
use eventnative.Typing.{GoLibrary, DataType, type_from_string, data_type_eq}
use eventnative.Adapters.Table.{Columns, Table, is_nil, get_pk_fields}
use eventnative.Adapters.Statements.{
  Casts, remove_last_comma, insert_query, insert_parts, column_placeholders, sql_type_of,
  columns_ddl, create_table_query, add_column_query, add_primary_key_query, drop_primary_key_query,
  DeleteConditions, is_empty, to_delete_query, delete_query,
}
use eventnative.Adapters.Database.{
  Rows, row, unscannable, broken, no_more, Database, AdapterError, prepare_failed, exec_failed,
  query_failed, scan_failed, rows_failed, Step, in_transaction, run_statement,
}

-- `sort_strings` is `sort.Strings`.
pub record Postgres : Type 0 where
  pub schema_name : Text
  pub mapping_type_casts : Casts
  pub sort_strings : List Text → List Text

-- `reformatMappings`: the types of the program become the database's, all others stay.
unfoldable pub reformat_mappings : GoLibrary → Dict Text Text → Dict DataType Text → Casts → Casts
unfolding lookup insert type_from_string data_type_eq
reformat_mappings go [] db_types formatted = formatted
reformat_mappings go ((column, sql_type) ∷ others) db_types formatted =
    reformat_mappings go others db_types (
      insert column
        (elim (type_from_string go sql_type) [
          | none ↦ sql_type
          | some inner_type ↦ elim (lookup inner_type db_types) [
            | none ↦ []
            | some db_type ↦ db_type
          ]
        ])
        formatted)

-- The values of a row in the order of the header; a missing one is null.
unfoldable pub row_values : List Text → Object → List Value
unfolding Objects.lookup
row_values [] o = []
row_values (column ∷ header) o =
    elim (Objects.lookup column o) [ none ↦ nothing | some v ↦ v ] ∷ row_values header o

module _ (D : Database) (p : Postgres) where
  open p use {schema_name, mapping_type_casts, sort_strings}

  -- `createDbSchemaInTransaction`
  unfoldable pub create_db_schema : Text → Step D Unit
  unfolding in_transaction run_statement
  create_db_schema db_schema_name = in_transaction D (
      run_statement D (codes "CREATE SCHEMA IF NOT EXISTS \"" ++ (db_schema_name ++ codes "\"")) [])

  unfoldable pub create_primary_key : Table → Step D Unit
  unfolding run_statement is_nil get_pk_fields add_primary_key_query
  create_primary_key table =
      if is_nil table.pk_fields
      then done tt
      else run_statement D (add_primary_key_query schema_name table.name (get_pk_fields table)) []

  unfoldable pub delete_primary_key : Table → Step D Unit
  unfolding run_statement drop_primary_key_query
  delete_primary_key table = run_statement D (drop_primary_key_query schema_name table.name) []

  -- `CreateTable`
  unfoldable pub create_table_statements : Table → Step D Unit
  unfolding run_statement create_primary_key create_table_query columns_ddl
  create_table_statements table =
      then_do
        (run_statement D
          (create_table_query schema_name table.name
            (sort_strings (columns_ddl mapping_type_casts table.columns)))
          [])
        (λ _. create_primary_key table)

  unfoldable pub create_table : Table → Step D Unit
  unfolding in_transaction create_table_statements
  create_table table = in_transaction D (create_table_statements table)

  unfoldable pub add_column : Text → Text × Text → Step D Unit
  unfolding run_statement add_column_query sql_type_of
  add_column table_name (name, sql_type) =
      run_statement D
        (add_column_query schema_name table_name name
          (sql_type_of mapping_type_casts name sql_type))
        []

  -- `patchTableSchemaInTransaction`: columns, then the old primary key goes, then the new one comes.
  unfoldable pub patch_keys : Table → Step D Unit
  unfolding create_primary_key delete_primary_key is_nil
  patch_keys table =
      then_do
        (if not (is_nil table.pk_fields) || table.delete_pk_fields
          then delete_primary_key table
          else done tt)
        (λ _. create_primary_key table)

  unfoldable pub patch_statements : Table → Step D Unit
  unfolding add_column patch_keys
  patch_statements table =
      then_do (for_each (add_column table.name) table.columns) (λ _. patch_keys table)

  unfoldable pub patch_table_schema : Table → Step D Unit
  unfolding in_transaction patch_statements
  patch_table_schema table = in_transaction D (patch_statements table)

  -- `Insert`
  unfoldable pub insert_statement : Table → Object → Text
  unfolding insert_parts remove_last_comma insert_query get_pk_fields
  insert_statement table values_map =
      let (header, placeholders, _) = insert_parts mapping_type_casts 1 values_map in
      insert_query schema_name (get_pk_fields table) table.name (remove_last_comma header)
        (remove_last_comma placeholders)

  unfoldable pub insert_object : Table → Object → Step D Unit
  unfolding in_transaction run_statement insert_statement insert_parts
  insert_object table values_map = in_transaction D (
      run_statement D (insert_statement table values_map)
        (insert_parts mapping_type_casts 1 values_map).2)

  -- `insertInTransaction`: one statement is prepared, and executed for every object.
  unfoldable pub bulk_statement : Table → Text
  unfolding column_placeholders remove_last_comma insert_query get_pk_fields keys join
  bulk_statement table =
      insert_query schema_name (get_pk_fields table) table.name
        (join (keys table.columns) (codes ","))
        (remove_last_comma (column_placeholders mapping_type_casts 1 table.columns))

  unfoldable pub insert_all : Table → List Object → Step D Unit
  unfolding bulk_statement row_values keys
  insert_all table objects =
      then_do (wrap_error prepare_failed (D.prepare (bulk_statement table))) (λ _.
        for_each
          (λ o.
            wrap_error exec_failed
              (D.exec_prepared (bulk_statement table) (row_values (keys table.columns) o)))
          objects)

  unfoldable pub bulk_insert : Table → List Object → Step D Unit
  unfolding in_transaction insert_all
  bulk_insert table objects = in_transaction D (insert_all table objects)

  -- `deleteInTransaction`
  unfoldable pub delete_rows : Table → DeleteConditions → Step D Unit
  unfolding run_statement to_delete_query delete_query
  delete_rows table conditions =
      let (condition, values) = to_delete_query mapping_type_casts conditions in
      run_statement D (delete_query schema_name table.name condition) values

  unfoldable pub bulk_update_statements : Table → List Object → DeleteConditions → Step D Unit
  unfolding delete_rows is_empty insert_all
  bulk_update_statements table objects conditions =
      then_do (if is_empty conditions then done tt else delete_rows table conditions)
        (λ _. insert_all table objects)

  unfoldable pub bulk_update : Table → List Object → DeleteConditions → Step D Unit
  unfolding in_transaction bulk_update_statements
  bulk_update table objects conditions =
      in_transaction D (bulk_update_statements table objects conditions)

  -- The loop of `getTable`; a dropped column has the type `-`.
  unfoldable pub read_columns : Rows (Text × Text) → Columns → Result AdapterError Columns
  unfolding insert
  read_columns no_more columns = ok columns
  read_columns (broken e) columns = err (rows_failed e)
  read_columns (unscannable e) columns = err (scan_failed e)
  read_columns (row (name, sql_type) rows) columns =
      read_columns rows (if sql_type == codes "-" then columns else insert name sql_type columns)

  unfoldable pub read_fields : Rows Text → Dict Text Bool → Result AdapterError (Dict Text Bool)
  unfolding insert
  read_fields no_more fields = ok fields
  read_fields (broken e) fields = err (rows_failed e)
  read_fields (unscannable e) fields = err (scan_failed e)
  read_fields (row name rows) fields = read_fields rows (insert name true fields)

  -- The queries of the system's tables are not modelled as texts.
  unfoldable pub get_table : Text → Text → Step D Columns
  unfolding read_columns
  get_table table_schema_query table_name =
      then_do
        (wrap_error query_failed (D.query_pairs table_schema_query (schema_name ∷ table_name ∷ [])))
        (λ rows w. (read_columns rows [], w))

  unfoldable pub with_columns : Text → Columns → Dict Text Bool → Table
  with_columns table_name columns pk_fields = record {
    name = table_name;
    columns = columns;
    pk_fields = pk_fields;
    delete_pk_fields = false;
    version = 0;
  }

  -- `GetTableSchema`
  unfoldable pub get_table_schema : Text → Text → Text → Step D Table
  unfolding get_table is_nil read_fields with_columns
  get_table_schema table_schema_query primary_key_query table_name =
      then_do (get_table table_schema_query table_name) (λ columns.
        if is_nil columns
        then done (with_columns table_name columns [])
        else then_do
            (wrap_error query_failed (
              D.query_texts primary_key_query
                ((schema_name ++ (codes "." ++ table_name)) ∷ schema_name ∷ [])))
            (λ rows w. (
              elim (read_fields rows []) [
                | err e ↦ err e
                | ok fields ↦ ok (with_columns table_name columns fields)
              ],
              w,
            )))
