-- ===== src/Adapters/Postgres/Atomicity.antt =====
-- What the adapter's calls do to transactions, whatever the database answers.
use eventnative.Base.{
  ◌≡◌, ◌++◌, text_eq, refl, Bool, true, false, not, ◌||◌, List, [], if◌then◌else◌,
}
use eventnative.Base.Action.{Keeps, done, wrap_error, for_each, then_do-Keeps, for_each-Keeps}
use eventnative.Base.Dict.{keys}
use eventnative.Base.Text.{Text, codes}
use eventnative.Value.{Value, Object}
use eventnative.Adapters.Table.{Table, is_nil}
use eventnative.Adapters.Statements.{DeleteConditions, is_empty, insert_parts}
use eventnative.Adapters.Database.{
  Database, prepare_failed, exec_failed, Step, run_statement, in_transaction,
}
use eventnative.Adapters.Database.Laws.{
  Quiet, prepare_failed-Keeps, exec_prepared-Keeps, run_statement-Keeps,
}
use eventnative.Adapters.Postgres.{
  Postgres, row_values, create_db_schema, create_primary_key, delete_primary_key,
  create_table_statements, create_table, add_column, patch_keys, patch_statements,
  patch_table_schema, insert_statement, insert_object, bulk_statement, insert_all, bulk_insert,
  delete_rows, bulk_update_statements, bulk_update,
}

-- The calls of the adapter that write.
pub data Call : Type 0 where
  create_db_schema_call : Text → Call
  create_table_call patch_call : Table → Call
  insert_call : Table → Object → Call
  bulk_insert_call : Table → List Object → Call
  bulk_update_call : Table → List Object → DeleteConditions → Call

module _ (D : Database) (p : Postgres) where
  unfoldable pub perform : Call → Step D Unit
  perform (create_db_schema_call name) = create_db_schema D p name
  perform (create_table_call table) = create_table D p table
  perform (patch_call table) = patch_table_schema D p table
  perform (insert_call table o) = insert_object D p table o
  perform (bulk_insert_call table objects) = bulk_insert D p table objects
  perform (bulk_update_call table objects conditions) = bulk_update D p table objects conditions

-- What a call does inside its transaction.
module _ (D : Database) (p : Postgres) where
  abbrev pub statements_of : Call → Step D Unit
  statements_of (create_db_schema_call name) =
      run_statement D (codes "CREATE SCHEMA IF NOT EXISTS \"" ++ (name ++ codes "\"")) []
  statements_of (create_table_call table) = create_table_statements D p table
  statements_of (patch_call table) = patch_statements D p table
  statements_of (insert_call table o) =
      run_statement D (insert_statement D p table o) (insert_parts p.mapping_type_casts 1 o).2
  statements_of (bulk_insert_call table objects) = insert_all D p table objects
  statements_of (bulk_update_call table objects conditions) =
      bulk_update_statements D p table objects conditions

  pub perform-in_transaction : (c : Call) → perform D p c ≡ in_transaction D (statements_of c)
  unfolding perform create_db_schema create_table patch_table_schema insert_object bulk_insert
      bulk_update
  perform-in_transaction (create_db_schema_call name) = refl
  perform-in_transaction (create_table_call table) = refl
  perform-in_transaction (patch_call table) = refl
  perform-in_transaction (insert_call table o) = refl
  perform-in_transaction (bulk_insert_call table objects) = refl
  perform-in_transaction (bulk_update_call table objects conditions) = refl

if-Keeps {ℓ} :
    (D : Database) {X : Type ℓ} (m : D.World → X) (b : Bool) (x y : Step D Unit)
    → Keeps m x
    → Keeps m y
    → Keeps m (if b then x else y)
if-Keeps D m true x y hx hy = hx
if-Keeps D m false x y hx hy = hy

module _ {ℓ} (D : Database) {X : Type ℓ} (m : D.World → X) (Q : Quiet D m) (p : Postgres) where
  create_primary_key-Keeps : (table : Table) → Keeps m (create_primary_key D p table)
  unfolding create_primary_key
  create_primary_key-Keeps table =
      if-Keeps D m (is_nil table.pk_fields) (done tt) _ (λ w. refl) (run_statement-Keeps D m Q _ [])

  create_table_statements-Keeps : (table : Table) → Keeps m (create_table_statements D p table)
  unfolding create_table_statements
  create_table_statements-Keeps table =
      then_do-Keeps m _ (λ _. create_primary_key D p table) (run_statement-Keeps D m Q _ [])
        (λ _. create_primary_key-Keeps table)

  patch_keys-Keeps : (table : Table) → Keeps m (patch_keys D p table)
  unfolding patch_keys delete_primary_key
  patch_keys-Keeps table =
      then_do-Keeps m
        (if not (is_nil table.pk_fields) || table.delete_pk_fields
          then delete_primary_key D p table
          else done tt)
        (λ _. create_primary_key D p table)
        (if-Keeps D m (not (is_nil table.pk_fields) || table.delete_pk_fields)
          (delete_primary_key D p table) (done tt) (run_statement-Keeps D m Q _ []) (λ w. refl))
        (λ _. create_primary_key-Keeps table)

  patch_statements-Keeps : (table : Table) → Keeps m (patch_statements D p table)
  unfolding patch_statements add_column
  patch_statements-Keeps table =
      then_do-Keeps m (for_each (add_column D p table.name) table.columns)
        (λ _. patch_keys D p table)
        (for_each-Keeps m (add_column D p table.name) table.columns
          (λ (name, sql_type). run_statement-Keeps D m Q _ []))
        (λ _. patch_keys-Keeps table)

  insert_all-Keeps :
      (table : Table) (objects : List Object) → Keeps m (insert_all D p table objects)
  unfolding insert_all
  insert_all-Keeps table objects =
      let q = bulk_statement D p table in
      let values_of : Object → List Value = λ o. row_values (keys table.columns) o in
      then_do-Keeps m (wrap_error prepare_failed (D.prepare q))
        (λ _. for_each (λ o. wrap_error exec_failed (D.exec_prepared q (values_of o))) objects)
        (prepare_failed-Keeps D m Q q)
        (λ _.
          for_each-Keeps m (λ o. wrap_error exec_failed (D.exec_prepared q (values_of o))) objects
            (λ o. exec_prepared-Keeps D m Q q (values_of o)))

  bulk_update_statements-Keeps :
      (table : Table) (objects : List Object) (conditions : DeleteConditions)
      → Keeps m (bulk_update_statements D p table objects conditions)
  unfolding bulk_update_statements delete_rows
  bulk_update_statements-Keeps table objects conditions =
      then_do-Keeps m (if is_empty conditions then done tt else delete_rows D p table conditions)
        (λ _. insert_all D p table objects)
        (if-Keeps D m (is_empty conditions) (done tt) (delete_rows D p table conditions) (λ w. refl)
          (run_statement-Keeps D m Q _ _))
        (λ _. insert_all-Keeps table objects)

  pub statements_of-Keeps : (c : Call) → Keeps m (statements_of D p c)
  statements_of-Keeps (create_db_schema_call name) = run_statement-Keeps D m Q _ []
  statements_of-Keeps (create_table_call table) = create_table_statements-Keeps table
  statements_of-Keeps (patch_call table) = patch_statements-Keeps table
  statements_of-Keeps (insert_call table o) = run_statement-Keeps D m Q _ _
  statements_of-Keeps (bulk_insert_call table objects) = insert_all-Keeps table objects
  statements_of-Keeps (bulk_update_call table objects conditions) =
      bulk_update_statements-Keeps table objects conditions
