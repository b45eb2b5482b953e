-- ===== src/Adapters/Calls.antt =====
-- The writing calls of the adapters of Postgres, Redshift and Snowflake, one after the other.
use eventnative.Base.{◌≡◌, ◌++◌, refl, ◌∙◌, List, [], ◌∷◌}
use eventnative.Base.Action.{Keeps, wrap_error, for_each, for_each-Keeps, wrap_error-Keeps}
use eventnative.Base.Result.{err}
use eventnative.Base.Text.{Text, codes, join}
use eventnative.Value.{Object}
use eventnative.Adapters.Table.{Table}
use eventnative.Adapters.Database.{
  Database, AdapterError, exec_failed, Step, run_statement, in_transaction,
}
use eventnative.Adapters.Database.Laws.{
  Quiet, TxLaws, StoredLaws, run_statement-Keeps, exec-Keeps, in_transaction_open,
  in_transaction-Atomic, stored-Quiet, run_statement_stored,
}
use eventnative.Adapters.Postgres.{Postgres}
use eventnative.Adapters.Postgres.Atomicity.{
  Call, perform, statements_of, perform-in_transaction, statements_of-Keeps,
}
use eventnative.Adapters.Redshift as Redshift
use eventnative.Adapters.Redshift.{AwsRedshift}
use eventnative.Adapters.Snowflake as Snowflake
use eventnative.Adapters.Snowflake.{Snowflake}

-- The other calls of Redshift are those of Postgres.
pub data Write : Type 0 where
  by_postgres : Postgres → Call → Write
  by_redshift : AwsRedshift → Call → Write
  redshift_copy : AwsRedshift → Text → Text → Write
  snowflake_create_db_schema : Snowflake → Text → Write
  snowflake_create_table snowflake_patch : Snowflake → Table → Write
  snowflake_insert : Snowflake → Table → Object → Write
  snowflake_copy : Snowflake → Text → Text → List Text → Write

module _ (D : Database) where
  unfoldable pub carry_out : Write → Step D Unit
  unfolding perform Redshift.copy Snowflake.create_db_schema Snowflake.create_table
      Snowflake.patch_table_schema Snowflake.insert_object Snowflake.copy
  carry_out (by_postgres p c) = perform D p c
  carry_out (by_redshift ar c) = perform D ar.data_source_proxy c
  carry_out (redshift_copy ar file_key table_name) = Redshift.copy D ar file_key table_name
  carry_out (snowflake_create_db_schema sf name) = Snowflake.create_db_schema D sf name
  carry_out (snowflake_create_table sf table) = Snowflake.create_table D sf table
  carry_out (snowflake_patch sf table) = Snowflake.patch_table_schema D sf table
  carry_out (snowflake_insert sf table o) = Snowflake.insert_object D sf table o
  carry_out (snowflake_copy sf file_name table_name header) =
      Snowflake.copy D sf file_name table_name header

  -- An error does not stop the calls behind it.
  unfoldable pub carry_out_all : List Write → D.World → D.World
  unfolding carry_out
  carry_out_all [] w = w
  carry_out_all (c ∷ cs) w = carry_out_all cs (carry_out c w).1

module _ (D : Database) where
  -- What a call does inside its transaction.
  abbrev inside : Write → Step D Unit
  inside (by_postgres p c) = statements_of D p c
  inside (by_redshift ar c) = statements_of D ar.data_source_proxy c
  inside (redshift_copy ar file_key table_name) =
      wrap_error exec_failed (D.exec (Redshift.copy_statement ar file_key table_name))
  inside (snowflake_create_db_schema sf name) =
      run_statement D (codes "CREATE SCHEMA IF NOT EXISTS " ++ name) []
  inside (snowflake_create_table sf table) =
      run_statement D
        (codes "CREATE TABLE "
          ++ (Snowflake.dotted_name sf table.name
              ++ (codes " ("
                  ++ (join
                        (sf.sort_strings
                          (Snowflake.columns_ddl sf.mapping_type_casts table.columns))
                        (codes ",")
                      ++ codes ")"))))
        []
  inside (snowflake_patch sf table) = for_each (Snowflake.add_column D sf table.name) table.columns
  inside (snowflake_insert sf table o) =
      run_statement D (Snowflake.insert_statement D sf table o)
        (Snowflake.insert_parts sf.mapping_type_casts o).2
  inside (snowflake_copy sf file_name table_name header) =
      wrap_error exec_failed (D.exec (Snowflake.copy_statement sf file_name table_name header))

  carry_out-in_transaction : (c : Write) → carry_out D c ≡ in_transaction D (inside c)
  unfolding carry_out Redshift.copy Snowflake.create_db_schema Snowflake.create_table
      Snowflake.patch_table_schema Snowflake.insert_object Snowflake.copy
  carry_out-in_transaction (by_postgres p c) = perform-in_transaction D p c
  carry_out-in_transaction (by_redshift ar c) = perform-in_transaction D ar.data_source_proxy c
  carry_out-in_transaction (redshift_copy ar file_key table_name) = refl
  carry_out-in_transaction (snowflake_create_db_schema sf name) = refl
  carry_out-in_transaction (snowflake_create_table sf table) = refl
  carry_out-in_transaction (snowflake_patch sf table) = refl
  carry_out-in_transaction (snowflake_insert sf table o) = refl
  carry_out-in_transaction (snowflake_copy sf file_name table_name header) = refl

module _ {ℓ} (D : Database) {X : Type ℓ} (m : D.World → X) (Q : Quiet D m) where
  inside-Keeps : (c : Write) → Keeps m (inside D c)
  unfolding Snowflake.add_column
  inside-Keeps (by_postgres p c) = statements_of-Keeps D m Q p c
  inside-Keeps (by_redshift ar c) = statements_of-Keeps D m Q ar.data_source_proxy c
  inside-Keeps (redshift_copy ar file_key table_name) = exec-Keeps D m Q _
  inside-Keeps (snowflake_create_db_schema sf name) = run_statement-Keeps D m Q _ _
  inside-Keeps (snowflake_create_table sf table) = run_statement-Keeps D m Q _ _
  inside-Keeps (snowflake_patch sf table) =
      for_each-Keeps m (Snowflake.add_column D sf table.name) table.columns
        (λ (name, sql_type). run_statement-Keeps D m Q _ _)
  inside-Keeps (snowflake_insert sf table o) = run_statement-Keeps D m Q _ _
  inside-Keeps (snowflake_copy sf file_name table_name header) = exec-Keeps D m Q _

module _ (D : Database) (L : TxLaws D) where
  carry_out_open : (c : Write) → Keeps L.open_count (carry_out D c)
  carry_out_open c w =
      rw (carry_out-in_transaction D c)
        (in_transaction_open D L (inside D c) (inside-Keeps D L.open_count L.open_quiet c) w)

  -- Where a begin that succeeds opens a transaction, a commit and a rollback end one, and nothing else
  -- changes their number: behind any sequence of writing calls of the adapters, those that fail among
  -- them, as many transactions are open as before it.
  pub carry_out_all_open :
      (cs : List Write) (w : D.World) → L.open_count (carry_out_all D cs w) ≡ L.open_count w
  unfolding carry_out_all
  carry_out_all_open [] w = refl
  carry_out_all_open (c ∷ cs) w = carry_out_all_open cs (carry_out D c w).1 ∙ carry_out_open c w

module _ (D : Database) (H : StoredLaws D) where
  -- The statements of a call wait for the commit. Those of Snowflake that define tables never do.
  abbrev pub WaitsForCommit : Write → Type 0
  WaitsForCommit (by_postgres p c) = (q : Text) → H.Waits q
  WaitsForCommit (by_redshift ar c) = (q : Text) → H.Waits q
  WaitsForCommit (redshift_copy ar file_key table_name) =
      H.Waits (Redshift.copy_statement ar file_key table_name)
  WaitsForCommit (snowflake_create_db_schema sf name) = ⊥
  WaitsForCommit (snowflake_create_table sf table) = ⊥
  WaitsForCommit (snowflake_patch sf table) = ⊥
  WaitsForCommit (snowflake_insert sf table o) = H.Waits (Snowflake.insert_statement D sf table o)
  WaitsForCommit (snowflake_copy sf file_name table_name header) =
      H.Waits (Snowflake.copy_statement sf file_name table_name header)

  inside-stored : (c : Write) → WaitsForCommit c → Keeps H.stored (inside D c)
  inside-stored (by_postgres p c) waits =
      statements_of-Keeps D H.stored (stored-Quiet D H waits) p c
  inside-stored (by_redshift ar c) waits =
      statements_of-Keeps D H.stored (stored-Quiet D H waits) ar.data_source_proxy c
  inside-stored (redshift_copy ar file_key table_name) waits =
      wrap_error-Keeps H.stored exec_failed
        (D.exec (Redshift.copy_statement ar file_key table_name)) (H.exec_stored _ waits)
  inside-stored (snowflake_create_db_schema sf name) waits = absurd waits
  inside-stored (snowflake_create_table sf table) waits = absurd waits
  inside-stored (snowflake_patch sf table) waits = absurd waits
  inside-stored (snowflake_insert sf table o) waits = run_statement_stored D H _ _ waits
  inside-stored (snowflake_copy sf file_name table_name header) waits =
      wrap_error-Keeps H.stored exec_failed
        (D.exec (Snowflake.copy_statement sf file_name table_name header)) (H.exec_stored _ waits)

  -- In a database where only a commit without an error, and statements that do not wait for one, store
  -- anything: a writing call of an adapter whose statements wait for the commit has stored nothing
  -- when it returns an error, whichever of its statements failed. For Postgres and Redshift, where
  -- all statements wait, neither the deletion of an update stays without the rows, nor one column of
  -- a patch without the others. Of Snowflake's calls those that define schemas and tables are left
  -- out, since it commits such a statement by itself.
  pub carry_out_err_stored :
      (c : Write) (w : D.World) (e : AdapterError)
      → WaitsForCommit c
      → (carry_out D c w).0 ≡ err e
      → H.stored (carry_out D c w).1 ≡ H.stored w
  carry_out_err_stored c w e waits =
      rw (carry_out-in_transaction D c)
        (in_transaction-Atomic D H (inside D c) (inside-stored c waits) w e)
