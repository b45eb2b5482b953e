-- ===== src/Adapters/Redshift.antt =====
-- adapters/aws_redshift.go: Redshift is driven by the adapter of Postgres, and copies files from S3.
use eventnative.Base.{[], ◌++◌, ◌==◌, text_eq, if◌then◌else◌}
use eventnative.Base.Action.{wrap_error, then_do}
use eventnative.Base.Result.{ok}
use eventnative.Base.Text.{Text, codes}
use eventnative.Value.{Object}
use eventnative.Adapters.Table.{Table}
use eventnative.Adapters.Statements.{quoted_name}
use eventnative.Adapters.Database.{Database, exec_failed, Step, in_transaction}
use eventnative.Adapters.Postgres as Postgres
use eventnative.Adapters.Postgres.{Postgres}

-- `S3Config` of adapters/s3.go, as far as it is read here.
pub record S3Config : Type 0 where
  pub access_key_id : Text
  pub secret_key : Text
  pub bucket : Text
  pub region : Text
  pub folder : Text

pub record AwsRedshift : Type 0 where
  pub data_source_proxy : Postgres
  pub s3_config : S3Config

-- The folder, if one is configured, stands before the key.
unfoldable pub with_folder : S3Config → Text → Text
with_folder s3 file_key = if s3.folder == [] then file_key else s3.folder ++ (codes "/" ++ file_key)

-- `copyTemplate`
unfoldable pub copy_statement : AwsRedshift → Text → Text → Text
unfolding quoted_name with_folder
copy_statement ar file_key table_name =
    let s3 = ar.s3_config in
    codes "copy "
    ++ (quoted_name ar.data_source_proxy.schema_name table_name
        ++ (codes "\n\t\t\t\t\tfrom 's3://"
            ++ (s3.bucket
                ++ (codes "/"
                    ++ (with_folder s3 file_key
                        ++ (codes "'\n    \t\t\t\tACCESS_KEY_ID '"
                            ++ (s3.access_key_id
                                ++ (codes "'\n    \t\t\t\tSECRET_ACCESS_KEY '"
                                    ++ (s3.secret_key
                                        ++ (codes "'\n    \t\t\t\tregion '"
                                            ++ (s3.region
                                                ++ codes
                                                    "'\n    \t\t\t\tjson 'auto'\n                    dateformat 'auto'\n                    timeformat 'auto'")))))))))))

module _ (D : Database) (ar : AwsRedshift) where
  -- `Copy`: the statement is executed without being prepared.
  unfoldable pub copy : Text → Text → Step D Unit
  unfolding in_transaction copy_statement
  copy file_key table_name =
      in_transaction D (wrap_error exec_failed (D.exec (copy_statement ar file_key table_name)))

  unfoldable pub create_db_schema : Text → Step D Unit
  unfolding Postgres.create_db_schema
  create_db_schema = Postgres.create_db_schema D ar.data_source_proxy

  unfoldable pub create_table : Table → Step D Unit
  unfolding Postgres.create_table
  create_table = Postgres.create_table D ar.data_source_proxy

  unfoldable pub patch_table_schema : Table → Step D Unit
  unfolding Postgres.patch_table_schema
  patch_table_schema = Postgres.patch_table_schema D ar.data_source_proxy

  unfoldable pub insert_object : Table → Object → Step D Unit
  unfolding Postgres.insert_object
  insert_object = Postgres.insert_object D ar.data_source_proxy

  -- `GetTableSchema`: primary keys are not read.
  unfoldable pub get_table_schema : Text → Text → Step D Table
  unfolding Postgres.get_table Postgres.with_columns
  get_table_schema table_schema_query table_name =
      then_do (Postgres.get_table D ar.data_source_proxy table_schema_query table_name)
        (λ columns w. (ok (Postgres.with_columns D ar.data_source_proxy table_name columns []), w))
