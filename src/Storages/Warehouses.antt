-- ===== src/Storages/Warehouses.antt =====
-- The storages of Postgres, Redshift and Snowflake (storages/postgres.go, storages/redshift.go,
-- storages/snowflake.go): their adapters in the places of the interfaces that the storages take. S3
-- and Google Cloud Storage (`Stage`) and the cluster's locks and versions (`Monitor`) stay interfaces
-- over the database's world.
use eventnative.Base.{ℕ, Bool, true, false, Option, none, some, [], ◌∷◌}
use eventnative.Base.Action.{Effect, then_do, wrap_error}
use eventnative.Base.Dict.{Dict}
use eventnative.Base.Result.{Result, ok, err}
use eventnative.Base.Text.{Text, codes}
use eventnative.Typing.{
  GoLibrary, DataType, unknown, bool, int64_type, float64_type, string_type, timestamp_type,
}
use eventnative.Schema.Marshaller.{
  json_marshaller, csv_marshaller, get_payload_bytes, get_payload_bytes_with_header,
}
use eventnative.Adapters.Table.{Table}
use eventnative.Adapters.Database.{Database, Step}
use eventnative.Adapters.Postgres as Postgres
use eventnative.Adapters.Postgres.{Postgres}
use eventnative.Adapters.Redshift as Redshift
use eventnative.Adapters.Redshift.{AwsRedshift}
use eventnative.Adapters.Snowflake as Snowflake
use eventnative.Adapters.Snowflake.{Snowflake}
use eventnative.Storages.TableHelper.{Backend, Tables}
use eventnative.Storages.Store.{
  StoreError, adapter_failed, stage_failed, no_payload, not_supported, Writer,
}

-- `SchemaToPostgres`
abbrev pub schema_to_postgres : Dict DataType Text
schema_to_postgres =
    (string_type, codes "text")
    ∷ (int64_type, codes "bigint")
    ∷ (float64_type, codes "numeric(38,18)")
    ∷ (timestamp_type, codes "timestamp")
    ∷ (bool, codes "boolean")
    ∷ (unknown, codes "text")
    ∷ []

-- `SchemaToRedshift`
abbrev pub schema_to_redshift : Dict DataType Text
schema_to_redshift =
    (string_type, codes "character varying(65535)")
    ∷ (int64_type, codes "bigint")
    ∷ (float64_type, codes "numeric(38,18)")
    ∷ (timestamp_type, codes "timestamp")
    ∷ (bool, codes "boolean")
    ∷ (unknown, codes "character varying(65535)")
    ∷ []

-- `SchemaToSnowflake`
abbrev pub schema_to_snowflake : Dict DataType Text
schema_to_snowflake =
    (string_type, codes "text")
    ∷ (int64_type, codes "bigint")
    ∷ (float64_type, codes "numeric(38,18)")
    ∷ (timestamp_type, codes "timestamp(6)")
    ∷ (bool, codes "boolean")
    ∷ (unknown, codes "text")
    ∷ []

pub record Monitor (World : Type 0) : Type 0 where
  pub lock : Text → Text → World → Tables → World × Tables × Bool
  pub unlock : Text → Text → World → World
  pub get_version : Text → Text → World → World × Option ℕ
  pub increment_version : Text → Text → World → World × Option ℕ

pub record Stage (World : Type 0) : Type 0 where
  pub upload_bytes : Text → Text → Effect World Text
  pub delete_object : Text → Effect World Text

-- The queries of system tables, as texts.
pub record Queries : Type 0 where
  pub table_schema_query : Text
  pub primary_key_fields_query : Text

module _ (D : Database) (K : Monitor D.World) where
  -- `TableManager` reads an error as one of its own.
  abbrev has_succeeded : Step D Unit → D.World → D.World × Bool
  has_succeeded act w = let (r, w') = act w in (w', elim r [ ok _ ↦ true | err e ↦ false ])

  abbrev if_read : Step D Table → D.World → D.World × Option Table
  if_read act w = let (r, w') = act w in (w', elim r [ ok t ↦ some t | err e ↦ none ])

  unfoldable pub backend_of :
      (Table → Step D Unit) → (Table → Step D Unit) → (Text → Step D Table) → Backend
  backend_of create_table patch_table_schema get_table_schema = record {
    World = D.World;
    lock = K.lock;
    unlock = K.unlock;
    get_table_schema = λ name w. if_read (get_table_schema name) w;
    create_table = λ table w. has_succeeded (create_table table) w;
    patch_table_schema = λ table w. has_succeeded (patch_table_schema table) w;
    get_version = K.get_version;
    increment_version = K.increment_version;
  }

  unfoldable pub postgres_backend : Postgres → Queries → Backend
  unfolding backend_of
  postgres_backend p q =
      backend_of (Postgres.create_table D p) (Postgres.patch_table_schema D p)
        (Postgres.get_table_schema D p q.table_schema_query q.primary_key_fields_query)

  unfoldable pub redshift_backend : AwsRedshift → Queries → Backend
  unfolding backend_of
  redshift_backend ar q =
      backend_of (Redshift.create_table D ar) (Redshift.patch_table_schema D ar)
        (Redshift.get_table_schema D ar q.table_schema_query)

  unfoldable pub snowflake_backend : Snowflake → Queries → Backend
  unfolding backend_of
  snowflake_backend sf q =
      backend_of (Snowflake.create_table D sf) (Snowflake.patch_table_schema D sf)
        (Snowflake.get_table_schema D sf q.table_schema_query)

  unfoldable pub postgres_writer : (p : Postgres) (q : Queries) → Writer (postgres_backend p q)
  unfolding postgres_backend backend_of
  postgres_writer p q = record {
    bulk_insert = λ f db. wrap_error adapter_failed (Postgres.bulk_insert D p db f.payload);
    bulk_update = λ db objects conditions.
        wrap_error adapter_failed (Postgres.bulk_update D p db objects conditions);
    insert_one = λ db o. wrap_error adapter_failed (Postgres.insert_object D p db o);
  }

  -- A file is put on the stage, copied from there, and deleted there; an error of the deletion is
  -- logged. A file that could not be copied stays.
  unfoldable pub by_stage :
      Stage D.World → Text → Option Text → Step D Unit → Effect D.World StoreError
  by_stage stage file_name none copy w = (err no_payload, w)
  by_stage stage file_name (some b) copy w =
      then_do (wrap_error stage_failed (stage.upload_bytes file_name b))
        (λ _.
          then_do (wrap_error adapter_failed copy)
            (λ _ w'. (ok tt, (stage.delete_object file_name w').1)))
        w

  -- `SyncStore` is refused by these storages, so that no update is asked for.
  unfoldable pub refuse_sync_store : {S : Type 0} → S → Result (StoreError × ℕ) ℕ × S
  refuse_sync_store s = (err (not_supported, 0), s)

  unfoldable pub redshift_writer :
      GoLibrary → Stage D.World → (ar : AwsRedshift) (q : Queries) → Writer (redshift_backend ar q)
  unfolding redshift_backend backend_of by_stage get_payload_bytes
  redshift_writer go stage ar q = record {
    bulk_insert = λ f db.
        by_stage stage f.file_name (get_payload_bytes go f json_marshaller)
          (Redshift.copy D ar f.file_name db.name);
    bulk_update = λ db objects conditions w. (err not_supported, w);
    insert_one = λ db o. wrap_error adapter_failed (Redshift.insert_object D ar db o);
  }

  unfoldable pub snowflake_writer :
      GoLibrary → Stage D.World → (sf : Snowflake) (q : Queries) → Writer (snowflake_backend sf q)
  unfolding snowflake_backend backend_of by_stage get_payload_bytes_with_header
  snowflake_writer go stage sf q = record {
    bulk_insert = λ f db.
        let (b, header) = get_payload_bytes_with_header go f csv_marshaller in
        by_stage stage f.file_name b (Snowflake.copy D sf f.file_name db.name header);
    bulk_update = λ db objects conditions w. (err not_supported, w);
    insert_one = λ db o. wrap_error adapter_failed (Snowflake.insert_object D sf db o);
  }
