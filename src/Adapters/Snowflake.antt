-- ===== src/Adapters/Snowflake.antt =====
-- adapters/snowflake.go: identifiers, statements and the calls of the adapter.
pub mod Identifiers
use eventnative.Base.{
  ℕ, Bool, true, false, not, ◌&&◌, ◌||◌, Option, none, some, List, [], ◌∷◌, ◌++◌, ◌==◌, text_eq,
  nat_eq, ltb, map, if◌then◌else◌,
}
use eventnative.Base.Action.{Action, done, then_do, wrap_error, for_each}
use eventnative.Base.Dict.{Dict, insert}
use eventnative.Base.Result.{Result, ok, err}
use eventnative.Base.Text.{Text, codes, join, contains_char, replace_char}
use eventnative.Value.{Value, Object, empty, field}
use eventnative.Adapters.Table.{Columns, Table}
use eventnative.Adapters.Statements.{Casts, remove_last_comma, cast_clause, sql_type_of}
use eventnative.Adapters.Redshift.{S3Config, with_folder}
use eventnative.Adapters.Database.{
  Rows, row, unscannable, broken, no_more, Database, AdapterError, exec_failed, query_failed,
  scan_failed, rows_failed, Step, in_transaction, run_statement,
}

unfoldable pub is_not_letter_or_underscore : ℕ → Bool
is_not_letter_or_underscore c = ltb c 65 || ((not (c == 95) && (ltb 90 c && ltb c 97)) || ltb 122 c)

unfoldable pub is_not_number_or_dollar : ℕ → Bool
is_not_number_or_dollar c = not (c == 36) && (ltb c 48 || ltb 57 c)

-- The loop of `reformatValue`: a character that an unquoted identifier cannot hold.
unfoldable pub has_special : Text → Bool
unfolding is_not_letter_or_underscore is_not_number_or_dollar
has_special [] = false
has_special (c ∷ s) = (is_not_letter_or_underscore c && is_not_number_or_dollar c) || has_special s

unfoldable pub in_quotes : Text → Text
in_quotes s = b'"' ∷ (s ++ b'"' ∷ [])

-- `reformatValue`
unfoldable pub reformat_value : Text → Text
unfolding is_not_letter_or_underscore has_special in_quotes
reformat_value [] = []
reformat_value (c ∷ s) =
    if is_not_letter_or_underscore c
    then in_quotes (c ∷ s)
    else if has_special (c ∷ s)
    then in_quotes (c ∷ s)
    else c ∷ s

-- `upper` is `strings.ToUpper` and `lower` is `strings.ToLower`.
pub record Snowflake : Type 0 where
  pub schema_name : Text
  pub stage : Text
  pub s3_config : Option S3Config
  pub mapping_type_casts : Casts
  pub sort_strings : List Text → List Text
  pub upper : Text → Text
  pub lower : Text → Text

-- `reformatToParam`
unfoldable pub reformat_to_param : Snowflake → Text → Text
unfolding contains_char replace_char
reformat_to_param sf s = if contains_char s b'"' then replace_char b'"' [] s else sf.upper s

-- `schema.table`
unfoldable pub dotted_name : Snowflake → Text → Text
unfolding reformat_value
dotted_name sf table_name = sf.schema_name ++ (codes "." ++ reformat_value table_name)

unfoldable pub columns_ddl : Casts → Columns → List Text
unfolding sql_type_of reformat_value
columns_ddl casts [] = []
columns_ddl casts ((name, sql_type) ∷ columns) =
    (reformat_value name ++ (codes " " ++ sql_type_of casts name sql_type))
    ∷ columns_ddl casts columns

-- The loop of `Insert`; the placeholders have no numbers.
unfoldable pub insert_parts : Casts → Object → Text × Text × List Value
unfolding reformat_value cast_clause
insert_parts casts empty = ([], [], [])
insert_parts casts (field name value others) =
    let (header, placeholders, values) = insert_parts casts others in
    (
      reformat_value name ++ (codes "," ++ header),
      codes "?" ++ (cast_clause casts name ++ (codes "," ++ placeholders)),
      value ∷ values,
    )

unfoldable pub copy_format : Text
copy_format =
    codes
      " FILE_FORMAT=(TYPE= 'CSV', FIELD_DELIMITER = '||' SKIP_HEADER = 1 EMPTY_FIELD_AS_NULL = true) "

-- `awsS3From` and `gcpFrom`
unfoldable pub copy_source : Snowflake → Text → Text
unfolding copy_format with_folder
copy_source sf file_name = elim sf.s3_config [
  | some s3 ↦
      codes "FROM 's3://"
      ++ (s3.bucket
          ++ (codes "/"
              ++ (with_folder s3 file_name
                  ++ (codes "'\n\t\t\t\t\t           CREDENTIALS = (aws_key_id='"
                      ++ (s3.access_key_id
                          ++ (codes "' aws_secret_key='"
                              ++ (s3.secret_key
                                  ++ (codes "') \n                               "
                                      ++ copy_format))))))))
  | none ↦
      codes "FROM @"
      ++ (sf.stage
          ++ (codes "\n   \t\t\t\t\t\t\t   "
              ++ (copy_format
                  ++ (codes "\n                               PATTERN = '"
                      ++ (file_name ++ codes "'")))))
]

unfoldable pub copy_statement : Snowflake → Text → Text → List Text → Text
unfolding dotted_name join reformat_value copy_source
copy_statement sf file_name table_name header =
    codes "COPY INTO "
    ++ (dotted_name sf table_name
        ++ (codes " ("
            ++ (join (map reformat_value header) (codes ",")
                ++ (codes ") " ++ copy_source sf file_name))))

module _ (D : Database) (sf : Snowflake) where
  unfoldable pub create_db_schema : Text → Step D Unit
  unfolding in_transaction run_statement
  create_db_schema name =
      in_transaction D (run_statement D (codes "CREATE SCHEMA IF NOT EXISTS " ++ name) [])

  unfoldable pub create_table : Table → Step D Unit
  unfolding in_transaction run_statement dotted_name columns_ddl join
  create_table table = in_transaction D (
      run_statement D
        (codes "CREATE TABLE "
          ++ (dotted_name sf table.name
              ++ (codes " ("
                  ++ (join (sf.sort_strings (columns_ddl sf.mapping_type_casts table.columns))
                        (codes ",")
                      ++ codes ")"))))
        [])

  unfoldable pub add_column : Text → Text × Text → Step D Unit
  unfolding run_statement dotted_name reformat_value sql_type_of
  add_column table_name (name, sql_type) =
      run_statement D
        (codes "ALTER TABLE "
          ++ (dotted_name sf table_name
              ++ (codes " ADD COLUMN "
                  ++ (reformat_value name
                      ++ (codes " " ++ sql_type_of sf.mapping_type_casts name sql_type)))))
        []

  unfoldable pub patch_table_schema : Table → Step D Unit
  unfolding in_transaction add_column
  patch_table_schema table = in_transaction D (for_each (add_column table.name) table.columns)

  unfoldable pub copy : Text → Text → List Text → Step D Unit
  unfolding in_transaction copy_statement
  copy file_name table_name header =
      in_transaction D
        (wrap_error exec_failed (D.exec (copy_statement sf file_name table_name header)))

  unfoldable pub insert_statement : Table → Object → Text
  unfolding insert_parts remove_last_comma dotted_name
  insert_statement table values_map =
      let (header, placeholders, _) = insert_parts sf.mapping_type_casts values_map in
      codes "INSERT INTO "
      ++ (dotted_name sf table.name
          ++ (codes " ("
              ++ (remove_last_comma header
                  ++ (codes ") VALUES (" ++ (remove_last_comma placeholders ++ codes ")")))))

  unfoldable pub insert_object : Table → Object → Step D Unit
  unfolding in_transaction run_statement insert_statement insert_parts
  insert_object table values_map = in_transaction D (
      run_statement D (insert_statement table values_map)
        (insert_parts sf.mapping_type_casts values_map).2)

  -- The loop of `GetTableSchema`: the names are in lower case.
  unfoldable pub read_columns : Rows (Text × Text) → Columns → Result AdapterError Columns
  unfolding insert
  read_columns no_more columns = ok columns
  read_columns (broken e) columns = err (rows_failed e)
  read_columns (unscannable e) columns = err (scan_failed e)
  read_columns (row (name, sql_type) rows) columns =
      read_columns rows (insert (sf.lower name) sql_type columns)

  unfoldable pub get_table_schema : Text → Text → Step D Table
  unfolding read_columns reformat_to_param reformat_value
  get_table_schema table_schema_query table_name =
      then_do
        (wrap_error query_failed (
          D.query_pairs table_schema_query (
            reformat_to_param sf sf.schema_name
            ∷ reformat_to_param sf (reformat_value table_name)
            ∷ [])))
        (λ rows w. (
          elim (read_columns rows []) [
            | err e ↦ err e
            | ok columns ↦ ok (record {
              name = table_name;
              columns = columns;
              pk_fields = [];
              delete_pk_fields = false;
              version = 0;
            })
          ],
          w,
        ))
