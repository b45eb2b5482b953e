-- ===== src/Adapters/Statements.antt =====
-- The texts of the statements of adapters/postgres.go, and adapters/delete_condition.go.
pub mod Numbered
use eventnative.Base.{
  ℕ, ◌+◌, suc, Bool, Option, none, some, List, [], ◌∷◌, ◌++◌, ◌==◌, text_eq, if◌then◌else◌,
}
use eventnative.Base.Dict.{Dict, lookup}
use eventnative.Base.Int.{pos, format_int}
use eventnative.Base.Text.{Text, codes, join, split, ends_with, drop_last, trim_space}
use eventnative.Value.{Value, text, Object, empty, field}
use eventnative.Adapters.Table.{Columns, is_nil}

-- The configuration's sql types by column.
abbrev pub Casts : Type 0
Casts = Dict Text Text

unfoldable pub remove_last_comma : Text → Text
unfolding ends_with drop_last
remove_last_comma s = if ends_with s b',' then drop_last s else s

unfoldable pub cast_clause : Casts → Text → Text
unfolding lookup
cast_clause casts name = elim (lookup name casts) [
  | none ↦ []
  | some cast_type ↦ codes "::" ++ cast_type
]

-- `"$" + strconv.Itoa(i) + castClause`
unfoldable pub placeholder : Casts → ℕ → Text → Text
unfolding cast_clause format_int
placeholder casts i name = codes "$" ++ (format_int (pos i) ++ cast_clause casts name)

unfoldable pub build_constraint_name : Text → Text → Text
build_constraint_name schema_name table_name =
    schema_name ++ (codes "_" ++ (table_name ++ codes "_pk"))

-- The loop of `updateSection`, with `i + 1` and the result so far.
unfoldable pub update_loop : ℕ → Text → List Text → Text
unfolding trim_space format_int
update_loop i result [] = result
update_loop i result (name ∷ names) =
    update_loop (suc i)
      (trim_space result ++ (name ++ (codes "=$" ++ (format_int (pos i) ++ codes ",")))) names

unfoldable pub update_section : Text → Text
unfolding update_loop split remove_last_comma
update_section header = remove_last_comma (update_loop 1 [] (split header b','))

-- `"schema"."table"`
unfoldable pub quoted_name : Text → Text → Text
quoted_name schema_name table_name =
    codes "\"" ++ (schema_name ++ (codes "\".\"" ++ (table_name ++ codes "\"")))

unfoldable pub insert_query : Text → List Text → Text → Text → Text → Text
unfolding is_nil quoted_name build_constraint_name update_section
insert_query schema_name pk_fields table_name header placeholders =
    if is_nil pk_fields
    then codes "INSERT INTO "
      ++ (quoted_name schema_name table_name
          ++ (codes " (" ++ (header ++ (codes ") VALUES (" ++ (placeholders ++ codes ")")))))
    else codes "INSERT INTO "
      ++ (schema_name
          ++ (codes "."
              ++ (table_name
                  ++ (codes "("
                      ++ (header
                          ++ (codes ") VALUES("
                              ++ (placeholders
                                  ++ (codes ") ON CONFLICT ON CONSTRAINT "
                                      ++ (build_constraint_name schema_name table_name
                                          ++ (codes " DO UPDATE set "
                                              ++ (update_section header ++ codes ";")))))))))))

-- The loop of `Insert`: names and placeholders, each with a comma behind it, and the values.
unfoldable pub insert_parts : Casts → ℕ → Object → Text × Text × List Value
unfolding placeholder
insert_parts casts i empty = ([], [], [])
insert_parts casts i (field name value others) =
    let (header, placeholders, values) = insert_parts casts (suc i) others in
    (
      name ++ (codes "," ++ header),
      placeholder casts i name ++ (codes "," ++ placeholders),
      value ∷ values,
    )

-- The loop of `insertInTransaction` over the columns.
unfoldable pub column_placeholders : Casts → ℕ → Columns → Text
unfolding placeholder
column_placeholders casts i [] = []
column_placeholders casts i ((name, _) ∷ columns) =
    placeholder casts i name ++ (codes "," ++ column_placeholders casts (suc i) columns)

-- The sql type of a column, unless the configuration overrides it.
unfoldable pub sql_type_of : Casts → Text → Text → Text
unfolding lookup
sql_type_of casts name sql_type = elim (lookup name casts) [
  | none ↦ sql_type
  | some casted ↦ casted
]

unfoldable pub columns_ddl : Casts → Columns → List Text
unfolding sql_type_of
columns_ddl casts [] = []
columns_ddl casts ((name, sql_type) ∷ columns) =
    (name ++ (codes " " ++ sql_type_of casts name sql_type)) ∷ columns_ddl casts columns

unfoldable pub create_table_query : Text → Text → List Text → Text
unfolding quoted_name join
create_table_query schema_name table_name ddl =
    codes "CREATE TABLE "
    ++ (quoted_name schema_name table_name ++ (codes " (" ++ (join ddl (codes ",") ++ codes ")")))

unfoldable pub add_column_query : Text → Text → Text → Text → Text
unfolding quoted_name
add_column_query schema_name table_name name sql_type =
    codes "ALTER TABLE "
    ++ (quoted_name schema_name table_name
        ++ (codes " ADD COLUMN " ++ (name ++ (codes " " ++ sql_type))))

unfoldable pub add_primary_key_query : Text → Text → List Text → Text
unfolding quoted_name build_constraint_name join
add_primary_key_query schema_name table_name fields =
    codes "ALTER TABLE "
    ++ (quoted_name schema_name table_name
        ++ (codes " ADD CONSTRAINT "
            ++ (build_constraint_name schema_name table_name
                ++ (codes " PRIMARY KEY (" ++ (join fields (codes ",") ++ codes ")")))))

unfoldable pub drop_primary_key_query : Text → Text → Text
unfolding build_constraint_name
drop_primary_key_query schema_name table_name =
    codes "ALTER TABLE "
    ++ (schema_name
        ++ (codes "."
            ++ (table_name
                ++ (codes " DROP CONSTRAINT IF EXISTS "
                    ++ build_constraint_name schema_name table_name))))

pub record DeleteCondition : Type 0 where
  pub field_name : Text
  pub value : Value
  pub clause : Text

pub record DeleteConditions : Type 0 where
  pub conditions : List DeleteCondition
  pub join_condition : Text

unfoldable pub is_empty : DeleteConditions → Bool
unfolding is_nil
is_empty dc = is_nil dc.conditions

-- `DeleteByTimeChunkCondition`
unfoldable pub delete_by_time_chunk_condition : Text → DeleteConditions
delete_by_time_chunk_condition time_interval_value =
    if time_interval_value == [] then record { conditions = []; join_condition = [] } else record {
      conditions =
          record {
            field_name = codes "eventn_ctx_time_interval";
            clause = codes "=";
            value = text time_interval_value;
          }
          ∷ [];
      join_condition = codes "AND";
    }

-- The loop of `toDeleteQuery`, with `i + 1`.
unfoldable pub delete_parts : Casts → ℕ → List DeleteCondition → List Text × List Value
unfolding cast_clause format_int
delete_parts casts i [] = ([], [])
delete_parts casts i (c ∷ cs) =
    let (parts, values) = delete_parts casts (suc i) cs in
    (
      (c.field_name
            ++ (codes " "
                ++ (c.clause
                    ++ (codes " $" ++ (format_int (pos i) ++ cast_clause casts c.field_name)))))
          ∷ parts,
      c.value ∷ values,
    )

unfoldable pub to_delete_query : Casts → DeleteConditions → Text × List Value
unfolding delete_parts join
to_delete_query casts dc =
    let (parts, values) = delete_parts casts 1 dc.conditions in
    (join parts dc.join_condition, values)

unfoldable pub delete_query : Text → Text → Text → Text
delete_query schema_name table_name condition =
    codes "DELETE FROM "
    ++ (schema_name ++ (codes "." ++ (table_name ++ (codes " WHERE " ++ condition))))
