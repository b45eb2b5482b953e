-- ===== src/Adapters/Postgres/Inserts.antt =====
-- The statements that insert rows (adapters/postgres.go), with the values that are bound.
use eventnative.Base.{◌≡◌, refl, none, some, List, [], ◌∷◌, map, text_eq}
use eventnative.Base.Action.{Effect, then_do, wrap_error, for_each}
use eventnative.Base.Dict.{keys}
use eventnative.Base.Text.{Text, codes, join}
use eventnative.Value.{Value, nothing, Object}
use eventnative.Value.Objects as Objects
use eventnative.Adapters.Table.{Table, get_pk_fields}
use eventnative.Adapters.Statements.{insert_query}
use eventnative.Adapters.Statements.Numbered.{
  numbered, names_of, values_of, insert_parts-terminated, column_placeholders-terminated,
  remove_last_comma-terminated,
}
use eventnative.Adapters.Database.{
  Database, AdapterError, prepare_failed, exec_failed, in_transaction, run_statement,
}
use eventnative.Adapters.Postgres.{
  Postgres, row_values, insert_statement, insert_object, bulk_statement, insert_all,
}

-- The value of a column: a missing one is null.
abbrev pub column_value : Object → Text → Value
column_value o column = elim (Objects.lookup column o) [ none ↦ nothing | some v ↦ v ]

-- The statement for these names, with the placeholder of the same number for each.
abbrev pub numbered_insert : Postgres → Table → List Text → Text
numbered_insert p table names =
    insert_query p.schema_name (get_pk_fields table) table.name (join names (codes ","))
      (join (numbered p.mapping_type_casts 1 names) (codes ","))

row_values-map :
    (header : List Text) (o : Object) → row_values header o ≡ map (column_value o) header
unfolding row_values
row_values-map [] o = refl
row_values-map (c ∷ header) o = rw (row_values-map header o) refl

for_each-map :
    {W : Type 0} (act : List Value → Effect W AdapterError) (header : List Text) (os : List Object)
    → for_each (λ o. act (row_values header o)) os
      ≡ for_each act (map (λ o. map (column_value o) header) os)
for_each-map act header [] = refl
for_each-map act header (o ∷ os) = rw (for_each-map act header os, row_values-map header o) refl

module _ (D : Database) (p : Postgres) (table : Table) where
  insert_statement_numbered :
      (o : Object) → insert_statement D p table o ≡ numbered_insert p table (names_of o)
  unfolding insert_statement
  insert_statement_numbered o =
      let casts = p.mapping_type_casts in
      rw
        (
          insert_parts-terminated casts 1 o,
          remove_last_comma-terminated (names_of o),
          remove_last_comma-terminated (numbered casts 1 (names_of o)),
        )
        refl

  bulk_statement_numbered : bulk_statement D p table ≡ numbered_insert p table (keys table.columns)
  unfolding bulk_statement
  bulk_statement_numbered =
      let casts = p.mapping_type_casts in
      rw
        (
          column_placeholders-terminated casts 1 table.columns,
          remove_last_comma-terminated (numbered casts 1 (keys table.columns)),
        )
        refl

  -- `Insert` runs one statement that names the fields of the object, with the placeholder of the same
  -- number (and the cast of the same field) for each, and binds the values of the fields in that
  -- order. An insertion of many objects prepares one statement that names the columns of the table in
  -- the same way, and executes it for every object in turn, with the values that the object has in
  -- these columns, in their order, null for a missing one.
  pub insert_object-numbered :
      (o : Object) (objects : List Object)
      → (insert_object D p table o
          ≡ in_transaction D (run_statement D (numbered_insert p table (names_of o)) (values_of o)))
        × (insert_all D p table objects
            ≡ then_do
                (wrap_error prepare_failed
                  (D.prepare (numbered_insert p table (keys table.columns))))
                (λ _.
                  for_each
                    (λ values.
                      wrap_error exec_failed
                        (D.exec_prepared (numbered_insert p table (keys table.columns)) values))
                    (map (λ row. map (column_value row) (keys table.columns)) objects)))
  unfolding insert_object insert_all
  insert_object-numbered o objects = (
    rw (insert_statement_numbered o, insert_parts-terminated p.mapping_type_casts 1 o) refl,
    rw
        (
          bulk_statement_numbered,
          for_each-map
              (λ values.
                wrap_error exec_failed
                  (D.exec_prepared (numbered_insert p table (keys table.columns)) values))
              (keys table.columns) objects,
        )
        refl,
  )
