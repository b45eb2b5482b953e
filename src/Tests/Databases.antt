-- ===== src/Tests/Databases.antt =====
-- The adapters (adapters/postgres.go, adapters/snowflake.go), run.
use eventnative.Base.{
  map, ℕ, ◌+◌, ◌-◌, ◌≡◌, refl, false, List, [], ◌∷◌, ◌⊎◌, text_eq, nat_eq, arith,
}
use eventnative.Base.Action.{then_do, wrap_error, for_each}
use eventnative.Base.Dict.{keys}
use eventnative.Base.Int.{pos}
use eventnative.Base.Result.{ok, err}
use eventnative.Base.Text.{codes, join, is_space}
use eventnative.Value.{integer, int64, Object, empty, field}
use eventnative.Adapters.Table.{Table, no_change}
use eventnative.Adapters.Statements.{update_section}
use eventnative.Adapters.Statements.Numbered.{
  names_of, values_of, assignments, update_section-assignments,
}
use eventnative.Adapters.Database.{
  Database, exec_failed, prepare_failed, no_more, in_transaction, open_tx, run_statement,
}
use eventnative.Adapters.Database.Laws.{TxLaws, StoredLaws}
use eventnative.Adapters.Postgres.{Postgres, insert_object, insert_all}
use eventnative.Adapters.Postgres.Atomicity.{insert_call, bulk_insert_call, perform}
use eventnative.Adapters.Postgres.Inserts.{column_value, numbered_insert, insert_object-numbered}
use eventnative.Adapters.Calls.{
  Write, by_postgres, carry_out, carry_out_all, carry_out_err_stored, carry_out_all_open,
}
use eventnative.Adapters.Snowflake.{reformat_value, in_quotes}
use eventnative.Adapters.Snowflake.Identifiers.{IsUnquoted, reformat_value-IsUnquoted}

-- A database that counts its transactions, and what was committed, and refuses every statement that is
-- executed.
abbrev db : Database
db = record {
  World = ℕ × ℕ;
  begin = λ (o, s). (ok tt, (o + 1, s));
  commit = λ (o, s). (ok tt, (o - 1, s + 1));
  rollback = λ (o, s). (ok tt, (o - 1, s));
  prepare = λ q w. (ok tt, w);
  exec_prepared = λ q vs w. (err (codes "refused"), w);
  exec = λ q w. (err (codes "refused"), w);
  query_pairs = λ q ps w. (ok no_more, w);
  query_texts = λ q ps w. (ok no_more, w);
}

laws : TxLaws db
laws = record {
  open_count = λ w. w.0;
  begin_ok = λ w h. refl;
  begin_err = λ w e h. cc;
  commit_ends = λ w k h. omega (arith, h);
  rollback_ends = λ w k h. omega (arith, h);
  open_quiet = record {
    prepare_keeps = λ q w. refl;
    exec_prepared_keeps = λ q vs w. refl;
    exec_keeps = λ q w. refl;
  };
}

abbrev stored_laws : StoredLaws db
stored_laws = record {
  Stored = ℕ;
  stored = λ w. w.1;
  Waits = λ q. Unit;
  begin_stored = λ w. refl;
  rollback_stored = λ w. refl;
  commit_stored = λ w e h. cc;
  prepare_stored = λ q w. refl;
  exec_prepared_stored = λ q vs waits w. refl;
  exec_stored = λ q waits w. refl;
}

abbrev postgres : Postgres
postgres = record {
  schema_name = codes "public";
  mapping_type_casts = (codes "b", codes "text") ∷ [];
  sort_strings = λ xs. xs;
}

abbrev table : Table
table = record (no_change (codes "events")) {
  columns = (codes "a", codes "bigint") ∷ (codes "b", codes "text") ∷ [];
}

abbrev event : Object
event = field (codes "a") (integer int64 (pos 1)) (field (codes "b") (integer int64 (pos 2)) empty)

abbrev insert_event : Write
insert_event = by_postgres postgres (insert_call table event)

insertion_fails : (carry_out db insert_event (0, 7)).0 ≡ err (exec_failed (codes "refused"))
unfolding carry_out perform insert_object in_transaction open_tx run_statement
insertion_fails = refl

carry_out_err_stored_example :
    stored_laws.stored (carry_out db insert_event (0, 7)).1 ≡ stored_laws.stored (0, 7)
carry_out_err_stored_example =
    carry_out_err_stored db stored_laws insert_event (0, 7) (exec_failed (codes "refused"))
      (λ q. tt) insertion_fails

abbrev two_calls : List Write
two_calls = insert_event ∷ by_postgres postgres (bulk_insert_call table (event ∷ [])) ∷ []

carry_out_all_open_example :
    laws.open_count (carry_out_all db two_calls (0, 7)) ≡ laws.open_count (0, 7)
carry_out_all_open_example = carry_out_all_open db laws two_calls (0, 7)

insert_object-numbered_example :
    (insert_object db postgres table event
      ≡ in_transaction db
          (run_statement db (numbered_insert postgres table (names_of event)) (values_of event)))
    × (insert_all db postgres table (event ∷ [])
        ≡ then_do
            (wrap_error prepare_failed
              (db.prepare (numbered_insert postgres table (keys table.columns))))
            (λ _.
              for_each
                (λ values.
                  wrap_error exec_failed
                    (db.exec_prepared (numbered_insert postgres table (keys table.columns)) values))
                (map (λ row. map (column_value row) (keys table.columns)) (event ∷ []))))
insert_object-numbered_example = insert_object-numbered db postgres table event (event ∷ [])

a_is_no_space : is_space b'a' ≡ false
unfolding is_space nat_eq
a_is_no_space = refl

update_section-assignments_example :
    update_section (join ((b'a' ∷ []) ∷ codes "b" ∷ []) (codes ","))
    ≡ join (assignments 1 ((b'a' ∷ []) ∷ codes "b" ∷ [])) (codes ",")
update_section-assignments_example =
    update_section-assignments b'a' [] (codes "b" ∷ []) a_is_no_space
      ((λ h. omega (arith, h), tt), ((λ h. omega (arith, h), tt), tt))

reformat_value-IsUnquoted_example :
    (reformat_value (codes "1a") ≡ codes "1a") × IsUnquoted (codes "1a")
    ⊎ (reformat_value (codes "1a") ≡ in_quotes (codes "1a")) × (IsUnquoted (codes "1a") → ⊥)
reformat_value-IsUnquoted_example = reformat_value-IsUnquoted (codes "1a")
