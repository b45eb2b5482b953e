-- ===== src/Adapters/Database.antt =====
-- adapters/transaction.go and the calls of the package database/sql, which is an interface here: a
-- connection's transaction over a world. The texts that errors are wrapped in, and the query
-- logger, are left out.
pub mod Laws
use eventnative.Base.{ℕ, Option, none, some, List, [], ◌∷◌}
use eventnative.Base.Action.{Action, Effect, then_do, wrap_error, on_error}
use eventnative.Base.Result.{Result, ok, err}
use eventnative.Base.Text.{Text}
use eventnative.Value.{Value}

-- What `rows.Next`, `rows.Scan` and `rows.Err` give, one after the other.
pub data Rows {ℓ} (A : Type ℓ) : Type ℓ where
  row : A → Rows A → Rows A
  unscannable : Text → Rows A
  broken : Text → Rows A
  no_more : Rows A

-- An error is the driver's text.
pub record Database : Type 1 where
  pub World : Type 0
  -- `BeginTx`, `Commit`, `Rollback`
  pub begin : Effect World Text
  pub commit : Effect World Text
  pub rollback : Effect World Text
  -- `tx.PrepareContext`, `stmt.ExecContext` of the statement that was prepared, `tx.ExecContext`
  pub prepare : Text → Effect World Text
  pub exec_prepared : Text → List Value → Effect World Text
  pub exec : Text → Effect World Text
  -- `QueryContext`, of rows of two texts and of rows of one
  pub query_pairs : Text → List Text → Action World Text (Rows (Text × Text))
  pub query_texts : Text → List Text → Action World Text (Rows Text)

pub data AdapterError : Type 0 where
  open_failed prepare_failed exec_failed commit_failed : Text → AdapterError
  query_failed scan_failed rows_failed : Text → AdapterError

module _ (D : Database) where
  abbrev pub Step : Type 0 → Type 0
  Step A = Action D.World AdapterError A

  -- `OpenTx`
  unfoldable pub open_tx : Step Unit
  open_tx = wrap_error open_failed D.begin

  -- `DirectCommit`
  unfoldable pub direct_commit : Step Unit
  direct_commit = wrap_error commit_failed D.commit

  -- `Rollback`: its own error is only logged.
  unfoldable pub rollback_tx : D.World → D.World
  rollback_tx w = (D.rollback w).1

  -- A statement that is prepared and then executed.
  unfoldable pub run_statement : Text → List Value → Step Unit
  run_statement query values =
      then_do (wrap_error prepare_failed (D.prepare query))
        (λ _. wrap_error exec_failed (D.exec_prepared query values))

  -- The shape that every writing call has: `OpenTx`, the statements, `Rollback` behind an error of
  -- one, and `DirectCommit` (or `tx.Commit`, whose error is returned as it is).
  unfoldable pub in_transaction : Step Unit → Step Unit
  unfolding open_tx direct_commit rollback_tx
  in_transaction statements =
      then_do open_tx (λ _. then_do (on_error (rollback_tx) statements) (λ _. direct_commit))
