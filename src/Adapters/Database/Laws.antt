-- ===== src/Adapters/Database/Laws.antt =====
-- What database/sql documents of transactions, and what follows for a call that runs its statements
-- in one.
use eventnative.Base.{ℕ, ◌+◌, ◌≡◌, ◌∙◌, List, inl, inr}
use eventnative.Base.Action.{Keeps, then_do, wrap_error, on_error, then_do-Keeps, wrap_error-Keeps}
use eventnative.Base.Result.{ok, err, Result-cases}
use eventnative.Base.Text.{Text}
use eventnative.Value.{Value}
use eventnative.Adapters.Database.{
  Database, AdapterError, prepare_failed, exec_failed, Step, open_tx, direct_commit, rollback_tx,
  run_statement, in_transaction,
}

-- Statements, prepared or not, leave a measure of the world alone.
pub record Quiet {ℓ} (D : Database) {X : Type ℓ} (m : D.World → X) : Type ℓ where
  pub prepare_keeps : (q : Text) → Keeps m (D.prepare q)
  pub exec_prepared_keeps : (q : Text) (vs : List Value) → Keeps m (D.exec_prepared q vs)
  pub exec_keeps : (q : Text) → Keeps m (D.exec q)

-- How many transactions are open: a begin that succeeds opens one, a commit and a rollback end one,
-- and statements do neither. This is so of every `sql.Tx`.
pub record TxLaws (D : Database) : Type 0 where
  pub open_count : D.World → ℕ
  pub begin_ok : (w : D.World) → (D.begin w).0 ≡ ok tt → open_count (D.begin w).1 ≡ open_count w + 1
  pub begin_err :
      (w : D.World) (e : Text) → (D.begin w).0 ≡ err e → open_count (D.begin w).1 ≡ open_count w
  pub commit_ends : (w : D.World) (k : ℕ) → open_count w ≡ k + 1 → open_count (D.commit w).1 ≡ k
  pub rollback_ends : (w : D.World) (k : ℕ) → open_count w ≡ k + 1 → open_count (D.rollback w).1 ≡ k
  pub open_quiet : Quiet D open_count

-- What is stored: a commit without an error changes it, and nothing else does but statements that do not
-- wait for the commit. In Postgres and Redshift all statements of the adapters wait; in Snowflake those
-- that insert and copy do, and those that define tables do not.
pub record StoredLaws (D : Database) : Type 1 where
  pub Stored : Type 0
  pub stored : D.World → Stored
  pub Waits : Text → Type 0
  pub begin_stored : Keeps stored D.begin
  pub rollback_stored : Keeps stored D.rollback
  pub commit_stored :
      (w : D.World) (e : Text) → (D.commit w).0 ≡ err e → stored (D.commit w).1 ≡ stored w
  pub prepare_stored : (q : Text) → Keeps stored (D.prepare q)
  pub exec_prepared_stored :
      (q : Text) (vs : List Value) → Waits q → Keeps stored (D.exec_prepared q vs)
  pub exec_stored : (q : Text) → Waits q → Keeps stored (D.exec q)

module _ {ℓ} (D : Database) {X : Type ℓ} (m : D.World → X) (Q : Quiet D m) where
  pub prepare_failed-Keeps : (q : Text) → Keeps m (wrap_error prepare_failed (D.prepare q))
  prepare_failed-Keeps q = wrap_error-Keeps m prepare_failed (D.prepare q) (Q.prepare_keeps q)

  pub exec_prepared-Keeps :
      (q : Text) (vs : List Value) → Keeps m (wrap_error exec_failed (D.exec_prepared q vs))
  exec_prepared-Keeps q vs =
      wrap_error-Keeps m exec_failed (D.exec_prepared q vs) (Q.exec_prepared_keeps q vs)

  pub exec-Keeps : (q : Text) → Keeps m (wrap_error exec_failed (D.exec q))
  exec-Keeps q = wrap_error-Keeps m exec_failed (D.exec q) (Q.exec_keeps q)

  pub run_statement-Keeps : (q : Text) (vs : List Value) → Keeps m (run_statement D q vs)
  unfolding run_statement
  run_statement-Keeps q vs =
      then_do-Keeps m (wrap_error prepare_failed (D.prepare q))
        (λ _. wrap_error exec_failed (D.exec_prepared q vs)) (prepare_failed-Keeps q)
        (λ _. exec_prepared-Keeps q vs)

-- A transaction ends, however its statements do.
module _ (D : Database) (L : TxLaws D) where
  end_open :
      (statements : Step D Unit) (w : D.World)
      → Keeps L.open_count statements
      → (D.begin w).0 ≡ ok tt
      → L.open_count (in_transaction D statements w).1 ≡ L.open_count w
  unfolding in_transaction open_tx direct_commit rollback_tx
  end_open statements w keeps began =
      let opened = (D.begin w).1 in
      let end = (statements opened).1 in
      let one_more = keeps opened ∙ L.begin_ok w began in
      elim (Result-cases (statements opened).0) [
        | inr (e, failed) ↦
            rw (began, failed, in_transaction, open_tx, then_do, wrap_error, on_error)
              (rw (failed, open_tx, on_error, rollback_tx)
                (L.rollback_ends end (L.open_count w) one_more))
        | inl (t, ran) ↦
            rw (began, ran, in_transaction, open_tx, then_do, wrap_error, on_error)
              (rw (ran, direct_commit, wrap_error, open_tx, on_error)
                (L.commit_ends end (L.open_count w) one_more))
      ]

  pub in_transaction_open :
      (statements : Step D Unit)
      → Keeps L.open_count statements
      → Keeps L.open_count (in_transaction D statements)
  unfolding in_transaction open_tx
  in_transaction_open statements keeps w = elim (Result-cases (D.begin w).0) [
    | inl (t, began) ↦ end_open statements w keeps began
    | inr (e, failed) ↦
        rw (failed, in_transaction, open_tx, then_do, wrap_error) (L.begin_err w e failed)
  ]

module _ (D : Database) (H : StoredLaws D) where
  pub stored-Quiet : ((q : Text) → H.Waits q) → Quiet D H.stored
  stored-Quiet waits = record {
    prepare_keeps = H.prepare_stored;
    exec_prepared_keeps = λ q vs. H.exec_prepared_stored q vs (waits q);
    exec_keeps = λ q. H.exec_stored q (waits q);
  }

  pub run_statement_stored :
      (q : Text) (vs : List Value) → H.Waits q → Keeps H.stored (run_statement D q vs)
  unfolding run_statement
  run_statement_stored q vs waits =
      then_do-Keeps H.stored (wrap_error prepare_failed (D.prepare q))
        (λ _. wrap_error exec_failed (D.exec_prepared q vs))
        (wrap_error-Keeps H.stored prepare_failed (D.prepare q) (H.prepare_stored q))
        (λ _.
          wrap_error-Keeps H.stored exec_failed (D.exec_prepared q vs)
            (H.exec_prepared_stored q vs waits))

  -- A call that fails has stored nothing.
  abbrev pub Atomic : Step D Unit → Type 0
  Atomic act =
      (w : D.World) (e : AdapterError) → (act w).0 ≡ err e → H.stored (act w).1 ≡ H.stored w

  end-Atomic :
      (statements : Step D Unit) (w : D.World) (e : AdapterError)
      → Keeps H.stored statements
      → (D.begin w).0 ≡ ok tt
      → (in_transaction D statements w).0 ≡ err e
      → H.stored (in_transaction D statements w).1 ≡ H.stored w
  unfolding in_transaction open_tx direct_commit rollback_tx
  end-Atomic statements w e keeps began =
      let opened = (D.begin w).1 in
      let end = (statements opened).1 in
      let same = keeps opened ∙ H.begin_stored w in
      elim (Result-cases (statements opened).0) [
        | inr (e', failed) ↦
            rw (began, failed, in_transaction, open_tx, then_do, wrap_error, on_error)
              (rw (failed, open_tx, on_error, rollback_tx) (λ _. H.rollback_stored end ∙ same))
        | inl (t, ran) ↦ elim (Result-cases (D.commit end).0) [
          | inr (e', failed) ↦
              rw (began, ran, in_transaction, open_tx, then_do, wrap_error, on_error)
                (rw (ran, failed, direct_commit, wrap_error, open_tx, on_error)
                  (λ _. H.commit_stored end e' failed ∙ same))
          | inl (t', committed) ↦
              rw (began, ran, in_transaction, open_tx, then_do, wrap_error, on_error)
                (rw (ran, committed, direct_commit, wrap_error, open_tx, on_error)
                  (λ impossible. cc))
        ]
      ]

  pub in_transaction-Atomic :
      (statements : Step D Unit) → Keeps H.stored statements → Atomic (in_transaction D statements)
  unfolding in_transaction open_tx
  in_transaction-Atomic statements keeps w e = elim (Result-cases (D.begin w).0) [
    | inl (t, began) ↦ end-Atomic statements w e keeps began
    | inr (e', failed) ↦
        rw (failed, in_transaction, open_tx, then_do, wrap_error) (λ _. H.begin_stored w)
  ]
