-- ===== src/Database/Transaction.antt =====
-- internal/pkg/database/transactions.go, `DelegateTxManager.WithinTransaction`, over actions: code
-- that talks to the database and may return an error.
use merch_store.Base.{Bool, true, false, String, Result, ok, err}
use merch_store.Errors.{Error, wrapped, sql, SqlError, transaction_aborted, connection}
use merch_store.Database.Statement.{Sql}
use merch_store.Database.Sessions.{
  Fate, done, refused, lost, Session, Executor, Action, next_fate, later_fates, run,
}

module _ {D A : Type 0} where
  abbrev pub raise_sql : Result SqlError A → Result (Error D) A
  raise_sql (ok a) = ok a
  raise_sql (err e) = err (sql e)

  abbrev pub rescue_with : (Error D → Result (Error D) A) → Result (Error D) A → Result (Error D) A
  rescue_with f (ok a) = ok a
  rescue_with f (err e) = f e

module _ {T D A : Type 0} where
  abbrev pub pure : A → Action T D A
  pure a s = (ok a, s)

  abbrev pub fail : Error D → Action T D A
  fail e s = (err e, s)

  abbrev pub lift : Result (Error D) A → Action T D A
  lift r s = (r, s)

  -- A call of the driver as an action.
  abbrev pub call : (Session T → Result SqlError A × Session T) → Action T D A
  call m s = let (r, s') = m s in (raise_sql r, s')

  abbrev pub query : Executor → Sql T A → Action T D A
  query x q = call (run x q)

  -- `if err != nil { … }` where the branch returns.
  abbrev pub rescue : (Error D → Result (Error D) A) → Action T D A → Action T D A
  rescue f m s = let (r, s') = m s in (rescue_with f r, s')

  -- `if err != nil { return fmt.Errorf("…: %w", err) }`
  abbrev pub wrap_error : String → Action T D A → Action T D A
  wrap_error text = rescue (λ e. err (wrapped text e))

  -- The deferred `tx.Rollback`: the working copy is dropped; after a commit it does nothing.
  abbrev pub with_rollback : Action T D A → Action T D A
  with_rollback m s = let (r, s') = m s in (r, record s' { work = s'.committed; aborted = false })

module _ {T D A B : Type 0} where
  abbrev pub continue : (A → Action T D B) → Result (Error D) A → Action T D B
  continue f (ok a) s = f a s
  continue f (err e) s = (err e, s)

  infixl 5 ◌>>=◌ ◌>>◌
  abbrev pub ◌>>=◌ : Action T D A → (A → Action T D B) → Action T D B
  ◌>>=◌ m f s = let (r, s') = m s in continue f r s'

  abbrev pub ◌>>◌ : Action T D A → Action T D B → Action T D B
  m >> k = m >>= λ _. k

module _ {T : Type 0} where
  -- `BeginTx`: the transaction starts from the committed tables.
  abbrev pub begin_on : Fate → Session T → Result SqlError (Unit {0}) × Session T
  begin_on done s = (ok tt, record s { work = s.committed; aborted = false })
  begin_on _ s = (err connection, s)

  unfoldable pub begin : Session T → Result SqlError (Unit {0}) × Session T
  begin s = begin_on (next_fate s.fates) (record s { fates = later_fates s.fates })

  -- `tx.Commit`: an aborted transaction is rolled back, and the call reports it.
  abbrev commit_on : Fate → Bool → Session T → Result SqlError (Unit {0}) × Session T
  commit_on done false s = (ok tt, record s { committed = s.work })
  commit_on done true s = (err transaction_aborted, s)
  commit_on refused b s = (err connection, s)
  commit_on lost false s = (err connection, record s { committed = s.work })
  commit_on lost true s = (err connection, s)

  unfoldable pub commit : Session T → Result SqlError (Unit {0}) × Session T
  commit s = commit_on (next_fate s.fates) s.aborted (record s { fates = later_fates s.fates })

-- `WithinTransaction`
unfoldable pub within_transaction :
    {T D : Type 0} → (Executor → Action T D (Unit {0})) → Action T D (Unit {0})
unfolding begin commit
within_transaction tx_fn = do
  wrap_error "failed to begin transaction" (call begin)
  with_rollback (do
    wrap_error "failed to execute logic within transaction" (tx_fn Executor.tx)
    wrap_error "failed to commit transaction" (call commit))
