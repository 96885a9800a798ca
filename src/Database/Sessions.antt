-- ===== src/Database/Sessions.antt =====
-- internal/pkg/database/database.go: what a `Querier` or an `Executor` does. A statement is a
-- function on the tables `T`; a session holds the committed tables, the working copy of the open
-- transaction, and the choices of the environment, one for each statement sent to the server.
use merch_store.Base.{Bool, true, false, List, [], ◌∷◌, Result, ok, err}
use merch_store.Errors.{Error, SqlError, transaction_aborted, connection}
use merch_store.Database.Statement.{Sql}

-- `refused`: the statement does not reach the server. `lost`: it is run, and its answer is lost.
pub data Fate : Type 0 where
  done refused lost : Fate

pub record Session (T : Type 0) : Type 0 where
  pub committed : T
  pub work : T
  pub aborted : Bool
  pub fates : List Fate

-- The two implementations of `QueryExecuter`: the pool, where each statement is its own
-- transaction, and an open `pgx.Tx`.
pub data Executor : Type 0 where
  pool tx : Executor

abbrev pub Action : Type 0 → Type 0 → Type 0 → Type 0
Action T D A = Session T → Result (Error D) A × Session T

-- The fate of the next statement; when the list is used up, nothing more goes wrong.
abbrev pub next_fate : List Fate → Fate
next_fate [] = done
next_fate (f ∷ fs) = f

abbrev pub later_fates : List Fate → List Fate
later_fates [] = []
later_fates (f ∷ fs) = fs

module _ {T A : Type 0} where
  -- Outside a transaction what the server has run is committed, also when the answer is lost.
  abbrev pub settle : Fate → Result SqlError (A × T) → Session T → Result SqlError A × Session T
  settle refused o s = (err connection, s)
  settle lost (ok (a, t)) s = (err connection, record s { committed = t })
  settle lost (err e) s = (err connection, s)
  settle done (ok (a, t)) s = (ok a, record s { committed = t })
  settle done (err e) s = (err e, s)

  -- In a transaction any error aborts it, and the server refuses what follows.
  abbrev pub run_tx : Fate → Bool → Sql T A → Session T → Result SqlError A × Session T
  run_tx done false q s = elim (q s.work) [
    | ok (a, t) ↦ (ok a, record s { work = t })
    | err e ↦ (err e, record s { aborted = true })
  ]
  run_tx done true q s = (err transaction_aborted, s)
  run_tx _ b q s = (err connection, record s { aborted = true })

  abbrev pub run_on : Executor → Fate → Sql T A → Session T → Result SqlError A × Session T
  run_on pool f q s = settle f (q s.committed) s
  run_on tx f q s = run_tx f s.aborted q s

-- `QueryRow`, `Query` and `Exec`.
unfoldable pub run : {T A : Type 0} → Executor → Sql T A → Session T → Result SqlError A × Session T
run x q s = run_on x (next_fate s.fates) q (record s { fates = later_fates s.fates })
