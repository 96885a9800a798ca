-- ===== src/Store/Concurrent.antt =====
-- internal/store/application and internal/store/infrastructure/postgres: SendCoins and BuyItem of
-- many requests at once, on one database at READ COMMITTED. A step is one statement of one request.
-- `SELECT … FOR UPDATE` and UPDATE wait for the row; the row stays locked until the transaction ends,
-- and its new version is seen by others from the commit on. A foreign key's check of a row that its
-- transaction has locked does not wait, and so is no step of its own.
pub mod Rows
pub mod Commits
pub mod Invariant
pub mod Alone
pub mod Free
pub mod Deadlock
pub mod Ordered
use merch_store.Base.{
  ℕ, ◌+◌, ◌≤◌, ◌≡◌, ◌≢◌, Bool, true, false, String, Option, none, some, [], ◌∷◌, ◌++◌, Assoc,
  lookup, insert, int_keys, ltb, eqb, if◌then◌else◌,
}
use merch_store.Base.Int.{ℤ, pos, ◌+ℤ◌, ◌-ℤ◌}
use merch_store.Database.Statement.{max_int4}
use merch_store.Store.Domain.{GoodInfo, start_balance}
use merch_store.Store.Tables.{Tables}
use merch_store.Store.Opening.{Opened}
use merch_store.Store.Buying.{IsOnSale}

-- The arguments that the function within SendCoins's transaction closes over.
pub record Parcel : Type 0 where
  pub from : ℤ
  pub to : ℤ
  pub amount : ℕ

-- The same for BuyItem, with the name that the good was found by.
pub record Order : Type 0 where
  pub user : ℤ
  pub name : String
  pub good : GoodInfo

-- Where a request stands, with the balances of the rows that it has locked, as they are committed.
pub data Pc : Type 0 where
  idle : Pc  -- in no transaction
  sending : (p : Parcel) → Pc  -- before LockAndGetUserBalance
  sender_locked : (p : Parcel) (balance : ℕ) → Pc
  debited : (p : Parcel) (balance : ℕ) → Pc
  credited : (p : Parcel) (balance other : ℕ) → Pc
  sent : (p : Parcel) (balance other : ℕ) → Pc  -- before Commit
  buying : (o : Order) → Pc
  buyer_locked : (o : Order) (balance : ℕ) → Pc
  paid : (o : Order) (balance : ℕ) → Pc
  bought : (o : Order) (balance : ℕ) → Pc

-- The rows of `balances` that a request has locked.
abbrev pub locked : Pc → Assoc ℤ ℕ
locked idle = []
locked (sending p) = []
locked (sender_locked p b) = (p.from, b) ∷ []
locked (debited p b) = (p.from, b) ∷ []
locked (credited p b c) = (p.from, b) ∷ (p.to, c) ∷ []
locked (sent p b c) = (p.from, b) ∷ (p.to, c) ∷ []
locked (buying o) = []
locked (buyer_locked o b) = (o.user, b) ∷ []
locked (paid o b) = (o.user, b) ∷ []
locked (bought o b) = (o.user, b) ∷ []

-- What the commit of a transfer makes of the tables: the new versions of its two rows, and the row
-- that it has inserted.
unfoldable pub commit_transfer : Parcel → ℕ → ℕ → Tables → Tables
commit_transfer p balance other t = record t {
  balances =
      insert p.to (pos other +ℤ pos p.amount)
        (insert p.from (pos balance -ℤ pos p.amount) t.balances);
  transactions =
      t.transactions
      ++ record { from_user_id = p.from; to_user_id = p.to; amount = pos p.amount } ∷ [];
}

unfoldable pub commit_purchase : Order → ℕ → Tables → Tables
commit_purchase o balance t = record t {
  balances = insert o.user (pos balance -ℤ pos o.good.price) t.balances;
  purchases = t.purchases ++ record { user_id = o.user; good_id = o.good.id } ∷ [];
}

-- One step of one request, where `Free` says of a row that no other request has locked it. Any
-- statement may also fail, and a failure, a cancelled call or a deadlock that the server breaks ends
-- in `rollback`.
pub data Move (t : Tables) (Free : ℤ → Type 0) : Pc → Tables → Pc → Type 0 where
  ensure : (user : ℤ) {u : Tables} → Opened user start_balance t u → Move t Free idle u idle
  begin_transfer : {p : Parcel} → p.to ≢ p.from → Move t Free idle t (sending p)
  lock_sender :
      {p : Parcel} {balance : ℕ}
      → Free p.from
      → lookup p.from t.balances ≡ some (pos balance)
      → Move t Free (sending p) t (sender_locked p balance)
  debit :
      {p : Parcel} {balance old : ℕ}
      → ltb balance p.amount ≡ false
      → lookup p.from t.balances ≡ some (pos old)
      → p.amount ≤ old
      → Move t Free (sender_locked p balance) t (debited p old)
  credit :
      {p : Parcel} {balance other : ℕ}
      → Free p.to
      → lookup p.to t.balances ≡ some (pos other)
      → other + p.amount ≤ max_int4
      → Move t Free (debited p balance) t (credited p balance other)
  record_transfer :
      {p : Parcel} {balance other : ℕ}
      → Move t Free (credited p balance other) t (sent p balance other)
  commit_sent :
      {p : Parcel} {balance other : ℕ}
      → Move t Free (sent p balance other) (commit_transfer p balance other t) idle
  begin_purchase : {o : Order} → IsOnSale o.name o.good t → Move t Free idle t (buying o)
  lock_buyer :
      {o : Order} {balance : ℕ}
      → Free o.user
      → lookup o.user t.balances ≡ some (pos balance)
      → Move t Free (buying o) t (buyer_locked o balance)
  pay :
      {o : Order} {balance old : ℕ}
      → ltb balance o.good.price ≡ false
      → lookup o.user t.balances ≡ some (pos old)
      → o.good.price ≤ old
      → Move t Free (buyer_locked o balance) t (paid o old)
  record_purchase : {o : Order} {balance : ℕ} → Move t Free (paid o balance) t (bought o balance)
  commit_bought :
      {o : Order} {balance : ℕ} → Move t Free (bought o balance) (commit_purchase o balance t) idle
  rollback : {c : Pc} → Move t Free c t idle

-- The database, and the requests that are served.
pub record System : Type 0 where
  pub tables : Tables
  pub pc : ℕ → Pc

abbrev pub IsFree : (ℕ → Pc) → ℕ → ℤ → Type 0
IsFree pc i user = (j : ℕ) → j ≢ i → lookup user (locked (pc j)) ≡ none

abbrev pub update : (ℕ → Pc) → ℕ → Pc → ℕ → Pc
update pc i c j = if eqb i j then c else pc j

pub data Step (s : System) : System → Type 0 where
  turn :
      (i : ℕ) {t : Tables} {c : Pc}
      → Move s.tables (IsFree s.pc i) (s.pc i) t c
      → Step s (record { tables = t; pc = update s.pc i c })

pub data Reach (t : Tables) : System → Type 0 where
  start : Reach t (record { tables = t; pc = λ _. idle })
  later : {s u : System} → Reach t s → Step s u → Reach t u
