-- ===== src/Store/Tables.antt =====
-- The tables of migrations/store, and the SQL statements of internal/store/infrastructure/postgres.
-- Columns that no statement reads (the serial `id` of balances, transactions and purchases) are
-- left out.
use merch_store.Base.{
  ◌>>=◌, ℕ, suc, ◌+◌, Bool, ◌&&◌, String, Option, none, some, List, [], ◌∷◌, ◌++◌, Result, ok, err,
  ◌==◌, string_keys, int_keys, Assoc, lookup, insert, if◌then◌else◌,
}
use merch_store.Base.Int.{ℤ, pos, ◌+ℤ◌, ◌-ℤ◌, ltb_ℤ, leb_ℤ}
use merch_store.Errors.{SqlError, check_violation, foreign_key_violation}
use merch_store.Database.Statement.{Sql, int4}

pub record GoodRow : Type 0 where
  pub id : ℤ
  pub name : String
  pub price : ℤ

pub record TransactionRow : Type 0 where
  pub from_user_id : ℤ
  pub to_user_id : ℤ
  pub amount : ℤ

pub record PurchaseRow : Type 0 where
  pub user_id : ℤ
  pub good_id : ℤ

-- `balances` has the columns `user_id`, which is UNIQUE, and `balance`.
pub record Tables : Type 0 where
  pub balances : Assoc ℤ ℤ
  pub goods : List GoodRow
  pub transactions : List TransactionRow
  pub purchases : List PurchaseRow

-- balance INTEGER NOT NULL CHECK ( balance >= 0 )
unfoldable pub balance_value : ℤ → Result SqlError ℤ
balance_value b = do n ← int4 b; if ltb_ℤ n (pos 0) then err check_violation else ok n

-- INSERT INTO balances (user_id, balance) VALUES ($1, $2) ON CONFLICT (user_id) DO NOTHING
unfoldable pub insert_balance : ℤ → ℤ → Sql Tables ℕ
insert_balance user_id start t = do
  u ← int4 user_id
  b ← balance_value start
  elim (lookup u t.balances) [
    | some _ ↦ ok (0, t)
    | none ↦ ok (1, record t { balances = t.balances ++ (u, b) ∷ [] })
  ]

-- SELECT balance FROM balances WHERE user_id = $1 [FOR UPDATE]
unfoldable pub select_balance : ℤ → Sql Tables (Option ℤ)
select_balance user_id t = do u ← int4 user_id; ok (lookup u t.balances, t)

-- UPDATE balances SET balance = … WHERE …: the rows, and how many have changed.
unfoldable pub update_rows : (ℤ → ℤ → Bool) → (ℤ → ℤ) → Assoc ℤ ℤ → Result SqlError (ℕ × Assoc ℤ ℤ)
update_rows matches set [] = ok (0, [])
update_rows matches set ((u, b) ∷ rows) = do
  (n, rest) ← update_rows matches set rows
  if matches u b
      then (do b' ← balance_value (set b); ok (suc n, (u, b') ∷ rest))
      else ok (n, (u, b) ∷ rest)

unfoldable pub update_balances : (ℤ → ℤ → Bool) → (ℤ → ℤ) → Sql Tables ℕ
unfolding update_rows
update_balances matches set t = do
  (n, rows) ← update_rows matches set t.balances
  ok (n, record t { balances = rows })

-- UPDATE balances SET balance = balance - $1 WHERE user_id = $2 AND balance >= $1
unfoldable pub debit_if_covered : ℤ → ℤ → Sql Tables ℕ
debit_if_covered amount user_id t = do
  a ← int4 amount
  u ← int4 user_id
  update_balances (λ v b. v == u && leb_ℤ a b) (λ b. b -ℤ a) t

-- UPDATE balances SET balance = balance - $1 WHERE user_id = $2
unfoldable pub debit : ℤ → ℤ → Sql Tables ℕ
debit amount user_id t = do
  a ← int4 amount
  u ← int4 user_id
  update_balances (λ v b. v == u) (λ b. b -ℤ a) t

-- UPDATE balances SET balance = balance + $1 WHERE user_id = $2
unfoldable pub credit : ℤ → ℤ → Sql Tables ℕ
credit amount user_id t = do
  a ← int4 amount
  u ← int4 user_id
  update_balances (λ v b. v == u) (λ b. b +ℤ a) t

-- REFERENCES balances(user_id)
unfoldable pub references_balance : ℤ → Tables → Result SqlError ℤ
references_balance u t = elim (lookup u t.balances) [
  | some _ ↦ ok u
  | none ↦ err foreign_key_violation
]

-- INSERT INTO transactions (from_user_id, to_user_id, amount) VALUES ($1, $2, $3)
unfoldable pub insert_transaction : ℤ → ℤ → ℤ → Sql Tables ℕ
insert_transaction from to amount t = do
  f ← int4 from
  u ← int4 to
  a ← int4 amount
  f' ← references_balance f t
  u' ← references_balance u t
  ok (
    1,
    record t {
      transactions =
          t.transactions ++ record { from_user_id = f'; to_user_id = u'; amount = a } ∷ [];
    },
  )

unfoldable pub find_good : (GoodRow → Bool) → List GoodRow → Option GoodRow
find_good matches [] = none
find_good matches (g ∷ gs) = if matches g then some g else find_good matches gs

-- REFERENCES goods(id)
unfoldable pub references_good : ℤ → Tables → Result SqlError ℤ
references_good id t = elim (find_good (λ g. g.id == id) t.goods) [
  | some _ ↦ ok id
  | none ↦ err foreign_key_violation
]

-- INSERT INTO purchases (user_id, good_id) VALUES ($1, $2)
unfoldable pub insert_purchase : ℤ → ℤ → Sql Tables ℕ
insert_purchase user_id good_id t = do
  u ← int4 user_id
  g ← int4 good_id
  u' ← references_balance u t
  g' ← references_good g t
  ok (1, record t { purchases = t.purchases ++ record { user_id = u'; good_id = g' } ∷ [] })

-- SELECT id, name, price FROM goods WHERE name = $1
unfoldable pub select_good : String → Sql Tables (Option GoodRow)
unfolding find_good
select_good name t = ok (find_good (λ g. g.name == name) t.goods, t)

-- The names that one purchase joins with, `JOIN goods g ON p.good_id = g.id`.
unfoldable pub joined_names : ℤ → List GoodRow → List String
joined_names id [] = []
joined_names id (g ∷ gs) = if g.id == id then g.name ∷ joined_names id gs else joined_names id gs

unfoldable pub purchased_names : ℤ → List GoodRow → List PurchaseRow → List String
unfolding joined_names
purchased_names u goods [] = []
purchased_names u goods (p ∷ ps) =
    if p.user_id == u
    then joined_names p.good_id goods ++ purchased_names u goods ps
    else purchased_names u goods ps

abbrev pub count_of : Option ℕ → ℕ
count_of none = 0
count_of (some n) = n

-- GROUP BY with COUNT(*)
unfoldable pub group_count : List String → Assoc String ℕ
group_count [] = []
group_count (name ∷ names) =
    let groups = group_count names in insert name (count_of (lookup name groups) + 1) groups

-- SELECT g.name, COUNT(*) FROM purchases p JOIN goods g ON p.good_id = g.id
--   WHERE p.user_id = $1 GROUP BY g.name
unfoldable pub select_purchases : ℤ → Sql Tables (Assoc String ℕ)
unfolding purchased_names group_count
select_purchases user_id t = do
  u ← int4 user_id
  ok (group_count (purchased_names u t.goods t.purchases), t)

unfoldable pub transactions_where :
    (TransactionRow → Bool) → List TransactionRow → List TransactionRow
transactions_where matches [] = []
transactions_where matches (r ∷ rs) =
    if matches r then r ∷ transactions_where matches rs else transactions_where matches rs

-- SELECT from_user_id, to_user_id, amount FROM transactions WHERE from_user_id = $1
unfoldable pub select_sent : ℤ → Sql Tables (List TransactionRow)
unfolding transactions_where
select_sent user_id t = do
  u ← int4 user_id
  ok (transactions_where (λ r. r.from_user_id == u) t.transactions, t)

-- SELECT from_user_id, to_user_id, amount FROM transactions WHERE to_user_id = $1
unfoldable pub select_received : ℤ → Sql Tables (List TransactionRow)
unfolding transactions_where
select_received user_id t = do
  u ← int4 user_id
  ok (transactions_where (λ r. r.to_user_id == u) t.transactions, t)
