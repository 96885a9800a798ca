-- ===== src/Store/Repositories.antt =====
-- internal/store/infrastructure/postgres: the repositories and the handlers that write. The
-- executor is the argument that Go passes, or the pool that the repository was built with.
use Prim.Native.String.{◌++◌}
use merch_store.Base.{
  ℕ, zero, String, Option, none, some, List, [], ◌∷◌, Result, ok, err, Assoc, string_keys, insert,
  take, if◌then◌else◌,
}
use merch_store.Base.Int.{ℤ, pos, negsuc}
use merch_store.Base.Words.{to_uint32, show_int}
use merch_store.Errors.{domain, wrapped, no_rows, scan_failed, is_no_rows, SqlError}
use merch_store.Database.Statement.{Sql}
use merch_store.Database.{
  Executor, pool, Action, Fate, lost, next_fate, continue, ◌>>=◌, ◌>>◌, pure, fail, lift, query,
  rescue, wrap_error,
}
use merch_store.Store.Domain.{
  DomainError, StoreError, insufficient_balance, user_not_found, good_not_found, balance_not_found,
  GoodInfo, DirectTransfer, TransferHistory,
}
use merch_store.Store.Tables.{
  Tables, GoodRow, TransactionRow, insert_balance, select_balance, debit_if_covered, debit, credit,
  insert_transaction, insert_purchase, select_good, select_purchases, select_sent, select_received,
}

abbrev pub StoreAction : Type 0 → Type 0
StoreAction = Action Tables DomainError

-- `Scan` of an INTEGER into a `uint32`: a negative number does not fit.
unfoldable pub scan_uint32 : ℤ → Result StoreError ℕ
scan_uint32 (pos n) = ok n
scan_uint32 (negsuc n) = err scan_failed

-- `QueryRow(…).Scan(&balance)`
unfoldable pub scan_balance : Option ℤ → Result StoreError ℕ
unfolding scan_uint32
scan_balance none = err no_rows
scan_balance (some b) = scan_uint32 b

unfoldable pub scan_price : GoodRow → Result StoreError ℕ → Result StoreError GoodInfo
scan_price g (ok price) = ok (record { id = g.id; name = g.name; price = price })
scan_price g (err e) = err e

-- `QueryRow(…).Scan(&good.Id, &good.Name, &good.Price)`
unfoldable pub scan_good : Option GoodRow → Result StoreError GoodInfo
unfolding scan_uint32 scan_price
scan_good none = err no_rows
scan_good (some g) = scan_price g (scan_uint32 g.price)

-- `BalancesRepository.EnsureBalanceCreated`
unfoldable pub ensure_balance_created : ℤ → ℕ → StoreAction (Unit {0})
ensure_balance_created user_id start_value = do
  query pool (insert_balance user_id (pos start_value))
  pure tt

abbrev user_row_error : ℤ → StoreError → StoreError
user_row_error user_id e =
    if is_no_rows e
    then domain (user_not_found ("user with id " ++ show_int user_id ++ " not found"))
    else wrapped "failed to lock user row" e

-- `BalancesRepository.LockAndGetUserBalance`
unfoldable pub lock_and_get_user_balance : Executor → ℤ → StoreAction ℕ
unfolding scan_balance is_no_rows
lock_and_get_user_balance x user_id =
    rescue (λ e. err (user_row_error user_id e))
      (do row ← query x (select_balance user_id); lift (scan_balance row))

abbrev good_error : String → StoreError → StoreError
good_error name e =
    if is_no_rows e
    then domain (good_not_found ("good " ++ name ++ " not found"))
    else wrapped "failed to find good" e

-- `GoodsRepository.GetGoodInfo`
unfoldable pub get_good_info : String → StoreAction GoodInfo
unfolding scan_good is_no_rows
get_good_info name =
    rescue (λ e. err (good_error name e))
      (do row ← query pool (select_good name); lift (scan_good row))

-- `PurchaseHandler.ProcessPurchase`
unfoldable pub process_purchase : Executor → ℤ → GoodInfo → StoreAction (Unit {0})
process_purchase x user_id good = do
  wrap_error "failed to update user balance" (query x (debit (pos good.price) user_id))
  wrap_error "failed to insert purchase record" (query x (insert_purchase user_id good.id))
  pure tt

-- `tag.RowsAffected() == 0`
abbrev pub covered : ℕ → StoreAction (Unit {0})
covered zero = fail (domain (insufficient_balance ""))
covered _ = pure tt

-- `TransactionProceeder.ProceedTransaction`
unfoldable pub proceed_transaction : Executor → ℕ → ℤ → ℤ → StoreAction (Unit {0})
proceed_transaction x amount from_user_id to_user_id = do
  rows_affected ←
      wrap_error "failed to update balance for fromUser"
        (query x (debit_if_covered (pos amount) from_user_id))
  covered rows_affected
  wrap_error "failed to update balance for toUser" (query x (credit (pos amount) to_user_id))
  wrap_error "failed to insert transaction record"
      (query x (insert_transaction from_user_id to_user_id (pos amount)))
  pure tt

abbrev balance_row_error : ℤ → StoreError → StoreError
balance_row_error user_id e =
    if is_no_rows e
    then domain
        (balance_not_found ("balance for user with id " ++ show_int user_id ++ " not found"))
    else e

-- `UserInfoRepository.FetchUserBalance`
unfoldable pub fetch_user_balance : ℤ → StoreAction ℕ
unfolding scan_balance is_no_rows
fetch_user_balance user_id =
    rescue (λ e. err (balance_row_error user_id e))
      (do row ← query pool (select_balance user_id); lift (scan_balance row))

-- The loop of `FetchUserPurchases`: `goods[good] = uint32(count)`.
unfoldable pub collect_goods : Assoc String ℕ → Assoc String ℕ → Assoc String ℕ
collect_goods goods [] = goods
collect_goods goods ((name, count) ∷ rows) =
    collect_goods (insert name (to_uint32 (pos count)) goods) rows

-- The rows that `rows.Next` delivers when the answer breaks off after `received` of them; only
-- `rows.Err` would tell, and `FetchUserPurchases` does not ask for it.
abbrev pub delivered :
    {A : Type 0}
    → ℕ
    → Fate
    → Result SqlError (List A × Tables)
    → Result StoreError (List A)
    → Result StoreError (List A)
delivered received lost (ok (rows, _)) r = ok (take received rows)
delivered received _ _ r = r

-- `UserInfoRepository.FetchUserPurchases`
unfoldable pub fetch_user_purchases : ℕ → ℤ → StoreAction (Assoc String ℕ)
unfolding collect_goods
fetch_user_purchases received user_id s =
    let (r, s') = query pool (select_purchases user_id) s in
    continue (λ rows. pure (collect_goods [] rows))
      (delivered received (next_fate s.fates) (select_purchases user_id s.committed) r) s'

-- `processRows`
unfoldable pub process_rows : (TransactionRow → ℤ) → List TransactionRow → List DirectTransfer
process_rows get_target_id [] = []
process_rows get_target_id (r ∷ rs) =
    record { target_id = get_target_id r; amount = to_uint32 r.amount }
    ∷ process_rows get_target_id rs

-- `Query` for several rows: the error that `Query` returns, or what `rows` gives in the end.
abbrev pub opened :
    {A : Type 0} → Fate → Result StoreError A → Result StoreError (Result StoreError A)
opened lost r = ok r
opened _ (ok a) = ok (ok a)
opened _ (err e) = err e

abbrev pub open_rows : {A : Type 0} → Sql Tables A → StoreAction (Result StoreError A)
open_rows q s = let (r, s') = query pool q s in (opened (next_fate s.fates) r, s')

-- `UserInfoRepository.FetchUserCoinTransfers`
unfoldable pub fetch_user_coin_transfers : ℤ → StoreAction TransferHistory
unfolding process_rows
fetch_user_coin_transfers user_id = do
  outcoming ← open_rows (select_sent user_id)
  incoming ← open_rows (select_received user_id)
  outcoming_rows ← lift outcoming
  incoming_rows ← lift incoming
  pure (record {
    incoming_transfers = process_rows (λ r. r.from_user_id) incoming_rows;
    outcoming_transfers = process_rows (λ r. r.to_user_id) outcoming_rows;
  })
