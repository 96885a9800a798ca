-- ===== src/Store/Cases.antt =====
-- internal/store/application: buying an item and sending coins.
use Prim.Native.String.{◌++◌}
use merch_store.Base.{ℕ, String, Result, err, ◌==◌, int_keys, ltb, if◌then◌else◌}
use merch_store.Base.Int.{ℤ}
use merch_store.Base.Words.{show_int}
use merch_store.Errors.{domain}
use merch_store.Database.{Executor, ◌>>=◌, ◌>>◌, fail, lift, rescue, wrap_error, within_transaction}
use merch_store.Store.Domain.{
  StoreError, invalid_arguments, insufficient_balance, user_not_found, start_balance, GoodInfo,
}
use merch_store.Store.Repositories.{
  StoreAction, ensure_balance_created, lock_and_get_user_balance, get_good_info, process_purchase,
  proceed_transaction,
}

-- The function that `BuyItem` runs in its transaction.
unfoldable pub buy_in_transaction : ℤ → GoodInfo → Executor → StoreAction (Unit {0})
buy_in_transaction user_id good_info executor = do
  balance ←
      wrap_error "failed to lock and get user balance" (lock_and_get_user_balance executor user_id)
  if ltb balance good_info.price
      then fail (domain (insufficient_balance "insufficient balance"))
      else wrap_error "failed to process purchase" (process_purchase executor user_id good_info)

-- `PurchaseCase.BuyItem`
unfoldable pub buy_item : ℤ → String → StoreAction (Unit {0})
buy_item user_id good_name = do
  good_info ← wrap_error "failed to get good info" (get_good_info good_name)
  within_transaction (buy_in_transaction user_id good_info)

-- The function that `SendCoins` runs in its transaction.
unfoldable pub send_in_transaction : ℤ → ℤ → ℕ → Executor → StoreAction (Unit {0})
send_in_transaction from_user_id to_user_id amount executor = do
  from_user_balance ←
      wrap_error ("failed to lock and get balance for user " ++ show_int from_user_id)
        (lock_and_get_user_balance executor from_user_id)
  if ltb from_user_balance amount
      then fail (
          domain (
            insufficient_balance ("user " ++ show_int from_user_id ++ " has insufficient balance")))
      else wrap_error "failed to proceed transaction"
          (proceed_transaction executor amount from_user_id to_user_id)

-- `SendCoins` once the receiver's id is known.
unfoldable pub send_to : ℤ → ℕ → ℤ → StoreAction (Unit {0})
send_to from_user_id amount to_user_id =
    if to_user_id == from_user_id
    then fail (domain (invalid_arguments "from_user must differ from to_user"))
    else (do
      wrap_error ("failed to ensure balance for user " ++ show_int to_user_id)
          (ensure_balance_created to_user_id start_balance)
      within_transaction (send_in_transaction from_user_id to_user_id amount))

-- `SendCoinsCase.SendCoins`; the first argument is the `UserIDFetcher`.
unfoldable pub send_coins : (String → Result StoreError ℤ) → ℤ → String → ℕ → StoreAction (Unit {0})
send_coins fetch_user_id from_user_id to_username amount = do
  to_user_id ←
      rescue (λ _. err (domain (user_not_found ("user not found: " ++ to_username))))
        (lift (fetch_user_id to_username))
  send_to from_user_id amount to_user_id
