-- ===== src/Tests/Store.antt =====
-- The store's theorems on two users and two goods, without faults and with them.
use merch_store.Base.{◌≡◌, refl, [], ◌∷◌, err, arith, lookup, int_keys, ◌⊎◌}
use merch_store.Base.Int.{◌+ℤ◌, pos, eqb_ℤ}
use merch_store.Errors.{domain, wrapped, sql, connection, is_no_rows}
use merch_store.Database.{done, refused, lost, run, within_transaction, begin, commit}
use merch_store.Store.Domain.{insufficient_balance}
use merch_store.Store.Tables.{find_good, insert_balance, balance_value, select_balance}
use merch_store.Database.Statement.{int4}
use merch_store.Base.Words.{show_int}
use merch_store.Store.Updates.{AreBalances}
use merch_store.Store.Cases.{send_coins, buy_item, send_to, send_in_transaction}
use merch_store.Store.Repositories.{
  ensure_balance_created, lock_and_get_user_balance, get_good_info, scan_balance, scan_uint32,
}
use merch_store.Store.Transfers
use merch_store.Store.Transfers.{send_coins_unchanged}
use merch_store.Store.Buying
use merch_store.Store.Buying.{buy_item_unchanged}
use merch_store.Store.Ledger.{IsValid}
use merch_store.Store.Ledger.Requests.{ensure, send, buy, serve, serve-IsValid}
use merch_store.Tests.Data.{new_tables, two_users, session, id_of}

two_users-AreBalances : AreBalances two_users.balances
unfolding lookup eqb_ℤ
two_users-AreBalances = ground arith

new_tables-IsValid : IsValid new_tables
unfolding find_good eqb_ℤ lookup ◌+ℤ◌
new_tables-IsValid = record {
  balances = tt;
  ids = (refl, (refl, tt));
  books = λ j. (refl, refl, refl);
  coins = refl;
}

serve-IsValid_example :
    IsValid
      (serve id_of
        (ensure (pos 1)
          ∷ ensure (pos 2)
          ∷ send (pos 1) "bob" 300
          ∷ buy (pos 2) "cup"
          ∷ buy (pos 1) "cup"
          ∷ [])
        (session new_tables (done ∷ done ∷ done ∷ done ∷ done ∷ done ∷ done ∷ lost ∷ []))).committed
serve-IsValid_example =
    serve-IsValid id_of
      (ensure (pos 1)
        ∷ ensure (pos 2)
        ∷ send (pos 1) "bob" 300
        ∷ buy (pos 2) "cup"
        ∷ buy (pos 1) "cup"
        ∷ [])
      (session new_tables (done ∷ done ∷ done ∷ done ∷ done ∷ done ∷ done ∷ lost ∷ []))
      new_tables-IsValid

too_much :
    (send_coins id_of (pos 1) "bob" 5000 (session two_users [])).0
    ≡ err (
        wrapped "failed to execute logic within transaction"
          (domain (insufficient_balance "user 1 has insufficient balance")))
unfolding send_coins send_to ensure_balance_created within_transaction begin commit
    send_in_transaction run eqb_ℤ insert_balance int4 balance_value lookup lock_and_get_user_balance
    select_balance scan_balance scan_uint32 show_int
too_much = refl

send_coins_unchanged_example :
    let u = (send_coins id_of (pos 1) "bob" 5000 (session two_users [])).1.committed in
    (u ≡ two_users) ⊎ Transfers.Receives id_of (pos 1) "bob" two_users u
send_coins_unchanged_example =
    send_coins_unchanged id_of (pos 1) "bob" 5000 (session two_users []) two_users-AreBalances tt
      too_much

no_purchase :
    (buy_item (pos 1) "cup" (session two_users (refused ∷ []))).0
    ≡ err (wrapped "failed to get good info" (wrapped "failed to find good" (sql connection)))
unfolding buy_item get_good_info run is_no_rows
no_purchase = refl

buy_item_unchanged_example :
    (buy_item (pos 1) "cup" (session two_users (refused ∷ []))).1.committed ≡ two_users
buy_item_unchanged_example =
    buy_item_unchanged (pos 1) "cup" (session two_users (refused ∷ [])) tt no_purchase

no_transaction :
    (within_transaction
      (send_in_transaction (pos 1) (pos 2) 300)
      (session two_users (done ∷ refused ∷ []))).0
    ≡ err (
        wrapped "failed to execute logic within transaction" (
          wrapped "failed to lock and get balance for user 1"
            (wrapped "failed to lock user row" (sql connection))))
unfolding within_transaction begin commit send_in_transaction run lock_and_get_user_balance
    is_no_rows show_int
no_transaction = refl
