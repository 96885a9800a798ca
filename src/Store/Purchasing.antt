-- ===== src/Store/Purchasing.antt =====
-- BuyItem makes a purchase whenever it is allowed and nothing goes wrong with the database.
use merch_store.Base.{
  ℕ, ◌≡◌, ◌≢◌, refl, ◌≤◌, Bool, true, false, none, some, List, [], ◌∷◌, Result, String, ok, err,
  arith, lookup, int_keys, string_keys, ◌==◌, ltb, Option-cases, same_refl,
}
use merch_store.Base.Int.{ℤ, pos, eqb_ℤ_iff, int_laws, ◌-ℤ◌}
use merch_store.Database.{tx, run, begin, commit, within_transaction}
use merch_store.Store.Domain.{StoreError, GoodInfo}
use merch_store.Store.Tables.{
  Tables, GoodRow, find_good, select_balance, debit, insert_purchase, references_balance,
  references_good, select_good,
}
use merch_store.Store.Repositories.{
  lock_and_get_user_balance, process_purchase, get_good_info, scan_balance, scan_good, scan_price,
  scan_uint32,
}
use merch_store.Store.Cases.{buy_in_transaction, buy_item}
use merch_store.Store.Updates.{AreBalances, IsBalance}
use merch_store.Store.Effects.{is_user, with_purchase}
use merch_store.Store.Buying
use merch_store.Store.Buying.{buy_item-Outcome}
use merch_store.Store.Success.{FitsInt4, int4_fits, lookup_range, Updated, update_balances_succeeds}
use merch_store.Store.Sending.{open_session, run_tx_done}

-- A good that is found by its name is found by its id.
good_by_its_id :
    (name : String) (goods : List GoodRow) (row : GoodRow)
    → find_good (λ g. g.name == name) goods ≡ some row
    → find_good (λ g. g.id == row.id) goods ≢ none
unfolding find_good
good_by_its_id name [] row h = cc
good_by_its_id name (g ∷ goods) row h =
    λ gone. ground (arith, good_by_its_id name goods row, eqb_ℤ_iff g.id row.id, h, gone)

-- The statements on tables where the purchase of `row` is allowed.
module _ (user : ℤ) (name : String) (row : GoodRow) (price balance : ℕ) (t : Tables)
    (v : AreBalances t.balances) (fits_user : FitsInt4 user) (fits_id : FitsInt4 row.id)
    (fits_price : FitsInt4 (pos price)) (found : find_good (λ g. g.name == name) t.goods ≡ some row)
    (costs : row.price ≡ pos price) (held : lookup user t.balances ≡ some (pos balance))
    (covers : price ≤ balance) where
  abbrev good : GoodInfo
  good = record { id = row.id; name = row.name; price = price }

  debited_fits : IsBalance (pos balance -ℤ pos price)
  debited_fits = grind (int_laws, lookup_range user (pos balance) t.balances v held)

  only_user : (w b : ℤ) → is_user user w b ≡ true → w ≡ user
  only_user w b h = ground (arith, eqb_ℤ_iff w user)

  debited :
      Updated
        (is_user user)
        (λ b. b -ℤ pos price)
        user
        only_user
        t
        v
        (pos balance)
        held
        (same_refl user)
        debited_fits
  debited =
      update_balances_succeeds (is_user user) (λ b. b -ℤ pos price) user only_user t v (pos balance)
        held (same_refl user) debited_fits

  select_done : select_balance user t ≡ ok (some (pos balance), t)
  unfolding select_balance
  select_done = rw (int4_fits user fits_user, held) refl

  debit_done : debit (pos price) user t ≡ ok (1, debited.u)
  unfolding debit
  debit_done = rw (int4_fits (pos price) fits_price, int4_fits user fits_user) debited.done

  user_kept : references_balance user debited.u ≡ ok user
  unfolding references_balance
  user_kept =
      ground (arith, Option-cases (lookup user debited.u.balances), debited.changes user, held)

  good_kept : references_good row.id debited.u ≡ ok row.id
  unfolding references_good
  good_kept = ground (
    arith,
    debited.goods,
    good_by_its_id name t.goods row found,
    Option-cases (find_good (λ g. g.id == row.id) t.goods),
  )

  insert_done : insert_purchase user row.id debited.u ≡ ok (1, with_purchase user row.id debited.u)
  unfolding insert_purchase
  insert_done = rw (int4_fits user fits_user, int4_fits row.id fits_id, user_kept, good_kept) refl

  good_done :
      (w : Tables) (a : Bool)
      → get_good_info name (record { committed = t; work = w; aborted = a; fates = [] })
        ≡ (ok good, record { committed = t; work = w; aborted = a; fates = [] })
  unfolding get_good_info run select_good scan_good scan_price scan_uint32
  good_done w a = rw (found, costs) refl

  lock_done : lock_and_get_user_balance tx user (open_session t t) ≡ (ok balance, open_session t t)
  unfolding lock_and_get_user_balance scan_balance scan_uint32
  lock_done = rw (run_tx_done _ t t t _ select_done) refl

  purchase_done :
      process_purchase tx user good (open_session t t)
      ≡ (ok tt, open_session t (with_purchase user row.id debited.u))
  unfolding process_purchase
  purchase_done = rw (run_tx_done _ t t _ _ debit_done, run_tx_done _ t _ _ _ insert_done) refl

  enough : ltb balance price ≡ false
  enough = ground arith

  transaction_done :
      buy_in_transaction user good tx (open_session t t)
      ≡ (ok tt, open_session t (with_purchase user row.id debited.u))
  unfolding buy_in_transaction
  transaction_done = rw (lock_done, enough, purchase_done) refl

  buy_item_done :
      (w : Tables) (a : Bool)
      → (buy_item user name (record { committed = t; work = w; aborted = a; fates = [] })).0 ≡ ok tt
  unfolding buy_item within_transaction begin commit
  buy_item_done w a = rw (good_done w a, transaction_done) refl

  ok_end :
      (r : Result StoreError (Unit {0})) (u : Tables)
      → r ≡ ok tt
      → Buying.Outcome user name t r u
      → Buying.Purchase user name t u
  ok_end (ok _) u h o = o
  ok_end (err e) u h o = cc

  -- BuyItem makes the purchase, and reports no error, if the good is on sale, the balance covers
  -- its price, the numbers fit their columns, the schema allows the balances, and the database does
  -- not fail.
  pub buy_item_succeeds :
      (w : Tables) (a : Bool)
      → let (r, s') =
          buy_item user name (record { committed = t; work = w; aborted = a; fates = [] }) in
        (r ≡ ok tt) × Buying.Purchase user name t s'.committed
  buy_item_succeeds w a =
      let (r, s') =
        buy_item user name (record { committed = t; work = w; aborted = a; fates = [] }) in
      (
        buy_item_done w a,
        ok_end r s'.committed (buy_item_done w a) (
            buy_item-Outcome user name (record { committed = t; work = w; aborted = a; fates = [] })
              v),
      )
