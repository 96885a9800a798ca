-- ===== src/Store/RefusedPurchases.antt =====
-- The statuses that the store's BuyItem handler (internal/store/grpc/store_service.go) answers with
-- when a purchase is not allowed.
use Prim.Native.String.{◌++◌}
use merch_store.Base.{
  ℕ, ◌≡◌, refl, ◌<◌, true, String, Option, none, some, [], ok, err, arith, lookup, int_keys,
  string_keys, ◌==◌, ltb,
}
use merch_store.Base.Int.{ℤ, pos}
use merch_store.Base.Words.{show_int}
use merch_store.Errors.{
  domain, wrapped, status, invalid_argument, not_found, failed_precondition, errors_is, is_no_rows,
}
use merch_store.Api.{BuyItemRequest}
use merch_store.Database.{Session, tx, run, within_transaction, begin, commit}
use merch_store.Store.Domain.{
  StoreError, GoodInfo, insufficient_balance, user_not_found, good_not_found, is_good_not_found,
  is_user_not_found, is_insufficient_balance,
}
use merch_store.Store.Tables.{Tables, GoodRow, find_good, select_good}
use merch_store.Store.Repositories.{get_good_info, scan_good, scan_price, scan_uint32}
use merch_store.Store.Cases.{buy_in_transaction, buy_item}
use merch_store.Store.Interceptors.{Context}
use merch_store.Store.Service.{
  Dependencies, serve_buy_item, retrieve_user_id, user_id_of, buy_item_status,
}
use merch_store.Store.Success.{FitsInt4}
use merch_store.Store.Sending.{open_session}
use merch_store.Store.Refusals.{short_lock, missing_lock}

abbrev pub row_named : String → Tables → Option GoodRow
row_named name t = find_good (λ g. g.name == name) t.goods

abbrev priced : GoodRow → ℕ → GoodInfo
priced row price = record { id = row.id; name = row.name; price = price }

module _ (name : String) (s : Session Tables) where
  unknown_good :
      row_named name s.committed ≡ none
      → (get_good_info name (record s { fates = [] })).0
        ≡ err (domain (good_not_found ("good " ++ name ++ " not found")))
  unfolding get_good_info run select_good scan_good is_no_rows
  unknown_good e = rw e refl

  known_good :
      (row : GoodRow) (price : ℕ)
      → row_named name s.committed ≡ some row
      → row.price ≡ pos price
      → get_good_info name (record s { fates = [] })
        ≡ (ok (priced row price), record s { fates = [] })
  unfolding get_good_info run select_good scan_good scan_price scan_uint32
  known_good row price e costs = rw (e, costs) refl

module _ (user : ℤ) (fits : FitsInt4 user) (good : GoodInfo) (t : Tables) where
  short_purchase :
      (balance : ℕ)
      → lookup user t.balances ≡ some (pos balance)
      → balance < good.price
      → buy_in_transaction user good tx (open_session t t)
        ≡ (err (domain (insufficient_balance "insufficient balance")), open_session t t)
  unfolding buy_in_transaction
  short_purchase balance held lt =
      let short : ltb balance good.price ≡ true = ground arith in
      rw (short_lock 0 user user fits t balance held, short) refl

  missing_purchase :
      lookup user t.balances ≡ none
      → buy_in_transaction user good tx (open_session t t) ≡ (
        err (
            wrapped "failed to lock and get user balance"
              (domain (user_not_found ("user with id " ++ show_int user ++ " not found")))),
        open_session t t,
      )
  unfolding buy_in_transaction
  missing_purchase absent = rw (missing_lock 0 user user fits t absent) refl

failed_purchase :
    (user : ℤ) (good : GoodInfo) (s : Session Tables) (e : StoreError)
    → buy_in_transaction user good tx (open_session s.committed s.committed)
      ≡ (err e, open_session s.committed s.committed)
    → (within_transaction (buy_in_transaction user good) (record s { fates = [] })).0
      ≡ err (wrapped "failed to execute logic within transaction" e)
unfolding within_transaction begin commit
failed_purchase user good s e h = rw h refl

-- Why a purchase is not allowed, and the status that says so.
pub data RefusedPurchase (user : ℤ) (name : String) (t : Tables) : StoreError → Type 0 where
  no_such_good :
      row_named name t ≡ none
      → RefusedPurchase user name t (status invalid_argument "item not found")
  no_buyer :
      (row : GoodRow) (price : ℕ)
      → row_named name t ≡ some row
      → row.price ≡ pos price
      → FitsInt4 user
      → lookup user t.balances ≡ none
      → RefusedPurchase user name t (status not_found "user not found")
  too_dear :
      (row : GoodRow) (price balance : ℕ)
      → row_named name t ≡ some row
      → row.price ≡ pos price
      → FitsInt4 user
      → lookup user t.balances ≡ some (pos balance)
      → balance < price
      → RefusedPurchase user name t (status failed_precondition "insufficient funds")

-- If the database does not fail, a purchase that is not allowed is answered with the status of the
-- reason: a good that does not exist with InvalidArgument, a buyer without a balance with NotFound,
-- and a balance below the price with FailedPrecondition.
pub serve_buy_item-RefusedPurchase :
    (d : Dependencies) (user : ℤ) (req : BuyItemRequest) (ctx : Context) (s : Session Tables)
    → ctx.user_id ≡ some user
    → {e : StoreError} → RefusedPurchase user req.item_name s.committed e
    → (serve_buy_item d req ctx (record s { fates = [] })).0 ≡ err e
unfolding serve_buy_item retrieve_user_id user_id_of buy_item buy_item_status errors_is
    is_good_not_found is_user_not_found is_insufficient_balance
serve_buy_item-RefusedPurchase d user req ctx s named (no_such_good h) =
    rw (named, unknown_good req.item_name s h) refl
serve_buy_item-RefusedPurchase d user req ctx s named (no_buyer row price found costs fits absent) =
    rw
      (
        named,
        known_good req.item_name s row price found costs,
        failed_purchase user (priced row price) s _
            (missing_purchase user fits (priced row price) s.committed absent),
      )
      refl
serve_buy_item-RefusedPurchase d user req ctx s named
      (too_dear row price balance found costs fits held lt) =
    rw
      (
        named,
        known_good req.item_name s row price found costs,
        failed_purchase user (priced row price) s _
            (short_purchase user fits (priced row price) s.committed balance held lt),
      )
      refl
