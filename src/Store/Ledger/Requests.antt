-- ===== src/Store/Ledger/Requests.antt =====
-- The books over any sequence of writes that the store service makes (SendCoins, BuyItem and the
-- balance interceptor's EnsureBalanceCreated), one after another, whatever the database does.
use merch_store.Base.{ℕ, String, List, [], ◌∷◌, Result, ok, err, inl, inr}
use merch_store.Base.Int.{ℤ}
use merch_store.Database.{Session}
use merch_store.Database.Atomicity.{Ended}
use merch_store.Store.Domain.{StoreError, start_balance}
use merch_store.Store.Tables.{Tables}
use merch_store.Store.Repositories.{StoreAction, ensure_balance_created}
use merch_store.Store.Cases.{send_coins, buy_item}
use merch_store.Store.Opening.{Opened, ensure_balance_created-Ended}
use merch_store.Store.Transfers
use merch_store.Store.Buying
use merch_store.Store.Ledger.{IsValid}
use merch_store.Store.Ledger.Preserved.{Opened-IsValid, Sent-IsValid, Bought-IsValid}

-- A write that a request causes, with the user that the token names.
pub data Request : Type 0 where
  ensure : ℤ → Request
  send : ℤ → String → ℕ → Request
  buy : ℤ → String → Request

module _ (fetch_user_id : String → Result StoreError ℤ) where
  unfoldable pub handle : Request → StoreAction (Unit {0})
  handle (ensure user) = ensure_balance_created user start_balance
  handle (send user to amount) = send_coins fetch_user_id user to amount
  handle (buy user item) = buy_item user item

  -- The results go to the clients; the session goes on.
  unfoldable pub serve : List Request → Session Tables → Session Tables
  unfolding handle
  serve [] s = s
  serve (r ∷ rs) s = serve rs (handle r s).1

  transfer-IsValid :
      (from : ℤ) (name : String) (amount : ℕ) (t : Tables) (r : Result StoreError (Unit {0}))
      (u : Tables)
      → Transfers.Outcome fetch_user_id from name amount t r u
      → IsValid t
      → IsValid u
  transfer-IsValid from name amount t (ok _) u o v =
      Sent-IsValid amount from o.receives.to o.middle u o.receives.differ o.sent
        (Opened-IsValid o.receives.to t o.middle o.receives.opened v)
  transfer-IsValid from name amount t (err e) u (inl same) v = rw same v
  transfer-IsValid from name amount t (err e) u (inr (inl o)) v = Opened-IsValid o.to t u o.opened v
  transfer-IsValid from name amount t (err e) u (inr (inr o)) v =
      Sent-IsValid amount from o.receives.to o.middle u o.receives.differ o.sent
        (Opened-IsValid o.receives.to t o.middle o.receives.opened v)

  purchase-IsValid :
      (user : ℤ) (name : String) (t : Tables) (r : Result StoreError (Unit {0})) (u : Tables)
      → Buying.Outcome user name t r u
      → IsValid t
      → IsValid u
  purchase-IsValid user name t (ok _) u o v =
      Bought-IsValid user name o.good t u o.on_sale o.bought v
  purchase-IsValid user name t (err e) u (inl same) v = rw same v
  purchase-IsValid user name t (err e) u (inr o) v =
      Bought-IsValid user name o.good t u o.on_sale o.bought v

  opening-IsValid :
      (user : ℤ) (t : Tables) (r : Result StoreError (Unit {0})) (u : Tables)
      → Ended (λ t' _ u'. Opened user start_balance t' u') t r u
      → IsValid t
      → IsValid u
  opening-IsValid user t (ok _) u o v = Opened-IsValid user t u o v
  opening-IsValid user t (err e) u (inl same) v = rw same v
  opening-IsValid user t (err e) u (inr (_, o)) v = Opened-IsValid user t u o v

  handle-IsValid :
      (r : Request) (s : Session Tables) → IsValid s.committed → IsValid (handle r s).1.committed
  unfolding handle
  handle-IsValid (ensure user) s v =
      let (r, s') = ensure_balance_created user start_balance s in
      opening-IsValid user s.committed r s'.committed
        (ensure_balance_created-Ended user start_balance s) v
  handle-IsValid (send user to amount) s v =
      let (r, s') = send_coins fetch_user_id user to amount s in
      transfer-IsValid user to amount s.committed r s'.committed
        (Transfers.send_coins-Outcome fetch_user_id user to amount s v.balances) v
  handle-IsValid (buy user item) s v =
      let (r, s') = buy_item user item s in
      purchase-IsValid user item s.committed r s'.committed
        (Buying.buy_item-Outcome user item s v.balances) v

  -- If the books hold before, they hold after any sequence of SendCoins, BuyItem and
  -- EnsureBalanceCreated calls, whichever of their statements fail or lose their answers: every
  -- balance is within the schema's range and equals the starting balance plus what the user has
  -- received, less what the user has sent and spent, and all balances together with the prices of
  -- all purchases make the starting balance of every user.
  pub serve-IsValid :
      (rs : List Request) (s : Session Tables)
      → IsValid s.committed
      → IsValid (serve rs s).committed
  unfolding serve
  serve-IsValid [] s v = v
  serve-IsValid (r ∷ rs) s v = serve-IsValid rs (handle r s).1 (handle-IsValid r s v)
