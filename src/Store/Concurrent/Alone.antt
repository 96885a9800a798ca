-- ===== src/Store/Concurrent/Alone.antt =====
-- The steps of one request, taken one after the other with nobody in between, are the transactions
-- of SendCoins and BuyItem in Store/Cases.antt.
use merch_store.Base.{
  String, ℕ, ◌+◌, ◌≤◌, ◌≡◌, ◌≢◌, refl, sym, subst, some, ok, arith, lookup, insert, int_keys,
}
use merch_store.Base.Int.{ℤ, pos, ◌-ℤ◌, eqb_ℤ_iff}
use merch_store.Database.{Session, within_transaction}
use merch_store.Database.Statement.{max_int4}
use merch_store.Database.Atomicity.{within_transaction-Ended}
use merch_store.Store.Domain.{GoodInfo}
use merch_store.Store.Tables.{Tables}
use merch_store.Store.Updates.{AreBalances}
use merch_store.Store.Effects.{is_user, Buys, buy-InTx}
use merch_store.Store.Buying.{IsOnSale}
use merch_store.Store.Cases.{buy_in_transaction}
use merch_store.Store.Concurrent.{
  Parcel, Order, Pc, idle, Move, begin_purchase, lock_buyer, pay, record_purchase, commit_bought,
  commit_purchase,
}
use merch_store.Store.Concurrent.Rows.{update_rows-eq-insert}

-- Steps of one request on a database that no other request uses.
pub data Alone (t : Tables) (c : Pc) : Tables → Pc → Type 0 where
  stay : Alone t c t c
  next : {u v : Tables} {d e : Pc} → Alone t c u d → Move u (λ _. Unit) d v e → Alone t c v e

module _ (t : Tables) (v : AreBalances t.balances) where
  module _ (p : Parcel) (differ : p.to ≢ p.from) where
    -- The receiver's balance, which had room for the amount.
    record Receiver : Type 0 where
      other : ℕ
      found : lookup p.to t.balances ≡ some (pos other)
      room : other + p.amount ≤ max_int4

  module _ (o : Order) (on_sale : IsOnSale o.name o.good t) (u : Tables)
      (s : Buys o.user o.good t u) where
    open s.purchases use {n, t₁, debited, recorded}

    pays-insert : t₁.balances ≡ insert o.user (pos s.balance -ℤ pos o.good.price) t.balances
    pays-insert =
        update_rows-eq-insert (is_user o.user) (λ b. b -ℤ pos o.good.price) o.user
          (λ w b h. (eqb_ℤ_iff w o.user).0 h) (pos s.balance) t.balances n t₁.balances debited.0 v
          s.held ((eqb_ℤ_iff o.user o.user).1 refl)

    buys_commits : u ≡ commit_purchase o s.balance t
    unfolding commit_purchase
    buys_commits = ground (arith, recorded, debited.1, pays-insert)

    buys-Alone : Alone t idle u idle
    buys-Alone =
        subst (λ w. Alone t idle w idle) (sym buys_commits)
          (next
            (next
              (next
                (next (next stay (begin_purchase on_sale))
                  (lock_buyer {balance = s.balance} tt s.held))
                (pay (ground arith) s.held s.covers))
              record_purchase)
            commit_bought)

module _ (s : Session Tables) (v : AreBalances s.committed.balances) where
  -- On balances that the schema allows, a transaction of BuyItem for a good that is on sale that
  -- ends without an error has done to the tables what the steps of one request do, one after the
  -- other.
  pub buy_in_transaction-Alone :
      (user : ℤ) (name : String) (good : GoodInfo)
      → IsOnSale name good s.committed
      → (within_transaction (buy_in_transaction user good) s).0 ≡ ok tt
      → Alone s.committed idle
          (within_transaction (buy_in_transaction user good) s).1.committed
          idle
  buy_in_transaction-Alone user name good on_sale h =
      buys-Alone s.committed v (record { user = user; name = name; good = good }) on_sale
        (within_transaction (buy_in_transaction user good) s).1.committed
        (rw h at (within_transaction-Ended (buy_in_transaction user good) (buy-InTx user good) s))
