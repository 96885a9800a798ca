-- ===== src/Store/Concurrent/Commits.antt =====
-- A commit of a transaction whose rows have not changed since it locked them is one whole transfer,
-- or one whole purchase, of the contract in Store/Spec.antt.
use merch_store.Base.{
  insert, ℕ, ◌+◌, ◌≤◌, ◌≡◌, ◌≢◌, refl, ◌∙◌, false, some, arith, lookup, lookup-insert, int_keys,
}
use merch_store.Base.Int.{pos, ◌+ℤ◌, ◌-ℤ◌, eqb_ℤ, eqb_ℤ_iff, int_laws}
use merch_store.Database.Statement.{max_int4}
use merch_store.Store.Tables.{Tables}
use merch_store.Store.Updates.{AreBalances, IsBalance}
use merch_store.Store.Success.{lookup_range}
use merch_store.Store.Spec.{Sent, Bought}
use merch_store.Store.Concurrent.{Parcel, Order, commit_transfer, commit_purchase}
use merch_store.Store.Concurrent.Rows.{length-insert, total-insert, AreBalances-insert}

module _ (p : Parcel) (balance other : ℕ) (t : Tables) (v : AreBalances t.balances)
    (differ : p.to ≢ p.from) (held : lookup p.from t.balances ≡ some (pos balance))
    (receiver : lookup p.to t.balances ≡ some (pos other)) (covers : p.amount ≤ balance)
    (room : other + p.amount ≤ max_int4) where
  apart : eqb_ℤ p.from p.to ≡ false
  apart = ground (arith, eqb_ℤ_iff p.from p.to)

  receiver_later :
      lookup p.to (insert p.from (pos balance -ℤ pos p.amount) t.balances) ≡ some (pos other)
  receiver_later =
      lookup-insert p.from p.to (pos balance -ℤ pos p.amount) t.balances ∙ rw apart receiver

  debit_fits : IsBalance (pos balance -ℤ pos p.amount)
  debit_fits = grind (int_laws, lookup_range p.from (pos balance) t.balances v held)

  credit_fits : IsBalance (pos other +ℤ pos p.amount)
  credit_fits = grind int_laws

  pub commit_transfer-Sent : Sent p.amount p.from p.to t (commit_transfer p balance other t)
  unfolding commit_transfer
  commit_transfer-Sent =
      let debited = insert p.from (pos balance -ℤ pos p.amount) t.balances in
      record {
        balance = balance;
        held = held;
        covers = covers;
        receiver = ground (arith, receiver);
        moves = λ j. ground (
          arith,
          lookup-insert p.to j (pos other +ℤ pos p.amount) debited,
          lookup-insert p.from j (pos balance -ℤ pos p.amount) t.balances,
          eqb_ℤ_iff p.from j,
          eqb_ℤ_iff p.to j,
          eqb_ℤ_iff j p.from,
          eqb_ℤ_iff j p.to,
        );
        conserves = grind (
          int_laws,
          total-insert p.to (pos other +ℤ pos p.amount) (pos other) debited receiver_later,
          total-insert p.from (pos balance -ℤ pos p.amount) (pos balance) t.balances held,
        );
        users =
            length-insert p.to (pos other +ℤ pos p.amount) (pos other) debited receiver_later
            ∙ length-insert p.from (pos balance -ℤ pos p.amount) (pos balance) t.balances held;
        valid =
            AreBalances-insert p.to (pos other +ℤ pos p.amount) (pos other) debited receiver_later
              credit_fits
              (AreBalances-insert p.from (pos balance -ℤ pos p.amount) (pos balance) t.balances held
                debit_fits v);
        recorded = refl;
        goods = refl;
        purchases = refl;
      }

module _ (o : Order) (balance : ℕ) (t : Tables) (v : AreBalances t.balances)
    (held : lookup o.user t.balances ≡ some (pos balance)) (covers : o.good.price ≤ balance) where
  payment_fits : IsBalance (pos balance -ℤ pos o.good.price)
  payment_fits = grind (int_laws, lookup_range o.user (pos balance) t.balances v held)

  pub commit_purchase-Bought : Bought o.user o.good t (commit_purchase o balance t)
  unfolding commit_purchase
  commit_purchase-Bought = record {
    balance = balance;
    held = held;
    covers = covers;
    moves = λ j. ground (
      arith,
      lookup-insert o.user j (pos balance -ℤ pos o.good.price) t.balances,
      eqb_ℤ_iff o.user j,
      eqb_ℤ_iff j o.user,
    );
    pays = grind (
      int_laws,
      total-insert o.user (pos balance -ℤ pos o.good.price) (pos balance) t.balances held,
    );
    users = length-insert o.user (pos balance -ℤ pos o.good.price) (pos balance) t.balances held;
    valid =
        AreBalances-insert o.user (pos balance -ℤ pos o.good.price) (pos balance) t.balances held
          payment_fits v;
    recorded = refl;
    goods = refl;
    transactions = refl;
  }
