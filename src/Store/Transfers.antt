-- ===== src/Store/Transfers.antt =====
-- SendCoinsCase.SendCoins, for whatever the database does: how a call ends, and what it leaves.
use Prim.Native.String.{◌++◌}
use merch_store.Base.{
  ℕ, ◌≡◌, ◌≢◌, refl, false, Result, String, ok, err, arith, int_keys, ◌⊎◌, inl, inr, Result-cases,
  Bool-cases,
}
use merch_store.Base.Int.{ℤ, eqb_ℤ, eqb_ℤ_iff}
use merch_store.Errors.{domain}
use merch_store.Database.{Session, continue, rescue_with, within_transaction}
use merch_store.Database.Rules.{NoneLost}
use merch_store.Database.Atomicity.{Ended, within_transaction-Ended, within_transaction_unchanged}
use merch_store.Store.Domain.{StoreError, start_balance, invalid_arguments, user_not_found}
use merch_store.Store.Tables.{Tables}
use merch_store.Store.Repositories.{ensure_balance_created}
use merch_store.Store.Cases.{send_coins, send_to, send_in_transaction}
use merch_store.Store.Updates.{AreBalances}
use merch_store.Store.Effects.{Sends, send-InTx}
use merch_store.Store.Spec.{Sent, Sends-Sent}
use merch_store.Store.Opening.{
  Opened, Opened-AreBalances, ensure_balance_created-Ended, ensure_balance_created_unchanged,
  ensure_balance_created_spends,
}

pub if_other : (to from : ℤ) → to ≢ from → eqb_ℤ to from ≡ false
if_other to from h = ground (arith, eqb_ℤ_iff to from)

module _ (fetch_user_id : String → Result StoreError ℤ) (from : ℤ) (name : String) where
  -- The receiver, whose balance may have been opened.
  pub record Receives (t m : Tables) : Type 0 where
    pub to : ℤ
    pub fetched : fetch_user_id name ≡ ok to
    pub differ : to ≢ from
    pub opened : Opened to start_balance t m

  pub record Transfer (amount : ℕ) (t u : Tables) : Type 0 where
    pub middle : Tables
    pub receives : Receives t middle
    pub sent : Sent amount from receives.to middle u

  -- How a call ends that began at the tables `t` and ended at `u`.
  abbrev pub Outcome : ℕ → Tables → Result StoreError (Unit {0}) → Tables → Type 0
  Outcome amount t (ok _) u = Transfer amount t u
  Outcome amount t (err _) u = (u ≡ t) ⊎ Receives t u ⊎ Transfer amount t u

  module _ (amount : ℕ) (t : Tables) where
    within-Outcome :
        (m : Tables) (got : Receives t m)
        → AreBalances m.balances
        → (r : Result StoreError (Unit {0})) (u : Tables)
        → Ended (λ t' _ u'. Sends amount from got.to t' u') m r u
        → Outcome amount t r u
    within-Outcome m got v (ok _) u h = record {
      middle = m;
      receives = got;
      sent = Sends-Sent amount from got.to m u h got.differ v;
    }
    within-Outcome m got v (err e) u (inl h) = inr (inl (rw h got))
    within-Outcome m got v (err e) u (inr (_, h)) = inr (
        inr (record {
          middle = m;
          receives = got;
          sent = Sends-Sent amount from got.to m u h got.differ v;
        }))

    module _ (to : ℤ) (fetched : fetch_user_id name ≡ ok to) (differ : to ≢ from)
        (v : AreBalances t.balances) where
      abbrev after_opening :
          Result StoreError (Unit {0})
          → Session Tables
          → Result StoreError (Unit {0}) × Session Tables
      after_opening = continue (λ _. within_transaction (send_in_transaction from to amount))

      received : (m : Tables) → Opened to start_balance t m → Receives t m
      received m o = record { to = to; fetched = fetched; differ = differ; opened = o }

      opening-Outcome :
          (g : StoreError → StoreError) (r : Result StoreError (Unit {0})) (s : Session Tables)
          → Ended (λ t' _ u'. Opened to start_balance t' u') t r s.committed
          → let (r', s') = after_opening (rescue_with (λ e. err (g e)) r) s in
            Outcome amount t r' s'.committed
      unfolding received
      opening-Outcome g (ok _) s o =
          let (r', s') = within_transaction (send_in_transaction from to amount) s in
          within-Outcome s.committed (received s.committed o)
            (Opened-AreBalances to start_balance t s.committed o v) r' s'.committed
            (within_transaction-Ended (send_in_transaction from to amount)
              (send-InTx from to amount) s)
      opening-Outcome g (err e) s (inl h) = inl h
      opening-Outcome g (err e) s (inr (_, o)) = inr (inl (received s.committed o))

      opening_unchanged :
          (g : StoreError → StoreError) (r : Result StoreError (Unit {0})) (s : Session Tables)
          → NoneLost s.fates
          → Ended (λ t' _ u'. Opened to start_balance t' u') t r s.committed
          → ((x : StoreError) → r ≡ err x → s.committed ≡ t)
          → {e : StoreError} → (after_opening (rescue_with (λ x. err (g x)) r) s).0 ≡ err e
          → let u = (after_opening (rescue_with (λ x. err (g x)) r) s).1.committed in
            (u ≡ t) ⊎ Receives t u
      opening_unchanged g (ok _) s h o same failed = inr (
          rw
            (within_transaction_unchanged (send_in_transaction from to amount)
              (send-InTx from to amount) s h failed)
            (received s.committed o))
      opening_unchanged g (err x) s h o same failed = inl (same x refl)

  module _ (amount : ℕ) (s : Session Tables) where
    send_to_self :
        (to : ℤ)
        → to ≡ from
        → send_to from amount to s
          ≡ (err (domain (invalid_arguments "from_user must differ from to_user")), s)
    unfolding send_to
    send_to_self to e = rw ((eqb_ℤ_iff to from).1 e)

    send_to-Outcome :
        (to : ℤ)
        → fetch_user_id name ≡ ok to
        → to ≢ from
        → AreBalances s.committed.balances
        → let (r, s') = send_to from amount to s in Outcome amount s.committed r s'.committed
    unfolding send_to
    send_to-Outcome to fetched differ v =
        let (r, s') = ensure_balance_created to start_balance s in
        rw (if_other to from differ) (
          opening-Outcome amount s.committed to fetched differ v _ r s'
            (ensure_balance_created-Ended to start_balance s))

    send_coins_known :
        (to : ℤ)
        → fetch_user_id name ≡ ok to
        → send_coins fetch_user_id from name amount s ≡ send_to from amount to s
    unfolding send_coins
    send_coins_known to e = rw e

    send_coins_unknown :
        (x : StoreError)
        → fetch_user_id name ≡ err x
        → send_coins fetch_user_id from name amount s
          ≡ (err (domain (user_not_found ("user not found: " ++ name))), s)
    unfolding send_coins
    send_coins_unknown x e = rw e

    pub send_coins-Outcome :
        AreBalances s.committed.balances
        → let (r, s') = send_coins fetch_user_id from name amount s in
          Outcome amount s.committed r s'.committed
    send_coins-Outcome v = elim (Result-cases (fetch_user_id name)) [
      | inl (to, e) ↦ elim (Bool-cases (eqb_ℤ to from)) [
        | inl same ↦
            rw (send_coins_known to e, send_to_self to ((eqb_ℤ_iff to from).0 same)) (inl refl)
        | inr other ↦
            rw (send_coins_known to e)
              (send_to-Outcome to e (λ p. ground (arith, eqb_ℤ_iff to from)) v)
      ]
      | inr (x, e) ↦ rw (send_coins_unknown x e) (inl refl)
    ]

    send_to_unchanged :
        (to : ℤ)
        → fetch_user_id name ≡ ok to
        → to ≢ from
        → AreBalances s.committed.balances
        → NoneLost s.fates
        → {e : StoreError} → (send_to from amount to s).0 ≡ err e
        → let u = (send_to from amount to s).1.committed in
          (u ≡ s.committed) ⊎ Receives s.committed u
    unfolding send_to
    send_to_unchanged to fetched differ v h {e} failed =
        let (r, s') = ensure_balance_created to start_balance s in
        rw (if_other to from differ) (
          opening_unchanged amount s.committed to fetched differ v _ r s'
            (ensure_balance_created_spends to start_balance s h)
            (ensure_balance_created-Ended to start_balance s)
            (λ x. ensure_balance_created_unchanged to start_balance s h {e = x})
            (rw (if_other to from differ) at failed))

    -- If no answer of the database is lost and the schema allows the balances, a call of SendCoins
    -- that reports an error has moved no money and recorded no transfer: nothing has changed, or
    -- the receiver's balance was opened.
    pub send_coins_unchanged :
        AreBalances s.committed.balances
        → NoneLost s.fates
        → {e : StoreError} → (send_coins fetch_user_id from name amount s).0 ≡ err e
        → let u = (send_coins fetch_user_id from name amount s).1.committed in
          (u ≡ s.committed) ⊎ Receives s.committed u
    send_coins_unchanged v h failed = elim (Result-cases (fetch_user_id name)) [
      | inl (to, e) ↦ elim (Bool-cases (eqb_ℤ to from)) [
        | inl same ↦
            rw (send_coins_known to e, send_to_self to ((eqb_ℤ_iff to from).0 same)) (inl refl)
        | inr other ↦ rw (send_coins_known to e) (
            send_to_unchanged to e (λ p. ground (arith, eqb_ℤ_iff to from)) v h
              (rw (send_coins_known to e) at failed))
      ]
      | inr (x, e) ↦ rw (send_coins_unknown x e) (inl refl)
    ]
