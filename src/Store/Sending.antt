-- ===== src/Store/Sending.antt =====
-- SendCoins makes a transfer whenever it is allowed and nothing goes wrong with the database: its
-- outcomes are not only errors.
use merch_store.Base.{
  ℕ, ◌≡◌, ◌≢◌, refl, ◌≤◌, false, Option, none, some, [], Result, String, ok, err, arith, lookup,
  int_keys, ltb, inl, inr, Option-cases,
}
use merch_store.Base.Int.{ℤ, pos, negsuc, ◌+ℤ◌, ◌≤ℤ◌, int_laws, eqb_ℤ_iff}
use merch_store.Database.{Session, tx, run, begin, commit, within_transaction}
use merch_store.Database.Statement.{max_int4, Sql, int4}
use merch_store.Store.Domain.{StoreError, start_balance}
use merch_store.Store.Tables.{Tables, insert_balance, balance_value}
use merch_store.Store.Repositories.{
  lock_and_get_user_balance, proceed_transaction, ensure_balance_created, scan_balance, scan_uint32,
}
use merch_store.Store.Cases.{send_in_transaction, send_to, send_coins}
use merch_store.Store.Updates.{AreBalances, IsBalance}
use merch_store.Store.Effects.{with_transaction}
use merch_store.Store.Opening.{
  Opened, with_balance, lookup-Opened, Opened-AreBalances, ensure_balance_created-Ended,
}
use merch_store.Store.Transfers
use merch_store.Store.Transfers.{if_other, send_coins-Outcome}
use merch_store.Store.Success.{FitsInt4, int4_fits, lookup_range, Statements, transfer-Statements}

-- An open transaction, and a session outside one, to which nothing happens any more.
abbrev pub open_session : Tables → Tables → Session Tables
open_session c t = record { committed = c; work = t; aborted = false; fates = [] }

pub run_tx_done :
    {A : Type 0} (q : Sql Tables A) (c t u : Tables) (a : A)
    → q t ≡ ok (a, u)
    → run tx q (open_session c t) ≡ (ok a, open_session c u)
unfolding run
run_tx_done q c t u a h = rw h refl

module _ (amount : ℕ) (from to : ℤ) (balance : ℕ) (c t : Tables)
    (st : Statements amount from to balance t) (covers : amount ≤ balance) where
  lock_done : lock_and_get_user_balance tx from (open_session c t) ≡ (ok balance, open_session c t)
  unfolding lock_and_get_user_balance scan_balance scan_uint32
  lock_done = rw (run_tx_done _ c t t _ st.selected) refl

  proceed_done :
      proceed_transaction tx amount from to (open_session c t)
      ≡ (ok tt, open_session c (with_transaction from to (pos amount) st.t₂))
  unfolding proceed_transaction
  proceed_done =
      rw
        (
          run_tx_done _ c t _ _ st.debited,
          run_tx_done _ c _ _ _ st.credited,
          run_tx_done _ c _ _ _ st.recorded,
        )
        refl

  enough : ltb balance amount ≡ false
  enough = ground arith

  send_done :
      send_in_transaction from to amount tx (open_session c t)
      ≡ (ok tt, open_session c (with_transaction from to (pos amount) st.t₂))
  unfolding send_in_transaction
  send_done = rw (lock_done, enough, proceed_done) refl

within_done :
    (amount : ℕ) (from to : ℤ) (balance : ℕ) (s : Session Tables)
    → Statements amount from to balance s.committed
    → amount ≤ balance
    → (within_transaction (send_in_transaction from to amount) (record s { fates = [] })).0 ≡ ok tt
unfolding within_transaction begin commit
within_done amount from to balance s st covers =
    rw (send_done amount from to balance s.committed s.committed st covers) refl

-- The receiver's balance is there or is opened.
pub ensure_done :
    (to : ℤ) (s : Session Tables)
    → FitsInt4 to
    → (u : Tables) × (ensure_balance_created to start_balance (record s { fates = [] })
        ≡ (ok tt, record s { committed = u; fates = [] }))
unfolding ensure_balance_created run insert_balance balance_value int4
ensure_done to s fits = elim (Option-cases (lookup to s.committed.balances)) [
  | inl absent ↦
      (with_balance to (pos start_balance) s.committed, rw (int4_fits to fits, absent) refl)
  | inr (b, there) ↦ (s.committed, rw (int4_fits to fits, there) refl)
]

-- What a balance is once it is opened.
abbrev pub balance_or_start : Option ℤ → ℤ
balance_or_start none = pos start_balance
balance_or_start (some b) = b

IsBalance_pos : (b : ℤ) → IsBalance b → (n : ℕ) × (b ≡ pos n)
IsBalance_pos (pos n) h = (n, refl)
IsBalance_pos (negsuc n) h = absurd (ground arith)

opened_receiver :
    (to : ℤ) (t u : Tables)
    → Opened to start_balance t u
    → AreBalances t.balances
    → (n : ℕ) × (lookup to u.balances ≡ some (pos n))
      × (balance_or_start (lookup to t.balances) ≡ pos n)
opened_receiver to t u o v = elim (Option-cases (lookup to t.balances)) [
  | inl absent ↦ (
    start_balance,
    ground (arith, lookup-Opened to start_balance t u o to, eqb_ℤ_iff to to),
    rw absent refl,
  )
  | inr (b, there) ↦
      let (n, e) = IsBalance_pos b (lookup_range to b t.balances v there) in
      (n, ground (arith, lookup-Opened to start_balance t u o to), rw there e)
]

module _ (amount : ℕ) (from to : ℤ) (balance : ℕ) (s : Session Tables)
    (v : AreBalances s.committed.balances) (differ : to ≢ from) (fits_from : FitsInt4 from)
    (fits_to : FitsInt4 to) (fits_amount : FitsInt4 (pos amount))
    (held : lookup from s.committed.balances ≡ some (pos balance)) (covers : amount ≤ balance)
    (room : balance_or_start (lookup to s.committed.balances) +ℤ pos amount ≤ℤ pos max_int4) where
  opened-Statements :
      (u : Tables) → Opened to start_balance s.committed u → Statements amount from to balance u
  opened-Statements u o =
      let (n, receiver, e) = opened_receiver to s.committed u o v in
      transfer-Statements amount from to u (Opened-AreBalances to start_balance s.committed u o v)
        fits_from fits_to fits_amount balance n
        (ground (arith, lookup-Opened to start_balance s.committed u o from)) covers differ receiver
        (grind (int_laws, room, e))

  send_to_done : (send_to from amount to (record s { fates = [] })).0 ≡ ok tt
  unfolding send_to
  send_to_done =
      let (u, done) = ensure_done to s fits_to in
      let o =
        rw done at (ensure_balance_created-Ended to start_balance (record s { fates = [] })) in
      rw (if_other to from differ, done)
        (within_done amount from to balance (record s { committed = u }) (opened-Statements u o)
          covers)

  module _ (fetch_user_id : String → Result StoreError ℤ) (name : String)
      (fetched : fetch_user_id name ≡ ok to) where
    ok_end :
        (r : Result StoreError (Unit {0})) (u : Tables)
        → r ≡ ok tt
        → Transfers.Outcome fetch_user_id from name amount s.committed r u
        → Transfers.Transfer fetch_user_id from name amount s.committed u
    ok_end (ok _) u h o = o
    ok_end (err e) u h o = cc

    send_coins_done :
        (send_coins fetch_user_id from name amount (record s { fates = [] })).0 ≡ ok tt
    unfolding send_coins
    send_coins_done = rw fetched send_to_done

    -- SendCoins makes the transfer, and reports no error, if the receiver is known and is not the
    -- sender, the sender's balance covers the amount, the receiver's has room for it, the numbers
    -- fit their columns, the schema allows the balances, and the database does not fail.
    pub send_coins_succeeds :
        let (r, s') = send_coins fetch_user_id from name amount (record s { fates = [] }) in
        (r ≡ ok tt) × Transfers.Transfer fetch_user_id from name amount s.committed s'.committed
    send_coins_succeeds =
        let (r, s') = send_coins fetch_user_id from name amount (record s { fates = [] }) in
        (
          send_coins_done,
          ok_end r s'.committed send_coins_done
              (send_coins-Outcome fetch_user_id from name amount (record s { fates = [] }) v),
        )
