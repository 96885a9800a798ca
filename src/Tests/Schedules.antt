-- ===== src/Tests/Schedules.antt =====
-- Requests at once on two users and two goods, and the deadlock of opposite transfers.
use merch_store.Base.{
  ℕ, inl, inr, subst, eqb, Bool-cases, ◌≡◌, ◌≢◌, refl, [], ◌∷◌, arith, lookup, insert, int_keys,
}
use merch_store.Base.Int.{pos, eqb_ℤ, ◌+ℤ◌, ◌-ℤ◌}
use merch_store.Database.{run, within_transaction, begin, commit}
use merch_store.Database.Statement.{int4}
use merch_store.Store.Tables
use merch_store.Store.Tables.{
  find_good, select_balance, update_balances, update_rows, balance_value, insert_purchase,
  references_balance, references_good,
}
use merch_store.Store.Repositories.{
  lock_and_get_user_balance, scan_balance, scan_uint32, process_purchase,
}
use merch_store.Store.Cases.{buy_in_transaction}
use merch_store.Store.Ledger.{IsValid}
use merch_store.Store.Buying.{IsOnSale}
use merch_store.Store.Concurrent.{
  Parcel, Order, Pc, idle, debited, buyer_locked, locked, Move, begin_transfer, lock_sender, debit,
  credit, record_transfer, commit_sent, begin_purchase, lock_buyer, pay, record_purchase,
  commit_bought, commit_transfer, commit_purchase, System, IsFree, update, turn, Reach, start,
  later,
}
use merch_store.Store.Concurrent.Free.{
  OnlyTwo, IsFree-first, IsFree-second, OnlyTwo-first, OnlyTwo-second,
}
use merch_store.Store.Concurrent.Invariant.{Reach-IsValid, Step-Serial}
use merch_store.Store.Concurrent.Invariant.Defs.{Serial}
use merch_store.Store.Concurrent.Alone.{Alone, buy_in_transaction-Alone}
use merch_store.Store.Concurrent.Deadlock.{IsBlocked, opposite_transfers_block}
use merch_store.Store.Concurrent.Ordered.Needs.{IsUpward}
use merch_store.Store.Concurrent.Ordered.{SomeGoesOn, upward_goes_on}
use merch_store.Tests.Data.{two_users, session}

abbrev alice_to_bob : Parcel
alice_to_bob = record { from = pos 1; to = pos 2; amount = 300 }

abbrev bob_to_alice : Parcel
bob_to_alice = record { from = pos 2; to = pos 1; amount = 50 }

abbrev cup_for_bob : Order
cup_for_bob = record {
  user = pos 2;
  name = "cup";
  good = record { id = pos 2; name = "cup"; price = 20 };
}

cup-IsOnSale : IsOnSale "cup" cup_for_bob.good two_users
unfolding find_good
cup-IsOnSale = record {
  row = record { id = pos 2; name = "cup"; price = pos 20 };
  found = refl;
  id = refl;
  price = refl;
}

two_users-IsValid : IsValid two_users
unfolding find_good eqb_ℤ lookup ◌+ℤ◌
two_users-IsValid = record {
  balances = ground arith;
  ids = (refl, (refl, tt));
  books = λ j. ground arith;
  coins = refl;
}

-- A run of the requests 0 and 1.
record Run : Type 0 where
  last : System
  reach : Reach two_users last
  two : OnlyTwo last.pc

abbrev first :
    (r : Run) {t : Tables.Tables} {c : Pc}
    → Move r.last.tables (IsFree r.last.pc 0) (r.last.pc 0) t c
    → Run
first r {t} {c} m = record {
  last = record { tables = t; pc = update r.last.pc 0 c };
  reach = later r.reach (turn 0 m);
  two = OnlyTwo-first r.last.pc c r.two;
}

abbrev second :
    (r : Run) {t : Tables.Tables} {c : Pc}
    → Move r.last.tables (IsFree r.last.pc 1) (r.last.pc 1) t c
    → Run
second r {t} {c} m = record {
  last = record { tables = t; pc = update r.last.pc 1 c };
  reach = later r.reach (turn 1 m);
  two = OnlyTwo-second r.last.pc c r.two;
}

bob-ne-alice : pos 2 ≢ pos 1
bob-ne-alice e = ground arith

-- Alice's transfer has locked her row.
abbrev alice_locked : Run
unfolding lookup eqb_ℤ
alice_locked =
    let begun =
      first (record { last = _; reach = start; two = λ j e f. refl })
        (begin_transfer {p = alice_to_bob} bob-ne-alice) in
    first begun
      (lock_sender {balance = 1000} (IsFree-first begun.last.pc (pos 1) begun.two refl) refl)

-- It has debited her, and Bob buys a cup meanwhile.
abbrev cup_bought : Run
unfolding lookup eqb_ℤ alice_locked commit_purchase
cup_bought =
    let debited = first alice_locked (debit refl refl (omega arith)) in
    let begun = second debited (begin_purchase {o = cup_for_bob} cup-IsOnSale) in
    let locked =
      second begun
        (lock_buyer {balance = 1000} (IsFree-second begun.last.pc (pos 2) begun.two refl) refl) in
    second (second (second locked (pay refl refl (omega arith))) record_purchase) commit_bought

-- Alice's transfer is about to commit.
abbrev recorded : Run
unfolding lookup insert eqb_ℤ ◌+ℤ◌ ◌-ℤ◌ cup_bought commit_purchase
recorded =
    let credited = first cup_bought (
      credit {other = 980} (IsFree-first cup_bought.last.pc (pos 2) cup_bought.two refl) refl
        (omega arith)) in
    first credited record_transfer

abbrev interleaved : Run
unfolding recorded
interleaved = first recorded commit_sent

interleaved_result : interleaved.last.tables.balances ≡ (pos 1, pos 700) ∷ (pos 2, pos 1280) ∷ []
unfolding interleaved recorded cup_bought alice_locked lookup commit_transfer commit_purchase insert
    eqb_ℤ ◌+ℤ◌ ◌-ℤ◌
interleaved_result = refl

Reach-IsValid_example : IsValid interleaved.last.tables
Reach-IsValid_example = Reach-IsValid two_users-IsValid interleaved.reach

Step-Serial_example : Serial recorded.last.tables interleaved.last.tables
unfolding interleaved
Step-Serial_example = Step-Serial two_users-IsValid recorded.reach (turn 0 commit_sent)

buy_in_transaction-Alone_example :
    Alone two_users idle
      (within_transaction
        (buy_in_transaction (pos 2) cup_for_bob.good)
        (session two_users [])).1.committed
      idle
unfolding within_transaction begin commit buy_in_transaction run eqb_ℤ lookup
    lock_and_get_user_balance select_balance scan_balance scan_uint32 int4 process_purchase
    Tables.debit update_balances update_rows balance_value insert_purchase references_balance
    references_good find_good ◌+ℤ◌ ◌-ℤ◌
buy_in_transaction-Alone_example =
    buy_in_transaction-Alone (session two_users []) two_users-IsValid.balances (pos 2) "cup"
      cup_for_bob.good cup-IsOnSale refl

opposite_transfers_block_example : (s : System) × Reach two_users s × IsBlocked s 0 × IsBlocked s 1
unfolding lookup eqb_ℤ
opposite_transfers_block_example =
    opposite_transfers_block two_users alice_to_bob bob_to_alice refl refl bob-ne-alice 1000 1000
      refl (omega arith) refl (omega arith)

debited-injective : {p q : Parcel} {balance b : ℕ} → debited p balance ≡ debited q b → p ≡ q
debited-injective e = cc

no_purchase : {o : Order} {p : Parcel} {x b : ℕ} → buyer_locked o x ≡ debited p b → ⊥
no_purchase e = cc

no_transfer : {p : Parcel} {b : ℕ} → idle ≡ debited p b → ⊥
no_transfer e = cc

-- Alice's transfer to Bob waits while Bob's purchase holds his row.
abbrev alice_waits : Run
unfolding lookup eqb_ℤ alice_locked
alice_waits =
    let debited = first alice_locked (debit refl refl (omega arith)) in
    let begun = second debited (begin_purchase {o = cup_for_bob} cup-IsOnSale) in
    second begun
      (lock_buyer {balance = 1000} (IsFree-second begun.last.pc (pos 2) begun.two refl) refl)

same_parcel :
    {p q : Parcel} {balance b : ℕ} → debited p balance ≡ debited q b → IsUpward p → IsUpward q
same_parcel {p} {q} e up = subst IsUpward (debited-injective e) up

transfers-IsUpward : (i : ℕ) (p : Parcel) (b : ℕ) → alice_waits.last.pc i ≡ debited p b → IsUpward p
unfolding alice_waits alice_locked
transfers-IsUpward i p b e = elim (Bool-cases (eqb 1 i)) [
  | inl second ↦ absurd (no_purchase (rw second at e))
  | inr other ↦ elim (Bool-cases (eqb 0 i)) [
    | inl first ↦ same_parcel (rw (other, first) at e) refl
    | inr neither ↦ absurd (no_transfer (rw (other, neither) at e))
  ]
]

upward_goes_on_example : SomeGoesOn alice_waits.last
unfolding alice_waits
upward_goes_on_example = upward_goes_on alice_waits.reach transfers-IsUpward 0 (λ e. cc)
