-- ===== src/Tests/Successes.antt =====
-- Calls that succeed, at concrete inputs.
use merch_store.Base.{
  ◌≡◌, ◌≢◌, refl, [], ok, arith, lookup, int_keys, false, Option, ◌==◌, string_keys,
}
use merch_store.Base.Int.{pos, eqb_ℤ, ◌+ℤ◌, ◌≤ℤ◌}
use merch_store.Database.Statement.{max_int4}
use merch_store.Store.Tables.{GoodRow, find_good}
use merch_store.Store.Cases.{send_coins, buy_item}
use merch_store.Store.Updates.{AreBalances}
use merch_store.Store.Transfers
use merch_store.Store.Buying
use merch_store.Store.Sending.{balance_or_start, send_coins_succeeds}
use merch_store.Store.Purchasing.{buy_item_succeeds}
use merch_store.Tests.Data.{two_users, session, id_of}

balances-AreBalances : AreBalances two_users.balances
unfolding lookup eqb_ℤ
balances-AreBalances = ground arith

other_user : pos 2 ≢ pos 1
other_user e = cc

alice_holds : lookup (pos 1) two_users.balances ≡ Option.some (pos 1000)
unfolding lookup eqb_ℤ
alice_holds = refl

bob_holds : lookup (pos 2) two_users.balances ≡ Option.some (pos 1000)
unfolding lookup eqb_ℤ
bob_holds = refl

room : balance_or_start (lookup (pos 2) two_users.balances) +ℤ pos 300 ≤ℤ pos max_int4
unfolding lookup eqb_ℤ ◌+ℤ◌
room = omega arith

send_coins_succeeds_example :
    let (r, s') = send_coins id_of (pos 1) "bob" 300 (session two_users []) in
    (r ≡ ok tt) × Transfers.Transfer id_of (pos 1) "bob" 300 two_users s'.committed
send_coins_succeeds_example =
    send_coins_succeeds 300 (pos 1) (pos 2) 1000 (session two_users []) balances-AreBalances
      other_user (omega arith, omega arith) (omega arith, omega arith) (omega arith, omega arith)
      alice_holds (omega arith) room id_of "bob" refl

abbrev cup : GoodRow
cup = record { id = pos 2; name = "cup"; price = pos 20 }

cup_found : find_good (λ g. g.name == "cup") two_users.goods ≡ Option.some cup
unfolding find_good
cup_found = refl

buy_item_succeeds_example :
    let (r, s') = buy_item (pos 1) "cup" (session two_users []) in
    (r ≡ ok tt) × Buying.Purchase (pos 1) "cup" two_users s'.committed
buy_item_succeeds_example =
    buy_item_succeeds (pos 1) "cup" cup 20 1000 two_users balances-AreBalances
      (omega arith, omega arith) (omega arith, omega arith) (omega arith, omega arith) cup_found
      refl alice_holds (omega arith) two_users false
