-- ===== src/Tests/Migrations.antt =====
-- The migrated store, and a run of requests on it.
use merch_store.Base.{◌≡◌, refl, some, lookup, int_keys, string_keys, ◌==◌, arith, inr}
use merch_store.Base.Int.{ℤ, pos}
use merch_store.Store.Tables.{TransactionRow, find_good}
use merch_store.Store.Repositories.{process_rows}
use merch_store.Store.Updates.{IsBalance}
use merch_store.Store.Concurrent.{System, ensure, turn, Reach, start, later}
use merch_store.Store.Migrations.{insert_goods, fill_goods}
use merch_store.Store.Migrations.Fresh.{migrated, AreAmounts, AreExact, Reach-bounds}

umbrella_found :
    find_good (λ g. g.name == "umbrella") migrated.goods
    ≡ some (record { id = pos 7; name = "umbrella"; price = pos 200 })
unfolding fill_goods insert_goods find_good
umbrella_found = refl

-- A second run of the same migration adds nothing.
fill_goods_twice : fill_goods 11 migrated ≡ migrated
unfolding fill_goods insert_goods find_good
fill_goods_twice = refl

one_user : (s : System) × Reach migrated s
unfolding lookup fill_goods
one_user = (_, later start (turn 0 (ensure (pos 1) (inr (refl, (omega arith, omega arith), refl)))))

Reach-bounds_example :
    ((user b : ℤ) → lookup user one_user.0.tables.balances ≡ some b → IsBalance b)
    × AreAmounts one_user.0.tables.transactions
    × ((target : TransactionRow → ℤ)
        → AreExact target one_user.0.tables.transactions
            (process_rows target one_user.0.tables.transactions))
Reach-bounds_example = Reach-bounds one_user.1
