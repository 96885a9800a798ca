-- ===== src/Tests/Purchases.antt =====
-- The purchases of a user at concrete inputs, also when the database's answer breaks off.
use merch_store.Base.{◌≡◌, refl, ◌%◌, ◌^◌, String, [], ◌∷◌, ok, lookup, insert, string_keys}
use merch_store.Base.Int.{pos, eqb_ℤ}
use merch_store.Base.Words.{to_uint32}
use merch_store.Database.{lost, run}
use merch_store.Database.Statement.{int4}
use merch_store.Store.Tables.{
  Tables, count_of, find_good, select_purchases, group_count, purchased_names, joined_names,
}
use merch_store.Store.Repositories.{fetch_user_purchases, collect_goods}
use merch_store.Store.Ledger.{HasUniqueIds}
use merch_store.Store.Inventory.{times_bought, fetch_user_purchases_lem}
use merch_store.Tests.Data.{goods, session}

abbrev after_purchases : Tables
after_purchases = record {
  balances = (pos 1, pos 880) ∷ [];
  goods = goods;
  transactions = [];
  purchases =
      record { user_id = pos 1; good_id = pos 2 }
      ∷ record { user_id = pos 1; good_id = pos 1 }
      ∷ record { user_id = pos 1; good_id = pos 2 }
      ∷ [];
}

goods-HasUniqueIds : HasUniqueIds goods
unfolding find_good eqb_ℤ
goods-HasUniqueIds = (refl, (refl, tt))

fetched :
    (fetch_user_purchases 0 (pos 1) (session after_purchases [])).0
    ≡ ok (("cup", 2) ∷ ("t-shirt", 1) ∷ [])
unfolding fetch_user_purchases run select_purchases int4 group_count purchased_names joined_names
    collect_goods insert lookup eqb_ℤ to_uint32
fetched = refl

-- The answer breaks off after one group, and no error tells.
cut_off :
    (fetch_user_purchases 1 (pos 1) (session after_purchases (lost ∷ []))).0 ≡ ok (("cup", 2) ∷ [])
unfolding fetch_user_purchases run select_purchases int4 group_count purchased_names joined_names
    collect_goods insert lookup eqb_ℤ to_uint32
cut_off = refl

fetch_user_purchases_lem_example :
    count_of (lookup {K = String} "cup" (("cup", 2) ∷ ("t-shirt", 1) ∷ []))
    ≡ times_bought "cup" (pos 1) goods after_purchases.purchases % 2 ^ 32
fetch_user_purchases_lem_example =
    fetch_user_purchases_lem 0 (pos 1) (session after_purchases [])
      (("cup", 2) ∷ ("t-shirt", 1) ∷ []) goods-HasUniqueIds fetched "cup"
