-- ===== src/Store/Migrations.antt =====
-- migrations/store: the tables as the migrations leave them.
pub mod Fresh
use merch_store.Base.{ℕ, suc, String, Option, none, some, List, [], ◌∷◌, ◌++◌, ◌==◌, string_keys}
use merch_store.Base.Int.{pos}
use merch_store.Store.Tables.{Tables, GoodRow, find_good}

-- 20260105154955_init_store.sql
abbrev pub init_store : Tables
init_store = record { balances = []; goods = []; transactions = []; purchases = [] }

-- The rows of 20260112233034_fill_goods.sql
abbrev pub first_goods : List (String × ℕ)
first_goods =
    ("t-shirt", 80)
    ∷ ("cup", 20)
    ∷ ("book", 50)
    ∷ ("pen", 10)
    ∷ ("powerbank", 200)
    ∷ ("hoody", 300)
    ∷ ("umbrella", 200)
    ∷ ("socks", 10)
    ∷ ("wallet", 50)
    ∷ ("pink-hoody", 500)
    ∷ []

abbrev pub add_good : Option GoodRow → GoodRow → List GoodRow → List GoodRow
add_good (some _) row rows = rows
add_good none row rows = rows ++ row ∷ []

-- INSERT INTO goods (name, price) VALUES … ON CONFLICT (name) DO NOTHING, from the next serial id on;
-- a row that is there already uses up an id as well.
unfoldable pub insert_goods : ℕ → List (String × ℕ) → List GoodRow → List GoodRow
unfolding find_good
insert_goods id [] rows = rows
insert_goods id ((name, price) ∷ gs) rows = insert_goods (suc id) gs (
    add_good (find_good (λ g. g.name == name) rows)
      (record { id = pos id; name = name; price = pos price }) rows)

-- 20260112233034_fill_goods.sql, at the next id of the sequence
unfoldable pub fill_goods : ℕ → Tables → Tables
unfolding insert_goods
fill_goods id t = record t { goods = insert_goods id first_goods t.goods }
