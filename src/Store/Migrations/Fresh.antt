-- ===== src/Store/Migrations/Fresh.antt =====
-- The books hold from the migrations on, and the amounts in the tables stay in range.
use merch_store.Base.{
  ℕ, suc, ◌<◌, ◌≡◌, refl, String, Option, none, some, List, [], ◌∷◌, ◌++◌, ◌==◌, string_keys,
  int_keys, false, arith, lookup, inl, inr,
}
use merch_store.Base.Int.{ℤ, pos, eqb_ℤ, eqb_ℤ_iff, ◌≤ℤ◌, ◌+ℤ◌}
use merch_store.Base.Words.{to_uint32}
use merch_store.Database.Statement.{max_int4}
use merch_store.Store.Domain.{DirectTransfer}
use merch_store.Store.Tables.{Tables, GoodRow, TransactionRow, find_good}
use merch_store.Store.Repositories.{process_rows}
use merch_store.Store.Updates.{AreBalances, IsBalance}
use merch_store.Store.Success.{lookup_range}
use merch_store.Store.Ledger.{IsValid, HasUniqueIds, good_by_id}
use merch_store.Store.Concurrent.{System, Reach, start, later}
use merch_store.Store.Concurrent.Invariant.{Step-Serial, Reach-IsValid}
use merch_store.Store.Concurrent.Invariant.Defs.{Serial}
use merch_store.Store.Migrations.{init_store, first_goods, add_good, insert_goods, fill_goods}

-- All ids lie below the next one of the sequence.
abbrev pub AreBelow : ℕ → List GoodRow → Type 0
AreBelow n [] = Unit
AreBelow n (g ∷ gs) = ((k : ℕ) × (g.id ≡ pos k) × (k < n)) × AreBelow n gs

find-append :
    (id : ℤ) (row : GoodRow) (rows : List GoodRow)
    → good_by_id id rows ≡ none
    → eqb_ℤ row.id id ≡ false
    → good_by_id id (rows ++ row ∷ []) ≡ none
unfolding find_good
find-append id row [] h e = ground arith
find-append id row (g ∷ gs) h e = ground (arith, find-append id row gs)

module _ (n : ℕ) (row : GoodRow) (at : row.id ≡ pos n) where
  HasUniqueIds-append :
      (rows : List GoodRow) → AreBelow n rows → HasUniqueIds rows → HasUniqueIds (rows ++ row ∷ [])
  unfolding find_good
  HasUniqueIds-append [] b u = (refl, tt)
  HasUniqueIds-append (g ∷ gs) ((k, e, lt), b) (fresh, u) = (
    find-append g.id row gs fresh (ground (arith, at, e, eqb_ℤ_iff row.id g.id)),
    HasUniqueIds-append gs b u,
  )

  AreBelow-append : (rows : List GoodRow) → AreBelow n rows → AreBelow (suc n) (rows ++ row ∷ [])
  AreBelow-append [] b = ((n, at, omega arith), tt)
  AreBelow-append (g ∷ gs) ((k, e, lt), b) = ((k, e, omega arith), AreBelow-append gs b)

AreBelow-suc : (n : ℕ) (rows : List GoodRow) → AreBelow n rows → AreBelow (suc n) rows
AreBelow-suc n [] b = tt
AreBelow-suc n (g ∷ gs) ((k, e, lt), b) = ((k, e, omega arith), AreBelow-suc n gs b)

add_good-HasUniqueIds :
    (o : Option GoodRow) (n : ℕ) (row : GoodRow) (rows : List GoodRow)
    → row.id ≡ pos n
    → AreBelow n rows
    → HasUniqueIds rows
    → HasUniqueIds (add_good o row rows) × AreBelow (suc n) (add_good o row rows)
add_good-HasUniqueIds (some _) n row rows at b u = (u, AreBelow-suc n rows b)
add_good-HasUniqueIds none n row rows at b u =
    (HasUniqueIds-append n row at rows b u, AreBelow-append n row at rows b)

insert_goods-HasUniqueIds :
    (n : ℕ) (gs : List (String × ℕ)) (rows : List GoodRow)
    → AreBelow n rows
    → HasUniqueIds rows
    → HasUniqueIds (insert_goods n gs rows)
unfolding insert_goods
insert_goods-HasUniqueIds n [] rows b u = u
insert_goods-HasUniqueIds n ((name, price) ∷ gs) rows b u =
    let row : GoodRow = record { id = pos n; name = name; price = pos price } in
    let (u', b') =
      add_good-HasUniqueIds (find_good (λ g. g.name == name) rows) n row rows refl b u in
    insert_goods-HasUniqueIds (suc n) gs _ b' u'

-- The migration of the goods keeps the books of tables in which nothing has been bought, if the ids
-- of the goods there lie below the next one.
fill_goods-IsValid :
    (n : ℕ) (t : Tables)
    → AreBelow n t.goods
    → t.purchases ≡ []
    → IsValid t
    → IsValid (fill_goods n t)
unfolding fill_goods
fill_goods-IsValid n t b none_yet v = record {
  balances = v.balances;
  ids = insert_goods-HasUniqueIds n first_goods t.goods b v.ids;
  books = λ j. rw none_yet (rw none_yet at (v.books j));
  coins = rw none_yet (rw none_yet at v.coins);
}

init_store-IsValid : IsValid init_store
unfolding lookup find_good ◌+ℤ◌
init_store-IsValid = record {
  balances = tt;
  ids = tt;
  books = λ j. (refl, refl, refl);
  coins = refl;
}

-- The tables after all migrations.
abbrev pub migrated : Tables
migrated = fill_goods 1 init_store

migrated-IsValid : IsValid migrated
migrated-IsValid = fill_goods-IsValid 1 init_store tt refl init_store-IsValid

-- An amount that was recorded is not negative, and fits its column.
abbrev pub AreAmounts : List TransactionRow → Type 0
AreAmounts [] = Unit
AreAmounts (r ∷ rs) = (pos 0 ≤ℤ r.amount) × (r.amount ≤ℤ pos max_int4) × AreAmounts rs

AreAmounts-append :
    (rs : List TransactionRow) (r : TransactionRow)
    → pos 0 ≤ℤ r.amount
    → r.amount ≤ℤ pos max_int4
    → AreAmounts rs
    → AreAmounts (rs ++ r ∷ [])
AreAmounts-append [] r low high a = (low, high, tt)
AreAmounts-append (q ∷ rs) r low high a = (a.0, a.1, AreAmounts-append rs r low high a.2)

Serial-AreAmounts :
    (t u : Tables)
    → Serial t u
    → AreBalances t.balances
    → AreAmounts t.transactions
    → AreAmounts u.transactions
Serial-AreAmounts t u (inl same) v a = rw same a
Serial-AreAmounts t u (inr (inl (user, inl (_, same)))) v a = rw same a
Serial-AreAmounts t u (inr (inl (user, inr (_, _, same)))) v a = rw same a
Serial-AreAmounts t u (inr (inr (inl (p, _, s)))) v a =
    let (low, high) = lookup_range p.from (pos s.balance) t.balances v s.held in
    let covers = s.covers in
    rw s.recorded (AreAmounts-append t.transactions _ (omega arith) (omega arith) a)
Serial-AreAmounts t u (inr (inr (inr (o, _, b)))) v a = rw b.transactions a

Reach-AreAmounts :
    {t : Tables} {s : System}
    → IsValid t
    → AreAmounts t.transactions
    → Reach t s
    → AreAmounts s.tables.transactions
Reach-AreAmounts v a start = a
Reach-AreAmounts v a (later {s} {u} r st) =
    Serial-AreAmounts s.tables u.tables (Step-Serial v r st) (Reach-IsValid v r).balances
      (Reach-AreAmounts v a r)

-- What `processRows` makes of the rows, one by one.
abbrev pub AreExact : (TransactionRow → ℤ) → List TransactionRow → List DirectTransfer → Type 0
AreExact target [] ds = ds ≡ []
AreExact target (r ∷ rs) [] = ⊥
AreExact target (r ∷ rs) (d ∷ ds) =
    (d.target_id ≡ target r) × (pos d.amount ≡ r.amount) × AreExact target rs ds

to_uint32_exact : (n : ℤ) → pos 0 ≤ℤ n → n ≤ℤ pos max_int4 → pos (to_uint32 n) ≡ n
unfolding to_uint32
to_uint32_exact n low high = ground arith

process_rows-AreExact :
    (target : TransactionRow → ℤ) (rs : List TransactionRow)
    → AreAmounts rs
    → AreExact target rs (process_rows target rs)
unfolding process_rows
process_rows-AreExact target [] a = refl
process_rows-AreExact target (r ∷ rs) (low, high, a) =
    (refl, to_uint32_exact r.amount low high, process_rows-AreExact target rs a)

-- From the migrated tables on, every balance and every amount that requests at once leave in the
-- tables is at least 0 and at most the greatest INTEGER, so that the conversions to uint32 in
-- FetchUserCoinTransfers give every amount as it was recorded.
pub Reach-bounds :
    {s : System}
    → Reach migrated s
    → ((user b : ℤ) → lookup user s.tables.balances ≡ some b → IsBalance b)
      × AreAmounts s.tables.transactions
      × ((target : TransactionRow → ℤ)
          → AreExact target s.tables.transactions (process_rows target s.tables.transactions))
unfolding fill_goods
Reach-bounds {s} r =
    let a = Reach-AreAmounts migrated-IsValid tt r in
    (
      λ user b. lookup_range user b s.tables.balances (Reach-IsValid migrated-IsValid r).balances,
      a,
      λ target. process_rows-AreExact target s.tables.transactions a,
    )
