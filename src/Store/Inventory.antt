-- ===== src/Store/Inventory.antt =====
-- FetchUserPurchases of internal/store/infrastructure/postgres/user_info_repository.go counts the
-- purchases of each good.
use merch_store.Base.{
  ℕ, suc, ◌+◌, ◌%◌, ◌^◌, ◌≡◌, refl, ap, ◌∙◌, Bool, false, String, Option, none, some, List, [], ◌∷◌,
  ◌++◌, ok, arith, Assoc, lookup, insert, lookup-insert, string_keys, ◌==◌, ◌&&◌, Option-cases,
  if◌then◌else◌, eq_iff,
}
use merch_store.Base.Int.{ℤ, eqb_ℤ, eqb_ℤ_iff}
use merch_store.Base.Words.{to_uint32}
use merch_store.Database.{Session, run}
use merch_store.Store.Tables.{
  Tables, GoodRow, PurchaseRow, count_of, group_count, joined_names, purchased_names,
  select_purchases, find_good,
}
use merch_store.Store.Repositories.{collect_goods, fetch_user_purchases}
use merch_store.Store.Updates.{int4-cases}
use merch_store.Store.Ledger.{HasUniqueIds, good_by_id}

-- How often a name stands in a list.
abbrev occurrences : String → List String → ℕ
occurrences x [] = 0
occurrences x (y ∷ ys) = if y == x then suc (occurrences x ys) else occurrences x ys

occurrences-append :
    (x : String) (ys zs : List String)
    → occurrences x (ys ++ zs) ≡ occurrences x ys + occurrences x zs
occurrences-append x [] zs = omega arith
occurrences-append x (y ∷ ys) zs = ground (arith, occurrences-append x ys zs)

group_count_counts :
    (x : String) (names : List String)
    → count_of (lookup x (group_count names)) ≡ occurrences x names
unfolding group_count lookup
group_count_counts x [] = refl
group_count_counts x (y ∷ ys) = ground (
  arith,
  group_count_counts x ys,
  group_count_counts y ys,
  lookup-insert y x (count_of (lookup y (group_count ys)) + 1) (group_count ys),
  eq_iff y x,
)

abbrev HasUniqueKeys : Assoc String ℕ → Type 0
HasUniqueKeys [] = Unit
HasUniqueKeys ((k, n) ∷ m) = (lookup k m ≡ none) × HasUniqueKeys m

insert-HasUniqueKeys :
    (k : String) (n : ℕ) (m : Assoc String ℕ) → HasUniqueKeys m → HasUniqueKeys (insert k n m)
unfolding insert lookup
insert-HasUniqueKeys k n [] v = (refl, tt)
insert-HasUniqueKeys k n ((j, w) ∷ m) v =
    ground (arith, eq_iff j k, eq_iff k j, lookup-insert k j n m, insert-HasUniqueKeys k n m, v)

group_count-HasUniqueKeys : (names : List String) → HasUniqueKeys (group_count names)
unfolding group_count
group_count-HasUniqueKeys [] = tt
group_count-HasUniqueKeys (y ∷ ys) =
    insert-HasUniqueKeys y _ (group_count ys) (group_count-HasUniqueKeys ys)

collect_goods_lem :
    (x : String) (acc rows : Assoc String ℕ)
    → HasUniqueKeys rows
    → lookup x (collect_goods acc rows)
      ≡ elim (lookup x rows) [ some n ↦ some (n % 2 ^ 32) | none ↦ lookup x acc ]
unfolding collect_goods lookup to_uint32
collect_goods_lem x acc [] v = refl
collect_goods_lem x acc ((k, n) ∷ rows) v = ground (
  arith,
  collect_goods_lem x (insert k (n % 2 ^ 32) acc) rows v.1,
  lookup-insert k x (n % 2 ^ 32) acc,
  eq_iff k x,
  v.0,
)

abbrev has_name : String → Option GoodRow → Bool
has_name x none = false
has_name x (some g) = g.name == x

-- How many purchases of the user are of the good with the name.
abbrev pub times_bought : String → ℤ → List GoodRow → List PurchaseRow → ℕ
times_bought x user goods [] = 0
times_bought x user goods (p ∷ ps) =
    if eqb_ℤ p.user_id user && has_name x (good_by_id p.good_id goods)
    then suc (times_bought x user goods ps)
    else times_bought x user goods ps

joined_none :
    (id : ℤ) (goods : List GoodRow) → good_by_id id goods ≡ none → joined_names id goods ≡ []
unfolding find_good joined_names
joined_none id [] h = refl
joined_none id (g ∷ goods) h = ground (arith, joined_none id goods)

joined_one :
    (x : String) (id : ℤ) (goods : List GoodRow)
    → HasUniqueIds goods
    → occurrences x (joined_names id goods) ≡ (if has_name x (good_by_id id goods) then 1 else 0)
unfolding find_good joined_names
joined_one x id [] v = refl
joined_one x id (g ∷ goods) v =
    ground (arith, joined_one x id goods v.1, joined_none id goods, eqb_ℤ_iff g.id id, v.0)

purchased_counts :
    (x : String) (user : ℤ) (goods : List GoodRow) (ps : List PurchaseRow)
    → HasUniqueIds goods
    → occurrences x (purchased_names user goods ps) ≡ times_bought x user goods ps
unfolding purchased_names
purchased_counts x user goods [] v = refl
purchased_counts x user goods (p ∷ ps) v = ground (
  arith,
  purchased_counts x user goods ps v,
  joined_one x p.good_id goods v,
  occurrences-append x (joined_names p.good_id goods) (purchased_names user goods ps),
)

complete_goods :
    (received : ℕ) (user : ℤ) (s : Session Tables) (goods : Assoc String ℕ)
    → (fetch_user_purchases received user (record s { fates = [] })).0 ≡ ok goods
    → goods
      ≡ collect_goods []
          (group_count (purchased_names user s.committed.goods s.committed.purchases))
unfolding fetch_user_purchases run select_purchases
complete_goods received user s goods h = ground (arith, int4-cases user)

collected_count :
    (x : String) (rows : Assoc String ℕ)
    → HasUniqueKeys rows
    → count_of (lookup x (collect_goods [] rows)) ≡ count_of (lookup x rows) % 2 ^ 32
unfolding lookup
collected_count x rows v =
    ground (arith, collect_goods_lem x [] rows v, Option-cases (lookup x rows))

-- If the database does not fail and the ids of goods are unique, the goods that FetchUserPurchases
-- returns hold, for each name, the number of the user's purchases of the good with that name, as far
-- as 32 bits hold it.
pub fetch_user_purchases_lem :
    (received : ℕ) (user : ℤ) (s : Session Tables) (goods : Assoc String ℕ)
    → HasUniqueIds s.committed.goods
    → (fetch_user_purchases received user (record s { fates = [] })).0 ≡ ok goods
    → (x : String)
    → count_of (lookup x goods)
      ≡ times_bought x user s.committed.goods s.committed.purchases % 2 ^ 32
fetch_user_purchases_lem received user s goods ids h x =
    let names = purchased_names user s.committed.goods s.committed.purchases in
    ap (λ m. count_of (lookup x m)) (complete_goods received user s goods h)
    ∙ collected_count x (group_count names) (group_count-HasUniqueKeys names)
    ∙ ap (λ n. n % 2 ^ 32)
        (group_count_counts x names
          ∙ purchased_counts x user s.committed.goods s.committed.purchases ids)
