-- ===== src/Store/Ledger/Preserved.antt =====
-- Opening a balance, a transfer and a purchase keep the books of all users.
use merch_store.Base.{
  ℕ, ◌≡◌, ◌≢◌, sym, subst, ◌∙◌, false, none, String, arith, lookup, int_keys, length, length-append,
  ◌*◌, inl, inr, Bool-cases,
}
use merch_store.Base.Int.{ℤ, pos, eqb_ℤ, eqb_ℤ_iff, eqb_ℤ_comm, int_laws, ◌+ℤ◌}
use merch_store.Store.Updates.{total, total-append}
use merch_store.Store.Domain.{GoodInfo, start_balance}
use merch_store.Store.Tables.{Tables}
use merch_store.Store.Spec.{Sent, Bought}
use merch_store.Store.Opening.{Opened, Opened-AreBalances, lookup-Opened}
use merch_store.Store.Buying.{IsOnSale}
use merch_store.Store.Ledger.{price_of, good_by_id, revenue, BooksOf, HasUniqueIds, IsValid}
use merch_store.Store.Ledger.Books.{
  revenue-append, sent_by-append, received_by-append, spent_by-append, find_good-by_id,
  Books-transfer, Books-purchase, Books-opening,
}

Opened-coins :
    (user : ℤ) (t u : Tables)
    → Opened user start_balance t u
    → total t.balances +ℤ revenue t.goods t.purchases ≡ pos (start_balance * length t.balances)
    → total u.balances +ℤ revenue u.goods u.purchases ≡ pos (start_balance * length u.balances)
Opened-coins user t u (inl (there, same)) e = rw same e
Opened-coins user t u (inr (absent, fits, same)) e =
    rw (same, total-append user (pos start_balance) t.balances, length-append t.balances)
      (grind (int_laws, e))

-- Opening a balance of `start_balance` keeps the books.
pub Opened-IsValid :
    (user : ℤ) (t u : Tables) → Opened user start_balance t u → IsValid t → IsValid u
Opened-IsValid user t u o v = record {
  balances = Opened-AreBalances user start_balance t u o v.balances;
  ids = ground (arith, o, v.ids);
  coins = Opened-coins user t u o v.coins;
  books = λ j.
      let (same₁, same₂, same₃) : ((u.transactions ≡ t.transactions)
          × (u.goods ≡ t.goods)
          × (u.purchases ≡ t.purchases)) =
        ground (arith, o) in
      rw (lookup-Opened user start_balance t u o j, same₁, same₂, same₃)
        (Books-opening (lookup j t.balances) _ _ _ (eqb_ℤ user j) (v.books j));
}

has_balance :
    (t : Tables) (user j : ℤ)
    → lookup j t.balances ≡ none
    → lookup user t.balances ≢ none
    → eqb_ℤ j user ≡ false
has_balance t user j absent there = elim (Bool-cases (eqb_ℤ j user)) [
  | inl same ↦
      absurd (there (subst (λ k. lookup k t.balances ≡ none) ((eqb_ℤ_iff j user).0 same) absent))
  | inr other ↦ other
]

module _ (amount : ℕ) (from to : ℤ) (t u : Tables) (differ : to ≢ from)
    (s : Sent amount from to t u) where
  Sent-books : (j : ℤ) → BooksOf j t → BooksOf j u
  Sent-books j b =
      rw
        (
          s.moves j,
          s.recorded,
          s.goods,
          s.purchases,
          sent_by-append,
          received_by-append,
          eqb_ℤ_comm from j,
          eqb_ℤ_comm to j,
        )
        (Books-transfer (lookup j t.balances) _ _ _ (pos amount) (eqb_ℤ j from) (eqb_ℤ j to) b
          (λ is_from. elim (Bool-cases (eqb_ℤ j to)) [
            | inl is_to ↦
                absurd (differ (sym ((eqb_ℤ_iff j to).0 is_to) ∙ (eqb_ℤ_iff j from).0 is_from))
            | inr other ↦ other
          ])
          (λ absent. (
            has_balance t from j absent (λ e. ground (arith, s.held, e)),
            has_balance t to j absent s.receiver,
          )))

  pub Sent-IsValid : IsValid t → IsValid u
  Sent-IsValid v = record {
    balances = s.valid;
    ids = rw s.goods v.ids;
    books = λ j. Sent-books j (v.books j);
    coins = rw (s.conserves, s.users, s.goods, s.purchases) v.coins;
  }

module _ (user : ℤ) (name : String) (good : GoodInfo) (t u : Tables)
    (on_sale : IsOnSale name good t) (s : Bought user good t u) where
  paid_price : HasUniqueIds t.goods → price_of (good_by_id good.id t.goods) ≡ pos good.price
  paid_price ids =
      rw (on_sale.id, find_good-by_id _ t.goods on_sale.row ids on_sale.found) (sym on_sale.price)

  Bought-books : (j : ℤ) → HasUniqueIds t.goods → BooksOf j t → BooksOf j u
  Bought-books j ids b =
      rw
        (
          s.moves j,
          s.transactions,
          s.recorded,
          s.goods,
          spent_by-append,
          eqb_ℤ_comm user j,
          paid_price ids,
        )
        (Books-purchase (lookup j t.balances) _ _ _ (pos good.price) (eqb_ℤ j user) b
          (λ absent. has_balance t user j absent (λ e. ground (arith, s.held, e))))

  Bought-coins :
      HasUniqueIds t.goods
      → total t.balances +ℤ revenue t.goods t.purchases ≡ pos (start_balance * length t.balances)
      → total u.balances +ℤ revenue u.goods u.purchases ≡ pos (start_balance * length u.balances)
  Bought-coins ids e =
      rw (s.users, s.goods, s.recorded, revenue-append, paid_price ids)
        (grind (int_laws, s.pays, e))

  pub Bought-IsValid : IsValid t → IsValid u
  Bought-IsValid v = record {
    balances = s.valid;
    ids = rw s.goods v.ids;
    books = λ j. Bought-books j v.ids (v.books j);
    coins = Bought-coins v.ids v.coins;
  }
