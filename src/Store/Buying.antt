-- ===== src/Store/Buying.antt =====
-- PurchaseCase.BuyItem, for whatever the database does: how a call ends, and what it leaves.
use merch_store.Base.{
  ◌≡◌, refl, Option, none, some, Result, String, ◌==◌, string_keys, ok, err, arith, ◌⊎◌, inl, inr,
  ◌∙◌, subst,
}
use merch_store.Base.Int.{ℤ, pos}
use merch_store.Database.{Session, query, pool, continue, rescue_with, lift, within_transaction}
use merch_store.Database.Rules.{NoneLost, rescue_with-ok, continue_ok}
use merch_store.Database.Atomicity.{
  Ended, within_transaction-Ended, within_transaction_unchanged, query-Ended, query_spends,
}
use merch_store.Store.Domain.{DomainError, StoreError, GoodInfo}
use merch_store.Store.Tables.{Tables, GoodRow, find_good, select_good}
use merch_store.Store.Repositories.{get_good_info, scan_good}
use merch_store.Store.Cases.{buy_item, buy_in_transaction}
use merch_store.Store.Updates.{AreBalances}
use merch_store.Store.Effects.{Buys, buy-InTx}
use merch_store.Store.Spec.{Bought, Buys-Bought}

-- `good` is the row of `goods` with the given name.
pub record IsOnSale (name : String) (good : GoodInfo) (t : Tables) : Type 0 where
  pub row : GoodRow
  pub found : find_good (λ g. g.name == name) t.goods ≡ some row
  pub id : good.id ≡ row.id
  pub price : pos good.price ≡ row.price

scan_good-IsOnSale :
    (name : String) (t : Tables) (row : Option GoodRow) (u : Tables) (good : GoodInfo)
    → select_good name t ≡ ok (row, u)
    → scan_good row ≡ ok good
    → IsOnSale name good t
unfolding select_good scan_good
scan_good-IsOnSale name t none u good h k = absurd (ground arith)
scan_good-IsOnSale name t (some g) u good h k = record {
  row = g;
  found = ground arith;
  id = ground arith;
  price = ground arith;
}

module _ (name : String) (s : Session Tables) where
  get_good_info_keeps : (get_good_info name s).1.committed ≡ s.committed
  unfolding get_good_info select_good
  get_good_info_keeps = ground (arith, query-Ended DomainError (select_good name) s)

  get_good_info_spends : NoneLost s.fates → NoneLost (get_good_info name s).1.fates
  unfolding get_good_info select_good
  get_good_info_spends h = ground (arith, query_spends DomainError (select_good name) s h)

  get_good_info-IsOnSale :
      (good : GoodInfo) → (get_good_info name s).0 ≡ ok good → IsOnSale name good s.committed
  unfolding get_good_info
  get_good_info-IsOnSale good h =
      let (r, s') = query {D = DomainError} pool (select_good name) s in
      let (row, e, k) = continue_ok (λ row. lift (scan_good row)) r s' (rescue_with-ok _ _ h) in
      scan_good-IsOnSale name s.committed row s'.committed good
        (rw e at (query-Ended DomainError (select_good name) s)) k

module _ (user : ℤ) (name : String) where
  pub record Purchase (t u : Tables) : Type 0 where
    pub good : GoodInfo
    pub on_sale : IsOnSale name good t
    pub bought : Bought user good t u

  -- How a call ends that began at the tables `t` and ended at `u`.
  abbrev pub Outcome : Tables → Result StoreError (Unit {0}) → Tables → Type 0
  Outcome t (ok _) u = Purchase t u
  Outcome t (err _) u = (u ≡ t) ⊎ Purchase t u

  module _ (t : Tables) (v : AreBalances t.balances) where
    within-Outcome :
        (good : GoodInfo)
        → IsOnSale name good t
        → (r : Result StoreError (Unit {0})) (u : Tables)
        → Ended (λ t' _ u'. Buys user good t' u') t r u
        → Outcome t r u
    within-Outcome good on_sale (ok _) u h = record {
      good = good;
      on_sale = on_sale;
      bought = Buys-Bought user good t u h v;
    }
    within-Outcome good on_sale (err e) u (inl h) = inl h
    within-Outcome good on_sale (err e) u (inr (_, h)) =
        inr (record { good = good; on_sale = on_sale; bought = Buys-Bought user good t u h v })

    found-Outcome :
        (g : StoreError → StoreError) (r : Result StoreError GoodInfo) (s : Session Tables)
        → s.committed ≡ t
        → ((good : GoodInfo) → r ≡ ok good → IsOnSale name good t)
        → let (r', s') =
            continue
              (λ good. within_transaction (buy_in_transaction user good))
              (rescue_with (λ e. err (g e)) r)
              s in
          Outcome t r' s'.committed
    found-Outcome g (ok good) s same on_sale =
        let (r', s') = within_transaction (buy_in_transaction user good) s in
        within-Outcome good (on_sale good refl) r' s'.committed (
          subst (λ t'. Ended (λ a _ b. Buys user good a b) t' r' s'.committed) same
            (within_transaction-Ended (buy_in_transaction user good) (buy-InTx user good) s))
    found-Outcome g (err e) s same on_sale = inl same

  found_unchanged :
      (g : StoreError → StoreError) (r : Result StoreError GoodInfo) (s : Session Tables)
      → NoneLost s.fates
      → {e : StoreError}
      → (continue
          (λ good. within_transaction (buy_in_transaction user good))
          (rescue_with (λ x. err (g x)) r)
          s).0
        ≡ err e
      → (continue
          (λ good. within_transaction (buy_in_transaction user good))
          (rescue_with (λ x. err (g x)) r)
          s).1.committed
        ≡ s.committed
  found_unchanged g (ok good) s h failed =
      within_transaction_unchanged (buy_in_transaction user good) (buy-InTx user good) s h failed
  found_unchanged g (err x) s h failed = refl

  module _ (s : Session Tables) where
    pub buy_item-Outcome :
        AreBalances s.committed.balances
        → let (r, s') = buy_item user name s in Outcome s.committed r s'.committed
    unfolding buy_item
    buy_item-Outcome v =
        let (r, s') = get_good_info name s in
        found-Outcome s.committed v _ r s' (get_good_info_keeps name s)
          (get_good_info-IsOnSale name s)

    -- If no answer of the database is lost, a call of BuyItem that reports an error has changed
    -- nothing.
    pub buy_item_unchanged :
        NoneLost s.fates
        → {e : StoreError} → (buy_item user name s).0 ≡ err e
        → (buy_item user name s).1.committed ≡ s.committed
    unfolding buy_item
    buy_item_unchanged h failed =
        let (r, s') = get_good_info name s in
        found_unchanged _ r s' (get_good_info_spends name s h) failed ∙ get_good_info_keeps name s
