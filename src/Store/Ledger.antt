-- ===== src/Store/Ledger.antt =====
-- The books of the store: every balance is what the recorded transfers and purchases make of the
-- starting balance. The statements that change `balances` and those that insert records are separate
-- ones, in transaction_proceeder.go and purchaser.go; the books say that they agree.
pub mod Books
pub mod Preserved
pub mod Requests
use merch_store.Base.{
  length, ◌*◌, ℕ, ◌≡◌, ◌≢◌, refl, sym, subst, ◌∙◌, Bool, true, false, Option, none, some, List, [],
  ◌∷◌, ◌++◌, String, Result, ok, err, arith, lookup, int_keys, ◌==◌, if◌then◌else◌, ◌⊎◌, inl, inr,
  Option-cases, Bool-cases, Assoc,
}
use merch_store.Base.Int.{ℤ, pos, ◌+ℤ◌, ◌-ℤ◌, eqb_ℤ, eqb_ℤ_iff, eqb_ℤ_comm, int_laws}
use merch_store.Store.Domain.{GoodInfo, start_balance}
use merch_store.Store.Tables.{Tables, GoodRow, TransactionRow, PurchaseRow, find_good}
use merch_store.Store.Updates.{AreBalances, total}
use merch_store.Store.Spec.{Sent, Bought, map_balance, after_transfer, after_purchase}
use merch_store.Store.Opening.{Opened, Opened-AreBalances, lookup-Opened}
use merch_store.Store.Buying.{IsOnSale}

abbrev pub sent_by : ℤ → List TransactionRow → ℤ
sent_by j [] = pos 0
sent_by j (r ∷ rs) = if eqb_ℤ r.from_user_id j then r.amount +ℤ sent_by j rs else sent_by j rs

abbrev pub received_by : ℤ → List TransactionRow → ℤ
received_by j [] = pos 0
received_by j (r ∷ rs) =
    if eqb_ℤ r.to_user_id j then r.amount +ℤ received_by j rs else received_by j rs

abbrev pub price_of : Option GoodRow → ℤ
price_of none = pos 0
price_of (some g) = g.price

abbrev pub good_by_id : ℤ → List GoodRow → Option GoodRow
good_by_id id = find_good (λ g. g.id == id)

abbrev pub spent_by : ℤ → List GoodRow → List PurchaseRow → ℤ
spent_by j goods [] = pos 0
spent_by j goods (p ∷ ps) =
    if eqb_ℤ p.user_id j
    then price_of (good_by_id p.good_id goods) +ℤ spent_by j goods ps
    else spent_by j goods ps

-- What the store has taken for its goods.
abbrev pub revenue : List GoodRow → List PurchaseRow → ℤ
revenue goods [] = pos 0
revenue goods (p ∷ ps) = price_of (good_by_id p.good_id goods) +ℤ revenue goods ps

-- A user with no balance has no records; a balance is what the records leave of the start.
abbrev pub Books : Option ℤ → ℤ → ℤ → ℤ → Type 0
Books none sent received spent = (sent ≡ pos 0) × (received ≡ pos 0) × (spent ≡ pos 0)
Books (some b) sent received spent = b +ℤ sent +ℤ spent ≡ pos start_balance +ℤ received

abbrev pub BooksOf : ℤ → Tables → Type 0
BooksOf j t =
    Books (lookup j t.balances) (sent_by j t.transactions) (received_by j t.transactions)
      (spent_by j t.goods t.purchases)

-- PRIMARY KEY of `goods`.
abbrev pub HasUniqueIds : List GoodRow → Type 0
HasUniqueIds [] = Unit
HasUniqueIds (g ∷ gs) = (good_by_id g.id gs ≡ none) × HasUniqueIds gs

pub record IsValid (t : Tables) : Type 0 where
  pub balances : AreBalances t.balances
  pub ids : HasUniqueIds t.goods
  pub books : (j : ℤ) → BooksOf j t
  pub coins :
      total t.balances +ℤ revenue t.goods t.purchases ≡ pos (start_balance * length t.balances)
