-- ===== src/Store/Concurrent/Invariant/Defs.antt =====
use merch_store.Base.{ℕ, ◌+◌, ◌≤◌, ◌≡◌, ◌≢◌, none, some, lookup, int_keys, ◌⊎◌}
use merch_store.Base.Int.{ℤ, pos}
use merch_store.Database.Statement.{max_int4}
use merch_store.Store.Domain.{start_balance}
use merch_store.Store.Tables.{Tables}
use merch_store.Store.Ledger.{IsValid}
use merch_store.Store.Opening.{Opened}
use merch_store.Store.Buying.{IsOnSale}
use merch_store.Store.Spec.{Sent, Bought}
use merch_store.Store.Concurrent.{
  Parcel, Order, Pc, idle, sending, sender_locked, debited, credited, sent, buying, buyer_locked,
  paid, bought, locked,
}

abbrev IsPayable : Tables → Order → ℕ → Type 0
IsPayable t o b = IsOnSale o.name o.good t × (o.good.price ≤ b)

-- What the tests and statements that a request has passed have left true.
abbrev pub Passed : Tables → Pc → Type 0
Passed t idle = Unit
Passed t (sending p) = p.to ≢ p.from
Passed t (sender_locked p b) = p.to ≢ p.from
Passed t (debited p b) = (p.to ≢ p.from) × (p.amount ≤ b)
Passed t (credited p b c) = (p.to ≢ p.from) × (p.amount ≤ b) × (c + p.amount ≤ max_int4)
Passed t (sent p b c) = (p.to ≢ p.from) × (p.amount ≤ b) × (c + p.amount ≤ max_int4)
Passed t (buying o) = IsOnSale o.name o.good t
Passed t (buyer_locked o b) = IsOnSale o.name o.good t
Passed t (paid o b) = IsPayable t o b
Passed t (bought o b) = IsPayable t o b

-- The rows that a request has locked are committed as it remembers them.
pub record Holds (t : Tables) (c : Pc) : Type 0 where
  pub rows :
      (user : ℤ) (b : ℕ) → lookup user (locked c) ≡ some b → lookup user t.balances ≡ some (pos b)
  pub passed : Passed t c

pub record Inv (t : Tables) (pc : ℕ → Pc) : Type 0 where
  pub valid : IsValid t
  pub exclusive :
      (i j : ℕ) (user : ℤ)
      → j ≢ i
      → lookup user (locked (pc i)) ≢ none
      → lookup user (locked (pc j)) ≡ none
  pub holds : (i : ℕ) → Holds t (pc i)

-- What a server that takes one request at a time can do to the tables in one call.
abbrev pub Serial : Tables → Tables → Type 0
Serial t u =
    (u ≡ t)
    ⊎ ((user : ℤ) × Opened user start_balance t u)
    ⊎ ((p : Parcel) × (p.to ≢ p.from) × Sent p.amount p.from p.to t u)
    ⊎ ((o : Order) × IsOnSale o.name o.good t × Bought o.user o.good t u)
