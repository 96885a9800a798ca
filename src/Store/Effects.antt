-- ===== src/Store/Effects.antt =====
-- What the bodies of the two transactions (buy_in_transaction, send_in_transaction) do to the
-- tables when they return without an error.
use merch_store.Base.{
  ℕ, zero, suc, ◌≡◌, ◌≢◌, ◌∙◌, Bool, ◌&&◌, Option, none, some, [], ◌∷◌, ◌++◌, ok, arith, int_keys,
  lookup, ◌≤◌, ltb,
}
use merch_store.Base.Int.{ℤ, pos, ◌+ℤ◌, ◌-ℤ◌, leb_ℤ, eqb_ℤ}
use merch_store.Database.{tx}
use merch_store.Database.Rules.{
  InTx, InTx-query, InTx-lift, InTx-rescue, InTx-bind, InTx-guard, InTx-post,
}
use merch_store.Store.Domain.{GoodInfo}
use merch_store.Store.Tables.{
  Tables, update_rows, update_balances, select_balance, debit_if_covered, debit, credit,
  insert_transaction, insert_purchase, references_balance, references_good,
}
use merch_store.Store.Repositories.{
  scan_balance, lock_and_get_user_balance, process_purchase, proceed_transaction, covered,
}
use merch_store.Store.Cases.{buy_in_transaction, send_in_transaction}
use merch_store.Store.Updates.{int4-cases}

-- An UPDATE of the balances that succeeds.
abbrev pub Updates : (ℤ → ℤ → Bool) → (ℤ → ℤ) → Tables → ℕ → Tables → Type 0
Updates matches set t n u =
    (update_rows matches set t.balances ≡ ok (n, u.balances))
    × (u ≡ record t { balances = u.balances })

abbrev pub is_user : ℤ → ℤ → ℤ → Bool
is_user user v b = eqb_ℤ v user

abbrev pub is_covered : ℤ → ℤ → ℤ → ℤ → Bool
is_covered user amount v b = eqb_ℤ v user && leb_ℤ amount b

module _ (a user : ℤ) (t : Tables) (n : ℕ) (u : Tables) where
  update_balances-Updates :
      (matches : ℤ → ℤ → Bool) (set : ℤ → ℤ)
      → update_balances matches set t ≡ ok (n, u)
      → Updates matches set t n u
  unfolding update_balances
  update_balances-Updates matches set h = ground arith

  debit-Updates : debit a user t ≡ ok (n, u) → Updates (is_user user) (λ b. b -ℤ a) t n u
  unfolding debit
  debit-Updates h =
      ground
        (arith, int4-cases a, int4-cases user, update_balances-Updates (is_user user) (λ b. b -ℤ a))

  credit-Updates : credit a user t ≡ ok (n, u) → Updates (is_user user) (λ b. b +ℤ a) t n u
  unfolding credit
  credit-Updates h =
      ground
        (arith, int4-cases a, int4-cases user, update_balances-Updates (is_user user) (λ b. b +ℤ a))

  debit_if_covered-Updates :
      debit_if_covered a user t ≡ ok (n, u) → Updates (is_covered user a) (λ b. b -ℤ a) t n u
  unfolding debit_if_covered
  debit_if_covered-Updates h = ground (
    arith,
    int4-cases a,
    int4-cases user,
    update_balances-Updates (is_covered user a) (λ b. b -ℤ a),
  )

abbrev pub with_transaction : ℤ → ℤ → ℤ → Tables → Tables
with_transaction from to amount t = record t {
  transactions =
      t.transactions ++ record { from_user_id = from; to_user_id = to; amount = amount } ∷ [];
}

insert_transaction_lem :
    (from to amount : ℤ) (t : Tables) (n : ℕ) (u : Tables)
    → insert_transaction from to amount t ≡ ok (n, u)
    → (u ≡ with_transaction from to amount t)
      × (lookup from t.balances ≢ none)
      × (lookup to t.balances ≢ none)
unfolding insert_transaction references_balance
insert_transaction_lem from to amount t n u h =
    ground (arith, int4-cases from, int4-cases to, int4-cases amount)

abbrev pub with_purchase : ℤ → ℤ → Tables → Tables
with_purchase user good t = record t {
  purchases = t.purchases ++ record { user_id = user; good_id = good } ∷ [];
}

insert_purchase_lem :
    (user good : ℤ) (t : Tables) (n : ℕ) (u : Tables)
    → insert_purchase user good t ≡ ok (n, u)
    → (u ≡ with_purchase user good t) × (lookup user t.balances ≢ none)
unfolding insert_purchase references_balance references_good
insert_purchase_lem user good t n u h = ground (arith, int4-cases user, int4-cases good)

-- `scan_balance` gives back the row that was read.
select_balance_lem :
    (user : ℤ) (t : Tables) (row : Option ℤ) (u : Tables) (n : ℕ)
    → select_balance user t ≡ ok (row, u)
    → scan_balance row ≡ ok n
    → (u ≡ t) × (lookup user t.balances ≡ some (pos n))
unfolding select_balance scan_balance
select_balance_lem user t row u n h k = ground (arith, int4-cases user)

-- The balance that is read under the lock is that of the user.
pub lock-InTx :
    (user : ℤ)
    → InTx
        (lock_and_get_user_balance tx user)
        (λ t n u. (u ≡ t) × (lookup user t.balances ≡ some (pos n)))
unfolding lock_and_get_user_balance
lock-InTx user =
    InTx-post (InTx-rescue _ _ (InTx-bind _ _ (InTx-query _) (λ row. InTx-lift _)))
      λ t n u (row, t', h, (k, e)). rw e (select_balance_lem user t row t' n h k)

-- The three statements of a transfer.
pub record Proceeds (amount from to : ℤ) (t u : Tables) : Type 0 where
  pub k : ℕ
  pub n : ℕ
  pub t₁ : Tables
  pub t₂ : Tables
  pub debited : Updates (is_covered from amount) (λ b. b -ℤ amount) t k t₁
  pub credited : Updates (is_user to) (λ b. b +ℤ amount) t₁ n t₂
  pub recorded : u ≡ with_transaction from to amount t₂
  pub receiver : lookup to t₂.balances ≢ none

covered-InTx : (n : ℕ) → InTx (covered n) (λ t _ u. u ≡ t)
covered-InTx zero = InTx-post (InTx-lift _) λ t a u (h, e). e
covered-InTx (suc n) = InTx-post (InTx-lift _) λ t a u (h, e). e

proceed-InTx :
    (amount : ℕ) (from to : ℤ)
    → InTx (proceed_transaction tx amount from to) (λ t _ u. Proceeds (pos amount) from to t u)
unfolding proceed_transaction
proceed-InTx amount from to =
    InTx-post
      (InTx-bind _ _ (InTx-rescue _ _ (InTx-query _)) (λ n. InTx-bind _ _ (covered-InTx n) (λ _.
        InTx-bind _ _ (InTx-rescue _ _ (InTx-query _))
          (λ _. InTx-bind _ _ (InTx-rescue _ _ (InTx-query _)) (λ _. InTx-lift _)))))
      λ t _ u (k, t₁, hd, (_, t₁', e₁, (n, t₂, hc, (m, t₃, hi, (_, e₃))))). record {
        k = k;
        n = n;
        t₁ = t₁;
        t₂ = t₂;
        debited = debit_if_covered-Updates (pos amount) from t k t₁ hd;
        credited = credit-Updates (pos amount) to t₁ n t₂ (rw e₁ at hc);
        recorded = e₃ ∙ (insert_transaction_lem from to (pos amount) t₂ m t₃ hi).0;
        receiver = (insert_transaction_lem from to (pos amount) t₂ m t₃ hi).2;
      }

-- The two statements of a purchase.
pub record Purchases (user : ℤ) (good : GoodInfo) (t u : Tables) : Type 0 where
  pub n : ℕ
  pub t₁ : Tables
  pub debited : Updates (is_user user) (λ b. b -ℤ pos good.price) t n t₁
  pub recorded : u ≡ with_purchase user good.id t₁

process_purchase-InTx :
    (user : ℤ) (good : GoodInfo)
    → InTx (process_purchase tx user good) (λ t _ u. Purchases user good t u)
unfolding process_purchase
process_purchase-InTx user good =
    InTx-post
      (InTx-bind _ _ (InTx-rescue _ _ (InTx-query _))
        (λ _. InTx-bind _ _ (InTx-rescue _ _ (InTx-query _)) (λ _. InTx-lift _)))
      λ t _ u (n, t₁, hd, (m, t₂, hi, (_, e))). record {
        n = n;
        t₁ = t₁;
        debited = debit-Updates (pos good.price) user t n t₁ hd;
        recorded = e ∙ (insert_purchase_lem user good.id t₁ m t₂ hi).0;
      }

-- A transfer that returns has read a balance that covers it.
pub record Sends (amount : ℕ) (from to : ℤ) (t u : Tables) : Type 0 where
  pub balance : ℕ
  pub held : lookup from t.balances ≡ some (pos balance)
  pub covers : amount ≤ balance
  pub proceeds : Proceeds (pos amount) from to t u

pub send-InTx :
    (from to : ℤ) (amount : ℕ)
    → InTx (send_in_transaction from to amount tx) (λ t _ u. Sends amount from to t u)
unfolding send_in_transaction
send-InTx from to amount =
    InTx-post
      (InTx-bind _ _ (InTx-rescue _ _ (lock-InTx from))
        (λ b. InTx-guard (ltb b amount) _ _ (InTx-rescue _ _ (proceed-InTx amount from to))))
      λ t _ u (b, t₁, (e, held), (enough, p)). record {
        balance = b;
        held = held;
        covers = ground arith;
        proceeds = rw e at p;
      }

-- A purchase that returns has read a balance that covers the price.
pub record Buys (user : ℤ) (good : GoodInfo) (t u : Tables) : Type 0 where
  pub balance : ℕ
  pub held : lookup user t.balances ≡ some (pos balance)
  pub covers : good.price ≤ balance
  pub purchases : Purchases user good t u

pub buy-InTx :
    (user : ℤ) (good : GoodInfo)
    → InTx (buy_in_transaction user good tx) (λ t _ u. Buys user good t u)
unfolding buy_in_transaction
buy-InTx user good =
    InTx-post
      (InTx-bind _ _ (InTx-rescue _ _ (lock-InTx user)) (λ b.
        InTx-guard (ltb b good.price) _ _ (InTx-rescue _ _ (process_purchase-InTx user good))))
      λ t _ u (b, t₁, (e, held), (enough, p)). record {
        balance = b;
        held = held;
        covers = ground arith;
        purchases = rw e at p;
      }
