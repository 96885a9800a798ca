-- ===== src/Store/Spec.antt =====
-- The contract of the store's writes, apart from how the statements carry them out: opening a
-- balance, a transfer and a purchase, as relations of the tables before and after; and that the
-- bodies of the transactions keep it.
use merch_store.Base.{
  ℕ, ◌≡◌, ◌≢◌, refl, Option, none, some, [], ◌∷◌, ◌++◌, arith, lookup, int_keys, length, ◌∙◌,
  if◌then◌else◌, inl, inr, ◌≤◌, Option-cases,
}
use merch_store.Base.Int.{ℤ, pos, ◌+ℤ◌, ◌-ℤ◌, eqb_ℤ, eqb_ℤ_iff, int_laws}
use merch_store.Store.Domain.{GoodInfo}
use merch_store.Store.Tables.{Tables}
use merch_store.Store.Updates.{
  AreBalances, total, length-update_rows, lookup-update_rows, AreBalances-update_rows,
  total-update_rows,
}
use merch_store.Store.Effects.{is_user, is_covered, Sends, Buys}

-- What a transfer makes of the balance `b` of the user `j`.
abbrev pub after_transfer : ℤ → ℤ → ℕ → ℤ → ℤ → ℤ
after_transfer from to amount j b =
    if eqb_ℤ j from then b -ℤ pos amount else if eqb_ℤ j to then b +ℤ pos amount else b

abbrev pub map_balance : (ℤ → ℤ) → Option ℤ → Option ℤ
map_balance f none = none
map_balance f (some b) = some (f b)

pub record Sent (amount : ℕ) (from to : ℤ) (t u : Tables) : Type 0 where
  pub balance : ℕ
  pub held : lookup from t.balances ≡ some (pos balance)
  pub covers : amount ≤ balance
  pub receiver : lookup to t.balances ≢ none
  pub moves :
      (j : ℤ)
      → lookup j u.balances ≡ map_balance (after_transfer from to amount j) (lookup j t.balances)
  pub conserves : total u.balances ≡ total t.balances
  pub users : length u.balances ≡ length t.balances
  pub valid : AreBalances u.balances
  pub recorded :
      u.transactions
      ≡ t.transactions ++ record { from_user_id = from; to_user_id = to; amount = pos amount } ∷ []
  pub goods : u.goods ≡ t.goods
  pub purchases : u.purchases ≡ t.purchases

module _ (amount : ℕ) (from to : ℤ) (t u : Tables) (s : Sends amount from to t u) where
  open s.proceeds use {k, n, t₁, t₂, debited, credited, recorded, receiver}

  after_debit :
      (j : ℤ)
      → lookup j t₁.balances
        ≡ map_balance (λ b. if eqb_ℤ j from then b -ℤ pos amount else b) (lookup j t.balances)
  after_debit j = ground (
    arith,
    s.held,
    s.covers,
    eqb_ℤ_iff j from,
    lookup-update_rows (is_covered from (pos amount)) (λ b. b -ℤ pos amount) j t.balances k
        t₁.balances debited.0,
  )

  after_credit :
      (j : ℤ)
      → lookup j t₂.balances
        ≡ map_balance (λ b. if eqb_ℤ j to then b +ℤ pos amount else b) (lookup j t₁.balances)
  after_credit j = ground (
    arith,
    lookup-update_rows (is_user to) (λ b. b +ℤ pos amount) j t₁.balances n t₂.balances credited.0,
  )

  module _ (differ : to ≢ from) (v : AreBalances t.balances) where
    transfer_moves :
        (j : ℤ)
        → lookup j t₂.balances ≡ map_balance (after_transfer from to amount j) (lookup j t.balances)
    transfer_moves j =
        ground (arith, after_debit j, after_credit j, eqb_ℤ_iff j from, eqb_ℤ_iff j to)

    receiver_before : (b : ℤ) × (lookup to t.balances ≡ some b)
    receiver_before = elim (Option-cases (lookup to t.balances)) [
      | inl e ↦ absurd (receiver (ground (arith, transfer_moves to)))
      | inr found ↦ found
    ]

    valid₁ : AreBalances t₁.balances
    valid₁ =
        AreBalances-update_rows (is_covered from (pos amount)) (λ b. b -ℤ pos amount) t.balances k
          t₁.balances debited.0 v

    debited_total :
        total t₁.balances +ℤ pos s.balance ≡ total t.balances +ℤ (pos s.balance -ℤ pos amount)
    debited_total =
        (total-update_rows (is_covered from (pos amount)) (λ b. b -ℤ pos amount) from
          (λ w b h. ground (arith, eqb_ℤ_iff w from)) (pos s.balance) t.balances k t₁.balances
          debited.0 v s.held (ground (arith, s.covers, eqb_ℤ_iff from from))).1

    credited_total :
        (b : ℤ)
        → lookup to t.balances ≡ some b
        → total t₂.balances +ℤ b ≡ total t₁.balances +ℤ (b +ℤ pos amount)
    credited_total b e =
        (total-update_rows (is_user to) (λ b. b +ℤ pos amount) to (λ w b h. (eqb_ℤ_iff w to).0 h) b
          t₁.balances n t₂.balances credited.0 valid₁
          (ground (arith, after_debit to, eqb_ℤ_iff to from)) ((eqb_ℤ_iff to to).1 refl)).1

    transfer_conserves : total t₂.balances ≡ total t.balances
    transfer_conserves =
        grind (int_laws, debited_total, credited_total receiver_before.0 receiver_before.1)

    -- A transfer between two users keeps the contract.
    pub Sends-Sent : Sent amount from to t u
    Sends-Sent = record {
      balance = s.balance;
      held = s.held;
      covers = s.covers;
      receiver = ground (arith, receiver_before.1);
      moves = λ j. rw recorded (transfer_moves j);
      conserves = rw recorded transfer_conserves;
      users = rw recorded (
          length-update_rows (is_user to) (λ b. b +ℤ pos amount) t₁.balances n t₂.balances
            credited.0
          ∙ length-update_rows (is_covered from (pos amount)) (λ b. b -ℤ pos amount) t.balances k
              t₁.balances debited.0);
      valid = rw recorded (
          AreBalances-update_rows (is_user to) (λ b. b +ℤ pos amount) t₁.balances n t₂.balances
            credited.0 valid₁);
      recorded = ground (arith, recorded, credited.1, debited.1);
      goods = ground (arith, recorded, credited.1, debited.1);
      purchases = ground (arith, recorded, credited.1, debited.1);
    }

abbrev pub after_purchase : ℤ → ℕ → ℤ → ℤ → ℤ
after_purchase user price j b = if eqb_ℤ j user then b -ℤ pos price else b

pub record Bought (user : ℤ) (good : GoodInfo) (t u : Tables) : Type 0 where
  pub balance : ℕ
  pub held : lookup user t.balances ≡ some (pos balance)
  pub covers : good.price ≤ balance
  pub moves :
      (j : ℤ)
      → lookup j u.balances ≡ map_balance (after_purchase user good.price j) (lookup j t.balances)
  pub pays : total u.balances +ℤ pos good.price ≡ total t.balances
  pub users : length u.balances ≡ length t.balances
  pub valid : AreBalances u.balances
  pub recorded : u.purchases ≡ t.purchases ++ record { user_id = user; good_id = good.id } ∷ []
  pub goods : u.goods ≡ t.goods
  pub transactions : u.transactions ≡ t.transactions

module _ (user : ℤ) (good : GoodInfo) (t u : Tables) (s : Buys user good t u) where
  open s.purchases use {n, t₁, debited, recorded}

  purchase_moves :
      (j : ℤ)
      → lookup j t₁.balances ≡ map_balance (after_purchase user good.price j) (lookup j t.balances)
  purchase_moves j = ground (
    arith,
    lookup-update_rows (is_user user) (λ b. b -ℤ pos good.price) j t.balances n t₁.balances
        debited.0,
  )

  module _ (v : AreBalances t.balances) where
    paid_total :
        total t₁.balances +ℤ pos s.balance ≡ total t.balances +ℤ (pos s.balance -ℤ pos good.price)
    paid_total =
        (total-update_rows (is_user user) (λ b. b -ℤ pos good.price) user
          (λ w b h. (eqb_ℤ_iff w user).0 h) (pos s.balance) t.balances n t₁.balances debited.0 v
          s.held ((eqb_ℤ_iff user user).1 refl)).1

    purchase_pays : total t₁.balances +ℤ pos good.price ≡ total t.balances
    purchase_pays = grind (int_laws, paid_total)

    -- A purchase keeps the contract.
    pub Buys-Bought : Bought user good t u
    Buys-Bought = record {
      balance = s.balance;
      held = s.held;
      covers = s.covers;
      moves = λ j. rw recorded (purchase_moves j);
      pays = rw recorded purchase_pays;
      users = rw recorded (
          length-update_rows (is_user user) (λ b. b -ℤ pos good.price) t.balances n t₁.balances
            debited.0);
      valid = rw recorded (
          AreBalances-update_rows (is_user user) (λ b. b -ℤ pos good.price) t.balances n t₁.balances
            debited.0 v);
      recorded = ground (arith, recorded, debited.1);
      goods = ground (arith, recorded, debited.1);
      transactions = ground (arith, recorded, debited.1);
    }
