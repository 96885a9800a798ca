-- ===== src/Store/Success.antt =====
-- SendCoins and BuyItem succeed when the database does not fail and what they need is there: the
-- outcomes of Store.Transfers and Store.Buying are not only errors.
use merch_store.Base.{
  ℕ, suc, ◌≡◌, ◌≢◌, refl, sym, subst, ◌∙◌, ◌+◌, ◌≤◌, Bool, true, none, some, [], ◌∷◌, ok, arith,
  lookup, int_keys, inl, inr, Option-cases, Assoc, same_refl, Bool-cases,
}
use merch_store.Base.Int.{ℤ, pos, negsuc, ◌+ℤ◌, ◌-ℤ◌, ◌≤ℤ◌, eqb_ℤ, eqb_ℤ_iff, int_laws}
use merch_store.Database.Statement.{int4, max_int4}
use merch_store.Store.Tables.{
  Tables, update_rows, update_balances, select_balance, debit_if_covered, credit,
  insert_transaction, references_balance,
}
use merch_store.Store.Updates.{
  AreBalances, IsBalance, balance_value_fits, lookup-update_rows, total-update_rows,
  AreBalances-update_rows, changed,
}
use merch_store.Store.Effects.{is_user, is_covered, with_transaction}

-- A number that fits a column of type INTEGER.
abbrev pub FitsInt4 : ℤ → Type 0
FitsInt4 n = (n ≤ℤ pos max_int4) × (negsuc max_int4 ≤ℤ n)

pub int4_fits : (n : ℤ) → FitsInt4 n → int4 n ≡ ok n
unfolding int4
int4_fits n h = ground arith

some-none : (b : ℤ) → some b ≡ none → ⊥
some-none b h = cc

-- An UPDATE of one user's row succeeds if the new balance is allowed.
module _ (matches : ℤ → ℤ → Bool) (set : ℤ → ℤ) (user : ℤ)
    (only : (v b : ℤ) → matches v b ≡ true → v ≡ user) where
  fits_tail :
      (u b : ℤ) (rows : Assoc ℤ ℤ)
      → lookup u rows ≡ none
      → ((b' : ℤ) → lookup user ((u, b) ∷ rows) ≡ some b' → IsBalance (set b'))
      → (b' : ℤ) → lookup user rows ≡ some b'
      → IsBalance (set b')
  unfolding lookup
  fits_tail u b rows fresh fits b' h = elim (Bool-cases (eqb_ℤ u user)) [
    | inl same ↦
        absurd (
          some-none b'
            (sym h ∙ subst (λ k. lookup k rows ≡ none) ((eqb_ℤ_iff u user).0 same) fresh))
    | inr other ↦ fits b' (rw other h)
  ]

  update_rows_succeeds :
      (rows : Assoc ℤ ℤ)
      → AreBalances rows
      → ((b : ℤ) → lookup user rows ≡ some b → IsBalance (set b))
      → (r : ℕ × Assoc ℤ ℤ) × (update_rows matches set rows ≡ ok r)
  unfolding update_rows lookup
  update_rows_succeeds [] v fits = ((0, []), refl)
  update_rows_succeeds ((u, b) ∷ rows) v fits =
      let ((n, rest), e) = update_rows_succeeds rows v.2 (fits_tail u b rows v.1 fits) in
      elim (Bool-cases (matches u b)) [
        | inl hit ↦ (
          (suc n, (u, set b) ∷ rest),
          rw (
            e,
            hit,
            balance_value_fits (set b) (fits b (rw ((eqb_ℤ_iff u user).1 (only u b hit)))),
          ),
        )
        | inr miss ↦ ((n, (u, b) ∷ rest), rw (e, miss))
      ]

  -- The UPDATE on tables in which the user has the balance `b`.
  module _ (t : Tables) (v : AreBalances t.balances) (b : ℤ)
      (held : lookup user t.balances ≡ some b) (hit : matches user b ≡ true)
      (fits : IsBalance (set b)) where
    pub record Updated : Type 0 where
      pub u : Tables
      pub done : update_balances matches set t ≡ ok (1, u)
      pub changes : (j : ℤ) → lookup j u.balances ≡ changed matches set j (lookup j t.balances)
      pub valid : AreBalances u.balances
      pub goods : u.goods ≡ t.goods

    fits_any : (c : ℤ) → lookup user t.balances ≡ some c → IsBalance (set c)
    fits_any c h = ground (arith, held, h)

    pub update_balances_succeeds : Updated
    unfolding update_balances
    update_balances_succeeds =
        let ((n, rows), e) = update_rows_succeeds t.balances v fits_any in
        let one = (total-update_rows matches set user only b t.balances n rows e v held hit).0 in
        record {
          u = record t { balances = rows };
          done = rw (e, one) refl;
          changes = λ j. lookup-update_rows matches set j t.balances n rows e;
          valid = AreBalances-update_rows matches set t.balances n rows e v;
          goods = refl;
        }

pub lookup_range :
    (j b : ℤ) (rows : Assoc ℤ ℤ) → AreBalances rows → lookup j rows ≡ some b → IsBalance b
unfolding lookup
lookup_range j b [] v h = absurd (some-none b (sym h))
lookup_range j b ((u, c) ∷ rows) v h = ground (arith, lookup_range j b rows)

-- The statements of a transfer, each of which succeeds.
pub record Statements (amount : ℕ) (from to : ℤ) (balance : ℕ) (t : Tables) : Type 0 where
  pub t₁ : Tables
  pub t₂ : Tables
  pub selected : select_balance from t ≡ ok (some (pos balance), t)
  pub debited : debit_if_covered (pos amount) from t ≡ ok (1, t₁)
  pub credited : credit (pos amount) to t₁ ≡ ok (1, t₂)
  pub recorded :
      insert_transaction from to (pos amount) t₂ ≡ ok (1, with_transaction from to (pos amount) t₂)

-- On tables where the transfer is allowed.
module _ (amount : ℕ) (from to : ℤ) (t : Tables) (v : AreBalances t.balances)
    (fits_from : FitsInt4 from) (fits_to : FitsInt4 to) (fits_amount : FitsInt4 (pos amount))
    (balance other : ℕ) (held : lookup from t.balances ≡ some (pos balance))
    (covers : amount ≤ balance) (differ : to ≢ from)
    (receiver : lookup to t.balances ≡ some (pos other)) (room : other + amount ≤ max_int4) where
  debited_fits : IsBalance (pos balance -ℤ pos amount)
  debited_fits = grind (int_laws, lookup_range from (pos balance) t.balances v held)

  only_from : (w b : ℤ) → is_covered from (pos amount) w b ≡ true → w ≡ from
  only_from w b h = ground (arith, eqb_ℤ_iff w from)

  covered_hit : is_covered from (pos amount) from (pos balance) ≡ true
  covered_hit = ground (arith, eqb_ℤ_iff from from)

  debited :
      Updated
        (is_covered from (pos amount))
        (λ b. b -ℤ pos amount)
        from
        only_from
        t
        v
        (pos balance)
        held
        covered_hit
        debited_fits
  debited =
      update_balances_succeeds (is_covered from (pos amount)) (λ b. b -ℤ pos amount) from only_from
        t v (pos balance) held covered_hit debited_fits

  debit_if_covered_done : debit_if_covered (pos amount) from t ≡ ok (1, debited.u)
  unfolding debit_if_covered
  debit_if_covered_done =
      rw (int4_fits (pos amount) fits_amount, int4_fits from fits_from) debited.done

  still_there : lookup to debited.u.balances ≡ some (pos other)
  still_there = ground (arith, debited.changes to, receiver, eqb_ℤ_iff to from)

  only_to : (w b : ℤ) → is_user to w b ≡ true → w ≡ to
  only_to w b h = ground (arith, eqb_ℤ_iff w to)

  credited_fits : IsBalance (pos other +ℤ pos amount)
  credited_fits = grind (int_laws, room)

  credited :
      Updated
        (is_user to)
        (λ b. b +ℤ pos amount)
        to
        only_to
        debited.u
        debited.valid
        (pos other)
        still_there
        (same_refl to)
        credited_fits
  credited =
      update_balances_succeeds (is_user to) (λ b. b +ℤ pos amount) to only_to debited.u
        debited.valid (pos other) still_there (same_refl to) credited_fits

  credit_done : credit (pos amount) to debited.u ≡ ok (1, credited.u)
  unfolding credit
  credit_done = rw (int4_fits (pos amount) fits_amount, int4_fits to fits_to) credited.done

  sender_kept : lookup from credited.u.balances ≢ none
  sender_kept gone = ground (arith, credited.changes from, debited.changes from, held, gone)

  receiver_kept : lookup to credited.u.balances ≢ none
  receiver_kept gone = ground (arith, credited.changes to, still_there, gone)

  references_there :
      (j : ℤ) → lookup j credited.u.balances ≢ none → references_balance j credited.u ≡ ok j
  unfolding references_balance
  references_there j h = ground (arith, h, Option-cases (lookup j credited.u.balances))

  insert_transaction_done :
      insert_transaction from to (pos amount) credited.u
      ≡ ok (1, with_transaction from to (pos amount) credited.u)
  unfolding insert_transaction
  insert_transaction_done =
      rw
        (
          int4_fits (pos amount) fits_amount,
          int4_fits to fits_to,
          int4_fits from fits_from,
          references_there from sender_kept,
          references_there to receiver_kept,
        )
        refl

  select_balance_done : select_balance from t ≡ ok (some (pos balance), t)
  unfolding select_balance
  select_balance_done = rw (int4_fits from fits_from, held) refl

  pub transfer-Statements : Statements amount from to balance t
  transfer-Statements = record {
    t₁ = debited.u;
    t₂ = credited.u;
    selected = select_balance_done;
    debited = debit_if_covered_done;
    credited = credit_done;
    recorded = insert_transaction_done;
  }
