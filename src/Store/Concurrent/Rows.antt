-- ===== src/Store/Concurrent/Rows.antt =====
-- The rows of `balances` when a commit puts the new version of one of them in place.
use merch_store.Base.{
  length, ℕ, ◌≡◌, none, some, Bool, true, ok, [], ◌∷◌, arith, Assoc, lookup, insert, lookup-insert,
  int_keys, inl, inr, Bool-cases,
}
use merch_store.Base.Int.{ℤ, ◌+ℤ◌, eqb_ℤ, eqb_ℤ_iff, int_laws}
use merch_store.Store.Tables.{update_rows}
use merch_store.Store.Updates.{IsBalance, AreBalances, total, update_rows-Row}

module _ (user new old : ℤ) where
  pub length-insert :
      (rows : Assoc ℤ ℤ) → lookup user rows ≡ some old → length (insert user new rows) ≡ length rows
  unfolding lookup insert
  length-insert [] h = absurd (ground arith)
  length-insert ((u, b) ∷ rows) h = ground (arith, length-insert rows)

  pub total-insert :
      (rows : Assoc ℤ ℤ)
      → lookup user rows ≡ some old
      → total (insert user new rows) +ℤ old ≡ total rows +ℤ new
  unfolding lookup insert
  total-insert [] h = absurd (ground arith)
  total-insert ((u, b) ∷ rows) h = elim (Bool-cases (eqb_ℤ u user)) [
    | inl same ↦ grind (int_laws, same)
    | inr other ↦ grind (int_laws, other, total-insert rows)
  ]

  pub AreBalances-insert :
      (rows : Assoc ℤ ℤ)
      → lookup user rows ≡ some old
      → IsBalance new
      → AreBalances rows
      → AreBalances (insert user new rows)
  unfolding lookup insert
  AreBalances-insert [] h fits v = absurd (ground arith)
  AreBalances-insert ((u, b) ∷ rows) h fits v = ground (
    arith,
    eqb_ℤ_iff u user,
    eqb_ℤ_iff user u,
    lookup-insert user u new rows,
    AreBalances-insert rows,
  )

-- An UPDATE of one user's row puts its new version in place of the old one.
module _ (matches : ℤ → ℤ → Bool) (set : ℤ → ℤ) (user : ℤ)
    (only : (v b : ℤ) → matches v b ≡ true → v ≡ user) where
  update_rows_misses :
      (rows : Assoc ℤ ℤ) (n : ℕ) (rows' : Assoc ℤ ℤ)
      → update_rows matches set rows ≡ ok (n, rows')
      → lookup user rows ≡ none
      → rows' ≡ rows
  unfolding update_rows lookup
  update_rows_misses [] n rows' h e = ground arith
  update_rows_misses ((u, b) ∷ rows) n rows' h e =
      let r = update_rows-Row matches set u b rows n rows' h in
      ground (
        arith,
        eqb_ℤ_iff u user,
        only u b,
        update_rows_misses rows r.k r.rest r.others,
        r.whole,
        r.row,
      )

  pub update_rows-eq-insert :
      (old : ℤ) (rows : Assoc ℤ ℤ) (n : ℕ) (rows' : Assoc ℤ ℤ)
      → update_rows matches set rows ≡ ok (n, rows')
      → AreBalances rows
      → lookup user rows ≡ some old
      → matches user old ≡ true
      → rows' ≡ insert user (set old) rows
  unfolding update_rows lookup insert
  update_rows-eq-insert old [] n rows' h v e m = absurd (ground arith)
  update_rows-eq-insert old ((u, b) ∷ rows) n rows' h v e m =
      let r = update_rows-Row matches set u b rows n rows' h in
      elim (Bool-cases (eqb_ℤ u user)) [
        | inl same ↦ ground (
          arith,
          same,
          eqb_ℤ_iff u user,
          update_rows_misses rows r.k r.rest r.others,
          r.whole,
          r.row,
        )
        | inr other ↦ ground (
          arith,
          other,
          eqb_ℤ_iff u user,
          only u b,
          update_rows-eq-insert old rows r.k r.rest r.others v.2,
          r.whole,
          r.row,
        )
      ]
