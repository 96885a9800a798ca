-- ===== src/Store/Updates.antt =====
-- What the UPDATE and INSERT statements on `balances` do to the rows, as lookups, as a sum, and to
-- what the schema asks of the rows.
use merch_store.Base.{
  length, ℕ, suc, ◌≡◌, refl, Bool, true, false, Option, none, some, [], ◌∷◌, ◌++◌, ok, err, arith,
  Assoc, lookup, int_keys, if◌then◌else◌, ◌⊎◌, inl, inr, Bool-cases, Result-cases,
}
use merch_store.Base.Int.{ℤ, pos, ◌+ℤ◌, ◌≤ℤ◌, eqb_ℤ, eqb_ℤ_iff, int_laws}
use merch_store.Errors.{SqlError}
use merch_store.Database.Statement.{int4, max_int4}
use merch_store.Store.Tables.{balance_value, update_rows}

-- What the schema lets a balance be.
abbrev pub IsBalance : ℤ → Type 0
IsBalance b = (pos 0 ≤ℤ b) × (b ≤ℤ pos max_int4)

-- UNIQUE, and the CHECK of each row.
abbrev pub AreBalances : Assoc ℤ ℤ → Type 0
AreBalances [] = Unit
AreBalances ((u, b) ∷ rows) = IsBalance b × (lookup u rows ≡ none) × AreBalances rows

abbrev pub total : Assoc ℤ ℤ → ℤ
total [] = pos 0
total ((_, b) ∷ rows) = b +ℤ total rows

pub int4-cases : (n : ℤ) → (int4 n ≡ ok n) ⊎ ((e : SqlError) × (int4 n ≡ err e))
unfolding int4
int4-cases n = ground arith

pub balance_value-cases :
    (b : ℤ)
    → ((balance_value b ≡ ok b) × IsBalance b) ⊎ ((e : SqlError) × (balance_value b ≡ err e))
unfolding balance_value int4
balance_value-cases b = ground arith

pub balance_value_fits : (b : ℤ) → IsBalance b → balance_value b ≡ ok b
unfolding balance_value int4
balance_value_fits b h = ground arith

abbrev pub changed : (ℤ → ℤ → Bool) → (ℤ → ℤ) → ℤ → Option ℤ → Option ℤ
changed matches set j none = none
changed matches set j (some b) = if matches j b then some (set b) else some b

-- A row at the end, as INSERT leaves it.
module _ (user b : ℤ) where
  pub lookup-append :
      (j : ℤ) (rows : Assoc ℤ ℤ)
      → lookup j (rows ++ (user, b) ∷ [])
        ≡ elim (lookup j rows) [ some c ↦ some c | none ↦ if eqb_ℤ user j then some b else none ]
  unfolding lookup
  lookup-append j [] = refl
  lookup-append j ((u, c) ∷ rows) = ground (arith, lookup-append j rows)

  pub total-append : (rows : Assoc ℤ ℤ) → total (rows ++ (user, b) ∷ []) ≡ total rows +ℤ b
  total-append [] = omega int_laws
  total-append ((u, c) ∷ rows) = grind (int_laws, total-append rows)

  pub AreBalances-append :
      (rows : Assoc ℤ ℤ)
      → lookup user rows ≡ none
      → IsBalance b
      → AreBalances rows
      → AreBalances (rows ++ (user, b) ∷ [])
  unfolding lookup
  AreBalances-append [] fresh fits v = (fits, refl, tt)
  AreBalances-append ((u, c) ∷ rows) fresh fits v =
      ground
        (arith, eqb_ℤ_iff u user, eqb_ℤ_iff user u, lookup-append u rows, AreBalances-append rows)

module _ (matches : ℤ → ℤ → Bool) (set : ℤ → ℤ) where
  -- What one row contributes to an UPDATE that succeeds.
  pub record Row (u b : ℤ) (rows : Assoc ℤ ℤ) (n : ℕ) (rows' : Assoc ℤ ℤ) : Type 0 where
    pub k : ℕ
    pub b' : ℤ
    pub rest : Assoc ℤ ℤ
    pub others : update_rows matches set rows ≡ ok (k, rest)
    pub whole : rows' ≡ (u, b') ∷ rest
    pub row :
        ((matches u b ≡ true) × (b' ≡ set b) × IsBalance b' × (n ≡ suc k))
        ⊎ ((matches u b ≡ false) × (b' ≡ b) × (n ≡ k))

  pub update_rows-Row :
      (u b : ℤ) (rows : Assoc ℤ ℤ) (n : ℕ) (rows' : Assoc ℤ ℤ)
      → update_rows matches set ((u, b) ∷ rows) ≡ ok (n, rows')
      → Row u b rows n rows'
  unfolding update_rows
  update_rows-Row u b rows n rows' h = elim (Result-cases (update_rows matches set rows)) [
    | inl ((k, rest), e) ↦ record {
      k = k;
      b' = if matches u b then set b else b;
      rest = rest;
      others = e;
      whole = ground (arith, balance_value-cases (set b));
      row = ground (arith, balance_value-cases (set b));
    }
    | inr (x, e) ↦ absurd (ground arith)
  ]

  pub lookup-update_rows :
      (j : ℤ) (rows : Assoc ℤ ℤ) (n : ℕ) (rows' : Assoc ℤ ℤ)
      → update_rows matches set rows ≡ ok (n, rows')
      → lookup j rows' ≡ changed matches set j (lookup j rows)
  unfolding lookup update_rows
  lookup-update_rows j [] n rows' h = ground arith
  lookup-update_rows j ((u, b) ∷ rows) n rows' h =
      let r = update_rows-Row u b rows n rows' h in
      ground (arith, lookup-update_rows j rows r.k r.rest r.others, eqb_ℤ_iff u j, r.whole, r.row)

  pub AreBalances-update_rows :
      (rows : Assoc ℤ ℤ) (n : ℕ) (rows' : Assoc ℤ ℤ)
      → update_rows matches set rows ≡ ok (n, rows')
      → AreBalances rows
      → AreBalances rows'
  unfolding update_rows
  AreBalances-update_rows [] n rows' h v = ground arith
  AreBalances-update_rows ((u, b) ∷ rows) n rows' h v =
      let r = update_rows-Row u b rows n rows' h in
      ground (
        arith,
        lookup-update_rows u rows r.k r.rest r.others,
        AreBalances-update_rows rows r.k r.rest r.others v.2,
        r.whole,
        r.row,
      )

  pub length-update_rows :
      (rows : Assoc ℤ ℤ) (n : ℕ) (rows' : Assoc ℤ ℤ)
      → update_rows matches set rows ≡ ok (n, rows')
      → length rows' ≡ length rows
  unfolding update_rows
  length-update_rows [] n rows' h = ground arith
  length-update_rows ((u, b) ∷ rows) n rows' h =
      let r = update_rows-Row u b rows n rows' h in
      ground (arith, length-update_rows rows r.k r.rest r.others, r.whole)

  -- The UPDATE of one user's row.
  module _ (user : ℤ) (only : (v b : ℤ) → matches v b ≡ true → v ≡ user) where
    total-update_rows-none :
        (rows : Assoc ℤ ℤ) (n : ℕ) (rows' : Assoc ℤ ℤ)
        → update_rows matches set rows ≡ ok (n, rows')
        → lookup user rows ≡ none
        → (n ≡ 0) × (total rows' ≡ total rows)
    unfolding update_rows lookup
    total-update_rows-none [] n rows' h e = ground arith
    total-update_rows-none ((u, b) ∷ rows) n rows' h e =
        let r = update_rows-Row u b rows n rows' h in
        ground (
          arith,
          eqb_ℤ_iff u user,
          only u b,
          total-update_rows-none rows r.k r.rest r.others,
          r.whole,
          r.row,
        )

    pub total-update_rows :
        (old : ℤ) (rows : Assoc ℤ ℤ) (n : ℕ) (rows' : Assoc ℤ ℤ)
        → update_rows matches set rows ≡ ok (n, rows')
        → AreBalances rows
        → lookup user rows ≡ some old
        → matches user old ≡ true
        → (n ≡ 1) × (total rows' +ℤ old ≡ total rows +ℤ set old)
    unfolding update_rows lookup
    total-update_rows old [] n rows' h v e m = ground arith
    total-update_rows old ((u, b) ∷ rows) n rows' h v e m =
        let r = update_rows-Row u b rows n rows' h in
        elim (Bool-cases (eqb_ℤ u user)) [
          | inl same ↦ grind (
            int_laws,
            eqb_ℤ_iff u user,
            total-update_rows-none rows r.k r.rest r.others,
            r.whole,
            r.row,
          )
          | inr other ↦ grind (
            int_laws,
            eqb_ℤ_iff u user,
            only u b,
            total-update_rows old rows r.k r.rest r.others v.2,
            r.whole,
            r.row,
          )
        ]
