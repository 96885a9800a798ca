-- ===== src/Store/Opening.antt =====
-- BalancesRepository.EnsureBalanceCreated: what it leaves in the tables.
use merch_store.Base.{
  ℕ, ◌≡◌, ◌≢◌, none, some, [], ◌∷◌, ◌++◌, ok, err, arith, lookup, int_keys, if◌then◌else◌, ◌⊎◌,
}
use merch_store.Base.Int.{ℤ, pos, eqb_ℤ, eqb_ℤ_iff}
use merch_store.Errors.{Error}
use merch_store.Database.{Session, query, pool}
use merch_store.Database.Rules.{NoneLost}
use merch_store.Database.Atomicity.{
  Ended, query-Ended, void-Ended, void_state, void_error, query_unchanged, query_spends,
}
use merch_store.Store.Domain.{DomainError}
use merch_store.Store.Tables.{Tables, insert_balance}
use merch_store.Store.Repositories.{ensure_balance_created}
use merch_store.Store.Updates.{
  AreBalances, IsBalance, lookup-append, AreBalances-append, int4-cases, balance_value-cases,
}

abbrev pub with_balance : ℤ → ℤ → Tables → Tables
with_balance user b t = record t { balances = t.balances ++ (user, b) ∷ [] }

-- A balance that is there stays; one that is not starts at `start`.
abbrev pub Opened : ℤ → ℕ → Tables → Tables → Type 0
Opened user start t u =
    ((lookup user t.balances ≢ none) × (u ≡ t))
    ⊎ ((lookup user t.balances ≡ none)
        × IsBalance (pos start)
        × (u ≡ with_balance user (pos start) t))

insert_balance-Opened :
    (user : ℤ) (start : ℕ) (t : Tables) (n : ℕ) (u : Tables)
    → insert_balance user (pos start) t ≡ ok (n, u)
    → Opened user start t u
unfolding insert_balance
insert_balance-Opened user start t n u h =
    ground (arith, int4-cases user, balance_value-cases (pos start))

module _ (user : ℤ) (start : ℕ) (t u : Tables) (o : Opened user start t u) where
  pub Opened-AreBalances : AreBalances t.balances → AreBalances u.balances
  Opened-AreBalances v = ground (arith, AreBalances-append user (pos start) t.balances, o)

  pub lookup-Opened :
      (j : ℤ)
      → lookup j u.balances ≡ elim (lookup j t.balances) [
        | some b ↦ some b
        | none ↦ if eqb_ℤ user j then some (pos start) else none
      ]
  lookup-Opened j = ground (arith, lookup-append user (pos start) j t.balances, eqb_ℤ_iff user j)

module _ (user : ℤ) (start : ℕ) (s : Session Tables) where
  -- Whatever happens, the balance is opened or nothing has changed; without an error it is opened.
  pub ensure_balance_created-Ended :
      let (r, s') = ensure_balance_created user start s in
      Ended (λ t _ u. Opened user start t u) s.committed r s'.committed
  unfolding ensure_balance_created
  ensure_balance_created-Ended =
      let q = insert_balance user (pos start) in
      let (r, s') = query {D = DomainError} pool q s in
      void-Ended (λ t n u. q t ≡ ok (n, u)) (Opened user start) s.committed r s'
        (λ n h. insert_balance-Opened user start s.committed n s'.committed h)
        (query-Ended DomainError q s)

  module _ (h : NoneLost s.fates) where
    pub ensure_balance_created_unchanged :
        {e : Error DomainError}
        → (ensure_balance_created user start s).0 ≡ err e
        → (ensure_balance_created user start s).1.committed ≡ s.committed
    unfolding ensure_balance_created
    ensure_balance_created_unchanged {e} failed =
        let q = insert_balance user (pos start) in
        let (r, s') = query {D = DomainError} pool q s in
        rw (void_state r s') (query_unchanged DomainError q s h (void_error r s' failed))

    pub ensure_balance_created_spends : NoneLost (ensure_balance_created user start s).1.fates
    unfolding ensure_balance_created
    ensure_balance_created_spends =
        let q = insert_balance user (pos start) in
        let (r, s') = query {D = DomainError} pool q s in
        rw (void_state r s') (query_spends DomainError q s h)
