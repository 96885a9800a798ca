-- ===== src/Database/Atomicity.antt =====
-- What a transaction of internal/pkg/database/transactions.go, or one statement on the pool, does to
-- the committed tables, whatever the environment does to the statements.
use merch_store.Base.{◌≡◌, refl, ◌⊎◌, inl, inr, false, Result, ok, err, arith}
use merch_store.Errors.{Error, wrapped, SqlError}
use merch_store.Database.Statement.{Sql}
use merch_store.Database.Sessions.{
  Fate, done, refused, lost, Session, Executor, pool, tx, Action, next_fate, later_fates, settle,
  run,
}
use merch_store.Database.Transaction.{
  raise_sql, pure, begin_on, commit, rescue_with, call, query, wrap_error, with_rollback, continue,
  within_transaction,
}
use merch_store.Database.Rules.{NoneLost, later_fates-NoneLost, next_fate-NoneLost, Post, InTx}

-- How a transaction ends: committed, or with an error. After an error nothing has changed, unless it
-- is the answer to the commit that was lost.
abbrev pub Ended : {T D A : Type 0} → Post T A → T → Result (Error D) A → T → Type 0
Ended R t (ok a) t' = R t a t'
Ended {A = A} R t (err e) t' = (t' ≡ t) ⊎ ((a : A) × R t a t')

module _ {T D : Type 0} where
  -- The commit and the deferred rollback, after a body that has ended with `r` in `s`.
  finish : Result (Error D) (Unit {0}) → Action T D (Unit {0})
  unfolding commit
  finish r s =
      with_rollback
        (continue (λ _. wrap_error "failed to commit transaction" (call commit))
          (rescue_with (λ e. err (wrapped "failed to execute logic within transaction" e)) r))
        s

  finish-Ended :
      (R : Post T (Unit {0})) (t : T) (r : Result (Error D) (Unit {0})) (s : Session T)
      → s.committed ≡ t
      → ((a : Unit {0}) → r ≡ ok a → R t a s.work)
      → let (r', s') = finish r s in Ended R t r' s'.committed
  unfolding finish
  finish-Ended R t (ok a) s kept reached = ground (arith, reached a refl)
  finish-Ended R t (err e) s kept reached = inl kept

  -- The rest of a transaction whose `BeginTx` met the given fate.
  opened : (Executor → Action T D (Unit {0})) → Fate → Action T D (Unit {0})
  unfolding finish
  opened f fate s =
      let (r, s') = wrap_error "failed to begin transaction" (call (begin_on fate)) s in
      continue (λ _ s₁. let (r₂, s₂) = f tx s₁ in finish r₂ s₂) r s'

  opened-Ended :
      (f : Executor → Action T D (Unit {0})) {R : Post T (Unit {0})}
      → InTx (f tx) R
      → (fate : Fate) (s : Session T)
      → let (r, s') = opened f fate s in Ended R s.committed r s'.committed
  unfolding opened
  opened-Ended f {R} i done s =
      let s₁ : Session T = record s { work = s.committed; aborted = false } in
      finish-Ended R s.committed (f tx s₁).0 (f tx s₁).1 (i.keeps s₁) (i.reaches s₁)
  opened-Ended f i refused s = inl refl
  opened-Ended f i lost s = inl refl

  within_transaction-opened :
      (f : Executor → Action T D (Unit {0})) (s : Session T)
      → within_transaction f s
        ≡ opened f (next_fate s.fates) (record s { fates = later_fates s.fates })
  unfolding within_transaction opened
  within_transaction-opened f s = refl

  pub within_transaction-Ended :
      (f : Executor → Action T D (Unit {0})) {R : Post T (Unit {0})}
      → InTx (f tx) R
      → (s : Session T) → let (r, s') = within_transaction f s in Ended R s.committed r s'.committed
  within_transaction-Ended f i s =
      rw within_transaction-opened
        (opened-Ended f i (next_fate s.fates) (record s { fates = later_fates s.fates }))

  finish_unchanged :
      (t : T) (r : Result (Error D) (Unit {0})) (s : Session T)
      → s.committed ≡ t
      → NoneLost s.fates
      → {e : Error D} → (finish r s).0 ≡ err e
      → (finish r s).1.committed ≡ t
  unfolding finish
  finish_unchanged t (ok a) s kept h failed = ground (arith, next_fate-NoneLost s.fates h)
  finish_unchanged t (err x) s kept h failed = kept

  opened_unchanged :
      (f : Executor → Action T D (Unit {0})) {R : Post T (Unit {0})}
      → InTx (f tx) R
      → (fate : Fate) (s : Session T) → NoneLost s.fates
      → {e : Error D} → (opened f fate s).0 ≡ err e
      → (opened f fate s).1.committed ≡ s.committed
  unfolding opened
  opened_unchanged f i done s h failed =
      let s₁ : Session T = record s { work = s.committed; aborted = false } in
      finish_unchanged s.committed (f tx s₁).0 (f tx s₁).1 (i.keeps s₁) (i.spends s₁ h) failed
  opened_unchanged f i refused s h failed = refl
  opened_unchanged f i lost s h failed = refl

  -- If no answer of the server is lost, a transaction whose body works on the open transaction only
  -- and that reports an error has changed nothing.
  pub within_transaction_unchanged :
      (f : Executor → Action T D (Unit {0})) {R : Post T (Unit {0})}
      → InTx (f tx) R
      → (s : Session T) → NoneLost s.fates
      → {e : Error D} → (within_transaction f s).0 ≡ err e
      → (within_transaction f s).1.committed ≡ s.committed
  within_transaction_unchanged f i s h {e} failed = rw within_transaction-opened (
      opened_unchanged f i (next_fate s.fates) (record s { fates = later_fates s.fates })
        (later_fates-NoneLost s.fates h) (rw within_transaction-opened at failed))

-- `_, err := …; return err`
pub void-Ended :
    {T D A : Type 0} (R : Post T A) (S : T → T → Type 0) (t : T) (r : Result (Error D) A)
    (s : Session T)
    → ((a : A) → R t a s.committed → S t s.committed)
    → Ended R t r s.committed
    → let (r', s') = continue (λ _. pure tt) r s in Ended (λ t' _ u. S t' u) t r' s'.committed
void-Ended R S t (ok a) s f h = f a h
void-Ended R S t (err e) s f (inl h) = inl h
void-Ended R S t (err e) s f (inr (a, h)) = inr (tt, f a h)

module _ {T D A : Type 0} where
  pub void_state : (r : Result (Error D) A) (s : Session T) → (continue (λ _. pure tt) r s).1 ≡ s
  void_state (ok a) s = refl
  void_state (err e) s = refl

  pub void_error :
      (r : Result (Error D) A) (s : Session T) {e : Error D}
      → (continue (λ _. pure tt) r s).0 ≡ err e
      → r ≡ err e
  void_error (ok a) s h = cc
  void_error (err e) s h = ground arith

-- One statement on the pool ends in the same way.
module _ {T A : Type 0} (D : Type 0) (q : Sql T A) where
  settle-Ended :
      (fate : Fate) (o : Result SqlError (A × T)) (s : Session T)
      → let (r, s') = settle fate o s in
        Ended {D = D} (λ t a u. o ≡ ok (a, u)) s.committed (raise_sql r) s'.committed
  settle-Ended refused o s = inl refl
  settle-Ended lost (ok (a, t)) s = inr (a, refl)
  settle-Ended lost (err e) s = inl refl
  settle-Ended done (ok (a, t)) s = refl
  settle-Ended done (err e) s = inl refl

  pub query-Ended :
      (s : Session T)
      → let (r, s') = query {D = D} pool q s in
        Ended (λ t a u. q t ≡ ok (a, u)) s.committed r s'.committed
  unfolding run
  query-Ended s =
      settle-Ended (next_fate s.fates) (q s.committed) (record s { fates = later_fates s.fates })

  module _ (s : Session T) (h : NoneLost s.fates) where
    pub query_unchanged :
        {e : Error D}
        → (query {D = D} pool q s).0 ≡ err e
        → (query {D = D} pool q s).1.committed ≡ s.committed
    unfolding run
    query_unchanged failed = ground (arith, next_fate-NoneLost s.fates h)

    pub query_spends : NoneLost (query {D = D} pool q s).1.fates
    unfolding run
    query_spends = ground (arith, later_fates-NoneLost s.fates h)
