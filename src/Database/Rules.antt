-- ===== src/Database/Rules.antt =====
-- Rules for the body of a transaction. `InTx m R`: the action `m` on an open transaction leaves the
-- committed tables alone, loses no answer by itself, and when it returns `a`, it has taken the
-- working copy from `t` to `u` with `R t a u`. There is one rule for each way to build an action.
use merch_store.Base.{
  ◌≡◌, refl, ◌∙◌, Bool, true, false, List, [], ◌∷◌, Result, ok, err, arith, if◌then◌else◌, ◌≢◌,
}
use merch_store.Errors.{Error}
use merch_store.Database.Statement.{Sql}
use merch_store.Database.Sessions.{
  Fate, done, refused, lost, Session, tx, Action, next_fate, later_fates, run,
}
use merch_store.Database.Transaction.{fail, rescue_with, query, lift, rescue, continue, ◌>>=◌}

-- No answer of the server is lost.
abbrev pub NoneLost : List Fate → Type 0
NoneLost [] = Unit
NoneLost (lost ∷ fs) = ⊥
NoneLost (_ ∷ fs) = NoneLost fs

pub later_fates-NoneLost : (fs : List Fate) → NoneLost fs → NoneLost (later_fates fs)
later_fates-NoneLost [] h = h
later_fates-NoneLost (done ∷ fs) h = h
later_fates-NoneLost (refused ∷ fs) h = h
later_fates-NoneLost (lost ∷ fs) h = absurd h

pub next_fate-NoneLost : (fs : List Fate) → NoneLost fs → next_fate fs ≢ lost
next_fate-NoneLost [] h = λ e. cc
next_fate-NoneLost (done ∷ fs) h = λ e. cc
next_fate-NoneLost (refused ∷ fs) h = λ e. cc
next_fate-NoneLost (lost ∷ fs) h = absurd h

abbrev pub Post : Type 0 → Type 0 → Type 1
Post T A = T → A → T → Type 0

pub rescue_with-ok :
    {D A : Type 0} (g : Error D → Error D) (r : Result (Error D) A) {a : A}
    → rescue_with (λ e. err (g e)) r ≡ ok a
    → r ≡ ok a
rescue_with-ok g (ok a) h = h
rescue_with-ok g (err e) h = cc

module _ {T D A : Type 0} where
  pub record InTx (m : Action T D A) (R : Post T A) : Type 0 where
    pub keeps : (s : Session T) → (m s).1.committed ≡ s.committed
    pub spends : (s : Session T) → NoneLost s.fates → NoneLost (m s).1.fates
    pub reaches : (s : Session T) (a : A) → (m s).0 ≡ ok a → R s.work a (m s).1.work

  pub InTx-query : (q : Sql T A) → InTx (query tx q) (λ t a u. q t ≡ ok (a, u))
  unfolding run
  InTx-query q = record {
    keeps = λ s. ground arith;
    spends = λ s h. ground (arith, later_fates-NoneLost s.fates h);
    reaches = λ s a h. ground arith;
  }

  pub InTx-lift : (r : Result (Error D) A) → InTx (lift r) (λ t a u. (r ≡ ok a) × (u ≡ t))
  InTx-lift r = record { keeps = λ s. refl; spends = λ s h. h; reaches = λ s a h. (h, refl) }

  pub InTx-rescue :
      (g : Error D → Error D) (m : Action T D A) {R : Post T A}
      → InTx m R
      → InTx (rescue (λ e. err (g e)) m) R
  InTx-rescue g m i = record {
    keeps = i.keeps;
    spends = i.spends;
    reaches = λ s a h. i.reaches s a (rescue_with-ok g (m s).0 h);
  }

  -- The rule of consequence.
  pub InTx-post :
      {m : Action T D A} {R S : Post T A}
      → InTx m R
      → ((t : T) (a : A) (u : T) → R t a u → S t a u)
      → InTx m S
  InTx-post i f = record {
    keeps = i.keeps;
    spends = i.spends;
    reaches = λ s a h. f _ a _ (i.reaches s a h);
  }

  -- `if … { return err }`
  pub InTx-guard :
      (b : Bool) (e : Error D) (m : Action T D A) {R : Post T A}
      → InTx m R
      → InTx (if b then fail e else m) (λ t a u. (b ≡ false) × R t a u)
  InTx-guard true e m i = record { keeps = λ s. refl; spends = λ s h. h; reaches = λ s a h. cc }
  InTx-guard false e m i = record {
    keeps = i.keeps;
    spends = i.spends;
    reaches = λ s a h. (refl, i.reaches s a h);
  }

-- Inversion of a bind that returns.
pub continue_ok :
    {T D A B : Type 0} (f : A → Action T D B) (r : Result (Error D) A) (s : Session T) {b : B}
    → (continue f r s).0 ≡ ok b
    → (a : A) × (r ≡ ok a) × ((f a s).0 ≡ ok b)
continue_ok f (ok a) s h = (a, refl, h)
continue_ok f (err e) s h = cc

abbrev pub Then : {T A B : Type 0} → Post T A → (A → Post T B) → Post T B
Then {T} {A} R S t b v = (a : A) × (u : T) × R t a u × S a u b v

module _ {T D A B : Type 0} (f : A → Action T D B) where
  keeps-continue :
      {S : A → Post T B} (j : (a : A) → InTx (f a) (S a)) (r : Result (Error D) A) (s : Session T)
      → (continue f r s).1.committed ≡ s.committed
  keeps-continue j (ok a) s = (j a).keeps s
  keeps-continue j (err e) s = refl

  spends-continue :
      {S : A → Post T B} (j : (a : A) → InTx (f a) (S a)) (r : Result (Error D) A) (s : Session T)
      → NoneLost s.fates
      → NoneLost (continue f r s).1.fates
  spends-continue j (ok a) s h = (j a).spends s h
  spends-continue j (err e) s h = h

  reaches-continue :
      (R : Post T A) {S : A → Post T B} (j : (a : A) → InTx (f a) (S a)) (t : T)
      (r : Result (Error D) A) (s : Session T) (b : B)
      → ((a : A) → r ≡ ok a → R t a s.work)
      → (continue f r s).0 ≡ ok b
      → Then R S t b (continue f r s).1.work
  reaches-continue R j t (ok a) s b reached h = (a, s.work, reached a refl, (j a).reaches s b h)
  reaches-continue R j t (err e) s b reached h = cc

  pub InTx-bind :
      (m : Action T D A) {R : Post T A} {S : A → Post T B}
      → InTx m R
      → ((a : A) → InTx (f a) (S a))
      → InTx (m >>= f) (Then R S)
  InTx-bind m {R} i j = record {
    keeps = λ s. let (r, s') = m s in keeps-continue j r s' ∙ i.keeps s;
    spends = λ s h. let (r, s') = m s in spends-continue j r s' (i.spends s h);
    reaches = λ s b h. let (r, s') = m s in reaches-continue R j s.work r s' b (i.reaches s) h;
  }
