-- ===== src/Store/Concurrent/Deadlock.antt =====
-- SendCoins locks the sender's row when it reads it and the receiver's when it credits it, whichever
-- of the two ids is the greater: two transfers in opposite directions can wait for each other.
use merch_store.Base.{
  ℕ, ◌≤◌, ◌≡◌, ◌≢◌, refl, sym, subst, ◌∙◌, none, some, arith, lookup, int_keys, same_refl,
}
use merch_store.Base.Int.{ℤ, pos, eqb_ℤ_iff}
use merch_store.Store.Tables.{Tables}
use merch_store.Store.Concurrent.{
  Parcel, Pc, idle, debited, locked, Move, begin_transfer, lock_sender, debit, credit, rollback,
  System, IsFree, turn, Reach, start, later,
}
use merch_store.Store.Concurrent.Free.{IsFree-first, IsFree-second}

-- A request that is in a transaction and whose only step is to give it up.
pub record IsBlocked (s : System) (i : ℕ) : Type 0 where
  pub busy : s.pc i ≢ idle
  pub gives_up :
      {u : Tables} {c : Pc}
      → Move s.tables (IsFree s.pc i) (s.pc i) u c
      → (c ≡ idle) × (u ≡ s.tables)

waits :
    {t u : Tables} {F : ℤ → Type 0} {c : Pc} (p : Parcel) (balance : ℕ)
    → (F p.to → ⊥)
    → Move t F (debited p balance) u c
    → (c ≡ idle) × (u ≡ t)
waits p balance taken (credit free found room) = absurd (taken free)
waits p balance taken rollback = (refl, refl)

debited_busy : (p : Parcel) (balance : ℕ) → debited p balance ≢ idle
debited_busy p balance h = cc

-- A request that has debited its sender and whose receiver's row another has locked.
debited-IsBlocked :
    (s : System) (i j : ℕ) (p : Parcel) (balance : ℕ)
    → s.pc i ≡ debited p balance
    → j ≢ i
    → lookup p.to (locked (s.pc j)) ≢ none
    → IsBlocked s i
debited-IsBlocked s i j p balance e differ taken = record {
  busy = rw e (debited_busy p balance);
  gives_up = λ {u} {c} m.
      waits p balance (λ free. taken (free j differ))
        (subst (λ d. Move s.tables (IsFree s.pc i) d u c) e m);
}

module _ (t : Tables) (p q : Parcel) (there : q.to ≡ p.from) (back : q.from ≡ p.to)
    (differ : p.to ≢ p.from) (balance other : ℕ)
    (held : lookup p.from t.balances ≡ some (pos balance)) (covers : p.amount ≤ balance)
    (held' : lookup q.from t.balances ≡ some (pos other)) (covers' : q.amount ≤ other) where
  holds_from : (user : ℤ) → user ≡ p.from → lookup user (locked (debited p balance)) ≢ none
  unfolding lookup
  holds_from user e h = ground (arith, same_refl p.from)

  holds_from' : (user : ℤ) → user ≡ q.from → lookup user (locked (debited q other)) ≢ none
  unfolding lookup
  holds_from' user e h = ground (arith, same_refl q.from)

  apart : lookup q.from (locked (debited p balance)) ≡ none
  unfolding lookup
  apart = ground (arith, eqb_ℤ_iff p.from q.from)

  both_locked : (s : System) × Reach t s × (s.pc 0 ≡ debited p balance) × (s.pc 1 ≡ debited q other)
  unfolding lookup
  both_locked = (
    _,
    later
        (later
          (later
            (later
              (later (later start (turn 0 (begin_transfer {p = p} differ))) (
                turn 0 (
                  lock_sender {balance = balance} (IsFree-first _ p.from (λ j e f. rw e refl) refl)
                    held)))
              (turn 0 (debit (ground arith) held covers)))
            (turn 1 (begin_transfer {p = q} (λ e. differ (sym back ∙ sym e ∙ there)))))
          (turn 1 (
            lock_sender {balance = other} (IsFree-second _ q.from (λ j e f. rw (e, f) refl) apart)
              held')))
        (turn 1 (debit (ground arith) held' covers')),
    refl,
    refl,
  )

  -- Two transfers in opposite directions between two users, each covered by its sender's balance,
  -- can reach a state in which both are in a transaction, and neither has a step but to give it
  -- up.
  pub opposite_transfers_block : (s : System) × Reach t s × IsBlocked s 0 × IsBlocked s 1
  opposite_transfers_block =
      let (s, r, at_first, at_second) = both_locked in
      (
        s,
        r,
        debited-IsBlocked s 0 1 p balance at_first (λ e. absurd (omega arith))
            (rw at_second (holds_from' p.to (sym back))),
        debited-IsBlocked s 1 0 q other at_second (λ e. absurd (omega arith))
            (rw at_first (holds_from q.to there)),
      )
