-- ===== src/Store/Concurrent/Ordered/Needs.antt =====
-- Which row of `balances` the next statement of a request locks, and who may hold it.
use merch_store.Base.{
  ℕ, ◌≡◌, ◌≢◌, refl, subst, none, some, Option, arith, lookup, int_keys, ◌⊎◌, inl, inr, true,
}
use merch_store.Base.Int.{ℤ, ltb_ℤ, eqb_ℤ_iff}
use merch_store.Store.Tables.{Tables}
use merch_store.Store.Concurrent.{
  Parcel, Pc, idle, sending, sender_locked, debited, credited, sent, buying, buyer_locked, paid,
  bought, locked, Move, begin_transfer, lock_sender, debit, credit, rollback, ensure,
  record_transfer, commit_sent, begin_purchase, lock_buyer, pay, record_purchase, commit_bought,
  System, IsFree,
}

pub debited_busy : (p : Parcel) (balance : ℕ) → debited p balance ≢ idle
debited_busy p balance e = cc

some-injective : {a b : ℤ} → some a ≡ some b → a ≡ b
some-injective e = cc

-- The row that the next statement of a request locks.
abbrev pub needed : Pc → Option ℤ
needed (sending p) = some p.from
needed (debited p balance) = some p.to
needed (buying o) = some o.user
needed _ = none

-- A request moves on only once the row is free.
pub Move-needed :
    {t u : Tables} {F : ℤ → Type 0} {c d : Pc} {row : ℤ}
    → Move t F c u d
    → needed c ≡ some row
    → F row ⊎ ((d ≡ idle) × (u ≡ t))
Move-needed {F} (lock_sender free found) e = inl (subst F (some-injective e) free)
Move-needed {F} (credit free found room) e = inl (subst F (some-injective e) free)
Move-needed {F} (lock_buyer free found) e = inl (subst F (some-injective e) free)
Move-needed rollback e = inr (refl, refl)
Move-needed (ensure user o) e = cc
Move-needed (begin_transfer differ) e = cc
Move-needed (debit covers held le) e = cc
Move-needed record_transfer e = cc
Move-needed commit_sent e = cc
Move-needed (begin_purchase sale) e = cc
Move-needed (pay covers held le) e = cc
Move-needed record_purchase e = cc
Move-needed commit_bought e = cc

-- The next statement waits for no row.
abbrev pub GoesOn : System → ℕ → Type 0
GoesOn s i = (row : ℤ) → needed (s.pc i) ≡ some row → IsFree s.pc i row

-- A transfer to a user with a greater id.
abbrev pub IsUpward : Parcel → Type 0
IsUpward p = ltb_ℤ p.from p.to ≡ true

-- What holds a row, waits for none or has debited its sender.
pub debited_or_not :
    (c : Pc)
    → ((p : Parcel) × (balance : ℕ) × (c ≡ debited p balance))
      ⊎ ((p : Parcel) (balance : ℕ) → c ≢ debited p balance)
debited_or_not idle = inr (λ p b e. cc)
debited_or_not (sending q) = inr (λ p b e. cc)
debited_or_not (sender_locked q x) = inr (λ p b e. cc)
debited_or_not (debited q x) = inl (q, x, refl)
debited_or_not (credited q x y) = inr (λ p b e. cc)
debited_or_not (sent q x y) = inr (λ p b e. cc)
debited_or_not (buying o) = inr (λ p b e. cc)
debited_or_not (buyer_locked o x) = inr (λ p b e. cc)
debited_or_not (paid o x) = inr (λ p b e. cc)
debited_or_not (bought o x) = inr (λ p b e. cc)

pub holder :
    (c : Pc) (row : ℤ)
    → lookup row (locked c) ≢ none
    → ((c ≢ idle) × (needed c ≡ none))
      ⊎ ((p : Parcel) × (balance : ℕ) × (c ≡ debited p balance) × (p.from ≡ row))
unfolding lookup
holder idle row h = absurd (h refl)
holder (sending q) row h = absurd (h refl)
holder (sender_locked q x) row h = inl ((λ e. cc), refl)
holder (debited q x) row h = inr (q, x, refl, ground (arith, eqb_ℤ_iff q.from row))
holder (credited q x y) row h = inl ((λ e. cc), refl)
holder (sent q x y) row h = inl ((λ e. cc), refl)
holder (buying o) row h = absurd (h refl)
holder (buyer_locked o x) row h = inl ((λ e. cc), refl)
holder (paid o x) row h = inl ((λ e. cc), refl)
holder (bought o x) row h = inl ((λ e. cc), refl)
