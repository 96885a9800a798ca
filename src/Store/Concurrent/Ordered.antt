-- ===== src/Store/Concurrent/Ordered.antt =====
-- Requests that take the rows of `balances` in the order of the ids cannot all wait for each other.
pub mod Needs
use merch_store.Base.{
  zero, ℕ, suc, ◌≤◌, ◌<◌, ◌≡◌, ◌≢◌, refl, sym, subst, ◌∙◌, none, some, Option, arith, lookup,
  int_keys, ◌⊎◌, inl, inr, true, false, eqb, eqb_iff, Bool-cases, Option-cases, ◌+◌, ltb,
}
use merch_store.Base.Int.{ℤ, ltb_ℤ, leb_ℤ, ◌≤ℤ◌, eqb_ℤ_iff}
use merch_store.Store.Tables.{Tables}
use merch_store.Store.Concurrent.{
  Parcel, Order, Pc, idle, sending, sender_locked, debited, credited, sent, buying, buyer_locked,
  paid, bought, locked, Move, begin_transfer, lock_sender, debit, credit, rollback, ensure,
  record_transfer, commit_sent, begin_purchase, lock_buyer, pay, record_purchase, commit_bought,
  System, IsFree, turn, Reach, start, later, update,
}
use merch_store.Store.Concurrent.Ordered.Needs.{
  debited_busy, needed, GoesOn, IsUpward, debited_or_not, holder,
}

-- Only requests below a bound are served.
abbrev IsIdleFrom : ℕ → (ℕ → Pc) → Type 0
IsIdleFrom n pc = (j : ℕ) → n ≤ j → pc j ≡ idle

differs : (i j : ℕ) → suc i ≤ j → eqb i j ≡ false
differs i j le = ground arith

Step-IsIdleFrom :
    (n i : ℕ) (c : Pc) (pc : ℕ → Pc) → IsIdleFrom n pc → IsIdleFrom (n + suc i) (update pc i c)
Step-IsIdleFrom n i c pc h j le = rw (differs i j (omega arith)) (h j (omega arith))

Reach-IsIdleFrom : {t : Tables} {s : System} → Reach t s → (n : ℕ) × IsIdleFrom n s.pc
Reach-IsIdleFrom start = (0, λ j le. refl)
Reach-IsIdleFrom (later {s} r (turn i {t} {c} m)) =
    let (n, h) = Reach-IsIdleFrom r in (n + suc i, Step-IsIdleFrom n i c s.pc h)

below_suc : {P : ℕ → Type 0} (n : ℕ) → ((j : ℕ) → j < n → P j) → P n → (j : ℕ) → j < suc n → P j
below_suc {P} n below there j lt = elim (Bool-cases (eqb j n)) [
  | inl same ↦ subst P (sym ((eqb_iff j n).0 same)) there
  | inr other ↦ below j (ground (arith, eqb_iff j n))
]

-- The requests below a bound leave a row free, or one of them has locked it.
free_or_held :
    (n : ℕ) (pc : ℕ → Pc) (i : ℕ) (row : ℤ)
    → ((j : ℕ) → j < n → j ≢ i → lookup row (locked (pc j)) ≡ none)
      ⊎ ((j : ℕ) × (lookup row (locked (pc j)) ≢ none))
free_or_held zero pc i row = inl (λ j lt. absurd (omega arith))
free_or_held (suc n) pc i row = elim (free_or_held n pc i row) [
  | inr held ↦ inr held
  | inl free ↦ elim (Option-cases (lookup row (locked (pc n)))) [
    | inl none_there ↦ inl (below_suc n free (λ differ. none_there))
    | inr (b, there) ↦ inr (n, λ e. cc)
  ]
]

IsFree-or_held :
    (n : ℕ) (pc : ℕ → Pc) (i : ℕ) (row : ℤ)
    → IsIdleFrom n pc
    → IsFree pc i row ⊎ ((j : ℕ) × (lookup row (locked (pc j)) ≢ none))
unfolding lookup
IsFree-or_held n pc i row h = elim (free_or_held n pc i row) [
  | inr held ↦ inr held
  | inl free ↦ inl (λ j differ. elim (Bool-cases (ltb j n)) [
    | inl below ↦ free j (ground arith) differ
    | inr above ↦ rw (h j (ground arith)) refl
  ])
]

-- Of the requests below a bound that have debited their senders, the one with the greatest receiver.
abbrev Greatest : ℕ → (ℕ → Pc) → Type 0
Greatest n pc =
    (i : ℕ) × (p : Parcel) × (balance : ℕ) × (pc i ≡ debited p balance)
    × ((j : ℕ) → j < n → (q : Parcel) (b : ℕ) → pc j ≡ debited q b → q.to ≤ℤ p.to)

same_debit :
    {c : Pc} (p q : Parcel) (balance b : ℕ) → c ≡ debited p balance → c ≡ debited q b → q ≡ p
same_debit p q balance b e f = cc

greatest :
    (n : ℕ) (pc : ℕ → Pc)
    → ((j : ℕ) → j < n → (q : Parcel) (b : ℕ) → pc j ≢ debited q b) ⊎ Greatest n pc
greatest zero pc = inl (λ j lt q b. absurd (omega arith))
greatest (suc n) pc = elim (greatest n pc) [
  | inl none_yet ↦ elim (debited_or_not (pc n)) [
    | inr other ↦ inl (below_suc n none_yet other)
    | inl (p, balance, at) ↦ inr (
      n,
      p,
      balance,
      at,
      below_suc n (λ j lt q b e. absurd (none_yet j lt q b e))
          (λ q b e. rw (same_debit p q balance b at e) (omega arith)),
    )
  ]
  | inr (i, p, balance, there, most) ↦ elim (debited_or_not (pc n)) [
    | inr other ↦ inr (i, p, balance, there, below_suc n most (λ q b e. absurd (other q b e)))
    | inl (q', b', at) ↦ elim (Bool-cases (leb_ℤ q'.to p.to)) [
      | inl le ↦ inr (
        i,
        p,
        balance,
        there,
        below_suc n most (λ q b e. rw (same_debit q' q b' b at e) (ground arith)),
      )
      | inr gt ↦ inr (
        n,
        q',
        b',
        at,
        below_suc n (λ j lt q b e. ground (arith, most j lt q b e))
            (λ q b e. rw (same_debit q' q b' b at e) (omega arith)),
      )
    ]
  ]
]

some-none : {row : ℤ} → some row ≡ none → ⊥
some-none e = cc

same_row : {o : Option ℤ} {row row' : ℤ} → o ≡ some row → o ≡ some row' → row ≡ row'
same_row e f = cc

debited_needs : {c : Pc} (p : Parcel) (balance : ℕ) → c ≡ debited p balance → needed c ≡ some p.to
debited_needs p balance e = rw e refl

-- A request in a transaction that goes on.
abbrev pub SomeGoesOn : System → Type 0
SomeGoesOn s = (i : ℕ) × (s.pc i ≢ idle) × GoesOn s i

module _ (n : ℕ) (s : System) (h : IsIdleFrom n s.pc) where
  busy_below : (j : ℕ) → s.pc j ≢ idle → j < n
  busy_below j busy = elim (Bool-cases (ltb j n)) [
    | inl below ↦ ground arith
    | inr above ↦ absurd (busy (h j (ground arith)))
  ]

  -- One that waits, waits for one that goes on or has debited its sender.
  ask :
      (i : ℕ)
      → s.pc i ≢ idle
      → (row : ℤ) → needed (s.pc i) ≡ some row
      → SomeGoesOn s ⊎ ((j : ℕ) × (q : Parcel) × (b : ℕ) × (s.pc j ≡ debited q b) × (q.from ≡ row))
  ask i busy row e = elim (IsFree-or_held n s.pc i row h) [
    | inl free ↦ inl (i, busy, λ row' e'. subst (IsFree s.pc i) (same_row e e') free)
    | inr (j, held) ↦ elim (holder (s.pc j) row held) [
      | inl (busy', none_needed) ↦
          inl (j, busy', λ row' e'. absurd (some-none (sym e' ∙ none_needed)))
      | inr (q, b, at, from) ↦ inr (j, q, b, at, from)
    ]
  ]

  none_debited :
      ((j : ℕ) → j < n → (q : Parcel) (b : ℕ) → s.pc j ≢ debited q b)
      → (i : ℕ) → s.pc i ≢ idle
      → SomeGoesOn s
  none_debited none_there i busy = elim (Option-cases (needed (s.pc i))) [
    | inl no_need ↦ (i, busy, λ row e. absurd (some-none (sym e ∙ no_need)))
    | inr (row, e) ↦ elim (ask i busy row e) [
      | inl goes ↦ goes
      | inr (j, q, b, at, from) ↦
          absurd (none_there j (busy_below j (rw at (debited_busy q b))) q b at)
    ]
  ]

  last_goes_on :
      Greatest n s.pc
      → ((i : ℕ) (p : Parcel) (b : ℕ) → s.pc i ≡ debited p b → IsUpward p)
      → SomeGoesOn s
  last_goes_on (i, p, balance, there, most) upward =
      elim (ask i (rw there (debited_busy p balance)) p.to (debited_needs p balance there)) [
        | inl goes ↦ goes
        | inr (j, q, b, at, from) ↦
            let le = most j (busy_below j (rw at (debited_busy q b))) q b at in
            let up = upward j q b at in absurd (ground (arith, le, up, from))
      ]

-- If every transfer that has debited its sender goes to a user with a greater id, then in every state
-- that requests at once can reach, and in which a request is in a transaction, some request in a
-- transaction does not wait: no other has locked the row that its next statement locks.
pub upward_goes_on :
    {t : Tables} {s : System}
    → Reach t s
    → ((i : ℕ) (p : Parcel) (b : ℕ) → s.pc i ≡ debited p b → IsUpward p)
    → (i : ℕ) → s.pc i ≢ idle
    → SomeGoesOn s
upward_goes_on {t} {s} r upward i busy =
    let (n, h) = Reach-IsIdleFrom r in
    elim (greatest n s.pc) [
      | inl none_there ↦ none_debited n s h none_there i busy
      | inr most ↦ last_goes_on n s h most upward
    ]
