-- ===== src/Store/Concurrent/Invariant.antt =====
-- What holds in every state that requests at once can reach, and what each of their steps does to
-- the tables.
pub mod Defs
pub mod Moves
use merch_store.Base.{
  ℕ, ◌≡◌, ◌≢◌, refl, sym, true, false, none, some, arith, lookup, int_keys, eqb, ◌⊎◌, inl, inr,
  Bool-cases, Option-cases, if◌then◌else◌,
}
use merch_store.Base.Int.{ℤ, pos}
use merch_store.Store.Tables.{Tables}
use merch_store.Store.Ledger.{IsValid}
use merch_store.Store.Concurrent.{
  Pc, idle, locked, Move, System, IsFree, update, Step, turn, Reach, start, later,
}
use merch_store.Store.Concurrent.Invariant.Defs.{Holds, Inv, Serial}
use merch_store.Store.Concurrent.Invariant.Moves.{
  Move-Holds, Move_keeps, Move_locks, Move-Serial, Serial-IsValid, Holds-other, Holds-idle,
}

abbrev AreApart : Pc → Pc → Type 0
AreApart c d = (user : ℤ) → lookup user (locked c) ≢ none → lookup user (locked d) ≡ none

AreApart-sym : (c d : Pc) → AreApart c d → AreApart d c
AreApart-sym c d h user held = elim (Option-cases (lookup user (locked c))) [
  | inl e ↦ e
  | inr (b, e) ↦ absurd (held (h user (ground (arith, e))))
]

-- After its step, request `i` is still apart from request `j`.
Move-AreApart :
    {t u : Tables} {d : Pc} (pc : ℕ → Pc) (i : ℕ) (m : Move t (IsFree pc i) (pc i) u d) (j : ℕ)
    → j ≢ i
    → AreApart (pc i) (pc j)
    → AreApart d (pc j)
Move-AreApart pc i m j differ h user held = elim (Move_locks m user held) [
  | inl before ↦ h user before
  | inr free ↦ free j differ
]

-- Every step of a request keeps the invariant.
Step-Inv : {s u : System} → Step s u → Inv s.tables s.pc → Inv u.tables u.pc
Step-Inv {s} (turn i {t} {c} m) inv = record {
  valid = Serial-IsValid s.tables t (Move-Serial m inv.valid (inv.holds i)) inv.valid;
  exclusive = λ j k user differ. elim (Bool-cases (eqb i j)) [
    | inl j_moves ↦ elim (Bool-cases (eqb i k)) [
      | inl k_moves ↦ absurd (ground arith)
      | inr k_stays ↦
          rw (j_moves, k_stays)
            (Move-AreApart s.pc i m k (λ e. ground arith)
              (λ v. inv.exclusive i k v (λ e. ground arith)) user)
    ]
    | inr j_stays ↦ elim (Bool-cases (eqb i k)) [
      | inl k_moves ↦
          rw (j_stays, k_moves)
            (AreApart-sym c (s.pc j)
              (Move-AreApart s.pc i m j (λ e. ground arith)
                (λ v. inv.exclusive i j v (λ e. ground arith)))
              user)
      | inr k_stays ↦ rw (j_stays, k_stays) (inv.exclusive j k user differ)
    ]
  ];
  holds = λ j. elim (Bool-cases (eqb i j)) [
    | inl same ↦ rw same (Move-Holds m (inv.holds i))
    | inr other ↦ rw other (
        Holds-other m (s.pc j) (λ user held. inv.exclusive j i user (λ e. ground arith) held)
          (inv.holds j))
  ];
}

-- From tables whose books hold.
module _ {t : Tables} (valid : IsValid t) where
  Reach-Inv : {s : System} → Reach t s → Inv s.tables s.pc
  unfolding lookup
  Reach-Inv start = record {
    valid = valid;
    exclusive = λ i j user differ held. absurd (held refl);
    holds = λ i. Holds-idle;
  }
  Reach-Inv (later r st) = Step-Inv st (Reach-Inv r)

  -- If the books hold at first, they hold in every state that any number of requests at once can
  -- reach, in whatever order the server takes their statements and whichever of them fail.
  pub Reach-IsValid : {s : System} → Reach t s → IsValid s.tables
  Reach-IsValid r = (Reach-Inv r).valid

  -- If the books hold at first, every step that requests at once can take leaves the tables alone,
  -- or does to them what a whole call does that runs by itself: it opens a balance, makes one whole
  -- transfer between two users, or makes one whole purchase of a good on sale.
  pub Step-Serial : {s u : System} → Reach t s → Step s u → Serial s.tables u.tables
  Step-Serial r (turn i m) = let inv = Reach-Inv r in Move-Serial m inv.valid (inv.holds i)
