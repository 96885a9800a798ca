-- ===== src/Store/Concurrent/Free.antt =====
-- Which rows are free where only the requests 0 and 1 are served.
use merch_store.Base.{
  ℕ, ◌≡◌, refl, sym, false, none, arith, lookup, int_keys, eqb, eqb_iff, inl, inr, Bool-cases,
}
use merch_store.Base.Int.{ℤ}
use merch_store.Store.Concurrent.{Pc, idle, locked, IsFree, update}

-- All other requests are idle.
abbrev pub OnlyTwo : (ℕ → Pc) → Type 0
OnlyTwo pc = (j : ℕ) → eqb 0 j ≡ false → eqb 1 j ≡ false → pc j ≡ idle

module _ (pc : ℕ → Pc) (user : ℤ) (two : OnlyTwo pc) where
  idle_free : (j : ℕ) → eqb 0 j ≡ false → eqb 1 j ≡ false → lookup user (locked (pc j)) ≡ none
  unfolding lookup
  idle_free j e f = rw (two j e f) refl

  pub IsFree-first : lookup user (locked (pc 1)) ≡ none → IsFree pc 0 user
  IsFree-first free j differ = elim (Bool-cases (eqb 1 j)) [
    | inl same ↦ rw (sym ((eqb_iff 1 j).0 same)) free
    | inr other ↦ idle_free j (ground arith) other
  ]

  pub IsFree-second : lookup user (locked (pc 0)) ≡ none → IsFree pc 1 user
  IsFree-second free j differ = elim (Bool-cases (eqb 0 j)) [
    | inl same ↦ rw (sym ((eqb_iff 0 j).0 same)) free
    | inr other ↦ idle_free j other (ground arith)
  ]

pub OnlyTwo-first : (pc : ℕ → Pc) (c : Pc) → OnlyTwo pc → OnlyTwo (update pc 0 c)
OnlyTwo-first pc c two j e f = rw e (two j e f)

pub OnlyTwo-second : (pc : ℕ → Pc) (c : Pc) → OnlyTwo pc → OnlyTwo (update pc 1 c)
OnlyTwo-second pc c two j e f = rw f (two j e f)
