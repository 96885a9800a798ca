-- ===== src/Apps/Life/Kept/Parts.antt =====
-- The parts of the invariant of Apps/Life/Invariant.antt, one step at a time.
use merch_store.Base.{
  ℕ, suc, ◌≡◌, ◌≢◌, refl, Bool, true, false, not, List, [], ◌∷◌, arith, ◌⊎◌, inl, inr,
}
use merch_store.Apps.Life.{
  Halt, close_pool, RunPc, listening, running, returned, over, MainPc, waiting, entering, halting,
  exited,
}
use merch_store.Apps.Life.Invariant.{Drains, RunInv, MainInv}

pub set-MainInv :
    (m : MainPc) (h p q : Bool) (n : ℕ)
    → m ≢ exited
    → p ≡ true
    → q ≡ true
    → MainInv m false h p q n
    → MainInv m true h p q n
set-MainInv waiting h p q n live e f i = (i.0, λ _. (e, f))
set-MainInv entering h p q n live e f i = (i.0, λ _. (e, f))
set-MainInv (halting rest) h p q n live e f i = absurd (ground arith)
set-MainInv exited h p q n live e f i = absurd (live refl)

-- A request arrives only while the server is not halted.
pub arrive-MainInv :
    (m : MainPc) (b h p q : Bool) (n : ℕ)
    → m ≢ exited
    → h ≡ false
    → MainInv m b h p q n
    → MainInv m b h p q (suc n)
arrive-MainInv waiting b h p q n live e i = i
arrive-MainInv entering b h p q n live e i = i
arrive-MainInv (halting rest) b h p q n live e i = absurd (ground arith)
arrive-MainInv exited b h p q n live e i = absurd (live refl)

pub finish-MainInv :
    (m : MainPc) (b h p q : Bool) (n : ℕ)
    → m ≢ exited
    → MainInv m b h p q (suc n)
    → MainInv m b h p q n
finish-MainInv waiting b h p q n live i = i
finish-MainInv entering b h p q n live i = i
finish-MainInv (halting rest) b h p q n live (e, f, g, inl up) = (e, f, g, inl up)
finish-MainInv (halting rest) b h p q n live (e, f, g, inr (none_left, _)) = absurd (omega arith)
finish-MainInv exited b h p q n live i = absurd (live refl)

pub halted-RunInv : (r : RunPc) (p q p' : Bool) → RunInv r true p q → RunInv r true p' q
halted-RunInv (running rest) p q p' i = i
halted-RunInv listening p q p' i = absurd (ground arith)
halted-RunInv (returned r) p q p' i = i
halted-RunInv over p q p' i = i

pub drained-Drains :
    (p : Bool) (n : ℕ) (rest : List Halt)
    → n ≡ 0
    → ((p ≡ true) × Drains true false rest) ⊎ ((n ≡ 0) × Drains true (not p) rest)
    → (n ≡ 0) × Drains true (not p) rest
drained-Drains p n rest none_left (inl (up, d)) = (none_left, rw up d)
drained-Drains p n rest none_left (inr d) = d

pub closed-Drains :
    (p : Bool) (n : ℕ) (rest : List Halt)
    → ((p ≡ true) × Drains false false (close_pool ∷ rest))
      ⊎ ((n ≡ 0) × Drains true (not p) (close_pool ∷ rest))
    → (n ≡ 0) × Drains true true rest
closed-Drains p n rest (inl (up, d)) = absurd (ground arith)
closed-Drains p n rest (inr (none_left, d)) = (none_left, d.2)

pub exited-Drains :
    (p : Bool) (n : ℕ)
    → ((p ≡ true) × Drains false false []) ⊎ ((n ≡ 0) × Drains true (not p) [])
    → (p ≡ false) × (n ≡ 0)
exited-Drains p n (inl (up, d)) = absurd (ground arith)
exited-Drains false n (inr (none_left, d)) = (refl, none_left)
exited-Drains true n (inr (none_left, d)) = absurd (ground arith)
