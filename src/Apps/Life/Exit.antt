-- ===== src/Apps/Life/Exit.antt =====
-- A process that has been told to stop, or whose `Run` has failed, comes to its exit.
use merch_store.Base.{
  ℕ, zero, suc, ◌≡◌, ◌≢◌, refl, subst, true, false, List, [], ◌∷◌, arith, inl, inr, Bool-cases,
}
use merch_store.Apps.Life.{
  Halt, graceful_stop, shutdown_within, close_pool, App, MainPc, waiting, entering, halting, exited,
  Process, Move, finish, wake, enter_unset, enter, stop_ends, shutdown_times_out, closes_pool,
  exits, Steps, stay, next,
}

halting-ne-exited : (s : Process) {rest : List Halt} → s.main_pc ≡ halting rest → s.main_pc ≢ exited
halting-ne-exited s e h = ground arith

module _ (app : App) where
  Steps_join : {s t u : Process} → Steps app s t → Steps app t u → Steps app s u
  Steps_join r stay = r
  Steps_join r (next q live m) = next (Steps_join r q) live m

  pub first : {s t u : Process} → s.main_pc ≢ exited → Move app s t → Steps app t u → Steps app s u
  first live m r = Steps_join (next stay live m) r

  abbrev pub Exits : Process → Type 0
  Exits s = (t : Process) × Steps app s t × (t.main_pc ≡ exited)

  -- Every request that is in progress can end.
  drains :
      (n : ℕ) (s : Process)
      → s.active ≡ n
      → s.main_pc ≢ exited
      → Steps app s (record s { active = 0 })
  drains zero s e live = subst (λ k. Steps app s (record s { active = k })) e stay
  drains (suc n) s e live = first live (finish e) (drains n (record s { active = n }) refl live)

  halts : (rest : List Halt) (s : Process) → s.main_pc ≡ halting rest → Exits s
  halts [] s e = (_, next stay (halting-ne-exited s e) (exits e), refl)
  halts (graceful_stop ∷ rest) s e =
      let s' = record s { active = 0; main_pc = halting rest } in
      let (t, r, done) = halts rest s' refl in
      (
        t,
        Steps_join
            (next (drains s.active s refl (halting-ne-exited s e)) (halting-ne-exited s e)
              (stop_ends e refl))
            r,
        done,
      )
  halts (shutdown_within ∷ rest) s e =
      let s' = record s { main_pc = halting rest } in
      let (t, r, done) = halts rest s' refl in
      (t, first (halting-ne-exited s e) (shutdown_times_out e) r, done)
  halts (close_pool ∷ rest) s e =
      let s' = record s { pool = false; main_pc = halting rest } in
      let (t, r, done) = halts rest s' refl in
      (t, first (halting-ne-exited s e) (closes_pool e) r, done)

  enters : (s : Process) → s.main_pc ≡ entering → Exits s
  enters s e = elim (Bool-cases s.server_set) [
    | inl there ↦
        let s' = record s { main_pc = halting app.shutdown; halted = true } in
        let (t, r, done) = halts app.shutdown s' refl in
        (t, first (λ h. ground arith) (enter e there) r, done)
    | inr unset ↦ (_, next stay (λ h. ground arith) (enter_unset e unset), refl)
  ]

  -- From any state in which the context is cancelled, the process can go on to its exit.
  pub Exits-from : (m : MainPc) (s : Process) → s.main_pc ≡ m → s.cancelled ≡ true → Exits s
  Exits-from waiting s e c =
      let (t, r, done) = enters (record s { main_pc = entering }) refl in
      (t, first (λ h. ground arith) (wake e c) r, done)
  Exits-from entering s e c = enters s e
  Exits-from (halting rest) s e c = halts rest s e
  Exits-from exited s e c = (s, stay, e)
