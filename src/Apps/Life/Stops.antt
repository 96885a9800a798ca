-- ===== src/Apps/Life/Stops.antt =====
-- When `Run` has ended, the process goes on to its exit.
use merch_store.Base.{◌≡◌, ◌≢◌, Bool, true, some, ok}
use merch_store.Apps.Life.{RunPc, over, returned, waiting, Process}

-- When the goroutine of `Run` is done, the context is cancelled, or about to be.
abbrev Ends : RunPc → Bool → Type 0
Ends over c = c ≡ true
Ends (returned (ok _)) c = c ≡ true
Ends _ c = Unit

record Stops (s : Process) : Type 0 where
  run : Ends s.run_pc s.cancelled
  answer : s.answer ≡ some (ok tt) → s.cancelled ≡ true
  halted : s.halted ≡ true → s.cancelled ≡ true
  main : s.main_pc ≢ waiting → s.cancelled ≡ true

-- `Run` has returned, or was never called.
abbrev pub IsDone : RunPc → Type 0
IsDone (returned _) = Unit
IsDone over = Unit
IsDone _ = ⊥
