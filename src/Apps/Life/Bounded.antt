-- ===== src/Apps/Life/Bounded.antt =====
-- Once `Shutdown` has begun, a process takes only so many more steps.
use merch_store.Base.{
  ℕ, suc, ◌+◌, ◌≤◌, if◌then◌else◌, ◌≡◌, Bool, true, false, List, [], ◌∷◌, length,
}
use merch_store.Apps.Life.{
  Stmt, go_serve, listening, running, App, RunPc, over, returned, ServePc, unborn, starting,
  accepting, ended, MainPc, waiting, entering, halting, exited, Process, Move, signal, Steps, stay,
  next,
}

-- What is left to do, in steps.
abbrev pub run_cost : List Stmt → ℕ
run_cost [] = 0
run_cost (go_serve ∷ rest) = 4 + run_cost rest
run_cost (_ ∷ rest) = 1 + run_cost rest

abbrev pub run_work : App → RunPc → ℕ
run_work app listening = run_cost app.run + 3
run_work app (running rest) = run_cost rest + 2
run_work app (returned _) = 1
run_work app over = 0

abbrev pub serve_work : ServePc → ℕ
serve_work unborn = 0
serve_work starting = 2
serve_work accepting = 1
serve_work ended = 0

abbrev pub main_work : App → MainPc → ℕ
main_work app waiting = length app.shutdown + 3
main_work app entering = length app.shutdown + 2
main_work app (halting rest) = length rest + 1
main_work app exited = 0

abbrev pub work : App → Process → ℕ
work app s = run_work app s.run_pc + serve_work s.serve_pc + main_work app s.main_pc + s.active

module _ (app : App) where
  -- The steps of a run that are not signals.
  abbrev pub is_signal : {s t : Process} → Move app s t → Bool
  is_signal signal = true
  is_signal _ = false

  abbrev pub moves : {s t : Process} → Steps app s t → ℕ
  moves stay = 0
  moves (next r live m) = if is_signal m then moves r else suc (moves r)

  abbrev Costs : Process → Process → ℕ → Type 0
  Costs s t n = (t.halted ≡ true) × (n + work app t ≤ work app s)
