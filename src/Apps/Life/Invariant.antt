-- ===== src/Apps/Life/Invariant.antt =====
-- The services with a database: what holds in every state of a process between its start and its
-- exit.
use merch_store.Base.{ℕ, ◌≡◌, refl, Bool, true, false, not, List, [], ◌∷◌, Result, arith, ◌⊎◌, inl}
use merch_store.Apps.Life.{
  Conn, auth, store, RunError, Stmt, open_pool, set_pool, dial, defer_close, set_server, go_serve,
  Halt, graceful_stop, shutdown_within, close_pool, App, RunPc, listening, running, unborn, MainPc,
  waiting, entering, halting, exited, Process, set_conn, close_deferred, return_run, auth_process,
  store_process,
}

-- Statements of `Run` once the server is set, which leave the database alone.
abbrev pub After : List Stmt → Type 0
After [] = Unit
After (open_pool ∷ _) = ⊥
After (set_pool ∷ _) = ⊥
After (set_server ∷ _) = ⊥
After (_ ∷ rest) = After rest

-- Statements of `Run` that set the server when the pool is open and set, and serve only then.
abbrev pub Before : (pool pool_set : Bool) → List Stmt → Type 0
Before p q [] = Unit
Before p q (open_pool ∷ rest) = Before true q rest
Before p q (set_pool ∷ rest) = (p ≡ true) × Before p true rest
Before p q (set_server ∷ rest) = (p ≡ true) × (q ≡ true) × After rest
Before p q (go_serve ∷ _) = ⊥
Before p q (_ ∷ rest) = Before p q rest

-- Statements of `Shutdown` that close the pool once, after the requests have ended.
abbrev pub Drains : (drained closed : Bool) → List Halt → Type 0
Drains d c [] = (d ≡ true) × (c ≡ true)
Drains d c (graceful_stop ∷ rest) = Drains true c rest
Drains d c (shutdown_within ∷ rest) = Drains d c rest
Drains d c (close_pool ∷ rest) = (d ≡ true) × (c ≡ false) × Drains d true rest

pub record HasDatabase (app : App) : Type 0 where
  pub before : Before false false app.run
  pub drains : Drains false false app.shutdown

pub auth-HasDatabase : HasDatabase auth_process
unfolding auth_process
auth-HasDatabase = record { before = (refl, (refl, refl, tt)); drains = (refl, refl, (refl, refl)) }

pub store-HasDatabase : HasDatabase store_process
unfolding store_process
store-HasDatabase = record {
  before = (refl, (refl, refl, tt));
  drains = (refl, refl, (refl, refl));
}

abbrev pub RunInv : RunPc → (server_set pool pool_set : Bool) → Type 0
RunInv (running rest) false p q = Before p q rest
RunInv (running rest) true p q = After rest
RunInv listening b p q = (b ≡ false) × (p ≡ false) × (q ≡ false)
RunInv _ b p q = Unit

abbrev pub MainInv : MainPc → (server_set halted pool pool_set : Bool) → ℕ → Type 0
MainInv waiting b h p q n = (h ≡ false) × (b ≡ true → (p ≡ true) × (q ≡ true))
MainInv entering b h p q n = (h ≡ false) × (b ≡ true → (p ≡ true) × (q ≡ true))
MainInv (halting rest) b h p q n =
    (b ≡ true)
    × (h ≡ true)
    × (q ≡ true)
    × (((p ≡ true) × Drains false false rest) ⊎ ((n ≡ 0) × Drains true (not p) rest))
MainInv exited b h p q n = (b ≡ false) ⊎ ((p ≡ false) × (n ≡ 0))

pub record Inv (s : Process) : Type 0 where
  pub run : RunInv s.run_pc s.server_set s.pool s.pool_set
  pub serve : s.server_set ≡ false → s.serve_pc ≡ unborn
  pub idle : s.serve_pc ≡ unborn → s.active ≡ 0
  pub main : MainInv s.main_pc s.server_set s.halted s.pool s.pool_set s.active

pub set_conn-Inv : (c : Conn) (b : Bool) {s : Process} → Inv s → Inv (set_conn c b s)
set_conn-Inv auth b inv = record {
  run = inv.run;
  serve = inv.serve;
  idle = inv.idle;
  main = inv.main;
}
set_conn-Inv store b inv = record {
  run = inv.run;
  serve = inv.serve;
  idle = inv.idle;
  main = inv.main;
}

close_deferred-Inv : (cs : List Conn) {s : Process} → Inv s → Inv (close_deferred cs s)
unfolding close_deferred
close_deferred-Inv [] inv = inv
close_deferred-Inv (c ∷ cs) inv = close_deferred-Inv cs (set_conn-Inv c false inv)

pub return_run-Inv : (r : Result RunError (Unit {0})) {s : Process} → Inv s → Inv (return_run r s)
unfolding return_run
return_run-Inv r {s} inv =
    let kept = close_deferred-Inv s.deferred inv in
    record { run = tt; serve = kept.serve; idle = kept.idle; main = kept.main }

-- The server is not set when `Run` opens or sets the pool.
pub opens-RunInv :
    (rest : List Stmt) (b p q : Bool)
    → RunInv (running (open_pool ∷ rest)) b p q
    → (b ≡ false) × RunInv (running rest) b true q
opens-RunInv rest false p q h = (refl, h)
opens-RunInv rest true p q h = absurd h

pub sets_pool-RunInv :
    (rest : List Stmt) (b p q : Bool)
    → RunInv (running (set_pool ∷ rest)) b p q
    → (b ≡ false) × RunInv (running rest) b p true
sets_pool-RunInv rest false p q h = (refl, h.1)
sets_pool-RunInv rest true p q h = absurd h

pub sets_server-RunInv :
    (rest : List Stmt) (b p q : Bool)
    → RunInv (running (set_server ∷ rest)) b p q
    → (b ≡ false) × (p ≡ true) × (q ≡ true) × RunInv (running rest) true p q
sets_server-RunInv rest false p q h = (refl, h.0, h.1, h.2)
sets_server-RunInv rest true p q h = absurd h

pub spawns-RunInv :
    (rest : List Stmt) (b p q : Bool)
    → RunInv (running (go_serve ∷ rest)) b p q
    → (b ≡ true) × RunInv (running rest) b p q
spawns-RunInv rest false p q h = absurd h
spawns-RunInv rest true p q h = (refl, h)

pub passes-RunInv :
    (c : Conn) (rest : List Stmt) (b p q : Bool)
    → (RunInv (running (dial c ∷ rest)) b p q → RunInv (running rest) b p q)
      × (RunInv (running (defer_close c ∷ rest)) b p q → RunInv (running rest) b p q)
passes-RunInv c rest false p q = (λ h. h, λ h. h)
passes-RunInv c rest true p q = (λ h. h, λ h. h)

-- While the server is not set, what happens to the pool does not matter to `main`.
pub unset-MainInv :
    (m : MainPc) (h p q p' q' : Bool) (n : ℕ) → MainInv m false h p q n → MainInv m false h p' q' n
unset-MainInv waiting h p q p' q' n i = (i.0, λ e. absurd (ground arith))
unset-MainInv entering h p q p' q' n i = (i.0, λ e. absurd (ground arith))
unset-MainInv (halting rest) h p q p' q' n i = absurd (ground arith)
unset-MainInv exited h p q p' q' n i = inl refl
