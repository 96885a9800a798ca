-- ===== src/Apps/Life.antt =====
-- internal/*/bootstrap and the end of cmd/*/main.go: how the three processes start, serve and stop.
-- `Run` and `Shutdown` are lists of statements, and a process takes steps: of its main goroutine, of
-- the goroutine that calls `Run`, of the one that calls `Serve`, and of the world around it. Log
-- lines are left out, and building handlers in memory cannot fail.
pub mod Invariant
pub mod Kept
pub mod Exit
pub mod Stops
pub mod Bounded
pub mod Closed
pub mod Draining
use merch_store.Base.{
  ℕ, suc, ◌≡◌, ◌≢◌, Bool, true, false, Option, none, some, List, [], ◌∷◌, Result, ok, err,
}

-- The client connections, to the auth and to the store service.
pub data Conn : Type 0 where
  auth store : Conn

-- The errors that `Run` returns.
pub data RunError : Type 0 where
  database_failed : RunError  -- "failed to connect to database"
  dial_failed : (c : Conn) → RunError  -- "failed to connect to … grpc server"
  serve_failed : RunError  -- "failed to serve gRPC", "error while starting http server"

-- The statements of `Run`.
pub data Stmt : Type 0 where
  open_pool : Stmt  -- dbpool, err := pgxpool.New(…), and the return if it fails
  set_pool : Stmt  -- a.dbpool = dbpool
  dial : (c : Conn) → Stmt  -- conn, err := grpc.NewClient(…), and the return if it fails
  defer_close : (c : Conn) → Stmt  -- defer conn.Close()
  set_server : Stmt  -- a.server = server
  go_serve : Stmt  -- go func() { … server.Serve(lis) … }()
  select : Stmt  -- select on ctx.Done() and errChan

-- The statements of `Shutdown` after its test of the server.
pub data Halt : Type 0 where
  graceful_stop : Halt  -- a.server.GracefulStop()
  shutdown_within : Halt  -- a.server.Shutdown(shutdownCtx), with a time limit
  close_pool : Halt  -- a.dbpool.Close()

pub record App : Type 0 where
  pub run : List Stmt
  pub shutdown : List Halt
  -- What the goroutine sends if `Serve` is called on a server that is already stopped.
  pub late : Result RunError (Unit {0})

-- `AuthApp.Run`
unfoldable pub auth_run : List Stmt
auth_run = open_pool ∷ set_pool ∷ set_server ∷ go_serve ∷ select ∷ []

-- `AuthApp.Shutdown`
unfoldable pub auth_shutdown : List Halt
auth_shutdown = graceful_stop ∷ close_pool ∷ []

-- `StoreApp.Run`
unfoldable pub store_run : List Stmt
store_run =
    open_pool ∷ dial auth ∷ defer_close auth ∷ set_pool ∷ set_server ∷ go_serve ∷ select ∷ []

-- `StoreApp.Shutdown`
unfoldable pub store_shutdown : List Halt
store_shutdown = graceful_stop ∷ close_pool ∷ []

-- `GatewayApp.Run`
unfoldable pub gateway_run : List Stmt
gateway_run =
    dial auth
    ∷ defer_close auth
    ∷ dial store
    ∷ defer_close store
    ∷ set_server
    ∷ go_serve
    ∷ select
    ∷ []

-- `GatewayApp.Shutdown`
unfoldable pub gateway_shutdown : List Halt
gateway_shutdown = shutdown_within ∷ []

-- cmd/auth/main.go, from `NewAuthApp` on
unfoldable pub auth_process : App
unfolding auth_run auth_shutdown
auth_process = record { run = auth_run; shutdown = auth_shutdown; late = err serve_failed }

-- cmd/store/main.go, from `NewStoreApp` on
unfoldable pub store_process : App
unfolding store_run store_shutdown
store_process = record { run = store_run; shutdown = store_shutdown; late = err serve_failed }

-- cmd/gateway/main.go, from `NewGatewayApp` on; `http.ErrServerClosed` is no error.
unfoldable pub gateway_process : App
unfolding gateway_run gateway_shutdown
gateway_process = record { run = gateway_run; shutdown = gateway_shutdown; late = ok tt }

-- The goroutine that listens and calls `Run`.
pub data RunPc : Type 0 where
  listening : RunPc
  running : (rest : List Stmt) → RunPc
  returned : (r : Result RunError (Unit {0})) → RunPc
  over : RunPc

-- The goroutine that calls `Serve`.
pub data ServePc : Type 0 where
  unborn starting accepting ended : ServePc

-- The main goroutine.
pub data MainPc : Type 0 where
  waiting : MainPc  -- <-mainCtx.Done()
  entering : MainPc  -- the test of the server in Shutdown
  halting : (rest : List Halt) → MainPc
  exited : MainPc

pub record Process : Type 0 where
  pub cancelled : Bool  -- mainCtx, by a signal or by stop()
  pub run_pc : RunPc
  pub serve_pc : ServePc
  pub main_pc : MainPc
  pub deferred : List Conn
  pub auth_conn : Bool  -- open
  pub store_conn : Bool
  pub pool : Bool
  pub pool_set : Bool  -- a.dbpool is not nil
  pub server_set : Bool  -- a.server is not nil
  pub halted : Bool  -- the server takes no more requests
  pub answer : Option (Result RunError (Unit {0}))  -- errChan
  pub active : ℕ  -- requests in progress

abbrev pub new_process : Process
new_process = record {
  cancelled = false;
  run_pc = listening;
  serve_pc = unborn;
  main_pc = waiting;
  deferred = [];
  auth_conn = false;
  store_conn = false;
  pool = false;
  pool_set = false;
  server_set = false;
  halted = false;
  answer = none;
  active = 0;
}

abbrev pub set_conn : Conn → Bool → Process → Process
set_conn auth b s = record s { auth_conn = b }
set_conn store b s = record s { store_conn = b }

-- The deferred calls when `Run` returns.
unfoldable pub close_deferred : List Conn → Process → Process
close_deferred [] s = s
close_deferred (c ∷ cs) s = close_deferred cs (set_conn c false s)

-- `Run` returns `r`.
unfoldable pub return_run : Result RunError (Unit {0}) → Process → Process
return_run r s =
    let s' = close_deferred s.deferred s in record s' { run_pc = returned r; deferred = [] }

-- One step of a process that has not exited.
pub data Move (app : App) (s : Process) : Process → Type 0 where
  -- SIGINT or SIGTERM
  signal : Move app s (record s { cancelled = true })
  -- net.Listen
  listen : s.run_pc ≡ listening → Move app s (record s { run_pc = running app.run })
  listen_fails : s.run_pc ≡ listening → Move app s (record s { run_pc = over; cancelled = true })
  -- the statements of Run
  opens :
      {rest : List Stmt}
      → s.run_pc ≡ running (open_pool ∷ rest)
      → Move app s (record s { run_pc = running rest; pool = true })
  opens_not :
      {rest : List Stmt}
      → s.run_pc ≡ running (open_pool ∷ rest)
      → Move app s (return_run (err database_failed) s)
  sets_pool :
      {rest : List Stmt}
      → s.run_pc ≡ running (set_pool ∷ rest)
      → Move app s (record s { run_pc = running rest; pool_set = true })
  dials :
      {c : Conn} {rest : List Stmt}
      → s.run_pc ≡ running (dial c ∷ rest)
      → Move app s (set_conn c true (record s { run_pc = running rest }))
  dials_not :
      {c : Conn} {rest : List Stmt}
      → s.run_pc ≡ running (dial c ∷ rest)
      → Move app s (return_run (err (dial_failed c)) s)
  defers :
      {c : Conn} {rest : List Stmt}
      → s.run_pc ≡ running (defer_close c ∷ rest)
      → Move app s (record s { run_pc = running rest; deferred = c ∷ s.deferred })
  sets_server :
      {rest : List Stmt}
      → s.run_pc ≡ running (set_server ∷ rest)
      → Move app s (record s { run_pc = running rest; server_set = true })
  spawns :
      {rest : List Stmt}
      → s.run_pc ≡ running (go_serve ∷ rest)
      → Move app s (record s { run_pc = running rest; serve_pc = starting })
  select_done :
      {rest : List Stmt}
      → s.run_pc ≡ running (select ∷ rest)
      → s.cancelled ≡ true
      → Move app s (return_run (ok tt) s)
  select_answer :
      {rest : List Stmt} {r : Result RunError (Unit {0})}
      → s.run_pc ≡ running (select ∷ rest)
      → s.answer ≡ some r
      → Move app s (return_run r s)
  -- after Run: stop() if it has failed
  returns : s.run_pc ≡ returned (ok tt) → Move app s (record s { run_pc = over })
  stops :
      {e : RunError}
      → s.run_pc ≡ returned (err e)
      → Move app s (record s { run_pc = over; cancelled = true })
  -- Serve
  serves : s.serve_pc ≡ starting → s.halted ≡ false → Move app s (record s { serve_pc = accepting })
  serves_late :
      s.serve_pc ≡ starting
      → s.halted ≡ true
      → Move app s (record s { serve_pc = ended; answer = some app.late })
  serve_fails :
      s.serve_pc ≡ accepting
      → Move app s (record s { serve_pc = ended; answer = some (err serve_failed) })
  serve_ends :
      s.serve_pc ≡ accepting
      → s.halted ≡ true
      → Move app s (record s { serve_pc = ended; answer = some (ok tt) })
  -- requests
  arrive :
      s.serve_pc ≡ accepting → s.halted ≡ false → Move app s (record s { active = suc s.active })
  finish : {n : ℕ} → s.active ≡ suc n → Move app s (record s { active = n })
  -- main and Shutdown
  wake : s.main_pc ≡ waiting → s.cancelled ≡ true → Move app s (record s { main_pc = entering })
  enter_unset :
      s.main_pc ≡ entering → s.server_set ≡ false → Move app s (record s { main_pc = exited })
  enter :
      s.main_pc ≡ entering
      → s.server_set ≡ true
      → Move app s (record s { main_pc = halting app.shutdown; halted = true })
  stop_ends :
      {rest : List Halt}
      → s.main_pc ≡ halting (graceful_stop ∷ rest)
      → s.active ≡ 0
      → Move app s (record s { main_pc = halting rest })
  shutdown_ends :
      {rest : List Halt}
      → s.main_pc ≡ halting (shutdown_within ∷ rest)
      → s.active ≡ 0
      → Move app s (record s { main_pc = halting rest })
  shutdown_times_out :
      {rest : List Halt}
      → s.main_pc ≡ halting (shutdown_within ∷ rest)
      → Move app s (record s { main_pc = halting rest })
  closes_pool :
      {rest : List Halt}
      → s.main_pc ≡ halting (close_pool ∷ rest)
      → Move app s (record s { main_pc = halting rest; pool = false })
  exits : s.main_pc ≡ halting [] → Move app s (record s { main_pc = exited })

-- When main returns, the process is gone, with all its goroutines.
pub data Steps (app : App) (s : Process) : Process → Type 0 where
  stay : Steps app s s
  next : {t u : Process} → Steps app s t → t.main_pc ≢ exited → Move app t u → Steps app s u

abbrev pub Reach : App → Process → Type 0
Reach app = Steps app new_process
