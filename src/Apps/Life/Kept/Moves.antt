-- ===== src/Apps/Life/Kept/Moves.antt =====
-- Every step of a service with a database keeps the invariant of Apps/Life/Invariant.antt.
use merch_store.Base.{
  ◌≡◌, ◌≢◌, refl, subst, true, false, [], ◌∷◌, arith, inl, inr, Option, some, Result, ok, err,
}
use merch_store.Apps.Life.{
  RunError, serve_failed, open_pool, set_pool, dial, defer_close, set_server, go_serve,
  graceful_stop, shutdown_within, close_pool, App, RunPc, listening, running, ServePc, unborn,
  accepting, ended, MainPc, waiting, entering, halting, exited, Process, Move, signal, listen,
  listen_fails, opens, opens_not, sets_pool, dials, dials_not, defers, sets_server, spawns,
  select_done, select_answer, returns, stops, serves, serves_late, serve_fails, serve_ends, arrive,
  finish, wake, enter_unset, enter, stop_ends, shutdown_ends, shutdown_times_out, closes_pool,
  exits,
}
use merch_store.Apps.Life.Invariant.{
  HasDatabase, RunInv, MainInv, Inv, set_conn-Inv, return_run-Inv, opens-RunInv, sets_pool-RunInv,
  sets_server-RunInv, spawns-RunInv, passes-RunInv, unset-MainInv,
}
use merch_store.Apps.Life.Kept.Parts.{
  set-MainInv, arrive-MainInv, finish-MainInv, halted-RunInv, drained-Drains, closed-Drains,
  exited-Drains,
}

module _ {app : App} (db : HasDatabase app) (s : Process) (live : s.main_pc ≢ exited)
    (inv : Inv s) where
  abbrev run_at : (r : RunPc) → s.run_pc ≡ r → RunInv r s.server_set s.pool s.pool_set
  run_at r e = subst (λ r'. RunInv r' s.server_set s.pool s.pool_set) e inv.run

  abbrev main_at :
      (m : MainPc) → s.main_pc ≡ m → MainInv m s.server_set s.halted s.pool s.pool_set s.active
  main_at m e = subst (λ m'. MainInv m' s.server_set s.halted s.pool s.pool_set s.active) e inv.main

  -- The goroutine that serves moves on.
  born :
      (v : ServePc) (a : Option (Result RunError (Unit {0})))
      → v ≢ unborn
      → (s.server_set ≡ false → ⊥)
      → Inv (record s { serve_pc = v; answer = a })
  born v a there set = record {
    run = inv.run;
    serve = λ e. absurd (set e);
    idle = λ e. absurd (there e);
    main = inv.main;
  }

  pub Move-Inv : {t : Process} → Move app s t → Inv t
  Move-Inv signal = record { run = inv.run; serve = inv.serve; idle = inv.idle; main = inv.main }
  Move-Inv (listen e) = record {
    run = let (unset, down, none_yet) = run_at listening e in rw (unset, down, none_yet) db.before;
    serve = inv.serve;
    idle = inv.idle;
    main = inv.main;
  }
  Move-Inv (listen_fails e) = record {
    run = tt;
    serve = inv.serve;
    idle = inv.idle;
    main = inv.main;
  }
  Move-Inv (opens {rest} e) =
      let (unset, later) =
        opens-RunInv rest s.server_set s.pool s.pool_set (run_at (running (open_pool ∷ rest)) e) in
      record {
        run = later;
        serve = inv.serve;
        idle = inv.idle;
        main = rw unset (
            unset-MainInv s.main_pc s.halted s.pool s.pool_set true s.pool_set s.active
              (rw unset at inv.main));
      }
  Move-Inv (opens_not e) = return_run-Inv _ inv
  Move-Inv (sets_pool {rest} e) =
      let (unset, later) =
        sets_pool-RunInv rest s.server_set s.pool s.pool_set
          (run_at (running (set_pool ∷ rest)) e) in
      record {
        run = later;
        serve = inv.serve;
        idle = inv.idle;
        main = rw unset (
            unset-MainInv s.main_pc s.halted s.pool s.pool_set s.pool true s.active
              (rw unset at inv.main));
      }
  Move-Inv (dials {c} {rest} e) = set_conn-Inv c true (record {
    run =
        (passes-RunInv c rest s.server_set s.pool s.pool_set).0
          (run_at (running (dial c ∷ rest)) e);
    serve = inv.serve;
    idle = inv.idle;
    main = inv.main;
  })
  Move-Inv (dials_not e) = return_run-Inv _ inv
  Move-Inv (defers {c} {rest} e) = record {
    run =
        (passes-RunInv c rest s.server_set s.pool s.pool_set).1
          (run_at (running (defer_close c ∷ rest)) e);
    serve = inv.serve;
    idle = inv.idle;
    main = inv.main;
  }
  Move-Inv (sets_server {rest} e) =
      let (unset, pool, set, later) =
        sets_server-RunInv rest s.server_set s.pool s.pool_set
          (run_at (running (set_server ∷ rest)) e) in
      record {
        run = later;
        serve = λ e'. absurd (ground arith);
        idle = inv.idle;
        main =
            set-MainInv s.main_pc s.halted s.pool s.pool_set s.active live pool set
              (rw unset at inv.main);
      }
  Move-Inv (spawns {rest} e) =
      let (there, later) =
        spawns-RunInv rest s.server_set s.pool s.pool_set (run_at (running (go_serve ∷ rest)) e) in
      record {
        run = later;
        serve = λ e'. absurd (ground (arith, there, e'));
        idle = λ e'. absurd (ground arith);
        main = inv.main;
      }
  Move-Inv (select_done e c) = return_run-Inv _ inv
  Move-Inv (select_answer e a) = return_run-Inv _ inv
  Move-Inv (returns e) = record { run = tt; serve = inv.serve; idle = inv.idle; main = inv.main }
  Move-Inv (stops e) = record { run = tt; serve = inv.serve; idle = inv.idle; main = inv.main }
  Move-Inv (serves e h) =
      born accepting s.answer (λ e'. cc) (λ e'. absurd (ground (arith, inv.serve e')))
  Move-Inv (serves_late e h) =
      born ended (some app.late) (λ e'. cc) (λ e'. absurd (ground (arith, inv.serve e')))
  Move-Inv (serve_fails e) =
      born ended (some (err serve_failed)) (λ e'. cc) (λ e'. absurd (ground (arith, inv.serve e')))
  Move-Inv (serve_ends e h) =
      born ended (some (ok tt)) (λ e'. cc) (λ e'. absurd (ground (arith, inv.serve e')))
  Move-Inv (arrive e h) = record {
    run = inv.run;
    serve = inv.serve;
    idle = λ e'. absurd (ground arith);
    main =
        arrive-MainInv s.main_pc s.server_set s.halted s.pool s.pool_set s.active live h inv.main;
  }
  Move-Inv (finish {n} e) = record {
    run = inv.run;
    serve = inv.serve;
    idle = λ e'. absurd (ground (arith, inv.idle e'));
    main =
        finish-MainInv s.main_pc s.server_set s.halted s.pool s.pool_set n live (rw e at inv.main);
  }
  Move-Inv (wake e c) = record {
    run = inv.run;
    serve = inv.serve;
    idle = inv.idle;
    main = main_at waiting e;
  }
  Move-Inv (enter_unset e unset) = record {
    run = inv.run;
    serve = inv.serve;
    idle = inv.idle;
    main = inl unset;
  }
  Move-Inv (enter e there) =
      let (pool, set) = (main_at entering e).1 there in
      record {
        run = inv.run;
        serve = inv.serve;
        idle = inv.idle;
        main = (there, refl, set, inl (pool, db.drains));
      }
  Move-Inv (stop_ends {rest} e none_left) =
      let (there, halted, set, d) = main_at (halting (graceful_stop ∷ rest)) e in
      record {
        run = inv.run;
        serve = inv.serve;
        idle = inv.idle;
        main = (there, halted, set, inr (drained-Drains s.pool s.active rest none_left d));
      }
  Move-Inv (shutdown_ends {rest} e none_left) = record {
    run = inv.run;
    serve = inv.serve;
    idle = inv.idle;
    main = main_at (halting (shutdown_within ∷ rest)) e;
  }
  Move-Inv (shutdown_times_out {rest} e) = record {
    run = inv.run;
    serve = inv.serve;
    idle = inv.idle;
    main = main_at (halting (shutdown_within ∷ rest)) e;
  }
  Move-Inv (closes_pool {rest} e) =
      let (there, halted, set, d) = main_at (halting (close_pool ∷ rest)) e in
      record {
        run = rw there (halted-RunInv s.run_pc s.pool s.pool_set false (rw there at inv.run));
        serve = inv.serve;
        idle = inv.idle;
        main = (there, halted, set, inr (closed-Drains s.pool s.active rest d));
      }
  Move-Inv (exits e) = record {
    run = inv.run;
    serve = inv.serve;
    idle = inv.idle;
    main = inr (exited-Drains s.pool s.active (main_at (halting []) e).3);
  }
