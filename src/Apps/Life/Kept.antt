-- ===== src/Apps/Life/Kept.antt =====
-- The database of a service: open as long as requests use it, closed in the end.
pub mod Parts
pub mod Moves
use merch_store.Base.{
  sym, ℕ, suc, ◌≡◌, ◌≢◌, refl, subst, Bool, true, false, not, List, [], ◌∷◌, arith, ◌⊎◌, inl, inr,
  Option, some, Result, ok, err, Bool-cases,
}
use merch_store.Apps.Life.{
  auth_process, store_process, RunError, serve_failed, open_pool, set_pool, dial, defer_close,
  set_server, go_serve, Halt, graceful_stop, shutdown_within, close_pool, App, RunPc, listening,
  running, returned, over, ServePc, unborn, accepting, ended, MainPc, waiting, entering, halting,
  exited, Process, Move, signal, listen, listen_fails, opens, opens_not, sets_pool, dials,
  dials_not, defers, sets_server, spawns, select_done, select_answer, returns, stops, serves,
  serves_late, serve_fails, serve_ends, arrive, finish, wake, enter_unset, enter, stop_ends,
  shutdown_ends, shutdown_times_out, closes_pool, exits, stay, next, Reach,
}
use merch_store.Apps.Life.Invariant.{
  auth-HasDatabase, store-HasDatabase, Drains, HasDatabase, RunInv, MainInv, Inv, set_conn-Inv,
  return_run-Inv, opens-RunInv, sets_pool-RunInv, sets_server-RunInv, spawns-RunInv, passes-RunInv,
  unset-MainInv,
}
use merch_store.Apps.Life.Kept.Moves.{Move-Inv}

module _ {app : App} (db : HasDatabase app) where
  Reach-Inv : {s : Process} → Reach app s → Inv s
  Reach-Inv stay = record {
    run = (refl, refl, refl);
    serve = λ _. refl;
    idle = λ _. refl;
    main = (refl, λ e. absurd (ground arith));
  }
  Reach-Inv (next {t} r live m) = Move-Inv db t live (Reach-Inv r) m

  active_pool :
      (m : MainPc) (b h p q : Bool) (n : ℕ) → b ≡ true → n ≢ 0 → MainInv m b h p q n → p ≡ true
  active_pool waiting b h p q n there busy i = (i.1 there).0
  active_pool entering b h p q n there busy i = (i.1 there).0
  active_pool (halting rest) b h p q n there busy (_, _, _, inl (up, _)) = up
  active_pool (halting rest) b h p q n there busy (_, _, _, inr (none_left, _)) =
      absurd (busy none_left)
  active_pool exited b h p q n there busy i = absurd (ground arith)

-- The two processes with a database.
abbrev pub IsService : App → Type 0
IsService app = (app ≡ auth_process) ⊎ (app ≡ store_process)

IsService-HasDatabase : {app : App} → IsService app → HasDatabase app
IsService-HasDatabase (inl e) = subst HasDatabase (sym e) auth-HasDatabase
IsService-HasDatabase (inr e) = subst HasDatabase (sym e) store-HasDatabase

module _ {app : App} (service : IsService app) where
  -- In the auth service and in the store, the pool is open as long as any request is in progress.
  pub Reach-pool : {s : Process} → Reach app s → s.active ≢ 0 → s.pool ≡ true
  Reach-pool {s} r busy =
      let inv = Reach-Inv (IsService-HasDatabase service) r in
      elim (Bool-cases s.server_set) [
        | inl there ↦
            active_pool (IsService-HasDatabase service) s.main_pc s.server_set s.halted s.pool
              s.pool_set s.active there busy inv.main
        | inr unset ↦ absurd (busy (inv.idle (inv.serve unset)))
      ]

  -- When the auth service or the store exits, it has never set its server, or the pool is closed and
  -- no request is in progress.
  pub Reach-exits :
      {s : Process}
      → Reach app s
      → s.main_pc ≡ exited
      → (s.server_set ≡ false) ⊎ ((s.pool ≡ false) × (s.active ≡ 0))
  Reach-exits {s} r e =
      subst (λ m. MainInv m s.server_set s.halted s.pool s.pool_set s.active) e
        (Reach-Inv (IsService-HasDatabase service) r).main
