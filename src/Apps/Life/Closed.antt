-- ===== src/Apps/Life/Closed.antt =====
-- The client connections of `Run`: each is closed by a deferred call, however `Run` returns.
pub mod Connections
use merch_store.Base.{
  sym, ◌≡◌, refl, subst, Bool, true, false, List, [], ◌∷◌, arith, ◌⊎◌, inl, inr, Result, Bool-cases,
}
use merch_store.Apps.Life.{
  RunError, Conn, auth, store, Stmt, open_pool, set_pool, dial, defer_close, set_server, go_serve,
  select, App, RunPc, listening, running, returned, over, Process, new_process, set_conn,
  close_deferred, return_run, Move, signal, listen, listen_fails, opens, opens_not, sets_pool,
  dials, dials_not, defers, sets_server, spawns, select_done, select_answer, returns, stops, serves,
  serves_late, serve_fails, serve_ends, arrive, finish, wake, enter_unset, enter, stop_ends,
  shutdown_ends, shutdown_times_out, closes_pool, exits, stay, next, Reach, auth_process,
  store_process, gateway_process,
}
use merch_store.Apps.Life.Stops.{IsDone}
use merch_store.Apps.Life.Closed.Connections.{
  is_open, In, Paired, auth-Paired, store-Paired, gateway-Paired, Tidy, paired, about, all_deferred,
  returned-Tidy, dialled-Tidy, listening_closed, done_closed,
}

module _ {app : App} (pairs : Paired app.run) (s : Process) (t : Tidy s) where
  Move-Tidy : {u : Process} → Move app s u → Tidy u
  Move-Tidy signal = record { at = t.at; kept = t.kept }
  Move-Tidy (listen e) = record {
    at = pairs;
    kept = λ c h. absurd ((listening_closed s t e).1 c h);
  }
  Move-Tidy (listen_fails e) = record {
    at = (listening_closed s t e).0;
    kept = λ c h. absurd ((listening_closed s t e).1 c h);
  }
  Move-Tidy (opens {rest} e) = record {
    at = paired s t (open_pool ∷ rest) e;
    kept = λ c h. inl (all_deferred s t (open_pool ∷ rest) e (λ _ d. d) c h);
  }
  Move-Tidy (opens_not {rest} e) = returned-Tidy s t (open_pool ∷ rest) e (λ _ d. d) _
  Move-Tidy (sets_pool {rest} e) = record {
    at = paired s t (set_pool ∷ rest) e;
    kept = λ c h. inl (all_deferred s t (set_pool ∷ rest) e (λ _ d. d) c h);
  }
  Move-Tidy (dials {c} {rest} e) = dialled-Tidy s t c rest e
  Move-Tidy (dials_not {c} {rest} e) = returned-Tidy s t (dial c ∷ rest) e (λ _ d. d) _
  Move-Tidy (defers {c} {rest} e) = record {
    at = paired s t (defer_close c ∷ rest) e;
    kept = λ d h. elim (about s t (defer_close c ∷ rest) e d h) [
      | inl i ↦ inl (inr i)
      | inr same ↦ inl (inl same)
    ];
  }
  Move-Tidy (sets_server {rest} e) = record {
    at = paired s t (set_server ∷ rest) e;
    kept = λ c h. inl (all_deferred s t (set_server ∷ rest) e (λ _ d. d) c h);
  }
  Move-Tidy (spawns {rest} e) = record {
    at = paired s t (go_serve ∷ rest) e;
    kept = λ c h. inl (all_deferred s t (go_serve ∷ rest) e (λ _ d. d) c h);
  }
  Move-Tidy (select_done {rest} e c) = returned-Tidy s t (select ∷ rest) e (λ _ d. d) _
  Move-Tidy (select_answer {rest} {r} e a) = returned-Tidy s t (select ∷ rest) e (λ _ d. d) _
  Move-Tidy (returns e) = record {
    at = (done_closed s t _ e tt).0;
    kept = λ c h. absurd ((done_closed s t _ e tt).1 c h);
  }
  Move-Tidy (stops e) = record {
    at = (done_closed s t _ e tt).0;
    kept = λ c h. absurd ((done_closed s t _ e tt).1 c h);
  }
  Move-Tidy (serves _ _) = record { at = t.at; kept = t.kept }
  Move-Tidy (serves_late _ _) = record { at = t.at; kept = t.kept }
  Move-Tidy (serve_fails _) = record { at = t.at; kept = t.kept }
  Move-Tidy (serve_ends _ _) = record { at = t.at; kept = t.kept }
  Move-Tidy (arrive _ _) = record { at = t.at; kept = t.kept }
  Move-Tidy (finish _) = record { at = t.at; kept = t.kept }
  Move-Tidy (wake _ _) = record { at = t.at; kept = t.kept }
  Move-Tidy (enter_unset _ _) = record { at = t.at; kept = t.kept }
  Move-Tidy (enter _ _) = record { at = t.at; kept = t.kept }
  Move-Tidy (stop_ends _ _) = record { at = t.at; kept = t.kept }
  Move-Tidy (shutdown_ends _ _) = record { at = t.at; kept = t.kept }
  Move-Tidy (shutdown_times_out _) = record { at = t.at; kept = t.kept }
  Move-Tidy (closes_pool _) = record { at = t.at; kept = t.kept }
  Move-Tidy (exits _) = record { at = t.at; kept = t.kept }

closed_first : (c : Conn) → is_open c new_process ≡ true → ⊥
closed_first auth h = ground arith
closed_first store h = ground arith

module _ {app : App} (pairs : Paired app.run) where
  Reach-Tidy : {s : Process} → Reach app s → Tidy s
  Reach-Tidy stay = record { at = refl; kept = λ c h. absurd (closed_first c h) }
  Reach-Tidy (next {t} r live m) = Move-Tidy pairs t (Reach-Tidy r) m

-- The processes of the repository.
abbrev pub IsProcess : App → Type 0
IsProcess app = (app ≡ auth_process) ⊎ (app ≡ store_process) ⊎ (app ≡ gateway_process)

IsProcess-Paired : {app : App} → IsProcess app → Paired app.run
IsProcess-Paired (inl e) = subst (λ a. Paired a.run) (sym e) auth-Paired
IsProcess-Paired (inr (inl e)) = subst (λ a. Paired a.run) (sym e) store-Paired
IsProcess-Paired (inr (inr e)) = subst (λ a. Paired a.run) (sym e) gateway-Paired

-- In the auth service, the store and the gateway, no connection to another service is open once `Run`
-- has returned, whichever of its statements failed, or if it was never called.
pub Reach-closed :
    {app : App}
    → IsProcess app
    → {s : Process} → Reach app s
    → IsDone s.run_pc
    → (c : Conn) → is_open c s ≡ false
Reach-closed p {s} r d c =
    let (_, shut) = done_closed s (Reach-Tidy (IsProcess-Paired p) r) s.run_pc refl d in
    elim (Bool-cases (is_open c s)) [ inl up ↦ absurd (shut c up) | inr down ↦ down ]
