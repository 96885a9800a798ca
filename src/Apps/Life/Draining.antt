-- ===== src/Apps/Life/Draining.antt =====
-- What a stop does to the requests in progress. `Run` returns as soon as its context is cancelled,
-- and its deferred calls close the client connections, while `Shutdown` still waits for requests
-- that may need them.
use merch_store.Base.{◌≡◌, refl, subst, ok, ℕ, zero, suc, true, false, [], ◌∷◌, arith}
use merch_store.Apps.Life.{
  auth, waiting, accepting, running, select, App, Process, Steps, stay, next, Reach, signal, listen,
  opens, sets_pool, dials, defers, sets_server, spawns, serves, arrive, select_done, close_deferred,
  return_run, store_process,
}

module _ (app : App) where
  -- Any number of requests can arrive at a server that accepts them.
  arrivals :
      (n : ℕ) {s t : Process}
      → Steps app s t
      → t.main_pc ≡ waiting
      → t.serve_pc ≡ accepting
      → t.halted ≡ false
      → t.active ≡ 0
      → Steps app s (record t { active = n })
  arrivals zero {s} {t} r m v h e = subst (λ k. Steps app s (record t { active = k })) e r
  arrivals (suc n) r m v h e = next (arrivals n r m v h e) (λ x. ground arith) (arrive v h)

  -- The context of a process is cancelled, and `Run` returns.
  cancelled_and_returned :
      {s t : Process}
      → Steps app s t
      → t.main_pc ≡ waiting
      → t.run_pc ≡ running (select ∷ [])
      → Steps app s (return_run (ok tt) (record t { cancelled = true }))
  cancelled_and_returned r m e =
      next (next r (λ x. ground arith) signal) (λ x. ground arith) (select_done e refl)

-- The store with its server running.
store_serving :
    (s : Process) × Reach store_process s
    × (s.main_pc ≡ waiting)
    × (s.serve_pc ≡ accepting)
    × (s.halted ≡ false)
    × (s.active ≡ 0)
    × (s.run_pc ≡ running (select ∷ []))
    × (s.deferred ≡ auth ∷ [])
unfolding store_process
store_serving = (
  _,
  next
      (next
        (next
          (next
            (next
              (next
                (next (next stay (λ h. ground arith) (listen refl)) (λ h. ground arith)
                  (opens refl))
                (λ h. ground arith) (dials {c = auth} refl))
              (λ h. ground arith) (defers refl))
            (λ h. ground arith) (sets_pool refl))
          (λ h. ground arith) (sets_server refl))
        (λ h. ground arith) (spawns refl))
      (λ h. ground arith) (serves refl refl),
  refl,
  refl,
  refl,
  refl,
  refl,
  refl,
)

-- The store can reach a state with any number of requests in progress, and before its `Shutdown` has
-- begun, in which the connection to the auth service is already closed.
pub store_closes_early :
    (n : ℕ)
    → (s : Process) × Reach store_process s
      × (s.active ≡ n)
      × (s.main_pc ≡ waiting)
      × (s.auth_conn ≡ false)
unfolding return_run close_deferred
store_closes_early n =
    let (s, r, m, v, h, e, run, deferred) = store_serving in
    (
      _,
      cancelled_and_returned store_process (arrivals store_process n r m v h e) m run,
      rw deferred refl,
      rw deferred m,
      rw deferred refl,
    )
