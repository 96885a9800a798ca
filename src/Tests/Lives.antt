-- ===== src/Tests/Lives.antt =====
-- Runs of the processes from their start: the store serves, and stops with a request in progress.
use merch_store.Base.{inl, inr, List, ◌≡◌, ◌≢◌, refl, true, false, ◌⊎◌, arith}
use merch_store.Apps.Life.{
  auth, App, Process, waiting, entering, halting, exited, Halt, Move, Steps, stay, next, Reach,
  signal, listen, opens, opens_not, dials, defers, sets_pool, sets_server, spawns, serves, arrive,
  finish, select_done, wake, enter, stop_ends, closes_pool, exits, close_deferred, return_run,
  auth_process, store_process,
}
use merch_store.Apps.Life.Kept.{Reach-pool, Reach-exits}
use merch_store.Apps.Life.Bounded.{moves}
use merch_store.Apps.Life.Closed.Connections.{is_open}
use merch_store.Apps.Life.Closed.{Reach-closed}
use merch_store.Apps.Life.Draining.{store_closes_early}

waiting-live : waiting ≢ exited
waiting-live h = ground arith

-- A run that goes on while main waits.
record Run (app : App) : Type 0 where
  last : Process
  reach : Reach app last

abbrev then :
    {app : App} (r : Run app)
    → r.last.main_pc ≡ waiting
    → {t : Process} → Move app r.last t
    → Run app
then r w {t} m = record { last = t; reach = next r.reach (rw w waiting-live) m }

-- The store serves a request.
abbrev busy : Run store_process
unfolding store_process
busy =
    let listening = then (record { last = _; reach = stay }) refl (listen refl) in
    let dialled = then (then listening refl (opens refl)) refl (dials {c = auth} refl) in
    let set =
      then (then (then dialled refl (defers refl)) refl (sets_pool refl)) refl (sets_server refl) in
    then (then (then set refl (spawns refl)) refl (serves refl refl)) refl (arrive refl refl)

-- It is told to stop, and `Run` has returned.
abbrev told : Run store_process
unfolding store_process busy return_run close_deferred
told = then (then busy refl signal) refl (select_done refl refl)

Reach-pool_example : busy.last.pool ≡ true
unfolding busy
Reach-pool_example = Reach-pool (inr refl) busy.reach (λ h. ground arith)

entering-live : entering ≢ exited
entering-live h = ground arith

halting-live : (rest : List Halt) → halting rest ≢ exited
halting-live rest h = ground arith

-- Shutdown has begun.
abbrev stopping : Run store_process
unfolding told return_run close_deferred
stopping =
    let woken = then told refl (wake refl refl) in
    record { last = _; reach = next woken.reach entering-live (enter refl refl) }

-- The request ends, and the pool is about to be closed.
abbrev drained : Run store_process
unfolding store_process stopping told return_run close_deferred
drained = record {
  last = _;
  reach =
      next (next stopping.reach (halting-live _) (finish refl)) (halting-live _)
        (stop_ends refl refl);
}

abbrev gone : Run store_process
unfolding store_process drained stopping told return_run close_deferred
gone = record {
  last = _;
  reach =
      next (next drained.reach (halting-live _) (closes_pool refl)) (halting-live _) (exits refl);
}

Reach-exits_example :
    (gone.last.server_set ≡ false) ⊎ ((gone.last.pool ≡ false) × (gone.last.active ≡ 0))
unfolding gone
Reach-exits_example = Reach-exits (inr refl) gone.reach refl

-- The database of the auth service cannot be opened.
abbrev failed : Run auth_process
unfolding auth_process return_run close_deferred
failed = then (then (record { last = _; reach = stay }) refl (listen refl)) refl (opens_not refl)

abbrev draining : Steps store_process stopping.last drained.last
unfolding store_process drained stopping told return_run close_deferred
draining = next (next stay (halting-live _) (finish refl)) (halting-live _) (stop_ends refl refl)

moves_draining : moves store_process draining ≡ 2
unfolding draining
moves_draining = refl

store_closes_early_example :
    (s : Process) × Reach store_process s
    × (s.active ≡ 3)
    × (s.main_pc ≡ waiting)
    × (s.auth_conn ≡ false)
store_closes_early_example = store_closes_early 3

Reach-closed_example : is_open auth told.last ≡ false
unfolding told return_run close_deferred
Reach-closed_example = Reach-closed (inr (inl refl)) told.reach tt auth
