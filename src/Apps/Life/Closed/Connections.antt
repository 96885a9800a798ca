-- ===== src/Apps/Life/Closed/Connections.antt =====
-- Which connections may be open while `Run` is at a statement, and what its deferred calls close.
use merch_store.Base.{
  ◌≡◌, refl, subst, Bool, true, false, List, [], ◌∷◌, arith, ◌⊎◌, inl, inr, Result,
}
use merch_store.Apps.Life.{
  RunError, Conn, auth, store, Stmt, dial, defer_close, RunPc, listening, running, returned, over,
  Process, set_conn, close_deferred, return_run, auth_process, store_process, gateway_process,
}
use merch_store.Apps.Life.Stops.{IsDone}

abbrev conn_of : Conn → (auth_conn store_conn : Bool) → Bool
conn_of auth a b = a
conn_of store a b = b

abbrev pub is_open : Conn → Process → Bool
is_open c s = conn_of c s.auth_conn s.store_conn

abbrev pub In : Conn → List Conn → Type 0
In c [] = ⊥
In c (d ∷ ds) = (c ≡ d) ⊎ In c ds

-- The statements begin with the deferred call for `c`.
abbrev Defers : Conn → List Stmt → Type 0
Defers c (defer_close d ∷ _) = c ≡ d
Defers c _ = ⊥

-- Each connection that is dialled is deferred in the next statement.
abbrev pub Paired : List Stmt → Type 0
Paired [] = Unit
Paired (dial c ∷ rest) = Defers c rest × Paired rest
Paired (_ ∷ rest) = Paired rest

pub auth-Paired : Paired auth_process.run
unfolding auth_process
auth-Paired = tt

pub store-Paired : Paired store_process.run
unfolding store_process
store-Paired = (refl, tt)

pub gateway-Paired : Paired gateway_process.run
unfolding gateway_process
gateway-Paired = (refl, (refl, tt))

abbrev AtRun : RunPc → List Conn → Type 0
AtRun (running rest) ds = Paired rest
AtRun _ ds = ds ≡ []

abbrev About : Conn → RunPc → Type 0
About c (running rest) = Defers c rest
About c _ = ⊥

pub record Tidy (s : Process) : Type 0 where
  pub at : AtRun s.run_pc s.deferred
  pub kept : (c : Conn) → is_open c s ≡ true → In c s.deferred ⊎ About c s.run_pc

set-is_open :
    (c d : Conn) (b : Bool) (s : Process)
    → is_open d (set_conn c b s) ≡ true
    → ((c ≡ d) × (b ≡ true)) ⊎ (is_open d s ≡ true)
set-is_open auth auth b s h = inl (refl, h)
set-is_open store store b s h = inl (refl, h)
set-is_open auth store b s h = inr h
set-is_open store auth b s h = inr h

was_closed : (c d : Conn) (s : Process) → c ≡ d → is_open c (set_conn d false s) ≡ true → ⊥
was_closed auth auth s e h = ground arith
was_closed store store s e h = ground arith
was_closed auth store s e h = ground arith
was_closed store auth s e h = ground arith

-- What the deferred calls leave open is none of their connections.
close_deferred-is_open :
    (cs : List Conn) (c : Conn) (s : Process)
    → is_open c (close_deferred cs s) ≡ true
    → (is_open c s ≡ true) × (In c cs → ⊥)
unfolding close_deferred
close_deferred-is_open [] c s h = (h, λ e. e)
close_deferred-is_open (d ∷ ds) c s h =
    let (before, apart) = close_deferred-is_open ds c (set_conn d false s) h in
    elim (set-is_open d c false s before) [
      | inl (_, e) ↦ absurd (ground arith)
      | inr still ↦
          (still, λ i. elim i [ inl same ↦ was_closed c d s same before | inr later ↦ apart later ])
    ]

set_conn-deferred : (c : Conn) (b : Bool) (s : Process) → (set_conn c b s).deferred ≡ s.deferred
set_conn-deferred auth b s = refl
set_conn-deferred store b s = refl

set_conn-run_pc : (c : Conn) (b : Bool) (s : Process) → (set_conn c b s).run_pc ≡ s.run_pc
set_conn-run_pc auth b s = refl
set_conn-run_pc store b s = refl

module _ (s : Process) (t : Tidy s) (rest : List Stmt) (e : s.run_pc ≡ running rest) where
  pub paired : Paired rest
  paired = subst (λ r. AtRun r s.deferred) e t.at

  pub about : (c : Conn) → is_open c s ≡ true → In c s.deferred ⊎ Defers c rest
  about c h = elim (t.kept c h) [ inl i ↦ inl i | inr d ↦ inr (subst (About c) e d) ]

  module _ (plain : (c : Conn) → Defers c rest → ⊥) where
    pub all_deferred : (c : Conn) → is_open c s ≡ true → In c s.deferred
    all_deferred c h = elim (about c h) [ inl i ↦ i | inr d ↦ absurd (plain c d) ]

    pub returned-Tidy : (r : Result RunError (Unit {0})) → Tidy (return_run r s)
    unfolding return_run
    returned-Tidy r = record {
      at = refl;
      kept = λ c h.
          let (before, apart) = close_deferred-is_open s.deferred c s h in
          absurd (apart (all_deferred c before));
    }

module _ (s : Process) (t : Tidy s) (c : Conn) (rest : List Stmt)
    (e : s.run_pc ≡ running (dial c ∷ rest)) where
  pub dialled-Tidy : Tidy (set_conn c true (record s { run_pc = running rest }))
  dialled-Tidy =
      let s' = record s { run_pc = running rest } in
      let (now, later) = paired s t (dial c ∷ rest) e in
      record {
        at = rw (set_conn-run_pc c true s') later;
        kept = λ d h.
            rw (set_conn-run_pc c true s', set_conn-deferred c true s')
              (elim (set-is_open c d true s' h) [
                | inl (same, _) ↦ inr (subst (λ k. Defers k rest) same now)
                | inr before ↦ inl (all_deferred s t (dial c ∷ rest) e (λ _ i. i) d before)
              ]);
      }

-- Outside of its statements `Run` has no connection open.
module _ (s : Process) (t : Tidy s) where
  none_left :
      (r : RunPc)
      → s.run_pc ≡ r
      → (AtRun r s.deferred → s.deferred ≡ [])
      → ((c : Conn) → About c r → ⊥)
      → (s.deferred ≡ []) × ((c : Conn) → is_open c s ≡ true → ⊥)
  none_left r e empty idle =
      let nothing = empty (subst (λ q. AtRun q s.deferred) e t.at) in
      (
        nothing,
        λ c h. elim (t.kept c h) [
          | inl i ↦ subst (In c) nothing i
          | inr d ↦ idle c (subst (About c) e d)
        ],
      )

  pub listening_closed :
      s.run_pc ≡ listening → (s.deferred ≡ []) × ((c : Conn) → is_open c s ≡ true → ⊥)
  listening_closed e = none_left listening e (λ h. h) (λ c d. d)

  pub done_closed :
      (r : RunPc)
      → s.run_pc ≡ r
      → IsDone r
      → (s.deferred ≡ []) × ((c : Conn) → is_open c s ≡ true → ⊥)
  done_closed (returned r) e d = none_left (returned r) e (λ h. h) (λ c d. d)
  done_closed over e d = none_left over e (λ h. h) (λ c d. d)
  done_closed listening e d = absurd d
  done_closed (running rest) e d = absurd d
