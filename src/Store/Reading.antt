-- ===== src/Store/Reading.antt =====
-- Code of the store that only reads: rules for the readers of
-- internal/store/infrastructure/postgres/user_info_repository.go.
use merch_store.Base.{◌≡◌, refl, ◌∙◌, Result, ok, err, arith, int_keys, subst}
use merch_store.Errors.{SqlError}
use merch_store.Database.{
  Session, Fate, done, refused, lost, query, pool, run, continue, pure, lift, ◌>>=◌, rescue_with,
  rescue, settle, raise_sql, next_fate, later_fates,
}
use merch_store.Database.Statement.{Sql}
use merch_store.Store.Domain.{DomainError, StoreError}
use merch_store.Store.Tables.{Tables}
use merch_store.Store.Repositories.{StoreAction}

-- `m` leaves the committed tables alone, and what it returns at `t` has the property `P t`.
pub record Reads {A : Type 0} (m : StoreAction A) (P : Tables → A → Type 0) : Type 0 where
  pub keeps : (s : Session Tables) → (m s).1.committed ≡ s.committed
  pub gives : (s : Session Tables) (a : A) → (m s).0 ≡ ok a → P s.committed a

module _ {A B : Type 0} where
  abbrev pub And : (Tables → A → Type 0) → (A → Tables → B → Type 0) → Tables → B → Type 0
  And P Q t b = (a : A) × P t a × Q a t b

  continue_gives :
      (f : A → StoreAction B) (P : Tables → A → Type 0) {Q : A → Tables → B → Type 0}
      → ((a : A) → Reads (f a) (Q a))
      → (t : Tables) (r : Result StoreError A) (s : Session Tables) → s.committed ≡ t
      → ((a : A) → r ≡ ok a → P t a)
      → ((continue f r s).1.committed ≡ t) × ((b : B) → (continue f r s).0 ≡ ok b → And P Q t b)
  continue_gives f P {Q} reads t (ok a) s same given = (
    (reads a).keeps s ∙ same,
    λ b h. (a, given a refl, subst (λ t'. Q a t' b) same ((reads a).gives s b h)),
  )
  continue_gives f P reads t (err e) s same given = (same, λ b h. cc)

  pub Reads-bind :
      (m : StoreAction A) (f : A → StoreAction B) {P : Tables → A → Type 0}
      {Q : A → Tables → B → Type 0}
      → Reads m P
      → ((a : A) → Reads (f a) (Q a))
      → Reads (m >>= f) (And P Q)
  Reads-bind m f {P} i j = record {
    keeps =
        λ s. let (r, s') = m s in (continue_gives f P j s.committed r s' (i.keeps s) (i.gives s)).0;
    gives =
        λ s. let (r, s') = m s in (continue_gives f P j s.committed r s' (i.keeps s) (i.gives s)).1;
  }

module _ {A : Type 0} where
  pub Reads-lift : (r : Result StoreError A) → Reads (lift r) (λ t a. r ≡ ok a)
  Reads-lift r = record { keeps = λ s. refl; gives = λ s a h. h }

  pub Reads-pure : (b : A) → Reads (pure b) (λ t a. a ≡ b)
  Reads-pure b = record { keeps = λ s. refl; gives = λ s a h. ground arith }

  pub Reads-weaken :
      (m : StoreAction A) {P Q : Tables → A → Type 0}
      → Reads m P
      → ((t : Tables) (a : A) → P t a → Q t a)
      → Reads m Q
  Reads-weaken m i f = record { keeps = i.keeps; gives = λ s a h. f s.committed a (i.gives s a h) }

  rescue_gives :
      (g : StoreError → StoreError) (r : Result StoreError A) {a : A}
      → rescue_with (λ e. err (g e)) r ≡ ok a
      → r ≡ ok a
  rescue_gives g (ok a) h = h
  rescue_gives g (err e) h = cc

  pub Reads-rescue :
      (g : StoreError → StoreError) (m : StoreAction A) {P : Tables → A → Type 0}
      → Reads m P
      → Reads (rescue (λ e. err (g e)) m) P
  Reads-rescue g m i = record {
    keeps = i.keeps;
    gives = λ s a h. i.gives s a (rescue_gives g (m s).0 h);
  }

  -- A SELECT leaves the tables as they are.
  abbrev pub IsSelect : Sql Tables A → (Tables → A → Type 0) → Type 0
  IsSelect q P = (t : Tables) (a : A) (u : Tables) → q t ≡ ok (a, u) → (u ≡ t) × P t a

  settle_gives :
      (q : Sql Tables A) {P : Tables → A → Type 0}
      → IsSelect q P
      → (fate : Fate) (s : Session Tables) (o : Result SqlError (A × Tables)) → q s.committed ≡ o
      → ((settle fate o s).1.committed ≡ s.committed)
        × ((a : A) → (settle fate o s).0 ≡ ok a → P s.committed a)
  settle_gives q sel refused s o e = (refl, λ a h. cc)
  settle_gives q sel lost s (ok (b, u)) e = ((sel s.committed b u e).0, λ a h. cc)
  settle_gives q sel lost s (err x) e = (refl, λ a h. cc)
  settle_gives q {P} sel done s (ok (b, u)) e =
      let (same, p) = sel s.committed b u e in
      (same, λ a h. subst (λ c. P s.committed c) (ground arith) p)
  settle_gives q sel done s (err x) e = (refl, λ a h. cc)

  raise_sql_ok : (r : Result SqlError A) {a : A} → raise_sql {D = DomainError} r ≡ ok a → r ≡ ok a
  raise_sql_ok (ok a) h = ground arith
  raise_sql_ok (err e) h = cc

  pub Reads-query :
      (q : Sql Tables A) {P : Tables → A → Type 0} → IsSelect q P → Reads (query pool q) P
  unfolding run
  Reads-query q sel = record {
    keeps = λ s.
        (settle_gives q sel (next_fate s.fates) (record s { fates = later_fates s.fates })
          (q s.committed) refl).0;
    gives = λ s a h.
        (settle_gives q sel (next_fate s.fates) (record s { fates = later_fates s.fates })
            (q s.committed) refl).1
          a (raise_sql_ok _ h);
  }
