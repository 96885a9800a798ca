-- ===== src/Store/Concurrent/Invariant/Moves.antt =====
-- One step of one request.
use merch_store.Base.{
  ℕ, ◌≡◌, ◌≢◌, refl, none, some, arith, lookup, lookup-insert, int_keys, Assoc, [], ◌∷◌, Bool-cases,
  subst, same_refl, insert, String, false, ◌⊎◌, inl, inr,
}
use merch_store.Base.Int.{ℤ, pos, ◌+ℤ◌, ◌-ℤ◌, eqb_ℤ, eqb_ℤ_iff}
use merch_store.Store.Domain.{GoodInfo, start_balance}
use merch_store.Store.Tables.{Tables}
use merch_store.Store.Ledger.{IsValid}
use merch_store.Store.Ledger.Preserved.{Opened-IsValid, Sent-IsValid, Bought-IsValid}
use merch_store.Store.Opening.{lookup-Opened}
use merch_store.Store.Buying.{IsOnSale}
use merch_store.Store.Concurrent.{
  Parcel, Pc, idle, sending, sender_locked, debited, credited, sent, buying, buyer_locked, paid,
  bought, locked, Move, ensure, begin_transfer, lock_sender, debit, credit, record_transfer,
  commit_sent, begin_purchase, lock_buyer, pay, record_purchase, commit_bought, rollback,
  commit_transfer, commit_purchase,
}
use merch_store.Store.Concurrent.Commits.{commit_transfer-Sent, commit_purchase-Bought}
use merch_store.Store.Concurrent.Invariant.Defs.{Passed, Holds, Serial}

row-cases :
    (k user : ℤ) (b : ℕ) (rows : Assoc ℤ ℕ)
    → lookup user ((k, b) ∷ rows) ≢ none
    → (k ≡ user) ⊎ (lookup user rows ≢ none)
unfolding lookup
row-cases k user b rows h = elim (Bool-cases (eqb_ℤ k user)) [
  | inl same ↦ inl ((eqb_ℤ_iff k user).0 same)
  | inr other ↦ inr (rw other at h)
]

row_head : (k : ℤ) (b : ℕ) (rows : Assoc ℤ ℕ) → lookup k ((k, b) ∷ rows) ≡ some b
unfolding lookup
row_head k b rows = rw (same_refl k)

row-ne-none :
    (k user : ℤ) (b : ℕ) (rows : Assoc ℤ ℕ) → k ≡ user → lookup user ((k, b) ∷ rows) ≢ none
unfolding lookup
row-ne-none k user b rows same h = ground (arith, eqb_ℤ_iff k user)

row-free :
    (k user : ℤ) (b : ℕ) (rows : Assoc ℤ ℕ)
    → lookup user ((k, b) ∷ rows) ≡ none
    → (eqb_ℤ k user ≡ false) × (lookup user rows ≡ none)
unfolding lookup
row-free k user b rows h = ground arith

second_row :
    (p : Parcel) (b c : ℕ) → p.to ≢ p.from → lookup p.to ((p.from, b) ∷ (p.to, c) ∷ []) ≡ some c
unfolding lookup
second_row p b c differ = ground (arith, eqb_ℤ_iff p.from p.to, same_refl p.to)

module _ (t : Tables) where
  abbrev AreCommitted : Assoc ℤ ℕ → Type 0
  AreCommitted rows =
      (user : ℤ) (b : ℕ) → lookup user rows ≡ some b → lookup user t.balances ≡ some (pos b)

  AreCommitted-nil : AreCommitted []
  unfolding lookup
  AreCommitted-nil user b h = absurd (ground arith)

  AreCommitted-cons :
      (k : ℤ) (b : ℕ) (rows : Assoc ℤ ℕ)
      → lookup k t.balances ≡ some (pos b)
      → AreCommitted rows
      → AreCommitted ((k, b) ∷ rows)
  unfolding lookup
  AreCommitted-cons k b rows e rest user c h = elim (Bool-cases (eqb_ℤ k user)) [
    | inl same ↦
        subst (λ j. lookup j t.balances ≡ some (pos c)) ((eqb_ℤ_iff k user).0 same)
          (ground (arith, same, h, e))
    | inr other ↦ rest user c (rw other at h)
  ]

pub Holds-idle : {t : Tables} → Holds t idle
Holds-idle {t} = record { rows = AreCommitted-nil t; passed = tt }

module _ {t : Tables} {F : ℤ → Type 0} where
  -- A step locks no row but one that is free.
  pub Move_locks :
      {u : Tables} {c d : Pc} (m : Move t F c u d) (user : ℤ)
      → lookup user (locked d) ≢ none
      → (lookup user (locked c) ≢ none) ⊎ F user
  unfolding lookup
  Move_locks (lock_sender {p} {balance} free e) user h = elim (row-cases p.from user balance [] h) [
    | inl same ↦ inr (subst F same free)
    | inr other ↦ absurd (other refl)
  ]
  Move_locks (lock_buyer {o} {balance} free e) user h = elim (row-cases o.user user balance [] h) [
    | inl same ↦ inr (subst F same free)
    | inr other ↦ absurd (other refl)
  ]
  Move_locks (credit {p} {balance} {other} free e room) user h =
      elim (row-cases p.from user balance ((p.to, other) ∷ []) h) [
        | inl same ↦ inl (row-ne-none p.from user balance [] same)
        | inr later ↦ elim (row-cases p.to user other [] later) [
          | inl same ↦ inr (subst F same free)
          | inr none_left ↦ absurd (none_left refl)
        ]
      ]
  Move_locks (debit {p} {balance} {old} test e enough) user h =
      elim (row-cases p.from user old [] h) [
        | inl same ↦ inl (row-ne-none p.from user balance [] same)
        | inr other ↦ absurd (other refl)
      ]
  Move_locks (pay {o} {balance} {old} test e enough) user h =
      elim (row-cases o.user user old [] h) [
        | inl same ↦ inl (row-ne-none o.user user balance [] same)
        | inr other ↦ absurd (other refl)
      ]
  Move_locks record_transfer user h = inl h
  Move_locks record_purchase user h = inl h
  Move_locks (ensure _ _) user h = absurd (h refl)
  Move_locks (begin_transfer _) user h = absurd (h refl)
  Move_locks (begin_purchase _) user h = absurd (h refl)
  Move_locks commit_sent user h = absurd (h refl)
  Move_locks commit_bought user h = absurd (h refl)
  Move_locks rollback user h = absurd (h refl)

  pub Move-Serial :
      {u : Tables} {c d : Pc} (m : Move t F c u d) → IsValid t → Holds t c → Serial t u
  unfolding lookup
  Move-Serial (ensure user o) v h = inr (inl (user, o))
  Move-Serial (commit_sent {p} {balance} {other}) v h =
      let (differ, covers, room) = h.passed in
      inr (
        inr (
          inl (
            p,
            differ,
            commit_transfer-Sent p balance other t v.balances differ
                (h.rows p.from balance (row_head p.from balance ((p.to, other) ∷ [])))
                (h.rows p.to other (second_row p balance other differ)) covers room,
          )))
  Move-Serial (commit_bought {o} {balance}) v h =
      let (on_sale, covers) = h.passed in
      inr (
        inr (
          inr (
            o,
            on_sale,
            commit_purchase-Bought o balance t v.balances
                (h.rows o.user balance (row_head o.user balance [])) covers,
          )))
  Move-Serial _ v h = inl refl

  -- A row that the request has not locked stays as it is.
  pub Move_keeps :
      {u : Tables} {c d : Pc} (m : Move t F c u d) (user b : ℤ)
      → lookup user (locked c) ≡ none
      → lookup user t.balances ≡ some b
      → lookup user u.balances ≡ some b
  unfolding commit_transfer commit_purchase
  Move_keeps (ensure k {u} o) user b free h =
      ground (arith, lookup-Opened k start_balance t u o user)
  Move_keeps (commit_sent {p} {balance} {other}) user b free h =
      let (not_from, later) = row-free p.from user balance ((p.to, other) ∷ []) free in
      let (not_to, _) = row-free p.to user other [] later in
      rw
        (
          lookup-insert p.to user (pos other +ℤ pos p.amount)
              (insert p.from (pos balance -ℤ pos p.amount) t.balances),
          not_to,
          lookup-insert p.from user (pos balance -ℤ pos p.amount) t.balances,
          not_from,
        )
        h
  Move_keeps (commit_bought {o} {balance}) user b free h =
      rw
        (
          lookup-insert o.user user (pos balance -ℤ pos o.good.price) t.balances,
          (row-free o.user user balance [] free).0,
        )
        h
  Move_keeps _ user b free h = h

  pub Move_goods : {u : Tables} {c d : Pc} (m : Move t F c u d) → u.goods ≡ t.goods
  unfolding commit_transfer commit_purchase
  Move_goods (ensure k {u} o) = ground (arith, o)
  Move_goods _ = refl

  pub Move-Holds : {u : Tables} {c d : Pc} (m : Move t F c u d) → Holds t c → Holds u d
  Move-Holds (ensure _ _) h = Holds-idle
  Move-Holds (begin_transfer differ) h = record { rows = AreCommitted-nil t; passed = differ }
  Move-Holds (lock_sender free e) h = record {
    rows = AreCommitted-cons t _ _ [] e (AreCommitted-nil t);
    passed = h.passed;
  }
  Move-Holds (debit test e enough) h = record {
    rows = AreCommitted-cons t _ _ [] e (AreCommitted-nil t);
    passed = (h.passed, enough);
  }
  Move-Holds (credit {p} {balance} {other} free e room) h = record {
    rows =
        AreCommitted-cons t p.from balance ((p.to, other) ∷ [])
          (h.rows p.from balance (row_head p.from balance []))
          (AreCommitted-cons t p.to other [] e (AreCommitted-nil t));
    passed = (h.passed.0, h.passed.1, room);
  }
  Move-Holds record_transfer h = record { rows = h.rows; passed = h.passed }
  Move-Holds commit_sent h = Holds-idle
  Move-Holds (begin_purchase on_sale) h = record { rows = AreCommitted-nil t; passed = on_sale }
  Move-Holds (lock_buyer free e) h = record {
    rows = AreCommitted-cons t _ _ [] e (AreCommitted-nil t);
    passed = h.passed;
  }
  Move-Holds (pay test e enough) h = record {
    rows = AreCommitted-cons t _ _ [] e (AreCommitted-nil t);
    passed = (h.passed, enough);
  }
  Move-Holds record_purchase h = record { rows = h.rows; passed = h.passed }
  Move-Holds commit_bought h = Holds-idle
  Move-Holds rollback h = Holds-idle

pub Serial-IsValid : (t u : Tables) → Serial t u → IsValid t → IsValid u
Serial-IsValid t u (inl same) v = rw same v
Serial-IsValid t u (inr (inl (user, o))) v = Opened-IsValid user t u o v
Serial-IsValid t u (inr (inr (inl (p, differ, s)))) v =
    Sent-IsValid p.amount p.from p.to t u differ s v
Serial-IsValid t u (inr (inr (inr (o, on_sale, b)))) v =
    Bought-IsValid o.user o.name o.good t u on_sale b v

IsOnSale-later :
    (t u : Tables)
    → u.goods ≡ t.goods
    → (name : String) (good : GoodInfo) → IsOnSale name good t
    → IsOnSale name good u
IsOnSale-later t u same name good h = record {
  row = h.row;
  found = rw same h.found;
  id = h.id;
  price = h.price;
}

Passed-later : (t u : Tables) → u.goods ≡ t.goods → (c : Pc) → Passed t c → Passed u c
Passed-later t u same (buying o) h = IsOnSale-later t u same o.name o.good h
Passed-later t u same (buyer_locked o b) h = IsOnSale-later t u same o.name o.good h
Passed-later t u same (paid o b) h = (IsOnSale-later t u same o.name o.good h.0, h.1)
Passed-later t u same (bought o b) h = (IsOnSale-later t u same o.name o.good h.0, h.1)
Passed-later t u same idle h = h
Passed-later t u same (sending p) h = h
Passed-later t u same (sender_locked p b) h = h
Passed-later t u same (debited p b) h = h
Passed-later t u same (credited p b c) h = h
Passed-later t u same (sent p b c) h = h

-- What a request holds stays true while another takes a step.
pub Holds-other :
    {t u : Tables} {F : ℤ → Type 0} {c d : Pc} (m : Move t F c u d) (e : Pc)
    → ((user : ℤ) → lookup user (locked e) ≢ none → lookup user (locked c) ≡ none)
    → Holds t e
    → Holds u e
Holds-other {t} {u} m e apart h = record {
  rows = λ user b found.
      Move_keeps m user (pos b) (apart user (ground (arith, found))) (h.rows user b found);
  passed = Passed-later t u (Move_goods m) e h.passed;
}
