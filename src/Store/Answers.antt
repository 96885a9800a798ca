-- ===== src/Store/Answers.antt =====
-- What the readers of internal/store/infrastructure/postgres/user_info_repository.go answer.
use merch_store.Base.{
  ℕ, ◌≡◌, refl, sym, ◌∙◌, String, Option, none, some, List, [], Result, ok, err, arith, Assoc,
  lookup, int_keys, ◌⊎◌, inl, inr, take,
}
use merch_store.Base.Int.{ℤ, pos, negsuc, eqb_ℤ}
use merch_store.Errors.{SqlError}
use merch_store.Database.{
  Session, Fate, done, refused, lost, query, pool, run, continue, pure, settle, raise_sql,
  next_fate, later_fates,
}
use merch_store.Database.Statement.{Sql}
use merch_store.Store.Domain.{DomainError, StoreError, TransferHistory}
use merch_store.Store.Tables.{
  Tables, TransactionRow, select_balance, select_purchases, select_sent, select_received,
  group_count, purchased_names, transactions_where,
}
use merch_store.Store.Updates.{int4-cases}
use merch_store.Store.Repositories.{
  scan_balance, scan_uint32, fetch_user_balance, collect_goods, delivered, fetch_user_purchases,
  opened, open_rows, process_rows, fetch_user_coin_transfers,
}
use merch_store.Store.Reading.{
  Reads, IsSelect, Reads-bind, Reads-lift, Reads-pure, Reads-weaken, Reads-rescue, Reads-query,
}

-- The groups of a user's purchases, by the name of the good.
abbrev pub purchase_groups : ℤ → Tables → Assoc String ℕ
purchase_groups user t = group_count (purchased_names user t.goods t.purchases)

abbrev pub sent_rows : ℤ → Tables → List TransactionRow
sent_rows user t = transactions_where (λ r. eqb_ℤ r.from_user_id user) t.transactions

abbrev pub received_rows : ℤ → Tables → List TransactionRow
received_rows user t = transactions_where (λ r. eqb_ℤ r.to_user_id user) t.transactions

module _ (user : ℤ) where
  select_balance-IsSelect : IsSelect (select_balance user) (λ t o. lookup user t.balances ≡ o)
  unfolding select_balance
  select_balance-IsSelect t o u h = ground (arith, int4-cases user)

  select_purchases-IsSelect :
      IsSelect (select_purchases user) (λ t rows. rows ≡ purchase_groups user t)
  unfolding select_purchases
  select_purchases-IsSelect t o u h = ground (arith, int4-cases user)

  select_sent-IsSelect : IsSelect (select_sent user) (λ t rows. rows ≡ sent_rows user t)
  unfolding select_sent
  select_sent-IsSelect t o u h = ground (arith, int4-cases user)

  select_received-IsSelect : IsSelect (select_received user) (λ t rows. rows ≡ received_rows user t)
  unfolding select_received
  select_received-IsSelect t o u h = ground (arith, int4-cases user)

  scan_balance_ok : (o : Option ℤ) (n : ℕ) → scan_balance o ≡ ok n → o ≡ some (pos n)
  unfolding scan_balance scan_uint32
  scan_balance_ok none n h = cc
  scan_balance_ok (some (pos m)) n h = ground arith
  scan_balance_ok (some (negsuc m)) n h = cc

  pub fetch_user_balance-Reads :
      Reads (fetch_user_balance user) (λ t n. lookup user t.balances ≡ some (pos n))
  unfolding fetch_user_balance
  fetch_user_balance-Reads = Reads-rescue _ _ (
      Reads-weaken _
        (Reads-bind _ _ (Reads-query _ select_balance-IsSelect) (λ o. Reads-lift (scan_balance o)))
        (λ t n (o, found, scanned). found ∙ scan_balance_ok o n scanned))

  -- The goods of a complete answer, or of one that broke off after `received` groups.
  abbrev pub Goods : ℕ → Tables → Assoc String ℕ → Type 0
  Goods received t goods =
      (goods ≡ collect_goods [] (purchase_groups user t))
      ⊎ (goods ≡ collect_goods [] (take received (purchase_groups user t)))

  delivered_goods :
      (received : ℕ) (fate : Fate) (s : Session Tables)
      (o : Result SqlError (Assoc String ℕ × Tables))
      → select_purchases user s.committed ≡ o
      → let (r, s') = settle fate o s in
        let (r', s'') =
          continue
            (λ rows. pure (collect_goods [] rows))
            (delivered received fate o (raise_sql {D = DomainError} r))
            s' in
        (s''.committed ≡ s.committed)
        × ((goods : Assoc String ℕ) → r' ≡ ok goods → Goods received s.committed goods)
  delivered_goods received refused s o e = (refl, λ goods h. cc)
  delivered_goods received done s (ok (rows, u)) e =
      let (same, is_rows) = select_purchases-IsSelect s.committed rows u e in
      (same, λ goods h. inl (ground (arith, is_rows, h)))
  delivered_goods received done s (err x) e = (refl, λ goods h. cc)
  delivered_goods received lost s (ok (rows, u)) e =
      let (same, is_rows) = select_purchases-IsSelect s.committed rows u e in
      (same, λ goods h. inr (ground (arith, is_rows, h)))
  delivered_goods received lost s (err x) e = (refl, λ goods h. cc)

  pub fetch_user_purchases-Reads :
      (received : ℕ) → Reads (fetch_user_purchases received user) (Goods received)
  unfolding fetch_user_purchases run
  fetch_user_purchases-Reads received = record {
    keeps = λ s.
        (delivered_goods received (next_fate s.fates) (record s { fates = later_fates s.fates })
          (select_purchases user s.committed) refl).0;
    gives = λ s.
        (delivered_goods received (next_fate s.fates) (record s { fates = later_fates s.fates })
          (select_purchases user s.committed) refl).1;
  }

  opened_same :
      {A : Type 0} (fate : Fate) (r o : Result StoreError A) → opened fate r ≡ ok o → o ≡ r
  opened_same lost r o h = ground arith
  opened_same done (ok a) o h = ground arith
  opened_same done (err e) o h = cc
  opened_same refused (ok a) o h = ground arith
  opened_same refused (err e) o h = cc

  open_rows-Reads :
      {A : Type 0} (q : Sql Tables A) {P : Tables → A → Type 0}
      → IsSelect q P
      → Reads (open_rows q) (λ t o. (a : A) → o ≡ ok a → P t a)
  open_rows-Reads q sel = record {
    keeps = (Reads-query q sel).keeps;
    gives = λ s o h a e.
        (Reads-query q sel).gives s a
          (sym (opened_same (next_fate s.fates) (query pool q s).0 o h) ∙ e);
  }

  -- The transfers in both directions, in the order of their rows.
  abbrev pub history : Tables → TransferHistory
  history t = record {
    incoming_transfers = process_rows (λ r. r.from_user_id) (received_rows user t);
    outcoming_transfers = process_rows (λ r. r.to_user_id) (sent_rows user t);
  }

  pub fetch_user_coin_transfers-Reads :
      Reads (fetch_user_coin_transfers user) (λ t h. h ≡ history t)
  unfolding fetch_user_coin_transfers
  fetch_user_coin_transfers-Reads =
      Reads-weaken _
        (Reads-bind _ _ (open_rows-Reads _ select_sent-IsSelect) (λ sent.
          Reads-bind _ _ (open_rows-Reads _ select_received-IsSelect) (λ received.
            Reads-bind _ _ (Reads-lift sent)
              (λ sent_rs. Reads-bind _ _ (Reads-lift received) (λ received_rs. Reads-pure _)))))
        (λ t h (sent, is_sent, (received, is_received, (rs, e, (rs', e', is_h)))).
          is_h ∙ cc (is_sent rs e, is_received rs' e'))
