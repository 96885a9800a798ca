-- ===== src/Store/Refusals.antt =====
-- The statuses that the store's SendCoins handler (internal/store/grpc/store_service.go) answers with
-- when a transfer is not allowed.
use Prim.Native.String.{◌++◌}
use merch_store.Base.{
  ℕ, ◌≡◌, ◌≢◌, refl, ◌<◌, true, Option, none, some, [], Result, ok, err, arith, lookup, int_keys,
  ltb,
}
use merch_store.Base.Int.{ℤ, pos, eqb_ℤ_iff}
use merch_store.Base.Words.{show_int}
use merch_store.Errors.{
  domain, wrapped, status, invalid_argument, not_found, failed_precondition, errors_is, error_text,
  is_no_rows,
}
use merch_store.Api.{SendCoinsRequest, SendCoinsResponse}
use merch_store.Database.{Session, tx, within_transaction, begin, commit}
use merch_store.Store.Domain.{
  StoreError, insufficient_balance, start_balance, is_invalid_arguments, is_user_not_found,
  is_insufficient_balance, error_msg, user_not_found,
}
use merch_store.Store.Tables.{Tables, select_balance}
use merch_store.Store.Repositories.{lock_and_get_user_balance, scan_balance, scan_uint32}
use merch_store.Store.Cases.{send_in_transaction, send_to, send_coins}
use merch_store.Store.Interceptors.{Context}
use merch_store.Store.Service.{
  Dependencies, serve_send_coins, retrieve_user_id, user_id_of, send_coins_status,
}
use merch_store.Store.Opening.{Opened, ensure_balance_created-Ended, lookup-Opened}
use merch_store.Store.Transfers.{if_other}
use merch_store.Store.Success.{FitsInt4, int4_fits}
use merch_store.Store.Sending.{open_session, run_tx_done, ensure_done}

module _ (amount : ℕ) (from to : ℤ) (fits : FitsInt4 from) (t : Tables) where
  select_done : (o : Option ℤ) → lookup from t.balances ≡ o → select_balance from t ≡ ok (o, t)
  unfolding select_balance
  select_done o e = rw (int4_fits from fits, e) refl

  pub short_lock :
      (balance : ℕ)
      → lookup from t.balances ≡ some (pos balance)
      → lock_and_get_user_balance tx from (open_session t t) ≡ (ok balance, open_session t t)
  unfolding lock_and_get_user_balance scan_balance scan_uint32
  short_lock balance e = rw (run_tx_done _ t t t _ (select_done (some (pos balance)) e)) refl

  pub missing_lock :
      lookup from t.balances ≡ none
      → lock_and_get_user_balance tx from (open_session t t) ≡ (
        err (domain (user_not_found ("user with id " ++ show_int from ++ " not found"))),
        open_session t t,
      )
  unfolding lock_and_get_user_balance scan_balance is_no_rows
  missing_lock e = rw (run_tx_done _ t t t _ (select_done none e)) refl

  short_transaction :
      (balance : ℕ)
      → lookup from t.balances ≡ some (pos balance)
      → balance < amount
      → send_in_transaction from to amount tx (open_session t t) ≡ (
        err (
            domain
              (insufficient_balance ("user " ++ show_int from ++ " has insufficient balance"))),
        open_session t t,
      )
  unfolding send_in_transaction
  short_transaction balance e lt =
      let short : ltb balance amount ≡ true = ground arith in rw (short_lock balance e, short) refl

  missing_transaction :
      lookup from t.balances ≡ none
      → send_in_transaction from to amount tx (open_session t t) ≡ (
        err (
            wrapped
              ("failed to lock and get balance for user " ++ show_int from)
              (domain (user_not_found ("user with id " ++ show_int from ++ " not found")))),
        open_session t t,
      )
  unfolding send_in_transaction
  missing_transaction e = rw (missing_lock e) refl

-- A transaction whose body fails.
failed_transaction :
    (amount : ℕ) (from to : ℤ) (s : Session Tables) (e : StoreError)
    → send_in_transaction from to amount tx (open_session s.committed s.committed)
      ≡ (err e, open_session s.committed s.committed)
    → (within_transaction (send_in_transaction from to amount) (record s { fates = [] })).0
      ≡ err (wrapped "failed to execute logic within transaction" e)
unfolding within_transaction begin commit
failed_transaction amount from to s e h = rw h refl

module _ (d : Dependencies) (user : ℤ) (req : SendCoinsRequest) (ctx : Context) (s : Session Tables)
    (named : ctx.user_id ≡ some user) where
  -- What the handler answers when nothing goes wrong with the database.
  abbrev pub answer : Result StoreError SendCoinsResponse
  answer = (serve_send_coins d req ctx (record s { fates = [] })).0

  unknown_receiver :
      (x : StoreError)
      → d.fetch_user_id req.to_username ≡ err x
      → answer ≡ err (status not_found "user not found")
  unfolding serve_send_coins retrieve_user_id user_id_of send_coins send_coins_status errors_is
      is_invalid_arguments is_user_not_found
  unknown_receiver x e = rw (named, e) refl

  same_receiver :
      d.fetch_user_id req.to_username ≡ ok user
      → answer ≡ err (status invalid_argument "from_user must differ from to_user")
  unfolding serve_send_coins retrieve_user_id user_id_of send_coins send_to send_coins_status
      errors_is is_invalid_arguments error_text error_msg
  same_receiver e = rw (named, e, (eqb_ℤ_iff user user).1 refl) refl

  module _ (to : ℤ) (fetched : d.fetch_user_id req.to_username ≡ ok to) (differ : to ≢ user)
      (fits_to : FitsInt4 to) (fits : FitsInt4 user) where
    refused_after_opening :
        (e : (u : Tables) → Opened to start_balance s.committed u → StoreError)
        → ((u : Tables) (o : Opened to start_balance s.committed u)
            → send_in_transaction user to req.amount tx (open_session u u)
              ≡ (err (e u o), open_session u u))
        → (u : Tables) × (o : Opened to start_balance s.committed u) × (answer
            ≡ err (
                send_coins_status d.other_text
                  (wrapped "failed to execute logic within transaction" (e u o))))
    unfolding serve_send_coins retrieve_user_id user_id_of send_coins send_to
    refused_after_opening e h =
        let (u, done) = ensure_done to s fits_to in
        let o =
          rw done at (ensure_balance_created-Ended to start_balance (record s { fates = [] })) in
        (
          u,
          o,
          rw
              (
                named,
                fetched,
                if_other to user differ,
                done,
                failed_transaction req.amount user to (record s { committed = u }) (e u o) (h u o),
              )
              refl,
        )

    poor_sender :
        (balance : ℕ)
        → lookup user s.committed.balances ≡ some (pos balance)
        → balance < req.amount
        → answer ≡ err (status failed_precondition "insufficient funds")
    unfolding send_coins_status errors_is is_invalid_arguments is_user_not_found
        is_insufficient_balance
    poor_sender balance held lt =
        let (u, o, e) =
          refused_after_opening
            (λ u o.
              domain
                (insufficient_balance ("user " ++ show_int user ++ " has insufficient balance")))
            (λ u o.
              short_transaction req.amount user to fits u balance
                (ground (arith, lookup-Opened to start_balance s.committed u o user)) lt) in
        e

    missing_sender :
        lookup user s.committed.balances ≡ none → answer ≡ err (status not_found "user not found")
    unfolding send_coins_status errors_is is_invalid_arguments is_user_not_found
    missing_sender absent =
        let (u, o, e) =
          refused_after_opening
            (λ u o.
              wrapped ("failed to lock and get balance for user " ++ show_int user)
                (domain (user_not_found ("user with id " ++ show_int user ++ " not found"))))
            (λ u o. missing_transaction req.amount user to fits u (
              ground
                (arith, lookup-Opened to start_balance s.committed u o user, eqb_ℤ_iff to user))) in
        e

-- Why a transfer is not allowed, and the status that says so.
pub data Refusal (d : Dependencies) (user : ℤ) (req : SendCoinsRequest) (t : Tables)
    : StoreError → Type 0 where
  unknown :
      (x : StoreError)
      → d.fetch_user_id req.to_username ≡ err x
      → Refusal d user req t (status not_found "user not found")
  oneself :
      d.fetch_user_id req.to_username ≡ ok user
      → Refusal d user req t (status invalid_argument "from_user must differ from to_user")
  no_balance :
      (to : ℤ)
      → d.fetch_user_id req.to_username ≡ ok to
      → to ≢ user
      → FitsInt4 to
      → FitsInt4 user
      → lookup user t.balances ≡ none
      → Refusal d user req t (status not_found "user not found")
  too_little :
      (to : ℤ) (balance : ℕ)
      → d.fetch_user_id req.to_username ≡ ok to
      → to ≢ user
      → FitsInt4 to
      → FitsInt4 user
      → lookup user t.balances ≡ some (pos balance)
      → balance < req.amount
      → Refusal d user req t (status failed_precondition "insufficient funds")

-- If the database does not fail, a transfer that is not allowed is answered with the status of the
-- reason: a receiver that the auth service does not give an id for or a sender without a balance
-- with NotFound, a transfer to oneself with InvalidArgument, and a balance below the amount with
-- FailedPrecondition.
pub serve_send_coins-Refusal :
    (d : Dependencies) (user : ℤ) (req : SendCoinsRequest) (ctx : Context) (s : Session Tables)
    → ctx.user_id ≡ some user
    → {e : StoreError} → Refusal d user req s.committed e
    → (serve_send_coins d req ctx (record s { fates = [] })).0 ≡ err e
serve_send_coins-Refusal d user req ctx s named (unknown x h) =
    unknown_receiver d user req ctx s named x h
serve_send_coins-Refusal d user req ctx s named (oneself h) = same_receiver d user req ctx s named h
serve_send_coins-Refusal d user req ctx s named (no_balance to fetched differ fits_to fits absent) =
    missing_sender d user req ctx s named to fetched differ fits_to fits absent
serve_send_coins-Refusal d user req ctx s named
      (too_little to balance fetched differ fits_to fits held lt) =
    poor_sender d user req ctx s named to fetched differ fits_to fits balance held lt
