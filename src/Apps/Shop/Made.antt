-- ===== src/Apps/Shop/Made.antt =====
-- Transfers over HTTP that the tables allow.
use merch_store.Base.{
  ℕ, ◌≤◌, ◌≡◌, ◌≢◌, lookup, int_keys, sym, subst, ap, string_keys, String, some, [], ok,
}
use merch_store.Base.Int.{ℤ, pos, ◌+ℤ◌, ◌≤ℤ◌}
use merch_store.Jwt.{Claims, parse_token}
use merch_store.Database.{Session}
use merch_store.Store.Domain.{start_balance}
use merch_store.Store.Tables.{Tables}
use merch_store.Store.Repositories.{ensure_balance_created}
use merch_store.Store.AuthAdapter.{fetch_user_id}
use merch_store.Database.Statement.{max_int4}
use merch_store.Store.Updates.{AreBalances}
use merch_store.Store.Success.{FitsInt4}
use merch_store.Store.Sending.{balance_or_start, send_coins_succeeds}
use merch_store.Store.Transfers
use merch_store.Store.Cases.{send_coins}
use merch_store.Gateway.Domain.{empty}
use merch_store.Gateway.Handlers.{SendCoinRequestBody, status_ok, bind_send_coin}
use merch_store.Gateway.Bearer.{HasNoSpace}
use merch_store.Gateway.Routes.{transfer}
use merch_store.Apps.Shop.{Shop, shop_answer}
use merch_store.Apps.Shop.Served.{shop_sent, still_quiet}

module _ (shop : Shop) (token : String) (one_word : HasNoSpace token) (claims : Claims)
    (parsed : parse_token shop.library shop.now shop.cfg.jwt_secret token ≡ ok claims)
    (s s' : Session Tables) (quiet : s.fates ≡ [])
    (ensured : ensure_balance_created claims.user_id start_balance s ≡ (ok tt, s')) where
  -- A transfer over HTTP, with a token that the store accepts and a body that binds, is made and
  -- answered with 200, if the receiver is known and is not the user of the token, the user's balance
  -- covers the amount, the receiver's has room for it, the numbers fit their columns, the schema
  -- allows the balances, and the database does not fail.
  pub http_transfer_made :
      (json : String) (body : SendCoinRequestBody)
      → bind_send_coin shop.decode_send_coin json ≡ some body
      → (to : ℤ) (balance : ℕ) → AreBalances s'.committed.balances
      → fetch_user_id shop.client body.to_username ≡ ok to
      → to ≢ claims.user_id
      → FitsInt4 claims.user_id
      → FitsInt4 to
      → FitsInt4 (pos body.amount)
      → lookup claims.user_id s'.committed.balances ≡ some (pos balance)
      → body.amount ≤ balance
      → balance_or_start (lookup to s'.committed.balances) +ℤ pos body.amount ≤ℤ pos max_int4
      → let (r, u) = shop_answer shop token (transfer json) s in
        (r ≡ record { status = status_ok; body = empty })
        × Transfers.Transfer
            (fetch_user_id shop.client)
            claims.user_id
            body.to_username
            body.amount
            s'.committed
            u.committed
  http_transfer_made json body bound to balance v fetched differ fits_from fits_to fits_amount held
        covers room =
      let (done, moved) =
        subst
          (λ q.
            let (r, u) =
              send_coins (fetch_user_id shop.client) claims.user_id body.to_username body.amount
                q in
            (r ≡ ok tt)
            × Transfers.Transfer (fetch_user_id shop.client) claims.user_id body.to_username
                body.amount s'.committed u.committed)
          (still_quiet shop token one_word claims parsed s s' quiet ensured)
          (send_coins_succeeds body.amount claims.user_id to balance s' v differ fits_from fits_to
            fits_amount held covers room (fetch_user_id shop.client) body.to_username fetched) in
      let e = shop_sent shop token one_word claims parsed s s' quiet ensured json body bound done in
      (
        ap (λ p. p.0) e,
        subst
            (λ p.
              Transfers.Transfer (fetch_user_id shop.client) claims.user_id body.to_username
                body.amount s'.committed p.1.committed)
            (sym e) moved,
      )
