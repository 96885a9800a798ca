-- ===== src/Apps/Shop/Refused.antt =====
-- Requests over HTTP that the tables do not allow.
use merch_store.Base.{◌≡◌, int_keys, refl, subst, ◌∙◌, string_keys, String, some, [], ok, err}
use merch_store.Errors.{Code, status}
use merch_store.Jwt.{Claims, parse_token}
use merch_store.Api.{SendCoinsRequest}
use merch_store.Database.{Session}
use merch_store.Store.Domain.{start_balance}
use merch_store.Store.Tables.{Tables}
use merch_store.Store.Repositories.{ensure_balance_created}
use merch_store.Store.Service.{serve_send_coins, serve_buy_item}
use merch_store.Store.Refusals.{
  Refusal, unknown, oneself, no_balance, too_little, serve_send_coins-Refusal,
}
use merch_store.Store.RefusedPurchases.{
  RefusedPurchase, no_such_good, no_buyer, too_dear, serve_buy_item-RefusedPurchase,
}
use merch_store.Gateway.Handlers.{
  SendCoinRequestBody, failed, status_bad_request, bind_send_coin, handle_grpc_error, grpc_response,
}
use merch_store.Gateway.Bearer.{HasNoSpace}
use merch_store.Gateway.Routes.{transfer, purchase}
use merch_store.Apps.Shop.{Shop, shop_dependencies, shop_answer, as_user}
use merch_store.Apps.Shop.Served.{shop_transfer, shop_purchase, still_quiet}

module _ (shop : Shop) (token : String) (one_word : HasNoSpace token) (claims : Claims)
    (parsed : parse_token shop.library shop.now shop.cfg.jwt_secret token ≡ ok claims)
    (s s' : Session Tables) (quiet : s.fates ≡ [])
    (ensured : ensure_balance_created claims.user_id start_balance s ≡ (ok tt, s'))
    (keeps_status : (c : Code) (m : String) → shop.from_error (status c m) ≡ some (c, m)) where
  transfer_status :
      (req : SendCoinsRequest) (code : Code) (message : String)
      → Refusal (shop_dependencies shop) claims.user_id req s'.committed (status code message)
      → grpc_response (some (code, message)) ≡ failed status_bad_request message
  unfolding grpc_response
  transfer_status req code message (unknown x h) = refl
  transfer_status req code message (oneself h) = refl
  transfer_status req code message (no_balance to fetched differ fits_to fits absent) = refl
  transfer_status req code message (too_little to balance fetched differ fits_to fits held lt) =
      refl

  purchase_status :
      (item : String) (code : Code) (message : String)
      → RefusedPurchase claims.user_id item s'.committed (status code message)
      → grpc_response (some (code, message)) ≡ failed status_bad_request message
  unfolding grpc_response
  purchase_status item code message (no_such_good h) = refl
  purchase_status item code message (no_buyer row price found costs fits absent) = refl
  purchase_status item code message (too_dear row price balance found costs fits held lt) = refl

  answered :
      (code : Code) (message : String)
      → grpc_response (some (code, message)) ≡ failed status_bad_request message
      → handle_grpc_error shop.from_error (status code message) ≡ failed status_bad_request message
  unfolding handle_grpc_error
  answered code message h = rw (keeps_status code message) h

  -- A transfer over HTTP, with a token that the store accepts and a body that binds, that the store's
  -- tables do not allow is answered with 400 and the reason, if the database does not fail and
  -- status.FromError gives back the statuses that the store's server sends.
  pub http_transfer_refused :
      (json : String) (body : SendCoinRequestBody)
      → bind_send_coin shop.decode_send_coin json ≡ some body
      → {code : Code} {message : String}
      → Refusal
          (shop_dependencies shop)
          claims.user_id
          (record { to_username = body.to_username; amount = body.amount })
          s'.committed
          (status code message)
      → (shop_answer shop token (transfer json) s).0 ≡ failed status_bad_request message
  http_transfer_refused json body bound {code} {message} refusal =
      let d = shop_dependencies shop in
      let req : SendCoinsRequest = record {
        to_username = body.to_username;
        amount = body.amount;
      } in
      shop_transfer shop token one_word claims parsed s s' quiet ensured json body bound (
        subst (λ q. (serve_send_coins d req (as_user token claims) q).0 ≡ err (status code message))
          (still_quiet shop token one_word claims parsed s s' quiet ensured)
          (serve_send_coins-Refusal d claims.user_id req (as_user token claims) s' refl refusal))
      ∙ answered code message (transfer_status req code message refusal)

  -- A purchase over HTTP, with a token that the store accepts, that the store's tables do not allow
  -- is answered with 400 and the reason, if the database does not fail and status.FromError gives
  -- back the statuses that the store's server sends.
  pub http_purchase_refused :
      (item : String) {code : Code} {message : String}
      → RefusedPurchase claims.user_id item s'.committed (status code message)
      → (shop_answer shop token (purchase item) s).0 ≡ failed status_bad_request message
  http_purchase_refused item {code} {message} refusal =
      let d = shop_dependencies shop in
      shop_purchase shop token one_word claims parsed s s' quiet ensured item (
        subst
          (λ q.
            (serve_buy_item d (record { item_name = item }) (as_user token claims) q).0
            ≡ err (status code message))
          (still_quiet shop token one_word claims parsed s s' quiet ensured)
          (serve_buy_item-RefusedPurchase d claims.user_id (record { item_name = item })
            (as_user token claims) s' refl refusal))
      ∙ answered code message (purchase_status item code message refusal)
