-- ===== src/Apps/Shop/Served.antt =====
-- A request over HTTP, followed to the handler of the store's server and back.
use merch_store.Base.{
  ℕ, ◌≡◌, int_keys, refl, sym, ap, ◌∙◌, true, string_keys, String, Option, some, [], Result, ok,
  err, arith, inl, inr,
}
use merch_store.Base.Int.{ℤ}
use merch_store.Errors.{Code}
use merch_store.Jwt.{Claims, parse_token}
use merch_store.Api.{SendCoinsRequest, SendCoinsResponse}
use merch_store.Database.{Session, run, continue, rescue_with, pure}
use merch_store.Store.Domain.{StoreError, start_balance}
use merch_store.Store.Tables.{Tables}
use merch_store.Store.Repositories.{ensure_balance_created}
use merch_store.Store.AuthAdapter.{fetch_user_id}
use merch_store.Store.Interceptors
use merch_store.Store.Service.{retrieve_user_id, user_id_of, serve_send_coins, serve_buy_item}
use merch_store.Store.Cases.{send_coins}
use merch_store.Store.Admission.{goes_on}
use merch_store.Gateway.Domain.{Context, Response, empty, StoreService}
use merch_store.Gateway.Adapters.{store_adapter, answer}
use merch_store.Gateway.Handlers.{
  SendCoinRequestBody, status_ok, bind_send_coin, send_coin, buy_item, handle_grpc_error, respond,
}
use merch_store.Gateway.Bearer.{HasNoSpace, auth_middleware-bearer_header}
use merch_store.Gateway.Routes.{transfer, purchase, serve_http}
use merch_store.Apps.{create_grpc_server, store_send_coins, store_buy_item}
use merch_store.Apps.Admitted.{gateway_call, gateway_call_token}
use merch_store.Apps.Shop.{
  Shop, store_clients, shop_dependencies, shop_service, shop_answer, as_user,
}

-- Without faults to come, none come after opening a balance either.
ensure_fates :
    (user : ℤ) (start : ℕ) (s : Session Tables)
    → s.fates ≡ []
    → (ensure_balance_created user start s).1.fates ≡ []
unfolding ensure_balance_created run
ensure_fates user start s h = ground (arith, h)

responds-err :
    {W E A B : Type 0} (on_error : E → Response) (on_ok : B → Response) (f : A → B)
    (p : Result E A × W) {e : E}
    → p.0 ≡ err e
    → (respond on_error on_ok (answer f p)).0 ≡ on_error e
responds-err on_error on_ok f (ok a, w) h = cc
responds-err on_error on_ok f (err x, w) h = ap on_error (ground arith)

-- The handler's answer to a case that has succeeded.
sent_response :
    (on_error : StoreError → Result StoreError (Unit {0}))
    (p : Result StoreError (Unit {0}) × Session Tables)
    → p.0 ≡ ok tt
    → continue {B = SendCoinsResponse}
        (λ _. pure (record { success = true }))
        (rescue_with on_error p.0)
        p.1
      ≡ (ok (record { success = true }), p.1)
sent_response on_error (ok a, w) h = refl
sent_response on_error (err x, w) h = cc

send_coin_bound :
    {W E : Type 0} (from_error : E → Option (Code × String))
    (decode : String → Option SendCoinRequestBody) (service : StoreService W E) (ctx : Context)
    (json : String) (body : SendCoinRequestBody) (w : W)
    → bind_send_coin decode json ≡ some body
    → send_coin from_error decode service ctx json w
      ≡ respond
          (handle_grpc_error from_error)
          (λ _. record { status = status_ok; body = empty })
          (service.send_coins ctx body.to_username body.amount w)
unfolding send_coin bind_send_coin
send_coin_bound from_error decode service ctx json body w bound = rw (send_coin, bound) refl

-- A request with an accepted token, at a store that has opened the balance of the token's user.
module _ (shop : Shop) (token : String) (one_word : HasNoSpace token) (claims : Claims)
    (parsed : parse_token shop.library shop.now shop.cfg.jwt_secret token ≡ ok claims)
    (s s' : Session Tables) (quiet : s.fates ≡ [])
    (ensured : ensure_balance_created claims.user_id start_balance s ≡ (ok tt, s')) where
  served :
      {A : Type 0} (handler : Interceptors.Handler A)
      → create_grpc_server shop.library shop.cfg shop.now handler (gateway_call token) s
        ≡ handler (as_user token claims) s'
  unfolding create_grpc_server
  served handler =
      elim (goes_on (parse_token shop.library shop.now shop.cfg.jwt_secret) handler
        (gateway_call token) s token claims (gateway_call_token token) parsed (ok tt) s' ensured) [
          | inl (_, e) ↦ e ∙ ap (λ p. handler (as_user token claims) p.1) ensured
          | inr (x, e, _) ↦ absurd (ground (arith, e, ap (λ p. p.0) ensured))
        ]

  pub shop_transfer :
      (json : String) (body : SendCoinRequestBody)
      → bind_send_coin shop.decode_send_coin json ≡ some body
      → {e : StoreError}
      → (serve_send_coins
          (shop_dependencies shop)
          (record { to_username = body.to_username; amount = body.amount })
          (as_user token claims)
          s').0
        ≡ err e
      → (shop_answer shop token (transfer json) s).0 ≡ handle_grpc_error shop.from_error e
  unfolding serve_http store_adapter store_clients store_send_coins
  shop_transfer json body bound {e} refused =
      ap (λ r. r.0) (auth_middleware-bearer_header _ _ s token one_word)
      ∙ rw
          (
            send_coin_bound shop.from_error shop.decode_send_coin (shop_service shop)
                (record { token = some token; outgoing = [] }) json body s bound,
            served (
                serve_send_coins (shop_dependencies shop)
                  (record { to_username = body.to_username; amount = body.amount })),
          )
          (responds-err _ _ _ _ refused)

  pub shop_purchase :
      (item : String) {e : StoreError}
      → (serve_buy_item
          (shop_dependencies shop)
          (record { item_name = item })
          (as_user token claims)
          s').0
        ≡ err e
      → (shop_answer shop token (purchase item) s).0 ≡ handle_grpc_error shop.from_error e
  unfolding serve_http store_adapter store_clients buy_item store_buy_item
  shop_purchase item {e} refused =
      ap (λ r. r.0) (auth_middleware-bearer_header _ _ s token one_word)
      ∙ rw (served (serve_buy_item (shop_dependencies shop) (record { item_name = item })))
          (responds-err _ _ _ _ refused)

  -- No fault is left when the handler begins.
  pub still_quiet : record s' { fates = [] } ≡ s'
  still_quiet =
      let none_left : s'.fates ≡ [] =
        sym (ap (λ p. p.1.fates) ensured) ∙ ensure_fates claims.user_id start_balance s quiet in
      ap (λ fs. record s' { fates = fs }) (sym none_left)

  -- What the handler makes of transferred coins.
  sent :
      (req : SendCoinsRequest)
      → (send_coins (fetch_user_id shop.client) claims.user_id req.to_username req.amount s').0
        ≡ ok tt
      → serve_send_coins (shop_dependencies shop) req (as_user token claims) s' ≡ (
        ok (record { success = true }),
        (send_coins (fetch_user_id shop.client) claims.user_id req.to_username req.amount s').1,
      )
  unfolding serve_send_coins retrieve_user_id user_id_of
  sent req done =
      sent_response _
        (send_coins (fetch_user_id shop.client) claims.user_id req.to_username req.amount s') done

  pub shop_sent :
      (json : String) (body : SendCoinRequestBody)
      → bind_send_coin shop.decode_send_coin json ≡ some body
      → (send_coins (fetch_user_id shop.client) claims.user_id body.to_username body.amount s').0
        ≡ ok tt
      → shop_answer shop token (transfer json) s ≡ (
        record { status = status_ok; body = empty },
        (send_coins (fetch_user_id shop.client) claims.user_id body.to_username body.amount s').1,
      )
  unfolding serve_http store_adapter store_clients store_send_coins
  shop_sent json body bound done =
      let req : SendCoinsRequest = record {
        to_username = body.to_username;
        amount = body.amount;
      } in
      auth_middleware-bearer_header _ _ s token one_word
      ∙ rw
          (
            send_coin_bound shop.from_error shop.decode_send_coin (shop_service shop)
                (record { token = some token; outgoing = [] }) json body s bound,
            served (serve_send_coins (shop_dependencies shop) req),
            sent req done,
          )
          refl
