-- ===== src/Apps/Shop.antt =====
-- The gateway in front of the store: the gateway's clients are the store's own server, and a request
-- over HTTP goes all the way to the tables.
pub mod Served
pub mod Refused
pub mod Made
pub mod Login
pub mod Users
use merch_store.Base.{
  ℕ, ◌≤◌, ◌≡◌, ◌≢◌, lookup, int_keys, refl, sym, subst, ap, ◌∙◌, Bool, true, false, not, ◌&&◌, ltb,
  ◌==◌, string_keys, String, Option, none, some, List, [], Result, ok, err, arith, Assoc, inl, inr,
  if◌then◌else◌,
}
use merch_store.Base.Int.{ℤ, pos, ◌+ℤ◌, ◌≤ℤ◌}
use merch_store.Errors.{Code, status, invalid_argument, not_found, failed_precondition}
use merch_store.Jwt
use merch_store.Jwt.{Claims, parse_token}
use merch_store.Api.{AuthRequest, AuthResponse, SendCoinsRequest, SendCoinsResponse, BuyItemRequest}
use merch_store.Database.{Session, run, continue, rescue_with, pure}
use merch_store.Store.Domain.{StoreError, start_balance}
use merch_store.Store.Tables.{Tables}
use merch_store.Store.Repositories.{ensure_balance_created}
use merch_store.Store.UserInfo.{Goroutine}
use merch_store.Store.AuthAdapter.{AuthClient, fetch_user_id, auth_adapter}
use merch_store.Store.Interceptors
use merch_store.Store.Service.{
  Dependencies, retrieve_user_id, user_id_of, serve_send_coins, serve_buy_item,
}
use merch_store.Database.Statement.{max_int4}
use merch_store.Store.Updates.{AreBalances}
use merch_store.Store.Success.{FitsInt4}
use merch_store.Store.Sending.{balance_or_start, send_coins_succeeds}
use merch_store.Store.Transfers
use merch_store.Store.Cases.{send_coins}
use merch_store.Store.Admission.{goes_on}
use merch_store.Store.Refusals.{
  Refusal, unknown, oneself, no_balance, too_little, serve_send_coins-Refusal,
}
use merch_store.Store.RefusedPurchases.{
  RefusedPurchase, no_such_good, no_buyer, too_dear, serve_buy_item-RefusedPurchase,
}
use merch_store.Gateway.Domain.{Call, Context, Response, empty, AuthService, StoreService}
use merch_store.Gateway.Adapters.{Clients, store_adapter, answer}
use merch_store.Gateway.Handlers.{
  AuthRequestBody, SendCoinRequestBody, failed, status_ok, status_bad_request, bind_send_coin,
  send_coin, buy_item, handle_grpc_error, grpc_response, respond,
}
use merch_store.Gateway.Middleware.{auth_middleware}
use merch_store.Gateway.Bearer.{bearer_header, HasNoSpace, auth_middleware-bearer_header}
use merch_store.Gateway.Routes.{Route, transfer, purchase, serve_http}
use merch_store.Apps.{
  dependencies, create_grpc_server, store_get_user_info, store_send_coins, store_buy_item,
}
use merch_store.Apps.Config.{StoreConfig}
use merch_store.Apps.Admitted.{gateway_call, gateway_call_token}

module _ (library : Jwt.Library) (cfg : StoreConfig) (now : ℕ) (client : AuthClient)
    (other_text : StoreError → String) where
  -- What arrives at the store's server: the metadata of the call.
  abbrev incoming : Assoc String (List String) → Interceptors.Context
  incoming md = record { metadata = some md; user_id = none }

  -- The clients of a gateway whose calls reach the store's server.
  unfoldable pub store_clients :
      Call (Session Tables) StoreError AuthResponse
      → List Goroutine
      → ℕ
      → Clients (Session Tables) StoreError
  unfolding store_get_user_info store_send_coins store_buy_item
  store_clients sign_in schedule received = record {
    authenticate = λ req. sign_in;
    buy_item = λ md req. store_buy_item library cfg now client other_text req (incoming md);
    send_coins = λ md req. store_send_coins library cfg now client other_text req (incoming md);
    get_user_info =
        λ md. store_get_user_info library cfg now client other_text schedule received (incoming md);
  }

-- The two processes, with what stands outside them.
pub record Shop : Type 0 where
  pub library : Jwt.Library
  pub cfg : StoreConfig
  pub now : ℕ
  pub client : AuthClient
  pub other_text : StoreError → String
  pub from_error : StoreError → Option (Code × String)
  pub sign_in : Call (Session Tables) StoreError AuthResponse
  pub schedule : List Goroutine
  pub received : ℕ
  pub decode_auth : String → Option AuthRequestBody
  pub decode_send_coin : String → Option SendCoinRequestBody
  pub auth_service : AuthService (Session Tables) StoreError

abbrev pub shop_dependencies : Shop → Dependencies
shop_dependencies shop = dependencies shop.library shop.cfg shop.now shop.client shop.other_text

abbrev pub shop_service : Shop → StoreService (Session Tables) StoreError
shop_service shop = store_adapter (
    store_clients shop.library shop.cfg shop.now shop.client shop.other_text shop.sign_in
      shop.schedule shop.received)

-- The gateway's answer to a request with a token.
abbrev pub shop_answer :
    Shop → (token : String) → Route → Session Tables → Response × Session Tables
shop_answer shop token route s =
    serve_http shop.from_error shop.decode_auth shop.decode_send_coin shop.auth_service
      (shop_service shop) (bearer_header token) route s

-- The call of the store's server behind the request, once it is authenticated.
abbrev pub as_user : String → Claims → Interceptors.Context
as_user token claims = record (gateway_call token) { user_id = some claims.user_id }
