-- ===== src/Gateway/Routes.antt =====
-- The routes of internal/gateway/bootstrap/gateway_app.go. Which route a request's method and path
-- fit is gin's work; the table says what runs for each, and behind which middleware.
use merch_store.Base.{String, Option, none, []}
use merch_store.Errors.{Code}
use merch_store.Gateway.Domain.{Context, Response, empty, AuthService, StoreService}
use merch_store.Gateway.Handlers.{
  AuthRequestBody, SendCoinRequestBody, status_ok, authenticate, get_info, send_coin, buy_item,
}
use merch_store.Gateway.Middleware.{auth_middleware}

-- GET /healthz, POST /api/auth, GET /api/info, POST /api/sendCoin, GET /api/buy/:item
pub data Route : Type 0 where
  healthz info : Route
  login transfer : String → Route
  purchase : String → Route

module _ {W E : Type 0} (from_error : E → Option (Code × String))
    (decode_auth : String → Option AuthRequestBody)
    (decode_send_coin : String → Option SendCoinRequestBody) (auth_service : AuthService W E)
    (store_service : StoreService W E) where
  abbrev fresh : Context
  fresh = record { token = none; outgoing = [] }

  -- A request with the header Authorization.
  unfoldable pub serve_http : String → Route → W → Response × W
  unfolding auth_middleware authenticate get_info send_coin buy_item
  serve_http header healthz w = (record { status = status_ok; body = empty }, w)
  serve_http header (login json) w = authenticate from_error decode_auth auth_service fresh json w
  serve_http header info w = auth_middleware header (get_info from_error store_service) fresh w
  serve_http header (transfer json) w =
      auth_middleware header (λ ctx. send_coin from_error decode_send_coin store_service ctx json)
        fresh w
  serve_http header (purchase item) w =
      auth_middleware header (λ ctx. buy_item from_error store_service ctx item) fresh w
