-- ===== src/Apps.antt =====
-- cmd/*/main.go and internal/*/bootstrap: how the three processes are configured from the environment
-- and put together; Life has how they start and stop.
pub mod Config
pub mod Admitted
pub mod Names
pub mod Life
pub mod Shop
use merch_store.Base.{ℕ, String, Option, List, Assoc, Result, ok, err}
use merch_store.Base.Int.{ℤ}
use merch_store.Jwt
use merch_store.Jwt.{Claims, JwtError, issue_token, parse_token}
use merch_store.Errors.{Code}
use merch_store.Api.{
  AuthRequest, AuthResponse, SendCoinsRequest, SendCoinsResponse, BuyItemRequest, BuyItemResponse,
  GetUserInfoResponse,
}
use merch_store.Auth.Domain.{AuthError, Argon2id, argon_password_hasher}
use merch_store.Auth.Users.{AuthAction}
use merch_store.Auth.Service.{serve_authenticate}
use merch_store.Store.UserInfo.{Goroutine}
use merch_store.Store.AuthAdapter.{AuthClient, fetch_user_id, auth_adapter}
use merch_store.Store.Interceptors.{Handler, chain}
use merch_store.Store.Domain.{StoreError}
use merch_store.Store.Service.{Dependencies, serve_get_user_info, serve_send_coins, serve_buy_item}
use merch_store.Apps.Config.{AuthConfig, StoreConfig}

-- An error of golang-jwt, as the auth service passes it on.
abbrev pub raise_jwt : (JwtError → AuthError) → Result JwtError String → Result AuthError String
raise_jwt raise (ok token) = ok token
raise_jwt raise (err e) = err (raise e)

-- `IssueToken` with the secret of the process, at a time.
abbrev pub issuer :
    Jwt.Library → (JwtError → AuthError) → ℕ → String → ℤ → String → ℕ → Result AuthError String
issuer library raise now secret user_id username limit =
    raise_jwt raise (issue_token library now secret user_id username limit)

-- `AuthApp.Run`: Authenticate as the server of the configured process answers it at a time.
unfoldable pub auth_app :
    Jwt.Library
    → (JwtError → AuthError)
    → Argon2id
    → AuthConfig
    → (now : ℕ) (salt : String) → AuthRequest
    → AuthAction AuthResponse
auth_app library raise argon cfg now salt =
    serve_authenticate (argon_password_hasher argon salt) (issuer library raise now cfg.secret_key)

module _ (library : Jwt.Library) (cfg : StoreConfig) (now : ℕ) where
  -- `createGRPCServer`: a handler of the server behind the two interceptors.
  unfoldable pub create_grpc_server : {A : Type 0} → Handler A → Handler A
  create_grpc_server handler = chain (parse_token library now cfg.jwt_secret) handler

  -- `StoreApp.Run`: the three methods of the server of the configured process.
  module _ (client : AuthClient) (other_text : StoreError → String) where
    abbrev pub dependencies : Dependencies
    dependencies = record {
      fetch_user_id = fetch_user_id client;
      getter = auth_adapter client;
      other_text = other_text;
    }

    unfoldable pub store_get_user_info : List Goroutine → ℕ → Handler GetUserInfoResponse
    unfolding create_grpc_server
    store_get_user_info schedule received =
        create_grpc_server (serve_get_user_info dependencies schedule received)

    unfoldable pub store_send_coins : SendCoinsRequest → Handler SendCoinsResponse
    unfolding create_grpc_server
    store_send_coins req = create_grpc_server (serve_send_coins dependencies req)

    unfoldable pub store_buy_item : BuyItemRequest → Handler BuyItemResponse
    unfolding create_grpc_server
    store_buy_item req = create_grpc_server (serve_buy_item dependencies req)
