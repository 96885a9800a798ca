-- ===== src/Store/Interceptors.antt =====
-- internal/store/grpc: the two interceptors of the store's gRPC server. What a handler does to the
-- logs is left out.
use merch_store.Base.{
  String, Option, none, some, List, [], ◌∷◌, Result, ok, err, Assoc, lookup, string_keys,
}
use merch_store.Base.Int.{ℤ}
use merch_store.Errors.{status, internal, unauthenticated}
use merch_store.Jwt.{Claims, JwtError, token_metadata_key}
use merch_store.Database.{◌>>=◌, ◌>>◌, fail, lift, rescue}
use merch_store.Store.Domain.{StoreError, start_balance}
use merch_store.Store.Repositories.{StoreAction, ensure_balance_created}

-- What the interceptors and handlers read of a `context.Context`: the incoming metadata, and the
-- value under `userIdContextKey`.
pub record Context : Type 0 where
  pub metadata : Option (Assoc String (List String))
  pub user_id : Option ℤ

-- A `grpc.UnaryHandler` for one request.
abbrev pub Handler : Type 0 → Type 0
Handler A = Context → StoreAction A

unfoldable pub token_of : List String → Result StoreError String
token_of [] = err (status unauthenticated "authorization token is missing")
token_of (token ∷ _) = ok token

unfoldable pub values_of : Option (List String) → List String
values_of none = []
values_of (some vs) = vs

unfoldable pub token_in : Option (Assoc String (List String)) → Result StoreError String
token_in none = err (status unauthenticated "metadata is empty")
token_in (some md) = token_of (values_of (lookup token_metadata_key md))

-- `getUserToken`
unfoldable pub get_user_token : Context → Result StoreError String
unfolding token_in token_of values_of
get_user_token ctx = token_in ctx.metadata

unfoldable pub claims_or_status : Result JwtError Claims → Result StoreError Claims
claims_or_status (ok claims) = ok claims
claims_or_status (err _) = err (status unauthenticated "invalid token")

module _ {A : Type 0} where
  -- `AuthInterceptorFabric.GetInterceptor`; the first argument is `ParseToken` with the secret.
  unfoldable pub auth_interceptor : (String → Result JwtError Claims) → Handler A → Handler A
  unfolding get_user_token claims_or_status
  auth_interceptor parse_token handler ctx = do
    user_token ← rescue (λ _. err (status internal "internal error")) (lift (get_user_token ctx))
    user_claims ← lift (claims_or_status (parse_token user_token))
    handler (record ctx { user_id = some user_claims.user_id })

  unfoldable pub with_user : Handler A → Context → Option ℤ → StoreAction A
  with_user handler ctx none = fail (status internal "user id not found in context")
  with_user handler ctx (some user_id) = do
    rescue (λ _. err (status internal "internal error"))
        (ensure_balance_created user_id start_balance)
    handler ctx

  -- `BalanceInterceptorFabric.GetInterceptor`
  unfoldable pub balance_interceptor : Handler A → Handler A
  unfolding with_user
  balance_interceptor handler ctx = with_user handler ctx ctx.user_id

  -- `grpc.ChainUnaryInterceptor` in createGRPCServer: the first interceptor is the outermost.
  unfoldable pub chain : (String → Result JwtError Claims) → Handler A → Handler A
  unfolding auth_interceptor balance_interceptor
  chain parse_token handler = auth_interceptor parse_token (balance_interceptor handler)
