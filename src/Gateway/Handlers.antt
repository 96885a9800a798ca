-- ===== src/Gateway/Handlers.antt =====
-- internal/gateway/infrastructure/http: the handlers of the HTTP API. The JSON decoder and
-- `status.FromError` are parameters; the struct tags `binding` of the bodies are checked here.
use merch_store.Base.{
  ℕ, Bool, not, ◌&&◌, String, Option, none, some, Result, ok, err, ◌==◌, string_keys, ltb,
  if◌then◌else◌,
}
use merch_store.Errors.{Code, invalid_argument, not_found, failed_precondition, unauthenticated}
use merch_store.Gateway.Domain.{
  Context, Response, empty, errors, token, info, AuthService, StoreService,
}

abbrev pub status_ok : ℕ
status_ok = 200

abbrev pub status_bad_request : ℕ
status_bad_request = 400

abbrev pub status_unauthorized : ℕ
status_unauthorized = 401

abbrev pub status_internal_server_error : ℕ
status_internal_server_error = 500

-- `c.JSON(status, gin.H{"errors": message})`
abbrev pub failed : ℕ → String → Response
failed code message = record { status = code; body = errors message }

pub record AuthRequestBody : Type 0 where
  pub username : String
  pub password : String

pub record SendCoinRequestBody : Type 0 where
  pub to_username : String
  pub amount : ℕ

-- binding:"required"
abbrev pub is_given : String → Bool
is_given s = not (s == "")

abbrev pub when {ℓ} : {A : Type ℓ} → (A → Bool) → Option A → Option A
when test none = none
when test (some a) = if test a then some a else none

-- `ShouldBindJSON` of the two bodies; the decoder gives `none` for what is no such object.
unfoldable pub bind_auth : (String → Option AuthRequestBody) → String → Option AuthRequestBody
bind_auth decode json = when (λ b. is_given b.username && is_given b.password) (decode json)

unfoldable pub bind_send_coin :
    (String → Option SendCoinRequestBody) → String → Option SendCoinRequestBody
bind_send_coin decode json = when (λ b. is_given b.to_username && ltb 0 b.amount) (decode json)

-- The `switch` of `handleGRPCError`.
unfoldable pub grpc_response : Option (Code × String) → Response
grpc_response none = failed status_internal_server_error "internal server error"
grpc_response (some (unauthenticated, message)) = failed status_unauthorized message
grpc_response (some (invalid_argument, message)) = failed status_bad_request message
grpc_response (some (failed_precondition, message)) = failed status_bad_request message
grpc_response (some (not_found, message)) = failed status_bad_request message
grpc_response (some _) = failed status_internal_server_error "internal server error"

-- The `switch` of `AuthHandler.Authenticate`.
unfoldable pub auth_error_response : Option (Code × String) → Response
auth_error_response none = failed status_internal_server_error "internal server error"
auth_error_response (some (unauthenticated, message)) = failed status_unauthorized message
auth_error_response (some (_, message)) = failed status_internal_server_error message

-- What a handler answers to the result of a call.
abbrev pub respond :
    {W E A : Type 0} → (E → Response) → (A → Response) → Result E A × W → Response × W
respond on_error on_ok (ok a, w) = (on_ok a, w)
respond on_error on_ok (err e, w) = (on_error e, w)

-- `handleGRPCError`
unfoldable pub handle_grpc_error : {E : Type 0} → (E → Option (Code × String)) → E → Response
unfolding grpc_response
handle_grpc_error from_error e = grpc_response (from_error e)

module _ {W E : Type 0} (from_error : E → Option (Code × String)) where
  -- `AuthHandler.Authenticate`
  unfoldable pub authenticate :
      (String → Option AuthRequestBody) → AuthService W E → Context → String → W → Response × W
  unfolding auth_error_response bind_auth
  authenticate decode service ctx json w = elim (bind_auth decode json) [
    | none ↦ (failed status_bad_request "invalid request body", w)
    | some body ↦
        respond (λ e. auth_error_response (from_error e))
          (λ t. record { status = status_ok; body = token t })
          (service.authenticate ctx body.username body.password w)
  ]

  -- `StoreHandler.GetInfo`
  unfoldable pub get_info : StoreService W E → Context → W → Response × W
  unfolding handle_grpc_error
  get_info service ctx w =
      respond (handle_grpc_error from_error) (λ i. record { status = status_ok; body = info i })
        (service.get_user_info ctx w)

  -- `StoreHandler.SendCoin`
  unfoldable pub send_coin :
      (String → Option SendCoinRequestBody) → StoreService W E → Context → String → W → Response × W
  unfolding handle_grpc_error bind_send_coin
  send_coin decode service ctx json w = elim (bind_send_coin decode json) [
    | none ↦ (failed status_bad_request "invalid request body", w)
    | some body ↦
        respond (handle_grpc_error from_error) (λ _. record { status = status_ok; body = empty })
          (service.send_coins ctx body.to_username body.amount w)
  ]

  -- `StoreHandler.BuyItem`
  unfoldable pub buy_item : StoreService W E → Context → String → W → Response × W
  unfolding handle_grpc_error
  buy_item service ctx item_name w =
      respond (handle_grpc_error from_error) (λ _. record { status = status_ok; body = empty })
        (service.buy_item ctx item_name w)
