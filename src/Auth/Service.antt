-- ===== src/Auth/Service.antt =====
-- internal/auth/grpc/auth_service.go: the handlers of the auth service's gRPC server.
use merch_store.Base.{ℕ, String, [], ◌∷◌, Result, err, Assoc, int_keys, insert, if◌then◌else◌}
use merch_store.Base.Int.{ℤ}
use merch_store.Base.Words.{to_int32}
use merch_store.Api.{
  AuthRequest, AuthResponse, GetUserIdRequest, GetUserIdResponse, GetUsernamesRequest,
  GetUsernamesResponse,
}
use merch_store.Errors.{status, unauthenticated, not_found, internal, errors_is}
use merch_store.Database.{◌>>=◌, pure, rescue}
use merch_store.Auth.Domain.{AuthError, PasswordHasher, is_credentials_mismatch, is_user_not_found}
use merch_store.Auth.Users.{AuthAction, get_user_id, get_usernames}
use merch_store.Auth.Authenticator.{authenticate}

-- The status that `Authenticate` answers an error with.
unfoldable pub authenticate_status : AuthError → AuthError
unfolding errors_is
authenticate_status e =
    if errors_is is_credentials_mismatch e
    then status unauthenticated "mismatched credentials"
    else status internal "internal server error"

-- `AuthServerGRPC.Authenticate`
unfoldable pub serve_authenticate :
    PasswordHasher
    → (ℤ → String → ℕ → Result AuthError String)
    → AuthRequest
    → AuthAction AuthResponse
serve_authenticate hasher issue_token req = do
  token ←
      rescue (λ e. err (authenticate_status e))
        (authenticate hasher issue_token req.username req.password)
  pure (record { token = token })

-- The status that `GetUserID` answers an error with.
unfoldable pub user_id_status : AuthError → AuthError
unfolding errors_is
user_id_status e =
    if errors_is is_user_not_found e
    then status not_found "user not found"
    else status internal "internal server error"

-- `AuthServerGRPC.GetUserID`
unfoldable pub serve_get_user_id : GetUserIdRequest → AuthAction GetUserIdResponse
serve_get_user_id req = do
  user_id ← rescue (λ e. err (user_id_status e)) (get_user_id req.username)
  pure (record { user_id = to_int32 user_id })

-- `usernames[int32(id)] = username` for each entry of the repository's map.
unfoldable pub to_proto_usernames : Assoc ℤ String → Assoc ℤ String → Assoc ℤ String
to_proto_usernames usernames [] = usernames
to_proto_usernames usernames ((id, name) ∷ rest) =
    to_proto_usernames (insert (to_int32 id) name usernames) rest

-- `AuthServerGRPC.GetUsernames`
unfoldable pub serve_get_usernames : GetUsernamesRequest → AuthAction GetUsernamesResponse
unfolding to_proto_usernames
serve_get_usernames req = do
  usernames_map ←
      rescue (λ _. err (status internal "internal server error")) (get_usernames req.user_ids)
  pure (record { usernames = to_proto_usernames [] usernames_map })
