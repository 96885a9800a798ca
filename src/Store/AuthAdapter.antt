-- ===== src/Store/AuthAdapter.antt =====
-- internal/store/grpc/auth_adapter.go: the store's view of the auth service. The generated client is a
-- parameter; a call that takes longer than contextTimeLimit is one that fails.
use merch_store.Base.{
  String, List, [], ◌∷◌, Result, ok, Assoc, int_keys, lookup, insert, map, ◌>>=◌,
}
use merch_store.Base.Int.{ℤ}
use merch_store.Base.Words.{to_int32}
use merch_store.Api.{GetUserIdRequest, GetUserIdResponse, GetUsernamesRequest, GetUsernamesResponse}
use merch_store.Store.Domain.{StoreError}
use merch_store.Store.UserInfo.{UsernameGetter, name_or_empty}

-- The calls of `AuthServiceClient` that the store makes.
pub record AuthClient : Type 0 where
  pub get_user_id : GetUserIdRequest → Result StoreError GetUserIdResponse
  pub get_usernames : GetUsernamesRequest → Result StoreError GetUsernamesResponse

-- `convertedUsernames[int(id)] = username` for each entry of the answer's map.
unfoldable pub converted_usernames : Assoc ℤ String → Assoc ℤ String → Assoc ℤ String
converted_usernames names [] = names
converted_usernames names ((id, name) ∷ rest) = converted_usernames (insert id name names) rest

module _ (client : AuthClient) where
  -- `AuthAdapter.GetUsernames`
  unfoldable pub get_usernames : List ℤ → Result StoreError (Assoc ℤ String)
  unfolding converted_usernames
  get_usernames user_ids = do
    resp ← client.get_usernames (record { user_ids = map to_int32 user_ids })
    ok (converted_usernames [] resp.usernames)

  -- `AuthAdapter.GetUsername`
  unfoldable pub get_username : ℤ → Result StoreError String
  unfolding get_usernames
  get_username user_id = do
    raw_result ← get_usernames (user_id ∷ [])
    ok (name_or_empty (lookup user_id raw_result))

  -- `AuthAdapter.FetchUserID`
  unfoldable pub fetch_user_id : String → Result StoreError ℤ
  fetch_user_id username = do
    resp ← client.get_user_id (record { username = username })
    ok resp.user_id

  -- `NewAuthAdapter` where a `UsernameGetter` is asked for.
  unfoldable pub auth_adapter : UsernameGetter
  unfolding get_username get_usernames
  auth_adapter = record { get_username = get_username; get_usernames = get_usernames }
