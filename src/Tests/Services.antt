-- ===== src/Tests/Services.antt =====
-- The theorems on sign-ins, on the store's interceptors and on the gateway at concrete inputs.
use Prim.Native.String.{◌++◌}
use merch_store.Base.{
  ℕ, ◌≡◌, refl, String, Option, none, some, [], ◌∷◌, Result, ok, err, ◌==◌, string_keys, eq_iff,
  ◌⊎◌, if◌then◌else◌, arith,
}
use merch_store.Base.Int.{ℤ}
use merch_store.Database.{run}
use merch_store.Jwt.{Claims, JwtError, other}
use merch_store.Auth.Domain.{AuthError, PasswordHasher}
use merch_store.Auth.Users
use merch_store.Auth.Users.{
  try_get_user_info, select_user, insert_user, find_user, found_or_error, create_user,
}
use merch_store.Auth.Authenticator.{authenticate, token_time_limit, sign_in, register}
use merch_store.Auth.Accounts
use merch_store.Auth.Accounts.{authenticate-Outcome}
use merch_store.Auth.Registry
use merch_store.Auth.Registry.{sign_in_all, sign_in_all_kept}
use merch_store.Auth.Return.{authenticate_again, Matches}
use merch_store.Store.Interceptors
use merch_store.Store.Interceptors.{Handler}
use merch_store.Store.Domain.{TotalUserInfo}
use merch_store.Store.Service.{convert_to_user_info_response}
use merch_store.Database.{pure}
use merch_store.Store.Admission.{chain_exact, HasToken, GoesOn, Accepted, Refused}
use merch_store.Gateway.Domain.{Context, Response, empty}
use merch_store.Gateway.Handlers.{failed, status_unauthorized}
use merch_store.Gateway.Middleware.{auth_middleware}
use merch_store.Gateway.Bearer.{auth_middleware_exact, bearer_header, HasNoSpace}
use merch_store.Gateway.Adapters.{convert_to_user_info}
use merch_store.Gateway.Views.{
  convert_to_user_info-convert_to_user_info_response, pairs_of_items, pairs_of_received,
  pairs_of_sent,
}
use merch_store.Tests.Data.{session, two_users}
use merch_store.Tests.Tokens.{the_claims}

abbrev hasher : PasswordHasher
hasher = record {
  hash_password = λ password. ok ("#" ++ password);
  verify_password = λ password hash. ok (hash == "#" ++ password);
}

hasher-Matches : Matches hasher
hasher-Matches password hash h = ground (arith, eq_iff hash ("#" ++ password))

abbrev issue : ℤ → String → ℕ → Result AuthError String
issue id name limit = ok (name ++ "'s token")

abbrev no_users : Users.Tables
no_users = record { users = []; next_id = 1 }

no_users-IsValid : Registry.IsValid no_users
no_users-IsValid = record { names = tt; ids = tt; below = tt }

authenticate-Outcome_example :
    let (r, s') = authenticate hasher issue "alice" "pw" (session no_users []) in
    Accounts.Outcome hasher "alice" "pw" issue no_users r s'.committed
authenticate-Outcome_example = authenticate-Outcome hasher "alice" "pw" issue (session no_users [])

sign_in_all_kept_example :
    let s =
      sign_in_all hasher issue
        (("alice", "pw") ∷ ("bob", "secret") ∷ ("alice", "wrong") ∷ [])
        (session no_users []) in
    Registry.IsValid s.committed × Registry.Keeps no_users s.committed
sign_in_all_kept_example =
    sign_in_all_kept hasher issue (("alice", "pw") ∷ ("bob", "secret") ∷ ("alice", "wrong") ∷ [])
      (session no_users []) no_users-IsValid

signed_in : (authenticate hasher issue "alice" "pw" (session no_users [])).0 ≡ ok "alice's token"
unfolding authenticate try_get_user_info run select_user find_user found_or_error sign_in register
    create_user insert_user
signed_in = refl

authenticate_again_example :
    let s' = (authenticate hasher issue "alice" "pw" (session no_users [])).1 in
    (id : ℤ) × (issue id "alice" token_time_limit ≡ ok "alice's token")
    × ((authenticate hasher issue "alice" "pw"
          (record (sign_in_all hasher issue (("bob", "secret") ∷ []) s') { fates = [] })).0
        ≡ issue id "alice" token_time_limit)
authenticate_again_example =
    authenticate_again hasher hasher-Matches "alice" "pw" issue (session no_users [])
      "alice's token" (("bob", "secret") ∷ []) no_users-IsValid signed_in

abbrev parse : String → Result JwtError Claims
parse token = if token == "token" then ok the_claims else err (other "malformed")

abbrev read_user : Handler (Option ℤ)
read_user ctx = pure ctx.user_id

abbrev with_token : Interceptors.Context
with_token = record { metadata = some (("authorization", "token" ∷ []) ∷ []); user_id = none }

chain_exact_example :
    ((token : String) × (claims : Claims) × HasToken with_token token
      × (parse token ≡ ok claims)
      × GoesOn parse read_user with_token (session two_users []) claims)
    ⊎ ((Accepted parse read_user with_token (session two_users []) → ⊥)
        × Refused parse read_user with_token (session two_users []))
chain_exact_example = chain_exact parse read_user with_token (session two_users [])

abbrev fresh : Context
fresh = record { token = none; outgoing = [] }

abbrev show_token : Context → ℕ → Response × ℕ
show_token ctx w = (record { status = 200; body = empty }, w)

auth_middleware_exact_example :
    ((token : String) × ("Bearer abc" ≡ bearer_header token)
      × HasNoSpace token
      × (auth_middleware "Bearer abc" show_token fresh 7
          ≡ show_token (record fresh { token = some token }) 7))
    ⊎ (((token : String) → "Bearer abc" ≡ bearer_header token → ¬ HasNoSpace token)
        × ((message : String) × (auth_middleware "Bearer abc" show_token fresh 7
              ≡ (failed status_unauthorized message, 7))))
auth_middleware_exact_example = auth_middleware_exact show_token fresh 7 "Bearer abc"

abbrev known_info : TotalUserInfo
known_info = record {
  username = "alice";
  balance = 700;
  goods = ("cup", 2) ∷ [];
  coin_transfer_history = record {
    incoming_transfers = [];
    outcoming_transfers = record { target_username = "bob"; amount = 260 } ∷ [];
  };
}

convert_to_user_info-convert_to_user_info_response_example :
    let u = convert_to_user_info (convert_to_user_info_response known_info) in
    (u.balance ≡ 700)
    × (pairs_of_items u.inventory ≡ ("cup", 2) ∷ [])
    × (pairs_of_received u.transfer_history.received ≡ [])
    × (pairs_of_sent u.transfer_history.sent ≡ ("bob", 260) ∷ [])
convert_to_user_info-convert_to_user_info_response_example =
    convert_to_user_info-convert_to_user_info_response known_info
