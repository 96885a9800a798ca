-- ===== src/Tests/Shop.antt =====
-- Requests over HTTP, through the gateway and the store, at concrete inputs.
use merch_store.Base.{
  ◌≡◌, ◌≢◌, refl, false, [], ◌∷◌, ◌>>=◌, String, Option, none, some, ok, err, lookup, int_keys,
  string_keys, arith, ◌==◌, if◌then◌else◌,
}
use merch_store.Base.Int.{pos, eqb_ℤ, ◌+ℤ◌, ◌≤ℤ◌}
use merch_store.Errors.{Code, status, internal}
use merch_store.Jwt.{parse_token, key_for}
use merch_store.Database.{run}
use merch_store.Database.Statement.{max_int4, int4}
use merch_store.Store.Domain.{StoreError, start_balance}
use merch_store.Store.Tables.{find_good, insert_balance, balance_value}
use merch_store.Store.Repositories.{ensure_balance_created}
use merch_store.Store.UserInfo.{main, purchases, transfers}
use merch_store.Store.AuthAdapter.{AuthClient, fetch_user_id}
use merch_store.Store.Updates.{AreBalances}
use merch_store.Store.Refusals.{too_little}
use merch_store.Store.RefusedPurchases.{row_named, no_such_good}
use merch_store.Store.Sending.{balance_or_start}
use merch_store.Store.Transfers
use merch_store.Gateway.Domain.{empty}
use merch_store.Gateway.Handlers.{
  SendCoinRequestBody, bind_send_coin, failed, status_ok, status_bad_request,
}
use merch_store.Gateway.Routes.{transfer, purchase}
use merch_store.Gateway.Bearer.{HasNoSpace}
use merch_store.Apps.Shop.{Shop, shop_answer}
use merch_store.Apps.Shop.Refused.{http_transfer_refused, http_purchase_refused}
use merch_store.Apps.Shop.Made.{http_transfer_made}
use merch_store.Tests.Data.{two_users, session, id_of}
use merch_store.Tests.Tokens.{one_token, the_claims}

abbrev client : AuthClient
client = record {
  get_user_id = λ req. (do id ← id_of req.username; ok (record { user_id = id }));
  get_usernames = λ req. err (status internal "internal server error");
}

abbrev pub statuses : StoreError → Option (Code × String)
statuses (status code message) = some (code, message)
statuses _ = none

abbrev pub bodies : String → Option SendCoinRequestBody
bodies json =
    if json == "300 to bob"
    then some (record { to_username = "bob"; amount = 300 })
    else if json == "5000 to bob"
    then some (record { to_username = "bob"; amount = 5000 })
    else none

abbrev pub the_shop : Shop
the_shop = record {
  library = one_token;
  cfg = record {
    db_settings = record {
      user = "admin";
      password = "password";
      host = "localhost";
      port = "5432";
      db_name = "store";
      ssl_enabled = false;
    };
    jwt_secret = "secret";
    grpc_auth_host = "localhost";
    grpc_auth_port = ":9090";
  };
  now = 200;
  client = client;
  other_text = λ e. "";
  from_error = statuses;
  sign_in = λ w. (err (status internal "internal server error"), w);
  schedule = main ∷ purchases ∷ transfers ∷ [];
  received = 0;
  decode_auth = λ json. none;
  decode_send_coin = bodies;
  auth_service = record {
    authenticate = λ ctx username password w. (err (status internal "internal server error"), w);
  };
}

keeps_status : (c : Code) (m : String) → statuses (status c m) ≡ some (c, m)
keeps_status c m = refl

pub one_word : HasNoSpace "token"
one_word = omega arith

parsed : parse_token one_token 200 "secret" "token" ≡ ok the_claims
unfolding parse_token key_for
parsed = refl

ensured :
    ensure_balance_created (pos 1) start_balance (session two_users [])
    ≡ (ok tt, session two_users [])
unfolding ensure_balance_created run eqb_ℤ lookup insert_balance int4 balance_value
ensured = refl

alice_held : lookup (pos 1) two_users.balances ≡ some (pos 1000)
unfolding lookup eqb_ℤ
alice_held = refl

bob_is_not_alice : pos 2 ≢ pos 1
bob_is_not_alice e = cc

bob_fetched : fetch_user_id client "bob" ≡ ok (pos 2)
unfolding fetch_user_id
bob_fetched = refl

pub balances_valid : AreBalances two_users.balances
unfolding lookup eqb_ℤ
balances_valid = ground arith

pub bob_room : balance_or_start (lookup (pos 2) two_users.balances) +ℤ pos 300 ≤ℤ pos max_int4
unfolding lookup eqb_ℤ ◌+ℤ◌
bob_room = omega arith

pub bound_300 :
    bind_send_coin bodies "300 to bob" ≡ some (record { to_username = "bob"; amount = 300 })
unfolding bind_send_coin
bound_300 = refl

bound_5000 :
    bind_send_coin bodies "5000 to bob" ≡ some (record { to_username = "bob"; amount = 5000 })
unfolding bind_send_coin
bound_5000 = refl

hat_missing : row_named "hat" two_users ≡ none
unfolding find_good
hat_missing = refl

http_transfer_made_example :
    let (r, u) = shop_answer the_shop "token" (transfer "300 to bob") (session two_users []) in
    (r ≡ record { status = status_ok; body = empty })
    × Transfers.Transfer (fetch_user_id client) (pos 1) "bob" 300 two_users u.committed
http_transfer_made_example =
    http_transfer_made the_shop "token" one_word the_claims parsed (session two_users [])
      (session two_users []) refl ensured "300 to bob"
      (record { to_username = "bob"; amount = 300 }) bound_300 (pos 2) 1000 balances_valid
      bob_fetched bob_is_not_alice (omega arith, omega arith) (omega arith, omega arith)
      (omega arith, omega arith) alice_held (omega arith) bob_room

http_transfer_refused_example :
    (shop_answer the_shop "token" (transfer "5000 to bob") (session two_users [])).0
    ≡ failed status_bad_request "insufficient funds"
http_transfer_refused_example =
    http_transfer_refused the_shop "token" one_word the_claims parsed (session two_users [])
      (session two_users []) refl ensured keeps_status "5000 to bob"
      (record { to_username = "bob"; amount = 5000 }) bound_5000
      (too_little (pos 2) 1000 bob_fetched bob_is_not_alice (omega arith, omega arith)
        (omega arith, omega arith) alice_held (omega arith))

http_purchase_refused_example :
    (shop_answer the_shop "token" (purchase "hat") (session two_users [])).0
    ≡ failed status_bad_request "item not found"
http_purchase_refused_example =
    http_purchase_refused the_shop "token" one_word the_claims parsed (session two_users [])
      (session two_users []) refl ensured keeps_status "hat" (no_such_good hat_missing)
