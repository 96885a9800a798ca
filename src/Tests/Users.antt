-- ===== src/Tests/Users.antt =====
-- Alice logs in over HTTP and sends coins to Bob over HTTP.
use merch_store.Base.{
  ◌≡◌, ◌≢◌, refl, String, Option, none, some, [], ◌∷◌, Result, err, lookup, int_keys, string_keys,
  arith, ◌==◌, if◌then◌else◌,
}
use merch_store.Base.Int.{pos, eqb_ℤ}
use merch_store.Base.Words.{show_int}
use merch_store.Errors.{Code, status, internal}
use merch_store.Jwt.{issue_token}
use merch_store.Database.{Session, run}
use merch_store.Auth.Domain.{AuthError, UserInfo, argon_password_hasher}
use merch_store.Auth.Users
use merch_store.Auth.Users.{
  user_named, try_get_user_info, select_user, insert_user, find_user, found_or_error, create_user,
}
use merch_store.Auth.Authenticator
use merch_store.Auth.Authenticator.{register}
use merch_store.Auth.Service.{serve_authenticate}
use merch_store.Auth.Registry
use merch_store.Gateway.Domain.{StoreService}
use merch_store.Gateway.Domain
use merch_store.Gateway.Handlers
use merch_store.Gateway.Handlers.{AuthRequestBody, status_ok, bind_auth, auth_error_response}
use merch_store.Gateway.Adapters.{auth_adapter}
use merch_store.Gateway.Routes.{transfer, serve_http}
use merch_store.Apps.{auth_app}
use merch_store.Apps.Config.{auth_main, store_main, try_set_from_env}
use merch_store.Apps.Names.{client_of}
use merch_store.Apps.Shop.{Shop, shop_answer}
use merch_store.Apps.Shop.Login.{Entrance, login_answer}
use merch_store.Apps.Shop.Users.{IsMade, login_then_transfer}
use merch_store.Tests.Data.{two_users, session}
use merch_store.Tests.Tokens.{one_token, one_token-IsLibrary}
use merch_store.Tests.Processes.{environment, raise, argon, nobody, carry}
use merch_store.Tests.Shop.{the_shop, one_word, bound_300, bob_room, balances_valid}

abbrev no_answer : {A : Type 0} → Session Users.Tables → Result AuthError A × Session Users.Tables
no_answer w = (err (status internal "internal server error"), w)

abbrev statuses : AuthError → Option (Code × String)
statuses (status code message) = some (code, message)
statuses _ = none

abbrev alice_body : AuthRequestBody
alice_body = record { username = "alice"; password = "pw" }

abbrev front : Entrance
front = record {
  issued = 100;
  salt = "salt";
  raise = raise;
  argon = argon;
  header = "";
  from_error = statuses;
  decode_auth = λ json. if json == "alice" then some alice_body else none;
  decode_send_coin = λ json. none;
  store_service = record {
    buy_item = λ ctx item. no_answer;
    send_coins = λ ctx name amount. no_answer;
    get_user_info = λ ctx. no_answer;
  };
  others = record {
    authenticate = λ req. no_answer;
    buy_item = λ md req. no_answer;
    send_coins = λ md req. no_answer;
    get_user_info = λ md. no_answer;
  };
}

abbrev alice : UserInfo
alice = record { id = pos 1; username = "alice"; password_hash = "saltpw" }

abbrev bob : UserInfo
bob = record { id = pos 2; username = "bob"; password_hash = "saltpassword" }

-- Bob has registered after Alice.
abbrev both : Users.Tables
both = record { users = alice ∷ bob ∷ []; next_id = 3 }

both-IsValid : Registry.IsValid both
unfolding find_user eqb_ℤ
both-IsValid = record {
  names = (refl, (refl, tt));
  ids = (refl, (refl, tt));
  below = ((1, refl, omega arith), ((2, refl, omega arith), tt));
}

abbrev shop : Shop
shop = record the_shop {
  cfg = (store_main environment).1;
  client = client_of carry (session both []);
}

bound_login : bind_auth front.decode_auth "alice" ≡ some alice_body
unfolding bind_auth
bound_login = refl

let_in :
    (login_answer environment one_token front "alice" (session nobody [])).0
    ≡ record { status = status_ok; body = Domain.token "token" }
unfolding serve_http Handlers.authenticate auth_adapter bind_auth auth_app serve_authenticate
    Authenticator.authenticate auth_main try_set_from_env argon_password_hasher try_get_user_info
    run select_user find_user found_or_error Authenticator.sign_in register create_user insert_user
    issue_token eqb_ℤ show_int
let_in = refl

alice_known :
    user_named "alice"
      (login_answer environment one_token front "alice" (session nobody [])).1.committed.users
    ≡ some alice
unfolding serve_http Handlers.authenticate auth_adapter bind_auth auth_app serve_authenticate
    Authenticator.authenticate auth_main try_set_from_env argon_password_hasher try_get_user_info
    run select_user find_user found_or_error Authenticator.sign_in register create_user insert_user
    issue_token eqb_ℤ show_int
alice_known = refl

bob_known : user_named "bob" both.users ≡ some bob
unfolding find_user
bob_known = refl

bob_differs : pos 2 ≢ pos 1
bob_differs e = cc

login_then_transfer_example :
    IsMade shop
      (pos 1)
      (record { to_username = "bob"; amount = 300 })
      two_users
      (shop_answer shop "token" (transfer "300 to bob") (session two_users []))
unfolding lookup eqb_ℤ
login_then_transfer_example =
    login_then_transfer environment shop one_token-IsLibrary refl front "alice" alice_body
      bound_login (session nobody []) "token" let_in (omega arith) alice alice_known one_word carry
      (session both []) refl both-IsValid (omega arith) "300 to bob"
      (record { to_username = "bob"; amount = 300 }) bound_300 bob bob_known bob_differs
      (session two_users []) 1000 balances_valid refl (omega arith) bob_room
      (omega arith, omega arith) (omega arith, omega arith) (omega arith, omega arith)
