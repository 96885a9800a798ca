-- ===== src/Tests/Processes.antt =====
-- The theorems on the three processes at a concrete environment.
use Prim.Native.String.{◌++◌}
use merch_store.Base.{
  ◌∷◌, ◌≡◌, refl, Option, none, some, [], ok, ◌==◌, string_keys, if◌then◌else◌, arith,
}
use merch_store.Base.Int.{pos, ℤ, eqb_ℤ}
use merch_store.Base.Words.{show_int}
use merch_store.Errors.{status, internal}
use merch_store.Jwt.{JwtError, issue_token}
use merch_store.Database.{run, pure}
use merch_store.Auth.Domain.{AuthError, Argon2id, UserInfo, argon_password_hasher}
use merch_store.Auth.Users
use merch_store.Auth.Users.{
  user_named, try_get_user_info, select_user, insert_user, find_user, found_or_error, create_user,
}
use merch_store.Auth.Authenticator.{authenticate, sign_in, register}
use merch_store.Auth.Service.{serve_authenticate}
use merch_store.Store.Interceptors.{Handler}
use merch_store.Apps.{auth_app}
use merch_store.Auth.Registry
use merch_store.Store.Domain.{StoreError}
use merch_store.Store.AuthAdapter.{fetch_user_id, get_username}
use merch_store.Apps.Names.{client_of, names_agree}
use merch_store.Apps.Config.{Environment, auth_main, try_set_from_env}
use merch_store.Apps.Admitted.{GoesOnAs, signed_in_goes_on}
use merch_store.Tests.Data.{session, two_users}
use merch_store.Tests.Tokens.{one_token, one_token-IsLibrary}

abbrev pub environment : Environment
environment name = if name == "JWT_SECRET" then some "secret" else none

abbrev pub raise : JwtError → AuthError
raise e = status internal "token"

abbrev pub argon : Argon2id
argon = record {
  create_hash = λ salt password params. ok (salt ++ password);
  compare_password_and_hash = λ password hash. ok (hash == "salt" ++ password);
}

abbrev pub nobody : Users.Tables
nobody = record { users = []; next_id = 1 }

abbrev read_id : Handler (Option ℤ)
read_id ctx = pure ctx.user_id

answered :
    (auth_app one_token raise argon
      (auth_main environment).1
      100
      "salt"
      (record { username = "alice"; password = "pw" })
      (session nobody [])).0
    ≡ ok (record { token = "token" })
unfolding auth_app serve_authenticate authenticate auth_main try_set_from_env argon_password_hasher
    try_get_user_info run select_user find_user found_or_error sign_in register create_user
    insert_user issue_token eqb_ℤ show_int
answered = refl

signed_in_goes_on_example :
    let s' =
      (auth_app one_token raise argon
        (auth_main environment).1
        100
        "salt"
        (record { username = "alice"; password = "pw" })
        (session nobody [])).1 in
    GoesOnAs environment one_token one_token-IsLibrary raise argon 200 "alice" s'.committed "token"
      read_id
      (session two_users [])
signed_in_goes_on_example =
    signed_in_goes_on environment one_token one_token-IsLibrary raise argon 100 200 "salt" "alice"
      "pw" (session nobody []) (record { token = "token" }) answered (omega arith) read_id
      (session two_users [])

abbrev alice : UserInfo
alice = record { id = pos 1; username = "alice"; password_hash = "saltpw" }

abbrev registered : Users.Tables
registered = record { users = alice ∷ []; next_id = 2 }

registered-IsValid : Registry.IsValid registered
unfolding find_user
registered-IsValid = record {
  names = (refl, tt);
  ids = (refl, tt);
  below = ((1, refl, omega arith), tt);
}

pub carry : AuthError → StoreError
carry e = status internal "internal server error"

alice_found : user_named "alice" registered.users ≡ some alice
unfolding find_user
alice_found = refl

names_agree_example :
    (fetch_user_id (client_of carry (session registered [])) "alice" ≡ ok (pos 1))
    × (get_username (client_of carry (session registered [])) (pos 1) ≡ ok "alice")
names_agree_example =
    names_agree carry (session registered []) "alice" alice registered-IsValid (omega arith)
      alice_found
