-- ===== src/Apps/Admitted.antt =====
-- One user's way through the three processes: the token that the auth service gives is the one that
-- the gateway sends on and the store accepts, as the same user.
use merch_store.Base.{
  ℕ, ◌+◌, ◌<◌, ◌≡◌, refl, ap, ◌∙◌, String, none, some, [], Result, ok, err, arith, lookup, insert,
  string_keys,
}
use merch_store.Base.Words.{show_int}
use merch_store.Jwt
use merch_store.Jwt.{Claims, JwtError, issue_token, parse_token}
use merch_store.Jwt.Tokens.{IsLibrary, parse_token-issue_token}
use merch_store.Api.{AuthResponse}
use merch_store.Database
use merch_store.Database.{rescue_with, continue, pure}
use merch_store.Auth.Domain.{DomainError, AuthError, UserInfo, Argon2id, argon_password_hasher}
use merch_store.Auth.Users
use merch_store.Auth.Users.{user_named}
use merch_store.Auth.Authenticator.{authenticate, token_time_limit}
use merch_store.Auth.Service.{serve_authenticate, authenticate_status}
use merch_store.Auth.Accounts.{Outcome, authenticate-Outcome}
use merch_store.Auth.Registry.{SignsIn_named}
use merch_store.Gateway.Adapters.{jwt_token_interceptor, with_token, append_to_outgoing, values_of}
use merch_store.Store.Domain.{start_balance}
use merch_store.Store.Tables
use merch_store.Store.Repositories.{ensure_balance_created}
use merch_store.Store.Interceptors
use merch_store.Store.Interceptors.{Handler, get_user_token, token_in, token_of}
use merch_store.Store.Admission.{GoesOn, goes_on}
use merch_store.Apps.{auth_app, raise_jwt, issuer}
use merch_store.Apps.Config.{Environment, auth_main, store_main}

-- What the store's server sees of a call that the gateway makes with a token.
abbrev pub gateway_call : String → Interceptors.Context
gateway_call token = record {
  metadata = some (jwt_token_interceptor (record { token = some token; outgoing = [] }));
  user_id = none;
}

pub gateway_call_token : (token : String) → get_user_token (gateway_call token) ≡ ok token
unfolding get_user_token jwt_token_interceptor with_token append_to_outgoing values_of token_in
    token_of Interceptors.values_of insert lookup
gateway_call_token token = refl

raise_jwt_ok :
    (raise : JwtError → AuthError) (r : Result JwtError String) {token : String}
    → raise_jwt raise r ≡ ok token
    → r ≡ ok token
raise_jwt_ok raise (ok token) h = ground arith
raise_jwt_ok raise (err e) h = cc

-- The answer of the server to what `authenticate` returned.
abbrev answered : Result AuthError String → Database.Action Users.Tables DomainError AuthResponse
answered r =
    continue {B = AuthResponse} (λ token. pure (record { token = token }))
      (rescue_with (λ e. err (authenticate_status e)) r)

module _ (env : Environment) (library : Jwt.Library) (laws : IsLibrary library)
    (raise : JwtError → AuthError) (argon : Argon2id) where
  abbrev pub issued_to : ℕ → UserInfo → Result AuthError String
  issued_to issued user = raise_jwt raise (
      issue_token library issued (auth_main env).1.secret_key user.id user.username
        token_time_limit)

  module _ (issued now : ℕ) (user : UserInfo) (token : String)
      (granted : issued_to issued user ≡ ok token) (lt : now < issued + token_time_limit) where
    -- What the store reads from the token of a user that signed in at `issued`.
    pub granted_claims :
        (claims : Claims) × (claims.user_id ≡ user.id)
        × (parse_token library now (store_main env).1.jwt_secret token ≡ ok claims)
    unfolding auth_main store_main
    granted_claims =
        let secret = (auth_main env).1.secret_key in
        (
          record {
            user_id = user.id;
            username = user.username;
            subject = show_int user.id;
            issued_at = issued;
            expires_at = issued + token_time_limit;
          },
          refl,
          parse_token-issue_token library laws secret issued now token_time_limit user.id
              user.username token (raise_jwt_ok raise _ granted) lt,
        )

    -- The server with that token.
    granted-GoesOn :
        {A : Type 0} (handler : Handler A) (s : Database.Session Tables.Tables)
        → (claims : Claims) × (claims.user_id ≡ user.id)
          × GoesOn
              (parse_token library now (store_main env).1.jwt_secret)
              handler
              (gateway_call token)
              s
              claims
    granted-GoesOn handler s =
        let (claims, same, parsed) = granted_claims in
        let (r, s') = ensure_balance_created claims.user_id start_balance s in
        (
          claims,
          same,
          goes_on (parse_token library now (store_main env).1.jwt_secret) handler
              (gateway_call token) s token claims (gateway_call_token token) parsed r s' refl,
        )

  -- The tables `users` know a user called `name`, as whom the server runs handlers with the token.
  abbrev pub GoesOnAs :
      ℕ
      → String
      → Users.Tables
      → String
      → {A : Type 0} → Handler A
      → Database.Session Tables.Tables
      → Type 0
  GoesOnAs now name users token handler store =
      (user : UserInfo) × (user_named name users.users ≡ some user)
      × ((claims : Claims) × (claims.user_id ≡ user.id)
          × GoesOn (parse_token library now (store_main env).1.jwt_secret) handler
              (gateway_call token) store claims)

  -- The tables `users` know a user called `name`, to whom the token was issued.
  abbrev pub IssuedAs : ℕ → String → Users.Tables → String → Type 0
  IssuedAs issued name users token =
      (user : UserInfo) × (user_named name users.users ≡ some user)
      × (issued_to issued user ≡ ok token)

  answered-IssuedAs :
      (issued : ℕ) (salt name password : String) (t : Users.Tables) (r : Result AuthError String)
      (s : Database.Session Users.Tables) (resp : AuthResponse)
      → (answered r s).0 ≡ ok resp
      → Outcome
          (argon_password_hasher argon salt)
          name
          password
          (issuer library raise issued (auth_main env).1.secret_key)
          t
          r
          s.committed
      → let s' = (answered r s).1 in IssuedAs issued name s'.committed resp.token
  answered-IssuedAs issued salt name password t (ok token) s resp h o =
      let same : token ≡ resp.token = ground arith in
      (
        o.user,
        SignsIn_named (argon_password_hasher argon salt) name password t s.committed o.user
            o.signs_in,
        o.issued ∙ ap ok same,
      )
  answered-IssuedAs issued salt name password t (err e) s resp h o = cc

  pub signed_in-IssuedAs :
      (issued : ℕ) (salt name password : String) (s : Database.Session Users.Tables)
      (resp : AuthResponse)
      → (auth_app library raise argon
          (auth_main env).1
          issued
          salt
          (record { username = name; password = password })
          s).0
        ≡ ok resp
      → let s' =
          (auth_app library raise argon
            (auth_main env).1
            issued
            salt
            (record { username = name; password = password })
            s).1 in
        IssuedAs issued name s'.committed resp.token
  unfolding auth_app serve_authenticate
  signed_in-IssuedAs issued salt name password s resp h =
      let issue = issuer library raise issued (auth_main env).1.secret_key in
      let (r, s') = authenticate (argon_password_hasher argon salt) issue name password s in
      answered-IssuedAs issued salt name password s.committed r s' resp h
        (authenticate-Outcome (argon_password_hasher argon salt) name password issue s)

  -- If golang-jwt keeps its laws and the processes have the same environment, whoever signs in as
  -- a name gets a token with which, for an hour, the store's server, called as the gateway calls
  -- it, runs handlers as that user of the auth service's table, once that user's balance is
  -- ensured.
  pub signed_in_goes_on :
      (issued now : ℕ) (salt name password : String) (s : Database.Session Users.Tables)
      (resp : AuthResponse)
      → (auth_app library raise argon
          (auth_main env).1
          issued
          salt
          (record { username = name; password = password })
          s).0
        ≡ ok resp
      → now < issued + token_time_limit
      → {A : Type 0} (handler : Handler A) (store : Database.Session Tables.Tables)
      → let s' =
          (auth_app library raise argon
            (auth_main env).1
            issued
            salt
            (record { username = name; password = password })
            s).1 in
        GoesOnAs now name s'.committed resp.token handler store
  signed_in_goes_on issued now salt name password s resp h lt handler store =
      let (user, named, granted) = signed_in-IssuedAs issued salt name password s resp h in
      (user, named, granted-GoesOn issued now user resp.token granted lt handler store)
