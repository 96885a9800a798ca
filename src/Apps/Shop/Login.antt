-- ===== src/Apps/Shop/Login.antt =====
-- The gateway in front of the auth service: what a login over HTTP that is answered with a token says.
use merch_store.Base.{
  ap, sym, ◌∙◌, arith, ℕ, ◌≡◌, refl, String, Option, none, some, [], Result, ok, err,
}
use merch_store.Errors.{Code}
use merch_store.Jwt
use merch_store.Jwt.{JwtError}
use merch_store.Api.{AuthResponse}
use merch_store.Database.{Session}
use merch_store.Auth.Domain.{AuthError, Argon2id}
use merch_store.Auth.Users
use merch_store.Gateway.Domain.{Context, Response, Body, AuthService, StoreService}
use merch_store.Gateway.Domain
use merch_store.Gateway.Handlers.{
  AuthRequestBody, SendCoinRequestBody, bind_auth, auth_error_response, respond, status_ok,
  authenticate,
}
use merch_store.Gateway.Adapters.{Clients, auth_adapter, answer}
use merch_store.Gateway.Routes.{login, serve_http}
use merch_store.Apps.{auth_app}
use merch_store.Apps.Config.{Environment, auth_main}

-- The gateway and the auth service at a time, with what stands outside them.
pub record Entrance : Type 0 where
  pub issued : ℕ
  pub salt : String
  pub raise : JwtError → AuthError
  pub argon : Argon2id
  pub header : String
  pub from_error : AuthError → Option (Code × String)
  pub decode_auth : String → Option AuthRequestBody
  pub decode_send_coin : String → Option SendCoinRequestBody
  pub store_service : StoreService (Session Users.Tables) AuthError
  pub others : Clients (Session Users.Tables) AuthError

module _ (env : Environment) (library : Jwt.Library) (front : Entrance) where
  -- The clients of a gateway whose logins reach the auth service's server.
  abbrev pub auth_clients : Clients (Session Users.Tables) AuthError
  auth_clients = record (front.others) {
    authenticate =
        auth_app library front.raise front.argon (auth_main env).1 front.issued front.salt;
  }

  abbrev pub login_answer : String → Session Users.Tables → Response × Session Users.Tables
  login_answer json s =
      serve_http front.from_error front.decode_auth front.decode_send_coin
        (auth_adapter auth_clients) front.store_service front.header (login json) s

  abbrev pub sign_in :
      AuthRequestBody → Session Users.Tables → Result AuthError AuthResponse × Session Users.Tables
  sign_in body s =
      auth_app library front.raise front.argon (auth_main env).1 front.issued front.salt
        (record { username = body.username; password = body.password }) s

token-injective : {a b : String} → Domain.token a ≡ Domain.token b → a ≡ b
token-injective e = cc

no_token :
    (o : Option (Code × String)) (token : String)
    → auth_error_response o ≡ record { status = status_ok; body = Domain.token token }
    → ⊥
unfolding auth_error_response
no_token o token h = ground (arith, ap (λ r. r.body) h)

answered_token :
    (from_error : AuthError → Option (Code × String))
    (p : Result AuthError AuthResponse × Session Users.Tables) (token : String)
    → (respond
        (λ e. auth_error_response (from_error e))
        (λ t. record { status = status_ok; body = Domain.token t })
        (answer (λ resp. resp.token) p)).0
      ≡ record { status = status_ok; body = Domain.token token }
    → p.0 ≡ ok (record { token = token })
answered_token from_error (ok a, w) token h =
    ap (λ t. ok (record { token = t })) (token-injective (ap (λ r. r.body) h))
answered_token from_error (err e, w) token h = absurd (no_token (from_error e) token h)

answered_state :
    (on_error : AuthError → Response) (on_ok : String → Response)
    (p : Result AuthError AuthResponse × Session Users.Tables)
    → (respond on_error on_ok (answer (λ resp. resp.token) p)).1 ≡ p.1
answered_state on_error on_ok (ok a, w) = refl
answered_state on_error on_ok (err e, w) = refl

authenticate_bound :
    {W E : Type 0} (from_error : E → Option (Code × String))
    (decode : String → Option AuthRequestBody) (service : AuthService W E) (ctx : Context)
    (json : String) (body : AuthRequestBody) (w : W)
    → bind_auth decode json ≡ some body
    → authenticate from_error decode service ctx json w
      ≡ respond
          (λ e. auth_error_response (from_error e))
          (λ t. record { status = status_ok; body = Domain.token t })
          (service.authenticate ctx body.username body.password w)
unfolding authenticate
authenticate_bound from_error decode service ctx json body w bound = rw (authenticate, bound) refl

module _ (env : Environment) (library : Jwt.Library) (front : Entrance) (json : String)
    (body : AuthRequestBody) (bound : bind_auth front.decode_auth json ≡ some body)
    (s : Session Users.Tables) where
  logged_in :
      login_answer env library front json s
      ≡ respond
          (λ e. auth_error_response (front.from_error e))
          (λ t. record { status = status_ok; body = Domain.token t })
          (answer (λ resp. resp.token) (sign_in env library front body s))
  unfolding serve_http auth_adapter
  logged_in =
      authenticate_bound front.from_error front.decode_auth
        (auth_adapter (auth_clients env library front)) (record { token = none; outgoing = [] })
        json body s bound

  pub login_state : (login_answer env library front json s).1 ≡ (sign_in env library front body s).1
  login_state = ap (λ p. p.1) logged_in ∙ answered_state _ _ (sign_in env library front body s)

  pub login_token :
      (token : String)
      → (login_answer env library front json s).0
        ≡ record { status = status_ok; body = Domain.token token }
      → (sign_in env library front body s).0 ≡ ok (record { token = token })
  login_token token h =
      answered_token front.from_error (sign_in env library front body s) token
        (sym (ap (λ p. p.0) logged_in) ∙ h)
