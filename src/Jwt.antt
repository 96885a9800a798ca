-- ===== src/Jwt.antt =====
-- internal/pkg/jwt: issuing and parsing tokens. The library golang-jwt is a parameter.
pub mod Tokens
use merch_store.Base.{
  ℕ, ◌+◌, ◌<◌, Bool, true, false, String, Option, none, some, Result, ok, err, ◌≡◌, ◌>>=◌,
}
use merch_store.Base.Int.{ℤ}
use merch_store.Base.Words.{show_int}

abbrev pub token_metadata_key : String
token_metadata_key = "authorization"

-- `Claims` with the registered claims that `IssueToken` sets; times are in seconds.
pub record Claims : Type 0 where
  pub user_id : ℤ
  pub username : String
  pub subject : String
  pub issued_at : ℕ
  pub expires_at : ℕ

pub data JwtError : Type 0 where
  token_unverifiable token_invalid_claims : JwtError
  other : String → JwtError

-- `jwt.SigningMethod`: the HMAC family, whose type ParseToken asks for, or another.
pub data SigningMethod : Type 0 where
  hmac : String → SigningMethod
  another : String → SigningMethod

abbrev pub hs256 : SigningMethod
hs256 = hmac "HS256"

-- What the services use of golang-jwt: `NewWithClaims(…).SignedString` and `ParseWithClaims` at a
-- time, with the key function; the claims of a parsed token and whether it is `Valid`.
pub record Library : Type 0 where
  pub signed_string : SigningMethod → Claims → String → Result JwtError String
  pub parse_with_claims :
      ℕ → String → (SigningMethod → Result JwtError String) → Result JwtError (Option Claims × Bool)

-- The key function of `ParseToken`.
unfoldable pub key_for : String → SigningMethod → Result JwtError String
key_for secret (hmac _) = ok secret
key_for secret (another _) = err token_unverifiable

checked_claims : Option Claims → Bool → Result JwtError Claims
checked_claims (some c) true = ok c
checked_claims _ _ = err token_invalid_claims

module _ (library : Library) (now : ℕ) (secret : String) where
  -- `JWTTokenIssuer.IssueToken`
  unfoldable pub issue_token : ℤ → String → ℕ → Result JwtError String
  issue_token user_id username time_limit =
      library.signed_string hs256
        (record {
          user_id = user_id;
          username = username;
          subject = show_int user_id;
          issued_at = now;
          expires_at = now + time_limit;
        })
        secret

  -- `JWTTokenParser.ParseToken`
  unfoldable pub parse_token : String → Result JwtError Claims
  unfolding checked_claims
  parse_token token_string = do
    (claims, valid) ← library.parse_with_claims now token_string (key_for secret)
    checked_claims claims valid
