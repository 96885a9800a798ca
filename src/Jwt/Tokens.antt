-- ===== src/Jwt/Tokens.antt =====
-- Tokens of internal/pkg/jwt come back as the claims that were issued, until they expire, and a token
-- that is accepted was signed by an HMAC method with the service's own secret.
use merch_store.Base.{ℕ, ◌+◌, ◌<◌, ◌≡◌, refl, true, String, some, Result, ok}
use merch_store.Base.Int.{ℤ}
use merch_store.Base.Words.{show_int}
use merch_store.Jwt.{
  Claims, JwtError, SigningMethod, hs256, Library, key_for, issue_token, parse_token,
}

-- What golang-jwt documents. A signed token parses, with the key that signed it, to its claims and is
-- valid until it expires. A token that parses as valid was signed by the method of its header with
-- the key that the key function gave for that method, and has not expired.
pub record IsLibrary (library : Library) : Type 0 where
  pub parses :
      (method : SigningMethod) (claims : Claims) (key token : String) (now : ℕ)
      (key_func : SigningMethod → Result JwtError String)
      → library.signed_string method claims key ≡ ok token
      → key_func method ≡ ok key
      → now < claims.expires_at
      → library.parse_with_claims now token key_func ≡ ok (some claims, true)
  pub verifies :
      (now : ℕ) (token : String) (key_func : SigningMethod → Result JwtError String)
      (claims : Claims)
      → library.parse_with_claims now token key_func ≡ ok (some claims, true)
      → (method : SigningMethod) × (key : String) × (key_func method ≡ ok key)
        × (library.signed_string method claims key ≡ ok token)
        × (now < claims.expires_at)

module _ (library : Library) (laws : IsLibrary library) (secret : String) where
  -- If golang-jwt keeps its laws, an issued token parses to its user's claims, with the same secret, until its time limit.
  pub parse_token-issue_token :
      (issued now limit : ℕ) (user_id : ℤ) (username token : String)
      → issue_token library issued secret user_id username limit ≡ ok token
      → now < issued + limit
      → parse_token library now secret token
        ≡ ok (record {
          user_id = user_id;
          username = username;
          subject = show_int user_id;
          issued_at = issued;
          expires_at = issued + limit;
        })
  unfolding parse_token issue_token key_for
  parse_token-issue_token issued now limit user_id username token h lt =
      rw (laws.parses hs256 _ secret token now (key_for secret) h refl lt)
