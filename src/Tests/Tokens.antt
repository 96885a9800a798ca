-- ===== src/Tests/Tokens.antt =====
-- A token library that knows one token, with which the theorems on internal/pkg/jwt apply.
use merch_store.Base.{
  ℕ, ◌≡◌, refl, ◌<◌, ◌&&◌, Bool, true, false, String, Option, some, Result, ok, err, ◌==◌,
  string_keys, int_keys, arith, if◌then◌else◌, eq_iff, ltb, eqb,
}
use merch_store.Base.Int.{pos, eqb_ℤ_iff, eqb_ℤ}
use merch_store.Base.Words.{show_int}
use merch_store.Jwt.{
  Claims, JwtError, other, SigningMethod, hmac, another, hs256, Library, issue_token, parse_token,
}
use merch_store.Jwt.Tokens.{IsLibrary, parse_token-issue_token}

abbrev pub the_claims : Claims
the_claims = record {
  user_id = pos 1;
  username = "alice";
  subject = "1";
  issued_at = 100;
  expires_at = 3700;
}

abbrev is_claims : Claims → Bool
is_claims c =
    eqb_ℤ c.user_id (pos 1)
    && c.username == "alice"
    && c.subject == "1"
    && eqb c.issued_at 100
    && eqb c.expires_at 3700

is_claims_ok : (c : Claims) → is_claims c ≡ true → c ≡ the_claims
is_claims_ok c h =
    ground (arith, eqb_ℤ_iff c.user_id (pos 1), eq_iff c.username "alice", eq_iff c.subject "1")

abbrev signs : SigningMethod → Claims → String → Bool
signs (hmac name) c key = name == "HS256" && is_claims c && key == "secret"
signs (another name) c key = false

abbrev answer_for : Result JwtError String → Result JwtError (Option Claims × Bool)
answer_for (ok key) =
    if key == "secret" then ok (some the_claims, true) else err (other "signature is invalid")
answer_for (err e) = err e

abbrev pub one_token : Library
one_token = record {
  signed_string =
      λ method claims key. if signs method claims key then ok "token" else err (other "no key");
  parse_with_claims = λ now token key_func.
      if token == "token" && ltb now 3700
      then answer_for (key_func hs256)
      else err (other "token is malformed or expired");
}

signs_ok :
    (m : SigningMethod) (c : Claims) (key : String)
    → signs m c key ≡ true
    → (m ≡ hs256) × (c ≡ the_claims) × (key ≡ "secret")
signs_ok (hmac name) c key h =
    ground (arith, eq_iff name "HS256", eq_iff key "secret", is_claims_ok c)
signs_ok (another name) c key h = cc

answer_ok :
    (r : Result JwtError String) {c : Claims}
    → answer_for r ≡ ok (some c, true)
    → (r ≡ ok "secret") × (c ≡ the_claims)
answer_ok (ok key) h = ground (arith, eq_iff key "secret")
answer_ok (err e) h = cc

parsed_ok :
    (now : ℕ) (token : String) (key_func : SigningMethod → Result JwtError String) {c : Claims}
    → one_token.parse_with_claims now token key_func ≡ ok (some c, true)
    → (token ≡ "token") × (now < 3700) × (answer_for (key_func hs256) ≡ ok (some c, true))
parsed_ok now token key_func h = ground (arith, eq_iff token "token")

signs_the_claims : one_token.signed_string hs256 the_claims "secret" ≡ ok "token"
unfolding eqb_ℤ
signs_the_claims = refl

pub one_token-IsLibrary : IsLibrary one_token
one_token-IsLibrary = record {
  parses = λ method claims key token now key_func signed keyed lt.
      ground (arith, signs_ok method claims key, eq_iff token "token", eq_iff key "secret");
  verifies = λ now token key_func claims h.
      let (is_token, lt, answered) = parsed_ok now token key_func h in
      let (keyed, is_claims') = answer_ok (key_func hs256) answered in
      (hs256, "secret", keyed, rw (is_claims', is_token) signs_the_claims, rw is_claims' lt);
}

issued : issue_token one_token 100 "secret" (pos 1) "alice" 3600 ≡ ok "token"
unfolding issue_token eqb_ℤ show_int
issued = refl

parse_token-issue_token_example : parse_token one_token 200 "secret" "token" ≡ ok the_claims
unfolding show_int
parse_token-issue_token_example =
    parse_token-issue_token one_token one_token-IsLibrary "secret" 100 200 3600 (pos 1) "alice"
      "token" issued (omega arith)
