-- ===== src/Store/Admission.antt =====
-- The interceptors of internal/store/grpc in front of a handler: which requests reach it, as whom, and
-- in what state.
use merch_store.Base.{
  ◌≡◌, refl, String, Option, none, some, List, [], ◌∷◌, Result, ok, err, arith, Assoc, lookup,
  string_keys, ◌⊎◌, inl, inr, Result-cases, Option-cases,
}
use merch_store.Errors.{Code, status, internal, unauthenticated}
use merch_store.Jwt.{Claims, JwtError, token_metadata_key}
use merch_store.Database.{Session}
use merch_store.Store.Domain.{StoreError, start_balance}
use merch_store.Store.Tables.{Tables}
use merch_store.Store.Repositories.{ensure_balance_created}
use merch_store.Store.Interceptors.{
  Context, Handler, get_user_token, token_in, token_of, values_of, claims_or_status,
  auth_interceptor, balance_interceptor, with_user, chain,
}

-- The metadata of a request has a token: the first value under its key.
abbrev pub HasToken : Context → String → Type 0
HasToken ctx token =
    (md : Assoc String (List String)) × (rest : List String) × (ctx.metadata ≡ some md)
    × (lookup token_metadata_key md ≡ some (token ∷ rest))

HasToken-unique : (ctx : Context) (a b : String) → HasToken ctx a → HasToken ctx b → a ≡ b
HasToken-unique ctx a b (md, rest, given, e) (md', rest', given', e') = ground arith

-- A token that is found is the one that `get_user_token` returns.
abbrev FindsToken : Context → Type 0
FindsToken ctx =
    ((token : String) × HasToken ctx token × (get_user_token ctx ≡ ok token))
    ⊎ (((token : String) → HasToken ctx token → ⊥)
        × ((e : StoreError) × (get_user_token ctx ≡ err e)))

finds_value :
    (ctx : Context) (md : Assoc String (List String)) (values : Option (List String))
    → ctx.metadata ≡ some md
    → lookup token_metadata_key md ≡ values
    → FindsToken ctx
unfolding get_user_token token_in token_of values_of
finds_value ctx md none given e = inr (
  (λ token (md', rest, given', e'). ground arith),
  (status unauthenticated "authorization token is missing", rw (given, e) refl),
)
finds_value ctx md (some []) given e = inr (
  (λ token (md', rest, given', e'). ground arith),
  (status unauthenticated "authorization token is missing", rw (given, e) refl),
)
finds_value ctx md (some (token ∷ rest)) given e =
    inl (token, (md, rest, given, e), rw (given, e) refl)

get_user_token_lem : (ctx : Context) → FindsToken ctx
unfolding get_user_token token_in
get_user_token_lem ctx = elim (Option-cases ctx.metadata) [
  | inl absent ↦ inr (
    (λ token (md, rest, e, _). ground arith),
    (status unauthenticated "metadata is empty", rw absent refl),
  )
  | inr (md, given) ↦ finds_value ctx md (lookup token_metadata_key md) given refl
]

module _ {A : Type 0} (parse_token : String → Result JwtError Claims) (handler : Handler A)
    (ctx : Context) (s : Session Tables) where
  -- The request is answered with an error and nothing is sent to the database.
  abbrev pub Refused : Type 0
  Refused =
      (code : Code) × (message : String) × (chain parse_token handler ctx s
        ≡ (err (status code message), s))

  -- The request goes on as the user of the claims, after the balance was ensured.
  abbrev pub GoesOn : Claims → Type 0
  GoesOn claims =
      let (r, s') = ensure_balance_created claims.user_id start_balance s in
      ((r ≡ ok tt)
        × (chain parse_token handler ctx s
            ≡ handler (record ctx { user_id = some claims.user_id }) s'))
      ⊎ ((e : StoreError) × (r ≡ err e)
          × (chain parse_token handler ctx s ≡ (err (status internal "internal error"), s')))

  abbrev pub Accepted : Type 0
  Accepted =
      (token : String) × (claims : Claims) × HasToken ctx token × (parse_token token ≡ ok claims)

  pub goes_on :
      (token : String) (claims : Claims)
      → get_user_token ctx ≡ ok token
      → parse_token token ≡ ok claims
      → (r : Result StoreError (Unit {0})) (s' : Session Tables)
      → ensure_balance_created claims.user_id start_balance s ≡ (r, s')
      → GoesOn claims
  unfolding chain auth_interceptor balance_interceptor with_user claims_or_status
  goes_on token claims found parsed (ok a) s' e = inl (rw e refl, rw (found, parsed, e) refl)
  goes_on token claims found parsed (err x) s' e = inr (x, rw e refl, rw (found, parsed, e) refl)

  refused_parse :
      (token : String) (x : JwtError)
      → get_user_token ctx ≡ ok token
      → parse_token token ≡ err x
      → Refused
  unfolding chain auth_interceptor claims_or_status
  refused_parse token x found failed = (unauthenticated, "invalid token", rw (found, failed) refl)

  refused_missing : (x : StoreError) → get_user_token ctx ≡ err x → Refused
  unfolding chain auth_interceptor
  refused_missing x missing = (internal, "internal error", rw missing refl)

  -- The store's server lets a request through exactly with a token in its metadata that parses:
  -- as the user of the token's claims, and only after that user's balance was ensured. Any other
  -- request it answers with an error, and the database is not touched.
  pub chain_exact :
      ((token : String) × (claims : Claims) × HasToken ctx token
        × (parse_token token ≡ ok claims)
        × GoesOn claims)
      ⊎ ((Accepted → ⊥) × Refused)
  chain_exact = elim (get_user_token_lem ctx) [
    | inl (token, has, found) ↦ elim (Result-cases (parse_token token)) [
      | inl (claims, parsed) ↦
          let (r, s') = ensure_balance_created claims.user_id start_balance s in
          inl (token, claims, has, parsed, goes_on token claims found parsed r s' refl)
      | inr (x, failed) ↦ inr (
        (λ (token', claims, has', parsed).
            ground (arith, HasToken-unique ctx token token' has has')),
        refused_parse token x found failed,
      )
    ]
    | inr (tokenless, (e, missing)) ↦
        inr ((λ (token, claims, has, parsed). tokenless token has), refused_missing e missing)
  ]
