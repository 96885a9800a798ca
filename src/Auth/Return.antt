-- ===== src/Auth/Return.antt =====
-- A user that has signed in signs in again with the same password and gets a token for the same id.
use merch_store.Base.{
  ℕ, ◌≡◌, refl, true, String, some, List, [], ◌∷◌, Result, ok, err, arith, inl, inr, string_keys,
  eq_iff,
}
use merch_store.Base.Int.{ℤ}
use merch_store.Database.{Session, run}
use merch_store.Auth.Domain.{AuthError, UserInfo, PasswordHasher}
use merch_store.Auth.Users.{
  Tables, find_user, user_named, try_get_user_info, select_user, found_or_error,
}
use merch_store.Auth.Authenticator.{
  authenticate, sign_in, check_password, known_or_mismatch, token_time_limit,
}
use merch_store.Auth.Accounts.{SignsIn, Outcome, authenticate-Outcome}
use merch_store.Auth.Registry.{IsValid, SignsIn_named, Outcome-kept, sign_in_all, sign_in_all_kept}

-- What argon2id documents: a password fits the hash made of it.
abbrev pub Matches : PasswordHasher → Type 0
Matches hasher =
    (password hash : String)
    → hasher.hash_password password ≡ ok hash
    → hasher.verify_password password hash ≡ ok true

pub user_named_ok :
    (name : String) (us : List UserInfo) {user : UserInfo}
    → user_named name us ≡ some user
    → user.username ≡ name
unfolding find_user
user_named_ok name [] h = cc
user_named_ok name (u ∷ us) {user} h =
    ground (arith, user_named_ok name us {user = user}, eq_iff u.username name)

module _ (hasher : PasswordHasher) (laws : Matches hasher) (name password : String) where
  SignsIn-verifies :
      (t : Tables) (user : UserInfo) (u : Tables)
      → SignsIn hasher name password t user u
      → hasher.verify_password password user.password_hash ≡ ok true
  SignsIn-verifies t user u (inl (_, valid, _)) = valid
  SignsIn-verifies t user u (inr (_, (hash, hashed, is_new, _))) =
      rw is_new (laws password hash hashed)

  module _ (issue_token : ℤ → String → ℕ → Result AuthError String) where
    known_signs_in :
        (user : UserInfo) (s : Session Tables)
        → user_named name s.committed.users ≡ some user
        → hasher.verify_password password user.password_hash ≡ ok true
        → (authenticate hasher issue_token name password (record s { fates = [] })).0
          ≡ issue_token user.id name token_time_limit
    unfolding authenticate try_get_user_info run select_user found_or_error sign_in check_password
        known_or_mismatch
    known_signs_in user s known valid =
        rw (known, valid, user_named_ok name s.committed.users known) refl

    granted_again :
        (s : Session Tables) (r : Result AuthError String) (s' : Session Tables) (token : String)
        (logins : List (String × String))
        → r ≡ ok token
        → Outcome hasher name password issue_token s.committed r s'.committed
        → IsValid s.committed
        → (id : ℤ) × (issue_token id name token_time_limit ≡ ok token)
          × ((authenticate hasher issue_token name password
                (record (sign_in_all hasher issue_token logins s') { fates = [] })).0
              ≡ issue_token id name token_time_limit)
    granted_again s (err x) s' token logins e o v = cc
    granted_again s (ok token') s' token logins e o v =
        let h = o.signs_in in
        let named = SignsIn_named hasher name password s.committed s'.committed o.user h in
        let (v', _) =
          Outcome-kept hasher issue_token name password s.committed (ok token') s'.committed o v in
        let (_, kept) = sign_in_all_kept hasher issue_token logins s' v' in
        (
          o.user.id,
          ground (arith, o.issued, user_named_ok name s'.committed.users named, e),
          known_signs_in o.user (sign_in_all hasher issue_token logins s') (kept name o.user named)
              (SignsIn-verifies s.committed o.user s'.committed h),
        )

    -- If a password fits its own hash and the table of users is well formed, whoever has got a
    -- token for a name and a password gets, after any other sign-ins and if the database does not
    -- fail, what the issuer gives for the same id and name.
    pub authenticate_again :
        (s : Session Tables) (token : String) (logins : List (String × String))
        → IsValid s.committed
        → (authenticate hasher issue_token name password s).0 ≡ ok token
        → let (r, s') = authenticate hasher issue_token name password s in
          (id : ℤ) × (issue_token id name token_time_limit ≡ ok token)
          × ((authenticate hasher issue_token name password
                (record (sign_in_all hasher issue_token logins s') { fates = [] })).0
              ≡ issue_token id name token_time_limit)
    authenticate_again s token logins v h =
        let (r, s') = authenticate hasher issue_token name password s in
        granted_again s r s' token logins h
          (authenticate-Outcome hasher name password issue_token s) v
