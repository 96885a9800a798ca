-- ===== src/Auth/Authenticator.antt =====
-- internal/auth/application/auth_case.go
use merch_store.Base.{ℕ, Bool, true, false, String, Option, none, some, Result, ok, err, ◌*◌}
use merch_store.Base.Int.{ℤ}
use merch_store.Errors.{domain}
use merch_store.Database.{◌>>=◌, lift}
use merch_store.Auth.Domain.{AuthError, credentials_mismatch, UserInfo, PasswordHasher}
use merch_store.Auth.Users.{AuthAction, create_user, try_get_user_info}

-- time.Hour, in seconds
abbrev pub token_time_limit : ℕ
token_time_limit = 60 * 60

module _ (hasher : PasswordHasher) where
  -- The user that signs in for the first time is registered.
  unfoldable pub register : String → String → AuthAction UserInfo
  register username password = do
    hashed_password ← lift (hasher.hash_password password)
    create_user username hashed_password

  unfoldable pub known_or_mismatch : UserInfo → Bool → Result AuthError UserInfo
  known_or_mismatch user true = ok user
  known_or_mismatch user false =
      err (domain (credentials_mismatch "username or password is incorrect"))

  unfoldable pub check_password : UserInfo → String → AuthAction UserInfo
  unfolding known_or_mismatch
  check_password user password = do
    valid ← lift (hasher.verify_password password user.password_hash)
    lift (known_or_mismatch user valid)

  unfoldable pub sign_in : String → String → Option UserInfo → AuthAction UserInfo
  unfolding register check_password
  sign_in username password none = register username password
  sign_in username password (some user) = check_password user password

  -- `Authenticator.Authenticate`; the first argument is `IssueToken` with the service's secret.
  unfoldable pub authenticate :
      (ℤ → String → ℕ → Result AuthError String) → String → String → AuthAction String
  unfolding sign_in
  authenticate issue_token username password = do
    found ← try_get_user_info username
    user_info ← sign_in username password found
    lift (issue_token user_info.id user_info.username token_time_limit)
