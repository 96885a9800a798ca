-- ===== src/Auth/Domain.antt =====
-- internal/auth/domain: errors, users and the password hasher. The library argon2id is a parameter.
use merch_store.Base.{ℕ, Bool, true, false, String, Result, ◌*◌}
use merch_store.Base.Int.{ℤ}
use merch_store.Errors.{Error}

-- domain/errors.go: one constructor for each error type, with its `Msg`.
pub data DomainError : Type 0 where
  credentials_mismatch user_not_found : String → DomainError

abbrev pub AuthError : Type 0
AuthError = Error DomainError

-- The methods `Is`, by the type of their target.
unfoldable pub is_credentials_mismatch : DomainError → Bool
is_credentials_mismatch (credentials_mismatch _) = true
is_credentials_mismatch _ = false

unfoldable pub is_user_not_found : DomainError → Bool
is_user_not_found (user_not_found _) = true
is_user_not_found _ = false

pub record UserInfo : Type 0 where
  pub id : ℤ
  pub username : String
  pub password_hash : String

-- The interface `PasswordHasher`.
pub record PasswordHasher : Type 0 where
  pub hash_password : String → Result AuthError String
  pub verify_password : String → String → Result AuthError Bool

pub record Params : Type 0 where
  pub memory : ℕ
  pub iterations : ℕ
  pub parallelism : ℕ
  pub salt_length : ℕ
  pub key_length : ℕ

abbrev pub optimized_params : Params
optimized_params = record {
  memory = 19 * 1024;
  iterations = 2;
  parallelism = 1;
  salt_length = 16;
  key_length = 32;
}

-- What the service calls of argon2id: `CreateHash`, whose salt is random and comes in as the first
-- argument, and `ComparePasswordAndHash`.
pub record Argon2id : Type 0 where
  pub create_hash : String → String → Params → Result AuthError String
  pub compare_password_and_hash : String → String → Result AuthError Bool

-- `ArgonPasswordHasher`
unfoldable pub argon_password_hasher : Argon2id → String → PasswordHasher
argon_password_hasher library salt = record {
  hash_password = λ password. library.create_hash salt password optimized_params;
  verify_password = library.compare_password_and_hash;
}
