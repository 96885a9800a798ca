-- ===== src/Errors.antt =====
-- Go's error values, as the services build and inspect them: a domain error, `fmt.Errorf` with
-- `%w`, `pgx.ErrNoRows`, an error of the database, and a gRPC status. `D` is the sum of the domain
-- error types of one service.
use Prim.Native.String.{◌++◌}
use merch_store.Base.{Bool, true, false, String}

-- The gRPC codes that the sources name.
pub data Code : Type 0 where
  invalid_argument not_found failed_precondition internal unauthenticated deadline_exceeded
        unavailable :
      Code

-- Why the database refuses a statement. `connection`: the statement or its answer was lost.
pub data SqlError : Type 0 where
  unique_violation check_violation foreign_key_violation out_of_range too_long : SqlError
  transaction_aborted connection : SqlError

pub data Error {ℓ} (D : Type ℓ) : Type ℓ where
  domain : D → Error D
  wrapped : String → Error D → Error D
  no_rows : Error D
  sql : SqlError → Error D
  scan_failed : Error D
  status : Code → String → Error D

module _ {ℓ} {D : Type ℓ} where
  -- `errors.Is(err, &T{})`, where `kind` is the method `Is` of the domain types at the target `&T{}`.
  unfoldable pub errors_is : (D → Bool) → Error D → Bool
  errors_is kind (domain d) = kind d
  errors_is kind (wrapped _ e) = errors_is kind e
  errors_is kind _ = false

  -- `errors.Is(err, pgx.ErrNoRows)`
  unfoldable pub is_no_rows : Error D → Bool
  is_no_rows no_rows = true
  is_no_rows (wrapped _ e) = is_no_rows e
  is_no_rows _ = false

  -- `err.Error()`. The texts of errors that no code of the services builds are a parameter.
  unfoldable pub error_text : (D → String) → (Error D → String) → Error D → String
  error_text text other (domain d) = text d
  error_text text other (wrapped m e) = m ++ ": " ++ error_text text other e
  error_text text other e = other e
