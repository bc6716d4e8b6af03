-- ===== src/Errors.antt =====
-- internal/errors/errors.go: typed errors. The messages are left out.
use backup_restore.Prelude.{String, Bool, false}

-- An `error`: an OperatorError, perhaps wrapped, or any other.
pub data Failure : Type 0 where
  operator_error : (code : String) (retryable : Bool) → Failure
  other_error : Failure

abbrev pub code_internal : String
code_internal = "BR-INTERNAL-001"

unfoldable pub error_code : Failure → String
error_code (operator_error code retryable) = code
error_code other_error = code_internal

unfoldable pub is_retryable : Failure → Bool
is_retryable (operator_error code retryable) = retryable
is_retryable other_error = false

-- What a call to the cluster, the repository or the workspace ends with.
pub data Io {ℓ} (A : Type ℓ) : Type ℓ where
  done : A → Io A
  failed : Failure → Io A
