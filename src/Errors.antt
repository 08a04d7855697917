-- ===== src/Errors.antt =====
-- The exceptions of the program, one constructor for each class that a handler tells apart.
-- (hme.py, database.py, security.py, service.py)
use icloud_code_gateway.Base.{ℕ, String, Outcome}

pub data Exception : Type 0 where
  value_error : Exception
  not_found conflict database_error security_error : Exception
  -- `sqlite3.IntegrityError`: a UNIQUE or PRIMARY KEY constraint
  integrity_error : Exception
  -- `HmeCapacityError(code)` and `HmeRateLimitedError(code, retry_after_seconds)`
  hme_capacity : String → Exception
  hme_rate_limited : String → ℕ → Exception
  hme_network hme_session hme_error : Exception
  gateway_stopping gateway_retryable remote_key_exists key_status_unavailable gateway_error :
      Exception
  -- any other class, by its name
  other : String → Exception

-- `type(exc).__name__`
unfoldable pub type_name : Exception → String
type_name value_error = "ValueError"
type_name not_found = "NotFoundError"
type_name conflict = "ConflictError"
type_name database_error = "DatabaseError"
type_name security_error = "SecurityError"
type_name integrity_error = "IntegrityError"
type_name (hme_capacity code) = "HmeCapacityError"
type_name (hme_rate_limited code seconds) = "HmeRateLimitedError"
type_name hme_network = "HmeNetworkError"
type_name hme_session = "HmeSessionError"
type_name hme_error = "HmeError"
type_name gateway_stopping = "GatewayStoppingError"
type_name gateway_retryable = "GatewayRetryableError"
type_name remote_key_exists = "GatewayRemoteKeyExistsError"
type_name key_status_unavailable = "GatewayKeyStatusUnavailableError"
type_name gateway_error = "GatewayError"
type_name (other name) = name

abbrev pub Result {ℓ} : Type ℓ → Type ℓ
Result A = Outcome Exception A
