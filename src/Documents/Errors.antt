-- ===== src/Documents/Errors.antt =====
-- packages/documents/src/documents/domain/exceptions.py and application/exceptions.py: code that may
-- raise returns a `Result`. An exception carries its message where the program reads it again.
use memovi.Prelude.{String, Bool, true, false}

pub data Error : Type 0 where
  invalid_processing_job : String → Error
  invalid_processing_transition : String → Error
  invalid_processing_state : String → Error
  invalid_document_version : String → Error
  processing_job_not_found : Error
  document_not_found : Error
  document_version_not_found : Error
  document_processing : String → Error
  unsupported_processor : String → Error
  transient_document_processing : String → Error
  -- ConnectionError, TimeoutError and OSError of the standard library.
  os_error : String → Error
  value_error : String → Error
  runtime_error : String → Error

pub data Result {ℓ} (A : Type ℓ) : Type ℓ where
  err : Error → Result A
  ok : A → Result A

-- `if not passed: raise e`
abbrev pub require : Error → Bool → Result (Unit {0})
require e false = err e
require e true = ok tt

-- What stands behind a statement runs only if the statement raised nothing.
infixl 5 ◌>>=◌
abbrev pub ◌>>=◌ {ℓ κ} : {A : Type ℓ} {B : Type κ} → Result A → (A → Result B) → Result B
err raised >>= rest = err raised
ok a >>= rest = rest a

infixl 5 ◌>>◌
abbrev pub ◌>>◌ {ℓ} : {B : Type ℓ} → Result (Unit {0}) → Result B → Result B
err raised >> next = err raised
ok done >> next = next
