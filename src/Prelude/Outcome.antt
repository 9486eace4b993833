-- ===== src/Prelude/Outcome.antt =====
-- Results of handlers that throw one of the HTTP exceptions of the framework.

-- The exception classes, by the status that the framework answers with.
pub data Exception : Type 0 where
  bad_request unauthorized forbidden not_found : Exception
  -- any other error: of the database or of the hash function
  internal_error : Exception

pub data Outcome {ℓ} (A : Type ℓ) : Type ℓ where
  ok : A → Outcome A
  throw : Exception → Outcome A

-- One step after another: an exception ends the chain.
infixl 5 ◌>>◌
abbrev pub ◌>>◌ {ℓ} : {B : Type ℓ} → Outcome (Unit {0}) → Outcome B → Outcome B
ok done >> next = next
throw e >> next = throw e
