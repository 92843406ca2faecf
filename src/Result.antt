-- ===== src/Result.antt =====
-- The exceptions of sovereignflow/domain/errors.py, and results that may be one. An error carries
-- its class and its message; the parts that an f-string interpolates into a message are left out.
use sovereign_flow.Prelude.{ℕ, String, ◌≡◌, refl, Bool, true, false}

pub data ErrorClass : Type 0 where
  sovereignflow_error validation_error policy_violation domain_not_found : ErrorClass
  provider_protocol_error dependency_unavailable configuration_error : ErrorClass
  pipeline_definition_error pipeline_execution_error conflict ingestion_error : ErrorClass
  authentication_error : ErrorClass

-- `foreign` is any exception that is no `SovereignFlowError`.
pub data Error : Type 0 where
  raised : ErrorClass → String → Error
  foreign : String → Error

-- The class attribute `code`.
abbrev pub class_code : ErrorClass → String
class_code ErrorClass.sovereignflow_error = "sovereignflow_error"
class_code ErrorClass.validation_error = "validation_error"
class_code ErrorClass.policy_violation = "policy_violation"
class_code ErrorClass.domain_not_found = "domain_not_found"
class_code ErrorClass.provider_protocol_error = "provider_protocol_error"
class_code ErrorClass.dependency_unavailable = "dependency_unavailable"
class_code ErrorClass.configuration_error = "configuration_error"
class_code ErrorClass.pipeline_definition_error = "pipeline_definition_error"
class_code ErrorClass.pipeline_execution_error = "pipeline_execution_error"
class_code ErrorClass.conflict = "conflict"
class_code ErrorClass.ingestion_error = "ingestion_error"
class_code ErrorClass.authentication_error = "authentication_error"

-- The class attribute `http_status`.
abbrev pub http_status : ErrorClass → ℕ
http_status ErrorClass.sovereignflow_error = 500
http_status ErrorClass.validation_error = 400
http_status ErrorClass.policy_violation = 403
http_status ErrorClass.domain_not_found = 404
http_status ErrorClass.provider_protocol_error = 502
http_status ErrorClass.dependency_unavailable = 503
http_status ErrorClass.configuration_error = 500
http_status ErrorClass.pipeline_definition_error = 500
http_status ErrorClass.pipeline_execution_error = 500
http_status ErrorClass.conflict = 409
http_status ErrorClass.ingestion_error = 500
http_status ErrorClass.authentication_error = 401

abbrev pub validation : String → Error
validation m = raised ErrorClass.validation_error m

abbrev pub policy_violated : String → Error
policy_violated m = raised ErrorClass.policy_violation m

abbrev pub bad_definition : String → Error
bad_definition m = raised ErrorClass.pipeline_definition_error m

abbrev pub bad_execution : String → Error
bad_execution m = raised ErrorClass.pipeline_execution_error m

abbrev pub not_found : String → Error
not_found m = raised ErrorClass.domain_not_found m

-- `exc.code if isinstance(exc, SovereignFlowError) else "internal_error"`
unfoldable pub error_code : Error → String
error_code (raised c message) = class_code c
error_code (foreign message) = "internal_error"

-- `exc.safe_message`, or the text for any other exception.
unfoldable pub error_message : String → Error → String
error_message unknown (raised c message) = message
error_message unknown (foreign message) = unknown

pub data Result {ℓ} (A : Type ℓ) : Type ℓ where
  ok : A → Result A
  err : Error → Result A

abbrev pub is_ok {ℓ} : {A : Type ℓ} → Result A → Bool
is_ok (ok a) = true
is_ok (err e) = false

pub ok_injective {ℓ} : {A : Type ℓ} {a b : A} → ok a ≡ ok b → a ≡ b
ok_injective h = cc

-- `if not test: raise error`
abbrev pub guard : (test : Bool) (error : Error) → Result (Unit {0})
guard false error = err error
guard true _ = ok tt

pub guard-true : (t : Bool) (e : Error) {u : Unit {0}} → guard t e ≡ ok u → t ≡ true
guard-true true e h = refl
guard-true false e h = cc

infixl 5 ◌>>=◌ ◌>>◌
-- What follows a call that may raise: an exception is passed on.
abbrev pub ◌>>=◌ {κ ℓ} : {B : Type κ} {A : Type ℓ} → Result B → (B → Result A) → Result A
err raised_error >>= rest = err raised_error
ok value >>= rest = rest value

-- A call that returns as a whole has returned in both of its parts.
pub >>=-eq-ok {κ ℓ} :
    {B : Type κ} {A : Type ℓ} (first : Result B) (rest : B → Result A) {value : A}
    → (first >>= rest) ≡ ok value
    → (b : B) × (first ≡ ok b) × (rest b ≡ ok value)
>>=-eq-ok (err e) rest h = cc
>>=-eq-ok (ok b) rest h = (b, refl, h)

abbrev pub ◌>>◌ {ℓ} : {A : Type ℓ} (check : Result (Unit {0})) (after : Result A) → Result A
check >> after = check >>= λ done. after

pub guard-eq-ok {ℓ} :
    {B : Type ℓ} (t : Bool) (e : Error) (r : Result B) {b : B}
    → (guard t e >> r) ≡ ok b
    → (t ≡ true) × (r ≡ ok b)
guard-eq-ok false e r h = cc
guard-eq-ok true e r h = (refl, h)
