-- ===== src/Models/Failures.antt =====
-- common/models/failures.py
use numi_dba_agent.Common.{
  String, List, [], ◌∷◌, Option, none, some, ◌≡◌, refl, ◌==◌, string_eq, Eq, if◌then◌else◌,
}

pub data FailureCode : Type 0 where
  authentication_failed unauthorized tool_not_found tool_not_available : FailureCode
  invalid_arguments invalid_target policy_denied : FailureCode
  approval_required approval_expired approval_invalid approval_mismatch : FailureCode
  approval_already_decided separation_of_duties_violation dual_approval_required : FailureCode
  rate_limited database_unavailable execution_timeout execution_failed : FailureCode
  verification_failed result_truncated security_blocked preflight_failed : FailureCode
  state_changed_reapproval_required dependency_unavailable change_ticket_required : FailureCode

pub FailureCode-discrete : Discrete FailureCode
FailureCode-discrete = hlevel

instance abbrev pub failure_code_eq : Eq FailureCode
failure_code_eq = record { dec = FailureCode-discrete }

-- What a handler raises: a `NumiError`, by its code, or any other exception, which no handler of
-- the Gateway catches.
pub data Error : Type 0 where
  numi_error : FailureCode → Error
  uncaught : Error

-- `code.value`
unfoldable pub failure_code_value : FailureCode → String
failure_code_value authentication_failed = "AUTHENTICATION_FAILED"
failure_code_value unauthorized = "UNAUTHORIZED"
failure_code_value tool_not_found = "TOOL_NOT_FOUND"
failure_code_value tool_not_available = "TOOL_NOT_AVAILABLE"
failure_code_value invalid_arguments = "INVALID_ARGUMENTS"
failure_code_value invalid_target = "INVALID_TARGET"
failure_code_value policy_denied = "POLICY_DENIED"
failure_code_value approval_required = "APPROVAL_REQUIRED"
failure_code_value approval_expired = "APPROVAL_EXPIRED"
failure_code_value approval_invalid = "APPROVAL_INVALID"
failure_code_value approval_mismatch = "APPROVAL_MISMATCH"
failure_code_value approval_already_decided = "APPROVAL_ALREADY_DECIDED"
failure_code_value separation_of_duties_violation = "SEPARATION_OF_DUTIES_VIOLATION"
failure_code_value dual_approval_required = "DUAL_APPROVAL_REQUIRED"
failure_code_value rate_limited = "RATE_LIMITED"
failure_code_value database_unavailable = "DATABASE_UNAVAILABLE"
failure_code_value execution_timeout = "EXECUTION_TIMEOUT"
failure_code_value execution_failed = "EXECUTION_FAILED"
failure_code_value verification_failed = "VERIFICATION_FAILED"
failure_code_value result_truncated = "RESULT_TRUNCATED"
failure_code_value security_blocked = "SECURITY_BLOCKED"
failure_code_value preflight_failed = "PREFLIGHT_FAILED"
failure_code_value state_changed_reapproval_required = "STATE_CHANGED_REAPPROVAL_REQUIRED"
failure_code_value dependency_unavailable = "DEPENDENCY_UNAVAILABLE"
failure_code_value change_ticket_required = "CHANGE_TICKET_REQUIRED"

abbrev all_codes : List FailureCode
all_codes =
    authentication_failed ∷ unauthorized ∷ tool_not_found ∷ tool_not_available ∷ invalid_arguments
    ∷ invalid_target ∷ policy_denied ∷ approval_required ∷ approval_expired ∷ approval_invalid
    ∷ approval_mismatch ∷ approval_already_decided ∷ separation_of_duties_violation
    ∷ dual_approval_required ∷ rate_limited ∷ database_unavailable ∷ execution_timeout
    ∷ execution_failed ∷ verification_failed ∷ result_truncated ∷ security_blocked
    ∷ preflight_failed ∷ state_changed_reapproval_required ∷ dependency_unavailable
    ∷ change_ticket_required ∷ []

find_code : String → List FailureCode → Option FailureCode
unfolding failure_code_value
find_code text [] = none
find_code text (c ∷ cs) = if failure_code_value c == text then some c else find_code text cs

-- `FailureCode(text)`; `none` stands for the `ValueError`
unfoldable pub failure_code_of : String → Option FailureCode
unfolding find_code
failure_code_of text = find_code text all_codes

-- the value of every code is read back as that code
pub failure_code_of-value : (c : FailureCode) → failure_code_of (failure_code_value c) ≡ some c
unfolding failure_code_of string_eq
failure_code_of-value authentication_failed = refl
failure_code_of-value _ = refl
