-- ===== src/Reliability/Failures.antt =====
-- `classify_failure` of reliability/failures.py. Seconds are in whole microseconds.
use Prim.Native.String as Native
use Prim.Native.Char.{code}
use text.Mathlib.Text.{find? as text_find?}
use mura_project.Prelude.{
  ℕ, ◌+◌, ◌*◌, String, Bool, true, false, ◌&&◌, ◌||◌, not, Option, none, some, if◌then◌else◌, ltb,
  leb, ◌==◌, is_some, str_eq,
}

pub data FailureDisposition : Type 0 where
  retry terminal : FailureDisposition

pub data FailureCategory : Type 0 where
  provider_rate_limit provider_timeout provider_server_error provider_auth_error : FailureCategory
  provider_invalid_request storage_timeout storage_unavailable storage_auth_error : FailureCategory
  storage_invalid_request grounding_blocked lease_lost canceled unknown_error : FailureCategory

pub record ClassifiedFailure : Type 0 where
  pub category : FailureCategory
  pub disposition : FailureDisposition
  pub error_code : String
  pub error_detail : String
  pub retry_after_seconds : Option ℕ

-- `is_retryable`
abbrev pub is_retry : FailureDisposition → Bool
is_retry retry = true
is_retry terminal = false

-- `StorageDeleteError` of storage/storage_errors.py
pub record StorageDeleteError : Type 0 where
  pub code : String
  pub retryable : Bool
  pub retry_after_seconds : Option ℕ

pub record Response : Type 0 where
  pub status_code : Option ℕ
  pub retry_after : Option String

-- `__cause__`
pub record Cause : Type 0 where
  pub type_name : String
  pub response : Option Response

-- An exception, with what the classification asks of it: its text, the name of its type, whether it is an
-- instance of the classes that it names, its response and its cause.
pub record PyException : Type 0 where
  pub text : String
  pub type_name : String
  pub storage_delete : Option StorageDeleteError
  pub is_lease_lost : Bool
  pub is_snapshot_closure : Bool
  pub is_timeout_or_connection : Bool
  pub response : Option Response
  pub cause : Option Cause

-- What the code takes from Python: Unicode's classes and cases, and `float(...)`, which gives the sign and the
-- amount of a number of seconds.
pub record Python : Type 0 where
  pub is_word : ℕ → Bool
  pub is_digit : ℕ → Bool
  pub digit_value : ℕ → ℕ
  pub lower : String → String
  pub strip : String → String
  pub to_seconds : String → Option (Bool × ℕ)

-- `needle in text`
abbrev pub contains : String → String → Bool
contains text needle = is_some (text_find? text needle)

abbrev pub or_text : String → String → String
or_text text default = if str_eq text "" then default else text

module _ (py : Python) where
  -- `_parse_retry_after`
  abbrev pub seconds_of : Option (Bool × ℕ) → Option ℕ
  seconds_of none = none
  seconds_of (some (true, n)) = if n == 0 then some 0 else none
  seconds_of (some (false, n)) = some n

  unfoldable pub parse_retry_after : Option String → Option ℕ
  parse_retry_after none = none
  parse_retry_after (some header) =
      if str_eq header "" then none else seconds_of (py.to_seconds (py.strip header))

  abbrev pub ends_word : String → Bool
  ends_word Native.String.[] = true
  ends_word (Native.String.◌∷◌ c s) = not (py.is_word (code c))

  -- `429|5\d\d|408|401|403|400|422` on the numbers of three characters
  abbrev pub is_status : ℕ → ℕ → ℕ → Bool
  is_status a b c =
      (a == b'4' && b == b'2' && (c == b'9' || c == b'2'))
      || (a == b'5' && py.is_digit b && py.is_digit c)
      || (a == b'4' && b == b'0' && (c == b'8' || c == b'1' || c == b'3' || c == b'0'))

  abbrev pub status_of : ℕ → ℕ → ℕ → ℕ
  status_of a b c = 100 * py.digit_value a + 10 * py.digit_value b + py.digit_value c

  -- The status that the text begins with, if it is followed by the end of a word
  abbrev pub status_at : String → Option ℕ
  status_at (Native.String.◌∷◌ a (Native.String.◌∷◌ b (Native.String.◌∷◌ c s))) =
      if is_status (code a) (code b) (code c) && ends_word s
      then some (status_of (code a) (code b) (code c))
      else none
  status_at s = none

  abbrev pub first_status : Bool → Option ℕ → Option ℕ → Option ℕ
  first_status true here later = later
  first_status false none later = later
  first_status false (some n) later = some n

  -- `re.search`. The flag tells whether the character before is of a word.
  pub search_status : Bool → String → Option ℕ
  search_status inside Native.String.[] = none
  search_status inside (Native.String.◌∷◌ c s) =
      first_status inside (status_at (Native.String.◌∷◌ c s))
        (search_status (py.is_word (code c)) s)

  -- The response of the exception, or else of its cause
  abbrev pub cause_response : Option Cause → Option Response
  cause_response none = none
  cause_response (some c) = c.response

  abbrev pub response_of : PyException → Option Response
  response_of exc = elim exc.response [ none ↦ cause_response exc.cause | some r ↦ some r ]

  abbrev pub response_status : Option Response → Option ℕ
  response_status none = none
  response_status (some r) = r.status_code

  abbrev pub response_header : Option Response → Option String
  response_header none = none
  response_header (some r) = r.retry_after

  -- From the response, or else from the text
  unfoldable pub status_code_of : PyException → Option ℕ
  unfolding search_status
  status_code_of exc = elim (response_status (response_of exc)) [
    | none ↦ search_status false exc.text
    | some n ↦ some n
  ]

  abbrev pub classified :
      FailureCategory → FailureDisposition → String → String → Option ℕ → ClassifiedFailure
  classified category disposition error_code detail retry_after = record {
    category = category;
    disposition = disposition;
    error_code = error_code;
    error_detail = detail;
    retry_after_seconds = retry_after;
  }

  -- The branch of a `StorageDeleteError`
  unfoldable pub classify_storage_delete : StorageDeleteError → String → ClassifiedFailure
  classify_storage_delete e text =
      classified
        (if str_eq e.code "storage_timeout"
          then storage_timeout
          else if str_eq e.code "storage_auth_failed" || str_eq e.code "storage_permission_denied"
          then storage_auth_error
          else if e.retryable
          then storage_unavailable
          else storage_invalid_request)
        (if e.retryable then retry else terminal) e.code text e.retry_after_seconds

  -- The branches by status code, where one of them takes it
  unfoldable pub classify_status : PyException → ℕ → Option ClassifiedFailure
  unfolding parse_retry_after
  classify_status exc n =
      if n == 429
      then some (
          classified provider_rate_limit retry "provider_rate_limit" exc.text
            (parse_retry_after (response_header (response_of exc))))
      else if leb 500 n && ltb n 600 && not (n == 504)
      then some (classified provider_server_error retry "provider_server_error" exc.text none)
      else if n == 408 || n == 504
      then some (classified provider_timeout retry "provider_timeout" exc.text none)
      else if n == 401 || n == 403
      then some (classified provider_auth_error terminal "provider_auth_error" exc.text none)
      else if n == 400 || n == 422
      then some
          (classified provider_invalid_request terminal "provider_invalid_request" exc.text none)
      else none

  abbrev pub cause_name : Option Cause → String
  cause_name none = ""
  cause_name (some c) = py.lower c.type_name

  -- The sections 5 to 7: the network, the storage, and what is left
  unfoldable pub classify_by_name : PyException → ClassifiedFailure
  classify_by_name exc =
      let name = py.lower exc.type_name in
      let text = py.lower exc.text in
      if exc.is_timeout_or_connection
        || contains name "timeout"
        || contains text "timeout"
        || contains (cause_name exc.cause) "timeout"
      then classified provider_timeout retry "provider_timeout"
          (or_text exc.text "Network or provider request timed out") none
      else if contains name "connectionerror" || contains text "connection error"
      then classified provider_server_error retry "provider_connection_error" exc.text none
      else if contains name "artifactstorage" || contains name "storage"
      then (if contains text "timeout" || contains exc.text "504" || contains exc.text "503"
          then classified storage_timeout retry "storage_timeout" exc.text none
          else classified storage_unavailable retry "storage_unavailable" exc.text none)
      else classified unknown_error terminal "execution_failed" (or_text exc.text exc.type_name)
          none

  abbrev pub or_by_name : PyException → Option ClassifiedFailure → ClassifiedFailure
  or_by_name exc none = classify_by_name exc
  or_by_name exc (some c) = c

  abbrev pub by_status : PyException → Option ℕ → Option ClassifiedFailure
  by_status exc none = none
  by_status exc (some n) = classify_status exc n

  -- From the second section on
  unfoldable pub classify_other : PyException → ClassifiedFailure
  unfolding status_code_of classify_status classify_by_name
  classify_other exc =
      let name = py.lower exc.type_name in
      let text = py.lower exc.text in
      if exc.is_lease_lost || contains name "leaseownershiplost"
      then classified lease_lost terminal "lease_ownership_lost"
          (or_text exc.text "Worker lease ownership was lost or expired") none
      else if exc.is_snapshot_closure
      then classified grounding_blocked terminal "book_source_snapshot_invalid" exc.text none
      else if contains name "aicostbudgetexceeded"
      then classified provider_rate_limit retry "ai_cost_budget_exceeded"
          (or_text exc.text "Global AI cost budget exceeded") (some 300000000)
      else if contains name "exportengineunavailable" || contains text "export engine unavailable"
      then classified unknown_error terminal "book_export_incomplete" exc.text none
      else if contains exc.text "failed validation gates"
          || contains text "blueprint validation failed"
          || contains text "gate_failed"
      then classified grounding_blocked terminal
          (if contains text "gate" then "gate_failed" else "blueprint_validation_failed") exc.text
          none
      else or_by_name exc (by_status exc (status_code_of exc))

  abbrev pub classify_from : PyException → Option StorageDeleteError → ClassifiedFailure
  classify_from exc none = classify_other exc
  classify_from exc (some e) = classify_storage_delete e exc.text

  unfoldable pub classify_failure : PyException → ClassifiedFailure
  unfolding classify_storage_delete classify_other
  classify_failure exc = classify_from exc exc.storage_delete
