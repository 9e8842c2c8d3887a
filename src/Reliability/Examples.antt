-- ===== src/Reliability/Examples.antt =====
-- The theorems about failures at a few exceptions, and tests by evaluation.
use mura_project.Prelude.{◌-◌, ◌≡◌, refl, String, true, false, ◌&&◌, ◌||◌, none, some, leb, is_none}
use mura_project.Reliability.Failures.{
  PyException, Python, is_retry, classify_failure, status_code_of, classify_status,
  parse_retry_after,
}
use mura_project.Reliability.Backoff.{calculate_retry_delay, backoff_delay}
use mura_project.Reliability.Verdicts.{retried, classify_failure-verdict}

-- Lower-case texts of ASCII without blanks; every number of seconds is 7.
abbrev pub plain : Python
plain = record {
  is_word = λ c. (leb b'a' c && leb c b'z') || (leb b'0' c && leb c b'9');
  is_digit = λ c. leb b'0' c && leb c b'9';
  digit_value = λ c. c - b'0';
  lower = λ s. s;
  strip = λ s. s;
  to_seconds = λ s. some (false, 7000000);
}

abbrev pub plain_error : String → PyException
plain_error text = record {
  text = text;
  type_name = "valueerror";
  storage_delete = none;
  is_lease_lost = false;
  is_snapshot_closure = false;
  is_timeout_or_connection = false;
  response = none;
  cause = none;
}

abbrev limited : PyException
limited = record (plain_error "slow down") {
  response = some (record { status_code = some 429; retry_after = some "7" });
}

from_response : (classify_failure plain limited).retry_after_seconds ≡ some 7000000
unfolding classify_failure status_code_of classify_status parse_retry_after
from_response = refl

-- The status stands in the text; 5040 is none.
from_text : status_code_of plain (plain_error "request 5040 ended: 504 gateway") ≡ some 504
unfolding status_code_of
from_text = refl

third_attempt : calculate_retry_delay (λ n. n) true 5000000 300000000 none 3 ≡ 20000000
unfolding calculate_retry_delay backoff_delay
third_attempt = refl

classify_failure-verdict_example :
    (is_retry (classify_failure plain limited).disposition
      ≡ retried none (classify_failure plain limited).category)
    × ((is_none limited.storage_delete
          && (limited.is_lease_lost || limited.is_snapshot_closure)
          && is_retry (classify_failure plain limited).disposition)
        ≡ false)
classify_failure-verdict_example = classify_failure-verdict plain limited
