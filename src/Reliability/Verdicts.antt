-- ===== src/Reliability/Verdicts.antt =====
-- Which failures are tried again (reliability/failures.py).
use mura_project.Prelude.{
  ℕ, ◌≡◌, refl, Bool, true, false, ◌&&◌, ◌||◌, not, Option, none, some, is_none, if◌then◌else◌,
  Option-cases, inl, inr, arith,
}
use mura_project.Reliability.Failures.{
  StorageDeleteError, classify_storage_delete, FailureCategory, provider_rate_limit,
  provider_timeout, provider_server_error, storage_timeout, storage_unavailable, ClassifiedFailure,
  PyException, Python, is_retry, classify_status, classify_by_name, by_status, or_by_name,
  classify_other, classify_from, classify_failure, status_code_of,
}

-- The categories of what may pass by itself.
abbrev pub is_transient : FailureCategory → Bool
is_transient provider_rate_limit = true
is_transient provider_timeout = true
is_transient provider_server_error = true
is_transient storage_timeout = true
is_transient storage_unavailable = true
is_transient category = false

-- A failure is tried again exactly if its category is one that may pass.
abbrev pub is_consistent : ClassifiedFailure → Bool
is_consistent c =
    if is_transient c.category then is_retry c.disposition else not (is_retry c.disposition)

-- Whether a failure of the category is to be tried again: an error of the storage says so itself.
abbrev pub retried : Option StorageDeleteError → FailureCategory → Bool
retried none category = is_transient category
retried (some e) category = e.retryable

module _ (py : Python) where
  abbrev status_consistent : Option ClassifiedFailure → Bool
  status_consistent none = true
  status_consistent (some c) = is_consistent c

  is_consistent-classify_status :
      (exc : PyException) (n : ℕ) → status_consistent (classify_status py exc n) ≡ true
  unfolding classify_status
  is_consistent-classify_status exc n = ground arith

  is_consistent-classify_by_name :
      (exc : PyException) → is_consistent (classify_by_name py exc) ≡ true
  unfolding classify_by_name
  is_consistent-classify_by_name exc = ground arith

  is_consistent-by_status :
      (exc : PyException) (status : Option ℕ)
      → is_consistent (or_by_name py exc (by_status py exc status)) ≡ true
  is_consistent-by_status exc none = is_consistent-classify_by_name exc
  is_consistent-by_status exc (some n) = elim (Option-cases (classify_status py exc n)) [
    | inl e ↦ rw e (is_consistent-classify_by_name exc)
    | inr (c, e) ↦ let fine = is_consistent-classify_status exc n in rw e (rw e at fine)
  ]

  is_consistent-classify_other : (exc : PyException) → is_consistent (classify_other py exc) ≡ true
  unfolding classify_other
  is_consistent-classify_other exc =
      ground (arith, is_consistent-by_status exc (status_code_of py exc))

  classified_as_retried :
      (exc : PyException) (o : Option StorageDeleteError)
      → is_retry (classify_from py exc o).disposition ≡ retried o (classify_from py exc o).category
  unfolding classify_storage_delete
  classified_as_retried exc (some e) = ground arith
  classified_as_retried exc none =
      let c : ClassifiedFailure = classify_other py exc in
      ground (arith, is_consistent-classify_other exc)

  never_retried :
      (exc : PyException) (o : Option StorageDeleteError)
      → o ≡ none
      → ((exc.is_lease_lost || exc.is_snapshot_closure)
          && is_retry (classify_from py exc o).disposition)
        ≡ false
  unfolding classify_other
  never_retried exc (some e) h = absurd (cc)
  never_retried exc none h = ground arith

  -- An error of the object storage is tried again exactly if it says that it may be. Any other failure is tried
  -- again exactly if its category is a rate limit, a timeout, an error of a server or a storage that is
  -- not available; losing the lease and a broken snapshot are never tried again.
  pub classify_failure-verdict :
      (exc : PyException)
      → (is_retry (classify_failure py exc).disposition
          ≡ retried exc.storage_delete (classify_failure py exc).category)
        × ((is_none exc.storage_delete
              && (exc.is_lease_lost || exc.is_snapshot_closure)
              && is_retry (classify_failure py exc).disposition)
            ≡ false)
  unfolding classify_failure
  classify_failure-verdict exc = (
    classified_as_retried exc exc.storage_delete,
    elim (Option-cases exc.storage_delete) [
      | inl e ↦ ground (arith, e, never_retried exc exc.storage_delete e)
      | inr (d, e) ↦ rw e refl
    ],
  )
