-- ===== src/Books/Guard.antt =====
-- `_guard_worker_write` of storage/book.py: the fence before every write of a book worker.
use mura_project.Prelude.{
  String, ◌&&◌, Option, none, some, holds_text, str_eq, Result, ok, err, lookup_error,
  lease_ownership_lost, value_error, ◌>>=◌, ◌>>◌, or_raise, guard,
}
use mura_project.Prelude.Table.{find, find_where}
use mura_project.Books.Rows.{Database, book_key}

-- The identity that a write carries: the ids of the job and of the worker, or neither.
pub record Writer : Type 0 where
  pub job_id : Option String
  pub lease_owner : Option String

unfoldable pub fenced : String → String → String → Database → Result (Unit {0})
fenced book_id job_id lease_owner db = do
  or_raise (find book_key book_id db.books) lookup_error
  job ←
      or_raise (find_where (λ r. str_eq r.job_id job_id && str_eq r.book_id book_id) db.jobs)
        lookup_error
  guard (holds_text job.lease_owner lease_owner) lease_ownership_lost

abbrev pub guard_by : String → Option String → Option String → Database → Result (Unit {0})
guard_by book_id none none db = ok tt
guard_by book_id (some job_id) (some lease_owner) db = fenced book_id job_id lease_owner db
guard_by book_id _ _ db = err value_error

unfoldable pub guard_worker_write : String → Writer → Database → Result (Unit {0})
unfolding fenced
guard_worker_write book_id writer db = guard_by book_id writer.job_id writer.lease_owner db
