-- ===== src/Lib.antt =====
-- Mura records the spoken memories of a family, transcribes and analyses them, and writes a book from them.
-- This library models the state that the program keeps in its database and the transactions on it, and
-- proves what they promise. All paths below start at Mura_project/src/mura/.
--
-- The parts and how they interact. A recording or a book is created together with a job (Recordings.Scope,
-- Books.Repository), once the quotas of the family and the daily budget of AI costs leave room (Quotas,
-- Budget). A long recording is planned as windows that fit the language model (LongForm). What the analysis
-- claims about a family goes into its archive, where claims that disagree become conflicts for a reviewer and
-- the others the family's graph (Conflicts). A book is written from a snapshot of the archive that is
-- validated before it is stored (Snapshots), along a blueprint whose references and word budgets are checked and
-- whose arithmetic is repaired in code (Blueprints). Worker processes claim jobs from the queues under a lease, renew it while they work, and write
-- through a test of ownership (Recordings, Books). Deletions put the stored objects of a book into a
-- third queue, whose worker erases them (Cleanup); what becomes of a job that fails is decided from the
-- exception (Reliability).
--
-- Which file models which part:
--   Prelude and its children: results, tables as lists of rows with their lookups and writes, the claim of
--     the oldest free row, sums over tables. No code of its own.
--   Recordings: storage/database.py (RecordingRepository), storage/completion.py (the ends of a job),
--     observability.py (persist_trace_events), jobs.py (JobStatus, resolve_retry_state),
--     storage/deletion.py (in Deletion, with its proofs in Erasure). Rows has the tables,
--     Queue and Completion the transactions of a worker, Scope creation, lookups by family and deletion,
--     Retry what a client is shown, Workers the schedules of many workers. Claims, Effects, Leases,
--     Invariant, Attempts, Ownership, Trace and Families hold the proofs.
--   Cleanup: storage/cleanup.py, and orchestration/cleanup.py (in Worker, with its proofs in Rounds). Rows, Queue,
--     Enqueue the operations; Workers, Claims, Objects the proofs.
--   Reliability: reliability/failures.py. Failures and Backoff the code; Verdicts and Delays the proofs.
--   Books: storage/book.py, the statuses of domain/book_models.py, the keys of storage/book_artifacts.py.
--     Rows the tables, Guard the fence of every write (_guard_worker_write), Jobs the queue, Repository the
--     book and its ends, Chapters, Artifacts (plan, continuity, exports) and Deletion the rest; Workers the
--     schedules; Fence, Effects, Attempts, Endings, Stubs, Drafts, Saves, Erasure, Claims the proofs.
--   Budget: cost_guards.py and the tables of storage/ai_usage.py. Reservations the operations; Admission and
--     Settlement the proofs.
--   Quotas: quotas.py. Checks the two checks; Books and Recordings the proofs.
--   Families: storage/identity.py and the roles of identity/policy.py. Rows the tables, Members and Invitations
--     the operations, Schedules their interleavings; Owners, Ownership and Acceptance the proofs. Tokens
--     appear only as their hashes.
--   LongForm: long_form.py, with RawSegment and TranscriptEnvelope of domain/models.py. Tokens, Segments, Slices,
--     Groups, Windows and Materialize the planner; Partition, Pieces, Bounds, Budget, Coverage, Plans and
--     Shown the proofs.
--   Conflicts: storage/conflict_resolution.py and what storage/archive.py reads of a relationship claim. Rows the
--     tables, Claims and Graph the graph of a family, Service a reviewer's decisions, Reconcile what an
--     ingestion does, Schedules their sequences; Edges and Rebuilt the proofs about the graph, History,
--     Ingestion and Audit those about the log, Judgement those about a decision.
--   Snapshots: book/snapshot_validation.py, book/truth_eligibility.py, book/relationship_semantics.py and the
--     snapshot types of domain/book_models.py. Relationships, Truth, Rows, Ids and Validation the code; Closed
--     what it is to be closed; Sets, Passing, Closure and Acceptance the proofs of it, Provenance what
--     follows, Endpoints the proofs about relationships.
--   Blueprints: book/blueprint_validation.py and the blueprint types of domain/book_models.py. Plans, Years and
--     Validation the validation, Repair the arithmetic repair; Shares, Numbering, Repaired and Soundness the proofs
--     about the repair, Grounding those about the references of a valid blueprint.
--   The modules named Examples apply the theorems to small databases.
--
-- How state and operations correspond to the code. A table is a list of rows, a row a record with the
-- columns of the code, the database a record of tables. A function of the code that opens a transaction
-- is a function from the database to the database; where it can raise, its result is a Result, and
-- an error leaves the database as it was, since the transaction is rolled back. What utcnow() returns and
-- the random ids are arguments. Row locks and the advisory lock make transactions that touch the same
-- rows one at a time, so a run of the program is a list of transactions in order; the rows that others
-- hold during a claim (FOR UPDATE SKIP LOCKED) are a predicate, an argument of the claim. SQL leaves open
-- which of several oldest rows a claim takes; the definitions take the first in the table.
--
-- Numbers. Instants and spans of leases are whole microseconds, audio is in milliseconds (its columns have three
-- decimals), costs are in micro-dollars (six decimals). JSON payloads are texts. Sizes and durations that a
-- caller passes may be negative, as in the code. The texts that the planner cuts are lists of code points; the
-- arithmetic of its floats, the classes of characters and the strip of pydantic are parameters
-- (LongForm.Tokens, Platform; IsStripping says that the strip takes away blanks only), as are str.strip and str.casefold (Snapshots.Relationships, Unicode), and the classes of the search for years
-- (Blueprints.Years, Characters); the classification of failures takes Python's texts and float from
-- Reliability.Failures, Python, and the random factor of a delay as an argument. Two loops
-- use fuel, and enough of it: the search for boundaries in a text has one round more than the text has
-- characters (it answers none if it runs out, which is proved not to happen), the merging of windows as
-- many rounds as there are windows. All other recursion is on a list.
--
-- Not modelled: the database engine itself, the network clients of speech recognition, language models and object
-- storage, the text analysis (coreference, claims, grounding, linguistics), the compilation of a snapshot,
-- the gates and the review of a chapter, the rest of the archive, logins, HTTP routes, settings, logging
-- and metrics, the evaluation tools, and the web client. Unique constraints are modelled where an insert
-- can meet one, but for the one on the trace id, attempt and sequence of a trace event, of which its id is a
-- hash; foreign keys are not. Of the bounds that pydantic checks, those of the pieces of a segment are modelled
-- (Slices, raw_segment) and those of a window that its construction keeps are not.
pub mod Prelude
pub mod Recordings
pub mod Cleanup
pub mod Books
pub mod Budget
pub mod Quotas
pub mod Families
pub mod LongForm
pub mod Conflicts
pub mod Snapshots
pub mod Blueprints
pub mod Reliability
