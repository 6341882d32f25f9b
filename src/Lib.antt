-- ===== src/Lib.antt =====
-- A verification library for AutoPierCam, the Rust agent that runs a pier camera at a telescope: it
-- captures frames into a directory, keeps the directory within its quotas, uploads frames, makes
-- daily movies, and shares images with the Chatstronomy Hub.
--
-- The parts that are modelled, and how they meet. The retention worker
-- (crates/autopiercam/src/retention.rs) runs one thread that sweeps the capture directory: each sweep
-- reads the directory and the upload ledger, plans which files to delete, deletes them one by one
-- after a last check by the ledger, and publishes telemetry. The writer and the movie encoder hold
-- sinks: they wake the thread, and ask it whether capture and movies may go on. Beside it the
-- connection to the Hub (crates/autopiercam-chatstronomy/src) polls a scheduler for an image to send:
-- telescope events, scene changes and a periodic schedule trigger bursts, and a completed slew reserves
-- one image of its own.
--
-- - Base: shared names, and small versions of what the source takes from Rust's library: Boolean tests
--   and Option (Tests), lists (Lists), `u64` and `u8` arithmetic (Words), `i64` (Integers), texts (Text),
--   results with `?` (Results).
-- - Retention.Policy: RetentionPolicy and the quota tests. Retention.Candidates: the artifacts, their
--   authorization and their order. Retention.Plan: plan_with_private_bytes, with its proofs in
--   Plan.Selection and Plan.Minimal (the quota loop), Plan.Order, Plan.Accounting, Plan.Deletions and
--   Plan.Budget.
-- - Retention.Errors: RetentionErrors and bounded_error_message, with Errors.Bounds.
-- - Retention.Environment: the traits RetentionClock, RetentionPlatform and RetentionAuthority over a
--   world, and the telemetry. Retention.Survey and Retention.Sweep: sweep_retention, up to its plan and
--   from there; proofs in Sweep.Deletions, Sweep.Accounts and Sweep.Verdict.
-- - Retention.Files: inventory_capture_directory (Files.Inventory), private_bytes (Files.Private) and
--   system_delete_exact (Files.Deleter), each with its proofs below it. Retention.System puts these
--   together with the authorities ProtectAll and LocalOnly into the environment of a sweep.
-- - Retention.Worker: RetentionSink, RetentionWorker and retention_loop as atomic steps that may
--   interleave in any order, the store of a flag and the call of the observer being two; proofs in
--   Worker.Stop, Worker.End, Worker.Capture and Worker.Admission.
-- - Triggers.Rules: TriggerRules (triggers.rs), Preferences and Settings::rules (service.rs).
--   Triggers.Events: TelescopeEvent and its parsers. Triggers.Periodic: PeriodicSchedule.
--   Triggers.Scheduler: Scheduler with the events that change it. Triggers.Delivery: Scheduler::due and
--   Scheduler::queued. Triggers.Polls: the poll in the session loop of transport.rs. The invariant of
--   the scheduler is in Triggers.Invariant, and what an offered image and a request have in
--   Triggers.Freshness and Triggers.Slew.
-- - Exposure: AdaptiveExposure (crates/autopiercam-core/src/exposure.rs), which the camera's owner asks
--   for the setting of the next frame; proofs in Exposure.Bounds, Exposure.Steps and Exposure.Votes.
-- - Upload.Retry: the retry policy of the upload worker (crates/autopiercam/src/upload.rs); proofs in
--   Retry.Bounds and Retry.Header.
-- - Upload.Store: the ledger of uploads (crates/autopiercam/src/upload_store.rs), an SQLite database of
--   one row per captured file. Store.Ledger has the two tables, and an INSERT and an UPDATE with the
--   CHECKs and the triggers that they run into; Store.Claims, Store.Recording, Store.Operator,
--   Store.Listing and Store.Retained have the methods of UploadStore: claim_due, release_claim and the
--   mark methods; record_artifact and reconcile_capture_directory; requeue_permanently_failed and what
--   UploadStore::open does to a ledger that exists; list_jobs; the views for retention and telemetry.
--   Store.Artifacts reads files, Store.Identity derives what identifies them, Store.FrameNames parses
--   their names, and Store.Cursor encodes the cursor of a listing. Store.History says what the life of
--   a job and a sound ledger are; Store.Operations runs operations of the worker and the operator in
--   any order. Retention asks the ledger which files may go.
-- - Upload.Transport: one upload, from the verified copy of the file to the answer of the endpoint.
--   Upload.Worker: upload_loop, which claims a job, uploads it and settles the claim by the outcome, while
--   the sink and the operator use the same ledger; proofs in Worker.Outside, Worker.Stored and
--   Worker.Idle.
-- - Tests: runs on concrete inputs, and the theorems applied to them.
--
-- How code is modelled. A struct is a record and an enum a data type with its own variants; a
-- method that changes `self` returns the new value. Unsigned integers are natural numbers, with
-- `saturating_add`, wrap-around and the bounds of the type written out where the source depends on
-- them; `Instant`s and Unix times are numbers. A failure is `err` with the text of its message.
-- Loops over vectors recurse on the list; the search for a character boundary recurses on the
-- position, which it lowers to zero at most. The tree of private files is finite, and its count
-- recurses on it. The decimal digits of a number are written with fuel for twenty digits, all that
-- 64 bits need. The retention thread runs without end: its steps are counted only after a stop.
--
-- SQLite is modelled by what it does with the statements of the source: a table is a list of rows, a
-- statement or a transaction that fails leaves no trace, its integers reach from 0 to 2 ^ 63 - 1, and
-- texts and blobs are lists of bytes. The store's connection is exclusive, so operations run one after
-- another. An error of SQLite that comes from no statement is modelled only at the snapshots of the
-- upload worker.
--
-- Code outside the repository is a parameter: the order of paths (PathOrder), the system calls, the
-- clock and SHA-256 (System, and Platform and Disk for the ledger), the HTTP client (Http),
-- floating-point numbers (Floats), and whatever a sweep meets of them and of a ledger (Environment).
-- Not modelled are the creation and the check of the ledger's schema, the sink and the administration
-- of uploads, the ledger's maintenance, the movies and their calendar, the local protocol, the tray,
-- drawing, encoding, the camera's SDK, the neural network, and the user interfaces.
pub mod Base
pub mod Retention
pub mod Exposure
pub mod Triggers
pub mod Upload
mod Tests
