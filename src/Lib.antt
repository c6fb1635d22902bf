-- ===== src/Lib.antt =====
-- Home Platform: job submission, scheduling, leases, batch scripts, accounts, the worker and deployments
--
-- The platform runs jobs of several types on a small set of workers. A client submits a job or a
-- group of jobs through `JobService` (app/service.py), which validates it, draws identities and a
-- time, and stores it through `JobRepository` (app/repository.py), one SQLite transaction for each
-- method. A worker claims a queued job under a lease with a token and an expiry, keeps the lease by
-- heartbeats, and reports a result or a failure. Leases that expire are recovered: the job is queued
-- again, or fails once its attempts are used up or its cancellation was requested. The wire models
-- that all of them exchange are in contracts/models.py. On a worker, `run_once` executes the claimed
-- job under a lease keeper and reports. Who may call what is a matter of the accounts, their
-- sessions and the links to identities of other providers. Applications are deployed by operations
-- that an administrator requests and a host installer carries out: a rehearsal, a deployment, a
-- rollback, a recovery or a retirement, of which an application has one at a time.
--
-- Files and sources
--
-- - Prelude: the library names the other modules use, Boolean tests and optional columns
--   (Prelude/Tests), search, filters, updates and sorting of lists (Prelude/Lists), lemmas on a
--   table under an update (Prelude/Tables), sorted lists (Prelude/Sorted).
-- - Models: contracts/models.py. Enumerations (Models/Enums), the parameters and the results of
--   each job type (Models/Parameters), the records of requests and replies (Models/Records), the
--   equality of parameters that Pydantic gives (Models/Equality), the validators of numbers and of
--   joined fields (Models/Validation), and those of the texts of a batch job (Models/TextFields).
-- - Repository: app/repository.py, with the tables of app/migrations.py (Repository/Tables) and the
--   origin of app/app_origin.py. `_recover_expired` is Repository/Recovery, `_preferred_worker_id`
--   Repository/Schedule, `_upsert_worker` and the worker switches Repository/Workers, `claim`
--   Repository/Claim, `heartbeat`, `cancel` and `_finish` with `complete` and `fail`
--   Repository/Lease, the reads of jobs and groups Repository/Groups, `add` and `add_group`
--   Repository/Submit. Repository/Rows and Repository/Consistency say when tables are consistent,
--   Repository/History runs the methods one after another.
-- - Service: app/service.py, every method of `JobService`. Service/Replies has its errors, Service/Calls
--   runs calls one after another.
-- - Paths: portable_relative_path of contracts/models.py, and where such a path leads
--   (Paths/Contained).
-- - Batch: app/batch_script.py. `validate_project_archive` is in Batch, the loop of
--   `parse_batch_script` in Batch/Script, `_parse_array` and the end of `compile_batch_submission` in
--   Batch/Array, `_parse_time_limit` in Batch/TimeLimit; `str` and `int` on numbers are Batch/Decimal
--   and Batch/Integers.
-- - Accounts: app/accounts.py, over the tables users, external_identities and uploads (Accounts/Tables):
--   passwords (Accounts/Passwords), external identities (Accounts/Identities), uploads
--   (Accounts/Uploads) and signed sessions (Accounts/Sessions). Accounts/Authority is
--   app/dashboard_auth.py.
-- - Worker: worker/main.py and worker/data_plane.py. The eviction of cached inputs (Worker/Cache), the
--   lease keeper (Worker/Keeper), publication, report and pauses (Worker/Reports), the directories
--   of runs and outputs (Worker/Workspace), and `run_once` (Worker/Run).
-- - Deployments: app/app_deployments.py over the documents of app/app_deployment_contracts.py
--   (Deployments/Contracts) and its tables (Deployments/Tables). What an operation binds is
--   Deployments/Approval, `read_authority` Deployments/Authority, `AppsService.request`
--   Deployments/Requests, the switch intent and the checks of a receipt Deployments/Reconcile, the
--   last transaction of `reconcile_operation` Deployments/Settle, `reconcile_operation` itself
--   Deployments/Reconciliation; `update_registration`, `propose_source_rename` and `reject` are in
--   Deployments/Registrations, `provision_legacy` and `restore_unaccepted_legacy` in
--   Deployments/Cutover, `previews_to_evict` in Deployments/Previews. Deployments/History runs the
--   transactions in any order.
-- - Tests: the theorems applied to small concrete states.
--
-- How the code is read
--
-- - A method of the job service is a function on the record `Database`, which holds one list of rows
--   for each table in insertion order. It returns the new tables with the method's answer. A
--   transaction that raises leaves the tables as they were, so an error is a value and the tables are
--   the old ones.
-- - An UPDATE is `update_where` with the condition of its WHERE and the assignments of its SET; an
--   INSERT appends, and is refused where a key or a unique index of the migrations conflicts.
-- - Times are microseconds as natural numbers: the texts that `isoformat` writes for UTC are compared
--   by the database in the order of the instants. Identities are natural numbers in the order of
--   their texts. A float of the models is the bit pattern of a positive double, whose order is that
--   of the numbers. JSON columns hold the decoded value, and worker metrics their text.
-- - A subtraction of times stops at 0, where the code would leave the years that Python represents.
-- - Every loop is a recursion on the list or the text that it walks. The digits of a number n are made
--   with n as fuel, which is enough since each step divides by ten.
-- - What the threads, the network and the disk do during one run of the worker is the argument
--   `Surroundings`: the heartbeats in their order, how the execution ended, the answers of the service.
--   Which directories shutil.rmtree fails to remove is the argument `Removals`. Retries are recursions
--   on the number of attempts left. Times of the cache are nanoseconds.
-- - A registration, a selection or a receipt of a deployment is a record whose texts and digests are
--   numbers; a chain of checks that may raise is a `do` block in `Checked`, and a transaction that
--   raises leaves the tables. The digest of a registration, the verification of a package
--   (app/app_publication.py) and the policy of a release are arguments.
-- - A stored password is the text that hash_password joins; hashlib.scrypt and the two functions of
--   base64 are parameters, as are str.isalnum and str.isalpha of one character.
-- - A path is the list of its code points. Whitespace and digits are those of ASCII. The lines of a
--   script come as `splitlines` and `strip` leave them, and shlex.split is a parameter.
--
-- Not modelled: foreign keys to users and installations, the regular expressions of text fields
-- outside a batch job, the rules on URLs, the checks of a script behind its loop over the lines,
-- connection handling, the execution of a job on the worker (downloads, archives, containers), its settings and metrics;
-- of the deployments the boot authority and the notes of a failed reconciliation; and the components
-- around these (HTTP routes, the registry of apps and their gateway, storage, command
-- line, operations).
pub mod Prelude
pub mod Models
pub mod Repository
pub mod Service
pub mod Paths
pub mod Batch
pub mod Accounts
pub mod Worker
pub mod Deployments
mod Tests
