-- ===== src/Lib.antt =====
-- qdrust: a model of the core of the QD runner and its scheduler's queue, with its theorems.
--
-- The program reads a QD document (a HAR file whose entries may be control tags), compiles it to
-- a program of nested blocks, and runs that program against the outside: it renders and sends
-- requests, tests the answers, and extracts variables from them. A server keeps tasks whose runs
-- wait in a table, from which workers lease them. Native templates are a second input format, and
-- every connection goes through a guard.
--
-- Parts, and the sources that they model:
-- * Har (crates/qdrust-core/src/qd_har.rs): the document (Har), its validation (Har.Validate,
--   `finish_parse`), the control tags (Har.Control) and the compiler (Har.Compile, `compile` and
--   `parse_blocks`). Har.Grammar gives the grammar that the compiler is compared with.
--   Har.Normalize is `normalize_qd_document`, over the objects of Json.Objects.
-- * Executor (crates/qdrust-core/src/executor.rs): the state and the outside (Executor), the
--   methods as functions that pass the state on and may fail (Executor.Exec), labels, forms,
--   assertions (Rules), responses, multipart bodies, `execute_request` (Request and
--   Request.Parts), loop variables (Loops), `execute_block` and `execute` (Blocks), and
--   `execute_template` and its steps (Native and Native.Parts).
-- * Runs (crates/qdrust-server/src/store.rs): the run table, one function for each statement.
-- * History (store.rs): logs, traces and steps of runs, the deletions of runs, and the sweep of
--   old ones in batches.
-- * Outbound (executor.rs): `guarded_client_for_url` and the address test under it. The proxy that
--   the environment names for a URL is a parameter; the guard does not look at it.
-- * Template (crates/qdrust-core/src/template.rs): native templates and `validate`.
-- * Otp (crates/qdrust-core/src/totp.rs and crates/qdrust-server/src/totp.rs): base32 both ways and
--   the normal form of a secret (Otp.Base32), the code of a secret and the server's test of what was
--   typed (Otp.Code).
-- * Accounts (crates/qdrust-server/src/store.rs and api.rs): users with their sessions (Accounts),
--   the tokens that are mailed (Accounts.Tickets), the second factor (Accounts.Factor), and `login`
--   after the password with `login_totp` (Accounts.Login).
-- * Auth (crates/qdrust-server/src/auth.rs, header_auth.rs, and the callers in api.rs): the limiter
--   of login attempts with the part of `login` that uses it (Auth.Limiter), identity headers and
--   the decision of `header_auth_middleware` (Auth.Headers).
-- * Scheduler (crates/qdrust-server/src/scheduler.rs): due tasks and the ticker's turn, a worker's
--   round (Scheduler.Worker), variables and
--   policy of a run (Scheduler), the texts that are kept of a run (Scheduler.Trace), and the end of
--   `execute_with_run` with its retry (Scheduler.Conclude), on the run table of Runs.
-- * Notices (crates/qdrust-server/src/delivery.rs, and scheduler.rs and store.rs): the wording of
--   messages and the bindings (Notices), `deliver` by the kind of channel (Notices.Deliver), and
--   `send_notifications`, `send_one` and `retry_delivery` with the ledger (Notices.Send).
-- * Library (crates/qdrust-server/src/library.rs): the cache of template catalogues.
-- * Notepad (crates/qdrust-core/src/plugin.rs): both notepad routes over a storage, which the record
--   `NotepadStore` states; Notepad.Table is the table of store.rs and one owner's view of it.
-- * Plugins (plugin.rs): manifests, requests, the registry and plugins that are processes.
--   Plugins.Loading (server's scheduler.rs and model.rs, executor.rs): which plugins a run gets and
--   how they are registered.
-- * Redact (crates/qdrust-server/src/redact.rs): the masking of credentials.
-- * Expression (crates/qdrust-core/src/expression.rs): uuencoded lines (Uu), quoted-printable text
--   (Qp) and the list that templates may change (MutableSeq).
-- * Base and Json: texts as lists of code points, decimal numbers, maps, `Result`, and
--   `serde_json::Value` with the methods of its objects. Tests: the inputs on which the results are tried.
--
-- The compiler's blocks are what the executor runs; the executor reaches the network by the guard,
-- which is a field of its `Outside`. Numbers are unbounded naturals. Budgets and limits
-- only fall or are compared, so no bound matters there; `loop_depth` keeps that of
-- `parse::<usize>`. The codecs write out the width of their words. The counter of step indices and the attempts of a run are taken not to overflow.
--
-- Recursion: `parse_blocks` has as fuel one more than the number of entries, which is enough since
-- every call consumes an entry. A `while` block recurses on the rounds that its
-- loop limit leaves, as the source's `for` does.
--
-- The sweep of old runs has as fuel one more than the number of runs, which is enough since every
-- full batch takes one.
--
-- Parameters: the expression engine, the regular expressions, JSON reading, the encodings, the
-- cookie jar, the HTTP client and the plugins are fields of `Outside`; a theorem on the executor
-- holds for each of them. Rendering is a function of the text and the variables. The observer is
-- there and sees each event. URL reading, name lookup and the client builder are parameters of
-- the guard; name lookup may answer each call differently. Statements on the run table are
-- taken to be atomic, and times are seconds from the epoch as naturals. So are
-- `consume_password_reset_token` and `login_totp`, which make several statements: what concurrent
-- calls do between them is not covered. A worker's round and a read of a catalogue have one clock
-- reading, where the source takes one for each call. `redact` is a
-- parameter of Runs.
-- The hash of tokens, the tokens that are drawn, the clients for HTTP and mail, the push services
-- and the writing of a time are parameters of Accounts and Notices.
-- HMAC, the reading of plugin URLs and envelopes, processes, the reading of header names and values, cron expressions and time zones, the text of a JSON
-- number and the engine's values are parameters too. The lock of the login limiter is taken to make
-- each call one step, and `login` to run its calls without another login between them. Where a sum
-- or a power does not fit its word, the model wraps as a release build does. A call of the
-- store that fails is not modelled.
--
-- Not modelled: the expression engine beyond the functions named above, the translation of Python's
-- regular expressions, deadlines and cancellation in the executor,
-- the observer and the supervisor of a run, other plugins, and the server's other handlers,
-- settings, and the editing of users, channels and bindings, which are I/O or stand outside the
-- core.
pub mod Base
pub mod Json
pub mod Har
pub mod Executor
pub mod Runs
pub mod History
pub mod Outbound
pub mod Template
pub mod Otp
pub mod Accounts
pub mod Auth
pub mod Scheduler
pub mod Notices
pub mod Library
pub mod Notepad
pub mod Plugins
pub mod Redact
pub mod Expression
pub mod Tests
