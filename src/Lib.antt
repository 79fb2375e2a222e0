-- ===== src/Lib.antt =====
-- A verification library for peryx, a package server: what its parts promise, and that the code keeps
-- it. Paths below are from the repository's root.
--
-- * Identity models crates/peryx-identity. Identity/Glob is the pattern match of src/acl.rs: `walk` is
--   its loop on fuel, `advance` one round, `remainders_after` the set of pattern positions after a
--   prefix. Identity/Acl is the rest of src/acl.rs. Identity/Basic and Identity/Secrets are
--   `parse_basic` and `secrets_match` of src/lib.rs, where trimming and base64 are arguments.
-- * Core models the paths of crates/peryx-core: Core/Encoding is src/url_encoding.rs and the decoder of
--   src/path.rs, where the test for UTF-8 is an argument, Core/Routes the checks of a route, a filename
--   and a path segment, and the file URLs of src/path.rs.
-- * Storage models crates/peryx-storage. Storage/Table is the interface of the embedded database `redb`,
--   with the laws its documentation gives. Storage/Quota is src/meta/quota.rs: Model has its data and
--   its arithmetic on `u64`, Rows the admission of a reservation, Store the operations of `MetaStore` on
--   the tables of one write transaction, as functions that return new tables or an error. Ledger is the
--   invariant that every counter is the sum of what the reservations hold; Charges, Level, Transition,
--   Change, LevelChange, Steps, ProjectStep, TransitionStep and Moves lead from the arithmetic of one
--   counter to the commit and the release, Admission, ReserveLevel, Reserving and ReserveLedger to the
--   reservation, Runs and Reached to the states that the operations reach. Limits is about the limits.
--   Storage/Webhooks is src/meta/webhook.rs on the same interface: the deliveries and the rows of those
--   that are due. A `u64` in decimal or hexadecimal digits has its full width there.
-- * Policy models crates/peryx-policy/src/lib.rs (Model, Evaluation, Decisions, Versions), where a rule of
--   an ecosystem is a function of the facts, and crates/peryx-identity/src/roles.rs (Roles).
-- * Driver models crates/peryx-driver. Driver/RateLimit is src/rate_limit.rs: `check` is one request
--   against its budget, `evict` that the cache of the buckets forgets one, `forwarded_client_ip` the
--   choice of the client. Checks, Windows and Clients have the proofs.
--   Driver/Jobs is src/jobs/scheduler.rs with the counters of src/jobs/metrics.rs: a step relation in
--   which the calls of `submit` and the spawned jobs interleave at every lock, permit and await, so
--   that `Reach` has every order in which they may run. A job ends well, with an error or with a panic,
--   which unwinds `run_admitted`: its permits are dropped, its key and its count stay. Permits,
--   Exclusion, Progress and Draining have the proofs about it, Submission has `submit` as one call.
-- * Oci models src/name.rs of crates/peryx-ecosystem-oci: Oci/Names is the grammar of names, tags and
--   digests, Oci/Paths the classification of request paths, whose segments are counted from the end.
--
-- A text is a list of bytes. The loop of a pattern match gets (|text| + 2) * (|pattern| + 2) rounds,
-- which is enough since each round moves the pair of the resumed position and the position forward.
-- The decoder of escapes and the check of a name get a round for each byte, and each round takes one at
-- least. A `u64` is a natural number below 2 ^ 64 with checked additions and wrapping subtractions
-- written out. A set is a list of its members.
--
-- Not modelled: HTTP, database and JSON failures, timing, the other crates of the workspace, whose
-- inventory is in the project's manifest, and `commit_driver_txn_with_quota`.
pub mod Prelude
pub mod Identity
pub mod Storage
pub mod Policy
pub mod Core
pub mod Driver
pub mod Oci
