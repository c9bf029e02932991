-- ===== src/Lib.antt =====
-- Verification of SafePlay Guardian, the service by which a family sets rules for its devices.
--
-- The service keeps one SQLite database. The registry (internal/device) binds each sighting of a
-- device to a row, by strong signals first and by agreement of weak ones otherwise. The resolver
-- (internal/policy) merges a person's policy with the override of a device and flattens both to
-- what holds at one time. The coordinator (internal/enforce) splits the capabilities that a policy
-- requires over the backends and reports on each. The log (internal/event) keeps what happened,
-- less what the monitoring level of the family forbids to keep. The scanner (internal/discovery)
-- feeds the registry, and the sessions (internal/auth) guard the dashboard. The handlers
-- (internal/api) serve the dashboard and the agents on the devices over these. cmd/platform/main.go
-- wires them.
--
-- Which file models what:
--   Prelude      the shared names, Boolean tests, lists, Go's int, functions of package strings, and
--                the time of package time (Time)
--   Store        migrations/*.sql as a record of tables (Tables); programs over it (Exec): a
--                statement may fail, and earlier writes stay, since no store opens a transaction;
--                what programs keep on every path (Keeps), and what they do where no statement
--                fails (Runs); internal/store/migrate.go (Migrate)
--   Device       internal/device: model.go (Model), mac.go (Mac), sqlite.go (Rows for its SQL
--                statements, Registry for Get, List and Upsert, Reconcile); Consistent is the
--                invariant of the tables
--   Policy       internal/policy: model.go (Model), resolver.go (Schedule for evalSchedule, parseHM
--                and intsContain, Resolver for Merge and Resolve), store.go (Store)
--   Enforce      internal/enforce: enforcer.go, coordinator.go, agent/agent.go, noop/noop.go
--   Event        internal/event: model.go, log.go (Redact, Logger), store.go (Log, Usage, and
--                Blocks for TopBlocks) and the sweep of retention.go
--   Auth         internal/auth: store.go (Accounts), middleware.go (Gate)
--   Discovery    internal/discovery: scanner.go (Mac for NormalizeMAC, Scanner for a cycle),
--                mdns.go, sweep.go
--   Person       internal/person/store.go
--   Api          internal/api: people.go (People), auth.go and rootRedirect (Accounts), spa.go (Pages),
--                agent.go (Agents), devices.go (Devices; Reply for writeJSON and writeError),
--                policy.go and enforce.go (Policies), the events and blocks of reports.go
--                (Reports), router.go (Router)
--   Platform     cmd/platform/main.go: the two callbacks of runService, its backends (Hooks), and what
--                its resolver reads (Reads); the check-in as wired (Checkins), and what it takes after
--                Enforce (Assignment)
--   Samples      data for the tests
--
-- How the code is read. A nil pointer or a nil map is `none`; a nil slice and an empty one differ
-- only where the code asks. Times are nanoseconds since Go's zero time, which is 0. The time of
-- an event also carries its zone (Stamp), since the column `at` holds the text that the driver
-- writes for both: where SQLite compares or sorts that column, the model compares these texts, by
-- a parameter of the world (time_text). The other columns that are compared, recorded_at and
-- expires_at, are all written in UTC, and are compared as instants. A named string type is a
-- text, since any text may come from JSON. An error is a value of Error; its text is kept only
-- where a caller tells errors apart. The order of a Go map's keys is a parameter of the world, as
-- are the clock, the random source and the failures of statements. Numbers that the code reads as
-- int are ℤ where they come from outside; times and durations are natural numbers, and a
-- difference of two times that the code takes is that of events or of a day, which a Duration
-- holds; the window of TopBlocks, whose length comes from a query, keeps a Duration's
-- wrap-around. Every loop of the models runs over a list or down a count, so none needs fuel. A
-- handler is a function of its decoded request, where a body that does not decode is `none`, and
-- of the database; its answer is a status with a value or an error text. The migrations run
-- against a database of their own model, whose schema is any type, since only they use
-- transactions.
--
-- Parameters: the driver's text of a time (World), package time's zones (Zones), the stores that
-- Resolve and the log read (Sources, PolicyLookup), argon2id (Hashing), JSON (Codec, and the text
-- of a text), fmt's printing of a number, the answers of the sources of the scanner, time.Parse,
-- SQLite's json_extract and what it does with a migration script, and the embedded scripts.
--
-- Not modelled: the two reports of minutes over the log (ScreenTimePerDay, UsageByDevice), which
-- SQLite computes in floating point, the ARP table, the ping processes, the encoding of a password
-- hash, serving files, and the process set-up of main.go, which is input and output; the web client
-- and the mockup.
pub mod Prelude
pub mod Store
pub mod Device
pub mod Policy
pub mod Enforce
pub mod Event
pub mod Auth
pub mod Discovery
pub mod Person
pub mod Api
pub mod Platform
pub mod Samples
