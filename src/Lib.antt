-- ===== src/Lib.antt =====
-- Sentinel: usage of coding assistants, attributed to engineers, budgeted and compared.
--
-- Usage arrives as OpenTelemetry data points. The ingest service attributes each to a registered
-- engineer, adds it to the engineer's counters in Redis and publishes it to Kafka. Consumers of the
-- topic check the budget thresholds and detect unusual spend.
--
-- The parts, the files that model them, and the source:
-- - Registry: the snapshot of the active engineers (internal/registry/registry.go). A method is a
--   function on the registry's state, since a lock makes it atomic.
-- - Ingest, with Atoi, Attribution, Published and Counted: RecordMetric, RecordLogEvent and lookupEngineer
--   (internal/service/ingest.go).
-- - Store, with Keys, Counters and Claims: WriteEventRedis and record_event.lua, GetCostCounter,
--   ClaimThresholdFired, WriteThresholdTrigger (internal/store/store.go).
-- - Threshold, with Frames, Rows, Once, Order and Audit: HandleEvent, checkPeriod and fireThreshold
--   (internal/service/threshold.go).
-- - Detector, with Signals, Fire and Severity: the burst, z-score and rhythm signals
--   (internal/service/signal_detector.go); Store/Signals is what they use of internal/store/signals.go.
-- - Kafka/Consumer, with Delivery: the loop of Run and the offset at which a group begins
--   (internal/kafka/consumer.go).
-- - Slack and Kafka: PostDM (internal/slack/client.go) and Publish (internal/kafka/producer.go).
-- - Config, with Valid: Validate (internal/config/config.go).
-- - Engineers, with Service, Columns, Unique, Refresh, Known and Keeps: the engineers table
--   (internal/store/engineers.go), its changes with their validation and the refresh of the registry
--   (internal/service/engineer.go), and the status of an error (internal/http/admin_engineers.go).
-- - Reverts, with Candidates, Sound and Distinct: DetectReverts (internal/github/revert.go).
-- - Store/Leaderboard, with Sorted, Latest and Latest/Once: Leaderboard, its query and its sort
--   (internal/store/github.go). Query: rows.
-- - Loadtest, with Buckets and Totals: the latency histogram (cmd/loadtest/main.go); 64 bits are the
--   fuel of bits.Len64.
-- - Ingest/Otlp, with Messages: Metrics and Logs (internal/ingest/handler.go) and the conversion of
--   attributes and values (internal/ingest/otlp.go).
-- - Rollup, with Ranks, Table, Table/Rows and Table/Keys: the efficiency figures and ranks, and RunOnce over the
--   engineer_signals table (internal/service/rollup.go and the statements of internal/store/signals.go).
-- - Usage, with Once, Queries, Hours and Windows: the usage_events table, which the persist consumer fills
--   (internal/service/persist.go, WriteEventPG in internal/store/store.go), and the queries over it
--   (internal/store/signals.go, engineers.go and github.go).
-- - Baseline, with Sampled, Saved and Isolated, and Usage/Series: the rebuild of the baselines
--   (internal/service/baseline.go), the series that it reads (internal/store/engineers.go, signals.go), and
--   SaveBaseline and LoadBaseline. Ingest/Atoi/Printed: Atoi on what `%d` prints.
-- - Store/Rebuild: RebuildCounters (internal/store/store.go).
-- - Engineers/Detail, with Ordered: the list and detail views (internal/service/engineer.go) and the reads
--   behind them (internal/store/engineers.go).
-- - Store/SignalEvents: ListSignalEvents (internal/store/signals.go).
-- - Migrate, with Replay and Complete: Apply (internal/migrate/migrate.go).
-- - Http, with Admin, Reads, Effects and Guarded: the admin routes behind the bearer token and their handlers
--   (internal/http/router.go, admin.go, admin_engineers.go, admin_signals.go, internal/middleware/auth.go).
-- - Efficiency, with Triggers and Windows: the collector's loop, its snapshots and WindowForName
--   (internal/service/efficiency.go). Of runOnce the loop sees its times;
--   its work is in Efficiency/Collect.
-- - Efficiency/Collect, with Kept and Stored: the work of one run, fetchAndStore, detectAndMarkReverts and
--   computeSnapshots over the tables (internal/service/efficiency.go). Store/PullRequests, with Marks: the
--   statements on github_prs and github_repo_sync (internal/store/github.go, signals.go).
-- - Workers, with Triggers: githubTriggerHandler (cmd/sentinel-workers/main.go).
-- - Github, with Pages: FetchAuthoredPRs and Query (internal/github/fetcher.go, client.go); the fuel is
--   the number of queries, and as many as there are answers are enough.
-- - Models: the records that pass between the parts (internal/store/models.go).
-- - Clock, with Calendar: instants, days and months, as the program uses Go's time package.
-- - Base: shared names, integers, dictionaries, state passing and formatting. Float: Go's float64 as
--   a type with operations.
--
-- A function of the source that changes state is a function from the World (the state of Redis,
-- Postgres, Slack, Kafka and of the machine) to its result and the next World. What those services
-- answer is a parameter (Services); what a theorem relies on is a record of laws of it
-- (Services/Laws), and Tests/Fakes has services that run and satisfy them. A Go map is a dictionary in
-- some order; an `int` is a 64-bit integer with its wrap-around.
--
-- The statements on the engineers, usage_events, engineer_signals, github_prs and efficiency_snapshots
-- tables are functions on the lists of their rows, and how each statement fares is an input: it
-- may be refused, or carried out with its reply lost (of Redis' commands a failed one changes nothing); net/mail's
-- parser, strings.ToLower, the exact sums and the rounding of NUMERIC and the collation are parameters.
--
-- Not modelled: logging, contexts and their deadlines, connection handling, the goroutines that only
-- call the modelled functions on a ticker, the bodies of HTTP answers, reading the configuration file,
-- the creation of the Kafka topic, the main functions, and of the load test its workers and its report.
pub mod Base
pub mod Float
pub mod Clock
pub mod Config
pub mod Models
pub mod Migrate
pub mod Services
pub mod Query
pub mod Registry
pub mod Store
pub mod Rollup
pub mod Slack
pub mod Workers
pub mod Baseline
pub mod Usage
pub mod Threshold
pub mod Http
pub mod Kafka
pub mod Ingest
pub mod Detector
pub mod Efficiency
pub mod Engineers
pub mod Github
pub mod Loadtest
pub mod Reverts
mod Tests
