-- ===== src/Lib.antt =====
-- RTS2601, a real-time pipeline for the Wikipedia recent-changes stream.
--
-- The program reads a server-sent-event stream of edits, parses each payload, sorts it into two
-- classes, humans before bots, and lets workers account for it under a deadline of two
-- milliseconds. It is built twice: crates/rts-async on Tokio with one ring per class, and
-- crates/rts-threaded on OS threads with one bounded priority queue. Both stand on
-- crates/rts-core; crates/rts-replay serves recorded fixtures to either.
--
-- How the parts interact: the ingest hands every payload to the parser; the parser touches the
-- watchdog, asks the fail-safe controller whether bots are shed, and pushes a task; a worker pops
-- it, records drift and jitter in the metrics and the controller, and sends the name of the wiki
-- to the leaderboard; a ticker advances the controller and a checker reads the watchdog.
--
-- Which file models which part:
--   Ring            crates/rts-core/src/channel/ring.rs: `DropOldestRing` as its queue, capacity and
--                   counter; push, pop_async and pop_blocking, len, is_empty, overflow_count
--   Time            crates/rts-core/src/time.rs: `now_ns`, with the clock's reading as an argument
--   Priority        crates/rts-core/src/priority.rs
--   Event           crates/rts-core/src/event.rs, error.rs and task.rs: both builds of `parse_one`
--   Histogram       the interface of the hdrhistogram crate, and an exact histogram that fills it
--   FailSafe        crates/rts-core/src/failsafe.rs: the rolling window, the automaton, the ticker
--   Watchdog        crates/rts-core/src/watchdog.rs
--   Metrics         crates/rts-core/src/metrics.rs; Metrics.Files: the two dump files
--   Decimal         the numbers as every line prints them
--   Leaderboard     leaderboard.rs of crates/rts-async/src and of crates/rts-threaded/src
--   Accounting      what the workers of both scheduler.rs files measure for one task
--   Admission       what the two parser.rs files do before the push
--   Backoff         the reconnect interval of both ingest.rs files
--   Async.Ingest, Async.Parser, Async.Scheduler
--                   the files of these names in crates/rts-async/src
--   Async.System    crates/rts-async/src/pipeline.rs: the state that `run` creates, and a step for
--                   each time a task of the runtime runs; a round of a worker is one step
--   Async.Pool      the same with the workers one by one, whose rounds are two steps each, and the
--                   snapshot at the end as a step among them
--   Workers         where a worker of either pipeline stands
--   Threaded.System crates/rts-threaded/src/pipeline.rs: the same for the threads, with the joins;
--                   Threaded.Pipeline is `run` from its start to what it returns and prints
--   Threaded.Ingest, Threaded.Parser, Threaded.Heap, Threaded.PriorityQueue, Threaded.Worker
--                   ingest.rs, parser.rs and scheduler.rs of crates/rts-threaded/src
--   Replay          crates/rts-replay/src/play.rs; Replay.Recorder: record.rs beside it;
--                   Replay.Recording is `record` as a whole; Replay.Server: `serve` and
--                   `stream_handler` of play.rs
--   Replay.ParseRate
--                   `Rate::parse` of play.rs
--   Summary         what `run` of both pipeline.rs files prints at the end
--   Float           the interface of `f64`, and numbers with nine decimal places that fill it
--   Cli             crates/rts-cli/src/main.rs: Cli.Duration is `parse_duration`, Cli.Config the arguments,
--                   their defaults and what the pipelines are started with, Cli.Run the commands,
--                   Cli.Logging `init_tracing`
--   ZeroCopy        crates/rts-bench/src/bin/dhat_zero_copy.rs
--   Shootout        crates/rts-bench/benches/sync_shootout.rs: the threads of its five benches
--   TailLatency     crates/rts-bench/benches/tail_latency.rs: both kernels over `TaskQueue`, which
--                   TailLatency.Lanes fills with two rings and TailLatency.Blocking with the queue
--   Common          names, lists, texts and machine integers that the others share
--
-- Conventions. Numbers are natural numbers with the wrap-around or saturation of the source written
-- out: atomic counters wrap at two to the 64, `saturating_sub` is the subtraction that stops at 0.
-- `Instant` and `Duration` count nanoseconds; a function that reads a clock takes what it reads.
-- What other threads do, what the network yields and what cancellation tokens say is a script, a
-- list that the theorems quantify over. A panic and an error are results. Loops are structural
-- recursion on their input or their script; the digits of a number are computed on fuel, of which
-- the successor of the number is enough.
--
-- Code outside the repository is a parameter: serde_json (`from_str`, `Envelopes`), hdrhistogram
-- (`Histogram`), the binary heap (`BinaryHeap`, whose vector has no specified order), `f64`
-- (`Float`), its quotient that scales a replay, the log writer of hdrhistogram (`LogWriter`), the map
-- of the dashmap crate (`DashMap`), the listener and server of a replay (`Network`), the
-- file system of a recording (`Disk`), the filters of tracing-subscriber (`Filters`), the non-blocking
-- writer of tracing-appender (`Appender`, which drops lines while its buffer is full), and the test for a blank line, which knows the white space of Unicode. The interfaces' laws are
-- those that the documentation states, and `samples`, `list_heap` and `fixed_point` fill them.
--
-- Left out: HTTP clients and the HTTP server, the random factor of the back-off,
-- which is an `f64`, clap, the text of log lines, the threads of the stress command and the timing
-- of the benchmarks, which are libraries or have no result. Locks and wake-ups are not modelled as
-- such: what is done under one lock, or by one call of a channel or map that is synchronised, is one
-- step. So is what a worker does with one task once it has it, of which other threads see the parts
-- in the source. The benches run under every order of their threads' steps; where one is said to
-- end, each thread gets the steps that it needs, and a drain has more fuel than there are items.
pub mod Common
pub mod Ring
pub mod Time
pub mod Priority
pub mod Cli
pub mod Decimal
pub mod Event
pub mod Histogram
pub mod FailSafe
pub mod Float
pub mod Watchdog
pub mod Workers
pub mod Metrics
pub mod Leaderboard
pub mod Accounting
pub mod Admission
pub mod Async
pub mod Summary
pub mod Threaded
pub mod Replay
pub mod Backoff
pub mod ZeroCopy
pub mod Shootout
pub mod TailLatency
