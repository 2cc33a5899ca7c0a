-- ===== src/Lib.antt =====
-- Verification of the Command Center backend of Sentinel Command, the Rust service under backend-
-- rs/. The service takes video segments and events from the nodes of its customers, serves them to
-- viewers and sends commands back to the nodes. This library models the parts that hold state in
-- memory and decide: what is kept, what is let through, who is told.
--
-- The parts and their files:
--
--   Hls      backend-rs/src/hls.rs, the live video cache. A node pushes segments
--            (`push_segment`), a viewer reads them (`segment`, `snapshot_recent`), timers sweep
--            (`evict_stale_cameras`, `evict_caches`, `flush_viewer_usage`).
--            Hls/SegmentName.antt is `SegmentName` and its order, which is by number
--            (the comment at the top of hls.rs still speaks of the order of strings),
--            Hls/Segments.antt the store and its two evictions, Hls/Auth.antt the caches that
--            authorise a push or a view, Hls/Cache.antt the rest of `HlsCache`, Hls/Viewer.antt the
--            seconds watched.
--   Ws       backend-rs/src/ws.rs, the sockets of the nodes. Ws/Limiter.antt is
--            `NodeRateLimiter`, Ws/Manager.antt is `ConnectionManager`.
--   Sse      backend-rs/src/sse.rs, `Broadcaster`: who is subscribed to an organisation's events,
--            and the fan-out. Sse/Calls.antt interleaves its calls with the streams' reads.
--   Plans    backend-rs/src/plans.rs: the plan of an organisation, from the settings, the billing
--            service and two caches. Plans/Cap.antt is `enforce_camera_cap`.
--   Agent    backend-rs/src/agent/processor.rs. Agent/Drain.antt is `process_pending_runs`, one round
--            of its loop after the other; Agent/Complete.antt is one run, from `run_with_timeout` to
--            `complete_with_retry`.
--   Mail     backend-rs/src/email_worker.rs, a tick of the outbox worker. Its times are seconds.
--   Mcp      backend-rs/src/mcp/scope.rs. Mcp/Limiter.antt is `RateLimiter`, its times microseconds;
--            Mcp/Scope.antt is `compute_allowed_tools` and `compute_agent_allowed_tools`.
--   Dispatch backend-rs/src/sentinel_dispatch.rs. Dispatch.antt is `maybe_dispatch_for_notification`,
--            Dispatch/Rules.antt what its gates ask, with `is_sentinel_licensed` of
--            backend-rs/src/license.rs, Dispatch/Schedule.antt `schedule_allows_now` with its
--            `python_int`, of backend-rs/src/api/sentinel_config.rs, on texts of code points. Its
--            times are seconds.
--   RateLimit backend-rs/src/ratelimit.rs, `Limiter::check`.
--   Versions backend-rs/src/versions.rs: reading and writing versions, and `check_node_version`.
--
-- Prelude, Interfaces, Text, Assoc, OrdMap, Sets and Window hold what the parts share: names of the
-- library, integers over the native naturals, equality and order as interfaces, texts as lists of
-- code points, `HashMap` as an association list, `BTreeMap` as a sorted one, lists without
-- repetition as sets, and queues of instants.
--
-- How code and model correspond. A struct behind a mutex is a record, and a method is a function
-- from the record to the record and the answer; a critical section is one step, so that an
-- interleaving is a list of steps. The clock is an argument: an instant is a number of
-- milliseconds of one clock, unless a file says otherwise. `Instant::duration_since` stops at
-- zero, and so does the subtraction of the model. A `HashMap` whose iteration order the code can
-- observe is sorted or counted by the code before it matters; where the code sorts by age alone,
-- ties keep the list's order. `i64` totals are integers without a bound, and `usize` counts
-- naturals without a bound: both count bytes or entries in memory, far below the width. Where a
-- width shows, it is written out: the `u32` count of a bucket, which wraps, the `i32` column of
-- the viewers' seconds, the `i64` of an hour and the `u64` of a version. Every loop is a
-- structural recursion on the list that it walks or on the attempts that are left, and the loop of
-- the drain runs on the list of what its rounds meet. Only the digits of a number are written with
-- fuel, the number itself, which is proved to be enough where they are read back.
--
-- What is a parameter: the database of the viewer flush (a record of two queries, with the law
-- that its upsert adds while the sum fits its column), the settings table and the answer of the
-- billing service, the parsing of times, the bounded channel of a subscriber, what the queue of
-- runs, the tools, the model and the mail service answer, what the tables that a dispatch only
-- reads say and which of its queries succeed, what the write and the wait of a command came to,
-- what other tasks do at the awaits of a call (to the manager between two critical sections of a
-- command, to the counters while a flush writes a row, to the caches and the settings while the
-- effective plan is computed, whose resolution with the billing service is one step, to the runs
-- between the gate and the insert), and the clocks.
-- What is left out: logging, timers and their
-- loops, HTTP handlers, the frames and channels themselves, and the other modules of the service.
pub mod Prelude
pub mod Interfaces
pub mod Text
pub mod Assoc
pub mod OrdMap
pub mod Sets
pub mod Window
pub mod Hls
pub mod Ws
pub mod Sse
pub mod Plans
pub mod Agent
pub mod Mail
pub mod Mcp
pub mod Dispatch
pub mod RateLimit
pub mod Versions
