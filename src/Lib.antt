-- ===== src/Lib.antt =====
-- Verification library of BB-Pipeline, a C++ toolkit that runs reconnaissance pipelines over CSV files.
--
-- The program and its parts. The stages of a pipeline (orchestrator) fetch pages through an http client that is
-- throttled by a rate limiter, keeps answers in a response cache and runs its operations under an error recovery
-- manager; their results are CSV files that the csv part parses, writes, merges and queries, and compares for delta files. The parts share no state: each is
-- a class whose methods lock the object's own mutex, so a method is one step on that object's state.
--
-- Files. Common and its children hold what the parts share: lists and tests on the native numbers (Common/Lists,
-- Common/Tests), texts as lists of bytes (Common/Bytes), dictionaries as association lists in the order of iteration
-- (Common/Assoc) and floating-point numbers as an interface of operations and laws (Common/Double), with fixed-point
-- numbers as an instance for the runs.
--   RateLimiter    src/infrastructure/networking/rate_limiter.cpp and its header: the state (buckets, backoffs, global
--                  bucket, mutex) and one function per method; a result `none` is a call that never returns.
--   Cache          src/infrastructure/networking/cache_system.cpp and its header: entries, statistics and events;
--                  Cache/Headers is parseCacheControl, Cache/Maintenance the validation and the cleanup,
--                  Cache/Chunks the chunk loops of compress and decompress around zlib.
--   Recovery       src/infrastructure/system/error_recovery.cpp and its header: Classify (kinds of errors), Context
--                  (RetryContext), Manager (statistics, settings), Loop (executeWithRetryInternal).
--   Csv            src/csv/streaming_parser.cpp (Csv and Csv/Reading: rows, buffer and loops), src/csv/batch_writer.cpp
--                  (Csv/Writing and Csv/Batching: formatting, buffer and flushes) and the row helpers of
--                  src/csv/merger_engine.cpp (Csv/Merging).
--   Memory         src/infrastructure/system/memory_manager.cpp: Memory (search, cut and placement), Memory/Merging,
--                  Memory/Freeing and Memory/Pool (the public calls with their counters).
--   Delta          src/csv/delta_compression.cpp: Runs, Numbers, Window and Hybrid (byte encodings; Searching and
--                  Unwinding decode the LZ77 tokens), Frames (records as bytes), Records, Columns, Matching, Loops,
--                  Detecting, Keyed, Keys and Reports (change detection), Patching and Applying (applyDelta), Texts (split, join).
--   Orchestrator   src/orchestrator/pipeline_dependency_resolver.cpp: Dependencies (the colored search), Cycles, Search,
--                  Descent and Decision (what it decides); src/orchestrator/kill_switch.cpp: KillSwitch (state, calls and
--                  the thread's steps), KillSwitch/Shutdown (its phases), Steps, Runs and Blocking (interleavings).
--                  src/orchestrator/stage_selector.cpp: Analyzer (graph and topological sort; Counting, Building, Degrees,
--                  Kahn and Order prove the order) and Planner (parallel groups in Levels and Groups, order by priority in Priorities).
--   Query          src/csv/query_engine.cpp: Values (comparisons), Where (conditions), Tokens and Indexes (the index
--                  manager), Selection (rows of a query); Agreement (index against scan), Chains (joined conditions).
--                  A result `none` is an exception; the memory estimate of an index is left out.
--
-- Numbers. A size_t or a uint64_t counter wraps at 2^64 by `u64`; times are natural numbers of the clock's unit, read
-- from the clock as an argument, one reading per call of now(). A double is an element of the interface `Double`, whose
-- laws are monotonicity and bounds that hold for IEEE doubles that are no NaN.
--
-- Fuel. The retry loop runs on one unit of fuel more than the attempts allowed; Recovery/Calls is about that bound. The
-- loop of processBuffer has the length of the buffer, of which each round takes a byte (Csv/Fuel); that of parseInternal takes
-- its fuel as an argument, since it need not end.
-- The chunk loops of Cache/Chunks have one unit more than there are bytes, since a round that goes on takes a
-- buffer full of them. All other recursion is structural.
--
-- Outside. zlib is a parameter (a record of two functions) with its documented laws. The operation that is retried, the
-- clock and the random draws are parameters. Not modelled: logging, threads other than the shutdown thread of the kill switch, files, libcurl, YAML,
-- and the components that the program has beside these (schema validator,
-- pipeline engine, thread pool, signal handler, configuration, scopes).
pub mod Cache
pub mod Common
pub mod Csv
pub mod Delta
pub mod Memory
pub mod Orchestrator
pub mod Query
pub mod RateLimiter
pub mod Recovery
