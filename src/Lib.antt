-- ===== src/Lib.antt =====
-- CoreC is an industrial gateway: southbound drivers (driver/) collect data points, an engine
-- (engine/) takes them over a bus through a rule engine (rule/) to northbound transports
-- (transport/), and write commands go the other way. The control plane (hub/) and the
-- configuration (config/) build and change these parts. This library models the data path and the
-- command path of the engine.
--
-- Rule.antt is rule/: the wrapped rules with their statistics, `Match` through the driver index
-- (`match_point`, with the two-pointer merge `match_merged`), `SetRules` (`set_rules`, `install`)
-- and the switches of a rule. Rule/Scan, Split, Merge, Index and Equivalence compare the indexed
-- scan with the linear one; Rule/Build is about building and the order of the rules, Rule/Results
-- about what a match returns. The compiled expression of a rule is a function from points to
-- Booleans: the expression language is a third-party library. The statistics of the wrappers,
-- which Go updates in place, are a function of the rule's number that every operation passes on.
--
-- Engine/DataBus.antt is engine/databus.go: two bounded channels and the subscribers, each method
-- a function from the bus to the new bus. `push_racing` has what other goroutines do between the
-- two selects of `Push` as an argument. Queue, Fanout and Shutdown are about pushing, broadcasting
-- and the life cycle.
--
-- Engine/Writes.antt is the choke point of every write, `WriteTag` of engine/write_manager.go,
-- with the protection of engine/tag_protect.go, the pacing of engine/write_pacing.go and the audit
-- trail of engine/write_audit_store.go. `Southbound` holds what is not in these files: the
-- registered drivers, what a driver's `Write` does to the devices, and the formats of `fmt`. The
-- clock is two readings for each call. Engine/Commands.antt is the execution of commands in the
-- same file: `retry_loop` is the loop of `executeWriteWithRetry`, by recursion on the attempts
-- that are left, which are retry-count + 1 as in the source, so that no fuel is needed.
-- Commands/Attempts and Retry are about what the attempts come to, Queue about the dead letters,
-- Backoff about the waits. A `Round` is what the environment decides in one round. A product on
-- int64 is written as a remainder by 2 ^ 64.
--
-- Engine/Derived.antt is engine/derived.go. Derived/Compile turns configurations into tags and
-- swaps the evaluator, as engine/lifecycle_support.go does; Derived/Cycles is the depth-first
-- search for cycles, whose recursion has one unit of fuel more than there are tags, which is
-- enough because each level visits another tag; Derived/Environment and Evaluate are `buildEnv`
-- and `evaluate`. The expression library, regular expressions and durations are parameters.
-- Search, Names, Walks, Fuel and Acyclic are about the search, Swap about the configuration,
-- Resolution, Rounds and Honest about an evaluation.
--
-- Engine/Processing.antt is engine/processing.go: Processing/Pipeline is `processPoint` on top of
-- the rule engine, the cache, the bus and the alerts, Processing/Targets is `publishToTargets`
-- with `tryFallback` of engine/transport_manager.go on top of the batchers. The direct calls of
-- transports are answered by the argument `answers`. Chains and Attempts are about the publishes
-- of one point, Actions and Loop about the loop over the results, Points about the whole of
-- `processPoint`. Values.antt has the dynamic types behind `any` and the conversions of
-- common/util/util.go.
--
-- Config.antt is config/validate.go: the checks of drivers, tags, transports and rules as rows of
-- conditions with their errors, of which the first that fails counts, and the warnings about
-- batching; those of drivers and tags are in Config/Tags. Config/Targets relates them to the
-- targets of a publish, Drivers to what holds of a checked driver, Batching to the batcher that a
-- transport gets.
--
-- Engine/Cache.antt is engine/cache.go: 64 shards of association lists, with the snapshot and the
-- dirty flag of each driver. The hash is a parameter.
--
-- Engine/Alerts.antt is engine/alerts.go: the active alerts by key, the bounded history and the
-- event channel. Alerts/Registry and Calls are about the bounds, Sweep about what a sweep clears.
-- The sort of the oldest alerts keeps the order of `range` for equal times, which Go leaves open.
--
-- Engine/OfflineBuffer.antt is engine/offlinebuffer.go: the directory is the list of its numbered
-- files, and `Faults` says which calls of the file system fail and what `encoding/json` makes of
-- an entry: an error, or the entry that the file is read back as. `push_batch` is `Push`, `drain`
-- is `Drain` with the transport's answer to each batch. Order, Runs, Eviction and Bounded are
-- about the directory, Drain, Replay and Finish about a drain that may fail, its order and its
-- end. Engine/Batcher.antt is engine/batcher.go and engine/batcher_retry.go on top of it:
-- `publish_point` is `publish`; in Batcher/Sending, the cases of the flush loop, `flush`, `stop`,
-- `drain_once` and `publish_with_retry_and_buffer` keep their names, and `drain_tick` is a tick of
-- `drainLoop`. The flush queue, nil until `start`, is a channel of no place until then. `Answers`
-- is what the transport, the clock and the file system do in one publish; the attempts are
-- recursion on those that are left, retry-count + 1. A run of the goroutines is a list of calls
-- (Batcher/Calls). Enqueue, Delivery, Conserved and Counted are about single calls, Limits,
-- Stopped and Outage about runs, the stop and a transport that is down.
--
-- Modbus.antt is driver/modbus/modbus_read.go: `merge_batches` plans merged reads. In
-- Modbus/Access, `read_batch` decodes one, `read_tag` reads a single tag, and `read_tags` is
-- `Read` of a connected driver. `Client` is the third-party client, and `IsDevice` of
-- Modbus/Decode says what it answers on a device that works. Addresses are uint16, written as a
-- remainder by 65536.
--
-- Cooldown.antt is transport/notify/cooldown.go, compared in Cooldown/History with a tracker that
-- looks at the whole history. ReplayWindow.antt is transport/mqtt/replay_window.go, the bounded
-- set of message hashes.
--
-- S7.antt is the planner of merged reads in driver/s7/s7_merge.go: grouping by area and block,
-- sorting by offset and merging neighbours. S7/Groups and Segments are about one group and one
-- segment, Plan, Partition and Reads about the whole plan.
--
-- Core.antt has the records of core/ that the parts exchange, Common.antt what they share: tests
-- and lists on native numbers, association lists for Go's maps in the order of `range`, a stable
-- sort, bounded histories and channels.
--
-- Not modelled: the scheduler, discovery, the drivers but for these planners, the transports but
-- for the replay window and the cooldown of notifications, the hub and the reading of the
-- configuration. Methods run as one step each: a lock that a method holds to its end makes that
-- exact, and other interleavings are not modelled except in `push_racing` and, for the batcher, as
-- sequences of calls. Logging is left out.
pub mod Common
pub mod Config
pub mod Cooldown
pub mod Core
pub mod Engine
pub mod Modbus
pub mod ReplayWindow
pub mod Rule
pub mod S7
pub mod Values
