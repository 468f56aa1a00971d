-- ===== src/Lib.antt =====
-- bullmq-go: a Go client of the BullMQ job queue, which keeps its queues in Redis.
--
-- Parts and files (the Go files are those of pkg/bullmq/):
--   Keys                 keys.go: the names of a queue's keys, with hash tags on a cluster
--   Cluster              cluster.go: CRC16, the slot of a key, ValidateHashTags; Cluster/Xor and
--                        Cluster/Division: what CRC16 is held against
--   Errors               errors.go: error values and CategorizeError
--   Jobs                 job.go: the job and its options; Jobs/Validation: validation.go
--   Retry                retry.go: CalculateBackoff
--   Events               events.go: the event stream
--   Queue                queue.go and queue_impl.go: Add, GetJob, pausing; Queue/Manage: counts,
--                        removal, cleaning, draining, retrying
--   Worker               worker.go; Worker/Run: worker_impl.go and results_queue.go, from the pickup
--                        of a job to its retry or failure; Worker/Complete: completer.go;
--                        Worker/Stalled: stalled.go; Worker/Heartbeat: heartbeat.go;
--                        Worker/Start: the loop of Start with its semaphore, Stop, and the report on
--                        the slots of the worker's keys; Worker/Identity: utils.go and the worker's id
--   Logs                 logs.go, progress.go and the Lua scripts addLog and updateProgress of
--                        scripts/scripts.go
--   Scripts              scripts/loader.go: the loader of scripts, LoadAll, and a run by name
--   Invariant            which values fit the keys of a queue, and that each call leaves them so,
--                        whatever the server refuses
--   Board                a queue without Redis, as lists and sets of job ids, and how Add, a pickup,
--                        the run of a job and the loop of Start move jobs on it; Board/Managing: how
--                        RemoveJob, Clean, Drain and RetryJob do; Board/Sharing: two workers of one
--                        queue; Board/Losing: a pickup whose lock is refused
--   System               a worker at work among other workers and clients, as a step relation
--   Redis                the server that all of them talk to through go-redis
--   Prelude              byte strings, integers and the lemmas that the parts share
--   Examples             concrete servers and jobs
--
-- A queue's state is on the Redis server: the wait and active lists, the prioritized, delayed,
-- completed and failed sets, a hash, a lock and a log list for each job, the pause flag in the meta
-- hash, and the event stream. `Add` puts a job there, a worker picks it up under a lock, and
-- completes it, retries it through the delayed set or fails it; the stalled checker puts active jobs
-- without a lock back; heartbeats extend locks.
--
-- The server is a parameter, the record `Server` of Redis: a state, the execution of one command and
-- the value of a key. What go-redis and Redis document is stated as hypotheses: `Laws` (a command
-- changes its own key alone, in the documented way; where go-redis returns an error, the command
-- changed nothing, or it was run and its reply was lost) and, where a theorem says so by "a server that
-- is up", `IsHealthy` (no command is refused but for the type of its key's value, a missing value, or a
-- time to live that SETEX does not take, and no reply is lost). Redis/Memory has a server in memory that
-- meets both, one that refuses commands, and one that runs them and loses their replies. A Go function
-- that talks to Redis is an `Action`: it takes the server's state and returns a result or an error with
-- the state afterwards; an error may come after changes.
--
-- LogManager and ProgressUpdater run their script by its name, through a loader of their own on which
-- LoadAll was called; in Logs such a run is the execution of the script's text, with no other command
-- in between.
--
-- Times, uuids, lock tokens and random numbers are arguments. JSON, strconv and fmt are the record
-- `Codec`, float64 is the record `Float64` (where a theorem says "on amd64", with the laws `IsAmd64` of
-- Retry/Bounds), the application's job processor is part of `Turn`. A Go string is the list of its
-- bytes, an int is a ℤ without its wrap-around where the code only compares and increments small
-- counts; the counters of type uint64 wrap. A duration counts nanoseconds.
--
-- Bounds and fuel: the loop of formatBytes runs on fuel 7, which is enough for any int64. All other
-- loops are structural.
--
-- In System a step is one whole call: a pass of the worker's loop, the run of a job to its end, a check
-- of the stalled jobs, a heartbeat, a call of a client or of another worker, or the expiry of a lock.
-- The commands of two such calls do not mix there; the calls of Invariant are shown to keep the data
-- consistent command by command, whatever the server refuses.
--
-- The loop of a heartbeat runs over a list of wakes: each is what its select picks, and before a tick
-- others change the server as they like. In Worker/Stalled/Races a completion comes between the stalled
-- checker's read of the active list and its test of the lock.
--
-- Not modelled: when the tickers of the heartbeats and of the stalled checker fire, any other
-- interleaving of two goroutines inside a call, the calls of StartHeartbeat and StopHeartbeat inside
-- processJob, the OnError callback of the results queue, logging, the uuid of a lock token, a negative
-- Concurrency, for which NewWorker panics, the unused extendLockPeriodically and
-- calculateCRC16Alternate, and the Lua scripts that the Go code does not run. Scores of sorted sets are
-- integers. A pipeline is its commands one after the other. A command is sent once: that a client may be
-- set to send it again after a lost reply (MaxRetries of go-redis) is not modelled. The expiry of keys
-- by time is left to the server.
pub mod Prelude
pub mod Errors
pub mod Redis
pub mod Keys
pub mod Cluster
pub mod Jobs
pub mod Retry
pub mod Events
pub mod Queue
pub mod Worker
pub mod Logs
pub mod Invariant
pub mod Board
pub mod Scripts
pub mod System
pub mod Examples
