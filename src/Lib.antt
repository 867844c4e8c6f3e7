-- ===== src/Lib.antt =====
-- The distributed image processing system, in Go: a coordinator splits jobs over an image store
-- into tasks, hands them to workers under leases, steals work from slow workers, and records each
-- task's winning result in a replicated ledger before it accepts a report.
--
-- The parts and their files.
--
-- * Scheduler (internal/scheduler/scheduler.go, job.go, commit.go, persist.go). Scheduler.Job
--   has the records Job and Task, Scheduler.State the Scheduler's maps and queue, with persistLocked,
--   Snapshot and Restore over the attached store; a Go map is a list of keys and values with one entry
--   for a key, and a pointer into it is the key. Scheduler.Lease is the body of RenewLease, grantLocked
--   and resetLeaseLocked, Scheduler.Steal stealLocked, Scheduler.Dispatch Submit and PollTasks,
--   Scheduler.Drain DrainPending and PendingCount, Scheduler.Settle StartTask, RenewLease, updateJob and
--   RebalanceWorker, Scheduler.Report ReportResult. ReportResult releases the lock around its calls of
--   the decider and the side-effect sink, so it is three functions, and other methods run between the
--   first and the last. Scheduler.Invariant is the well-formedness of a state and Scheduler.Steps the
--   runs of the methods as step relations.
-- * Coordinator (internal/coordinator/raft.go, effect.go, api.go, coordinator.go).
--   Coordinator.RaftCommit is raftCommitDecider.Decide, over the moments at which its loop looks at
--   the ledger. Coordinator.Effects is the completion sink over the claims of internal/effect/effect.go,
--   as a service that ReportResult calls. Coordinator.Tickets is the part of handleJobs, and of the
--   job-done hook, that holds admission tickets. Coordinator.Durable is EnablePersistence and
--   checkpoint: the scheduler and the write-ahead log together, with restarts. Coordinator.Failures
--   is failureEventLoop, between the membership's channel of events and RebalanceWorker.
-- * Pipeline.Wal (internal/pipeline/checkpoint.go): the write-ahead log on the bytes of its two
--   files: frames, recovery, Append and Checkpoint, and what a crash leaves. Pipeline.Prefetcher
--   (internal/pipeline/prefetcher.go): Stream, whose goroutines are steps that come in any order.
-- * Worker.Sweep (internal/worker/worker.go): runAlgorithm's loop under a lease, the renewals, the
--   staging of the result and what RunTask reports.
-- * Storage (internal/storage/shard.go, multipart.go): Storage.Shard is the list of the 256 shards,
--   which a job takes by default, and Storage.Multipart the upload in parts, whose goroutines are steps
--   that come in any order.
-- * Admission (internal/admission/controller.go): the controller that shares a ceiling among tenants
--   by the weights of their classes, with its tickets.
-- * Consensus (internal/consensus/commit_fsm.go): the state machine that the Raft log feeds with
--   commit commands, where the highest generation of a task wins.
-- * Cache (internal/cache/policy.go, clock.go, s3fifo.go, eviction.go, local_cache.go): the object
--   cache with its byte budget, over an eviction policy. Cache.Policy is the interface
--   EvictionPolicy with the promises that the cache relies on, Cache.Lru, Cache.Clock and
--   Cache.S3Fifo the three implementations, and Cache.Eviction the admission, the eviction loop and
--   the halves of Get on either side of the fetch.
-- * Cluster (internal/cluster/ring.go, membership.go, node.go): Cluster.Ring is the consistent-hash
--   ring, over a hash that is a parameter, and Cluster.Membership the two-stage failure detector,
--   which keeps the ring.
-- * Auth (internal/auth/rbac.go, jwt.go): the roles and what they allow. Auth.Tokens is the minting and
--   the check of signed tokens, on bytes.
-- * Ratelimit (internal/ratelimit/tokenbucket.go): the token bucket of each key.
-- * Rpc.Gate (internal/rpc/interceptor.go): what every gRPC call passes before its handler: the token,
--   the role and the tenant's bucket.
-- * Diag.LockOrder (internal/diag/lock.go): the graph of the orders in which locks are taken, and the
--   search that finds a cycle.
-- * Formats.TfRecord (internal/formats/tfrecord.go): the writer and the reader of TFRecord streams.
--
-- What interacts. ReportResult reads the generation that the task then has, which a steal raises (a
-- renewal keeps it, and tells the worker); the decider proposes it to the ledger, where it fences older
-- attempts. The decider, the committer and the sink are the parameters `Services` of Report, and
-- Coordinator.Effects fills the sink; the job-done hook is the list of its calls in the state. Shard
-- locality of PollTasks is a parameter, for the ring's Lookup. The scheduler persists through the log of
-- Pipeline.Wal, where the codec is a parameter with the law that it reads back what it wrote. The gate
-- of Rpc stands over Auth, Auth.Tokens and Ratelimit, and the event loop of Coordinator.Failures between
-- Cluster.Membership and Scheduler.Settle.
--
-- Parameters stand for code outside the repository: the checksum functions of hash/crc32, the JSON and
-- protobuf codecs, the hash of the ring, the Raft node (which entries it delivers, and when it
-- leads), HMAC, base64 and the arithmetic of float64, and the worker's coordinator and store, with a
-- state of their own and any answers. What the object store answers the prefetcher is a function of
-- the key; whether it takes a part of an upload is an event, and its tag a function of the part.
--
-- Numbers. Go's int and int64 are ℤ or the native ℕ where the code keeps them at 0 or above;
-- offsets that a worker reports are added with the wrap-around of int64 (Prelude.Int). Times are
-- numbers that only the caller supplies. Loops over a list are recursion on it. The other loops run
-- on fuel, and each turn uses up one unit of what bounds it: evictLocked one more than the number
-- of residents; CLOCK's sweep one more than the number of set reference bits; S3-FIFO's Victim one
-- more than the ids in the small queue and the references in both queues; recoverLog the number of
-- bytes of the log, as a frame is not empty; runAlgorithm's loop the length of the range; the
-- search of the lock-order graph the number of edges and two, as a name is put on the stack once.
--
-- Not modelled: the Raft protocol (the etcd library), the codecs, and the code that only calls
-- libraries, for Parquet, Arrow, tar, sandboxes, vector search, SQL, S3, Kubernetes and Ray; the
-- floating-point statistics (phi accrual, percentiles); HTTP and gRPC handlers that decode a request
-- and forward it; and tracing and metrics, which change no state. Left out as well are the parts with
-- state of their own around these: ingestion, quotas, tiering, the algorithm registry, the metadata
-- index, configuration, and the diagnostics other than the order of locks.
pub mod Prelude
pub mod Scheduler
pub mod Storage
pub mod Admission
pub mod Consensus
pub mod Cache
pub mod Cluster
pub mod Auth
pub mod Ratelimit
pub mod Rpc
pub mod Coordinator
pub mod Pipeline
pub mod Worker
pub mod Diag
pub mod Formats
