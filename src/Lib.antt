-- ===== src/Lib.antt =====
-- Verification of the task platform: the back end that keeps jobs and their tasks in PostgreSQL
-- and Redis and hands tasks out to workers over HTTP, and the workers that download videos and
-- copy files between object stores.
--
-- The parts, and the files that model them:
-- - Base: numbers, tests, lists, signed integers and maps that the other files share.
-- - ProxyPool: backend/pkg/proxypool/proxypool.go. A manager holds the proxies and the index of
--   the next one; a request or a probe is a function on it, and the network's reply an argument.
-- - Models: the task types of backend/go-app/models/tasks.go.
-- - Stats: the buffered job statistics of backend/go-app/handlers/task_handler.go
--   (`trackStatusChange`, `trackTxStatusChange`, `flushStats`, `flushTxStats`). The task handlers
--   call the first two at each change of a status, the ticker of the server calls the others.
-- - Buffer: the pre-fetch buffers that are read by offset (`fillJobBuffer`,
--   `fillLeagcyTxJobBuffer`). The ticker fills them, the workers' requests receive from them.
-- - Youtube: the handlers of video tasks: Update for `BatchUpdate`, Acquire for `AcquireTasks`,
--   Stuck for `scanStuckYoutubeTasks`, which the server's ticker calls.
-- - Ffmpeg: the handlers of ffmpeg tasks, from `AddFfmpegTasksToJob` to `AcquireFfmpegTasks`, and
--   Update for `BatchUpdateFfmpeg`.
-- - Sharded: the transfer jobs whose tasks are kept in shards: `AddTransferTasksToJob`, which the
--   scanners call, and `fillShardedTxBuffer`, which fills the buffer of a job. State: what Redis
--   has of one job, its buffer, and the table of tasks.
-- - SourceSet: what adding tasks promises, as a record of operations with its laws, which Sharded
--   and Legacy fill, and which the scanner's batches rely on (Transfer.Scanner.Added).
-- - Legacy: `addLegacyTransferTasks`, the same for the jobs that have one sorted set of tasks.
-- - TransferTasks: the handlers of transfer tasks: `BatchUpdateTransfer`, `ResetTransferTask`,
--   `GetFailedTasksForRetry`, and the life of a task through them and the worker's retries;
--   Acquire for `AcquireTransferTasks`, which takes tasks out of the buffers, with
--   `markTransferTasksRunning`.
-- - TransferJobs: the handlers of transfer jobs in backend/go-app/handlers/job_handler.go
--   (`StartTransferJob`, `StopTransferJob`, `UpdateTransferJobStatus`), and Retry for
--   `RetryTransferTasksLogic`, which the first of them starts.
-- - Transfer: backend/worker_transfer/transfer.go: timeouts, the parts of a multipart upload, the
--   retries; Copy for `transferFile` and `callTransferService`, Process for `processTask`, which
--   calls the former and reports to the server; Slots for the slots of workers and parts, whose
--   threads are interleaved step by step; Adaptive for `adjustConcurrency`; the part size of
--   r2-worker/r2s3.go; and Scanner for `processJob` of backend/worker_transfer/scanner.go, which
--   finds the files to copy.
-- - Downloader: backend/worker_downloader/downloader.go: the rate limiter, the proxy sessions and
--   `transferFileWithRetry`.
--
-- A function of the source has the same name here, in lower case with underscores. State that the
-- source keeps in globals or behind a mutex is a record that is passed on, and what Redis,
-- PostgreSQL, the network and the clock answer is an argument. A JSON value that cannot be parsed
-- is a case of its own. Numbers that are never negative are natural numbers, and a statement
-- about a machine integer says where it wraps around.
--
-- The loop over the retry queues in `AcquireTasks` is on fuel: each of its rounds takes an id
-- from a queue, so one more than the number of waiting ids is enough. The rounds of
-- `AcquireTransferTasks` and the attempts of `transferFileWithRetry` are as many as the code's
-- own bounds. The pages of `retryLegacyTransferTasks` are on fuel, one more than the number of
-- ids, and each page takes an id; so are those of `scanStuckYoutubeTasks`.
--
-- Not modelled: starting and stopping video jobs, the wait of a large file for its turn and the
-- key of a file at its destination in the transfer worker, the processing of a task in the
-- downloader, and the ffmpeg worker and its scanner, which are to follow; logging, metrics,
-- routes, configuration, the front end and the test programs, which are input and output.
-- Floating-point operations are arguments. A pipeline of Redis is not a transaction: where tasks
-- are added to transfer jobs, and in the updates of video and transfer tasks, one that fails has
-- carried out a part of its commands, which an argument gives; elsewhere a pipeline that fails is
-- taken to have written nothing, though Redis may have carried out a part of it. A buffer is a list: tasks that leave it and tasks that
-- come in at the same moment are in some order.
pub mod Base
pub mod ProxyPool
pub mod Stats
pub mod Models
pub mod Buffer
pub mod Transfer
pub mod Youtube
pub mod TransferTasks
pub mod TransferJobs
pub mod Sharded
pub mod Downloader
pub mod SourceSet
pub mod Legacy
pub mod Ffmpeg
