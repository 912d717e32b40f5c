-- ===== src/Lib.antt =====
-- A verification library for the ff-eth-logs warehouse: a store of the provenance logs of an Ethereum
-- chain, which follows the chain behind a confirmation lag and answers eth_getLogs from PostgreSQL.
--
-- The parts, and the files that model them:
--   internal/eventset: Eventset (the stored set and `Keep`), Eventset.Keep (what it admits).
--   internal/chain: Chain (`EthClient` as a record of operations over a state of its own, so that a
--     provider may change its answers from call to call), Chain.Errors (`IsTooManyResultsError` and
--     the like), Chain.Pagination (`Paginator.FilterLogs` and `walkWindow`), Chain.Client (the retries
--     of `RealEthClient` and the redaction of its errors).
--   internal/logstore: Logstore (the rows), Logstore.Write (`WriteRange`, `Rewind`, `SetCoverage`,
--     `SetMaintenance`), Logstore.Locks (`acquireLocks`), Logstore.Read (`Store.Read`, `FilterLogs`,
--     `buildFilter`, `scanLog` and the lookups).
--   internal/rpcapi: Rpcapi (`GetLogs`, `BlockNumber` and what they call).
--     Rpcapi.Decode (the JSON filter), Rpcapi.Server (`Server.Run` and the health page),
--     Rpcapi.Served (from the chain to the answer).
--   internal/ingestion: Ingestion.Fetcher (`FetchIngestionLogs`), Ingestion.Stream (`streamState`),
--     Ingestion.Subscriber (`Subscriber`, `recoverDeepReorg`), Ingestion.Record (`record`,
--     `reconcile`), Ingestion.Plan (`planRange`), Ingestion.Batch (`ingestRange`, `ingestBatch`),
--     Ingestion.Run (`Subscriber.Run` and the runner), Ingestion.Sink and Ingestion.Warehouse.
--     Ingestion.Provider puts the client with retries under it.
--   internal/config: Config (the settings, their defaults, `Validate` and `Load`).
--   internal/backfill: Backfill.Manifest (`Manifest` and its checks), Backfill.Checks and
--     Backfill.Loader (the stages `Prepare`, `Logs`, `Blocks` and `Finish`), Backfill.Parquet
--     (`copyParquetWhere` and `parquetSource`).
--   internal/logger: Logger (`Initialize`, `ErrorCtx` and `Flush`).
--   cmd/ff-eth-logs: Command (the flags and the dispatch), Command.Process (the subcommands, their locks
--     and the exit code), Command.Launches (any commands one after another).
-- Ingestion reads the chain through Chain, keeps what Eventset admits and writes it through
-- Logstore.Write; a request goes through Rpcapi to Logstore.Read. Base holds what they share.
--
-- How the code is modelled: a method that returns an error gives a Result; one that acts on a
-- provider or on the tables takes a state and gives it back. A uint64 is a natural number, with its
-- wrap-around written out where the code adds or subtracts; the indices of a log pass through int32 on
-- their way to the tables and back (`to_int32`, `to_uint`), and a height is taken to be below 2^63,
-- where int64 leaves it as it is. A hash, an address and a byte are numbers.
-- A statement sent to PostgreSQL has the effect that its text states on tables as lists of rows; each
-- statement may fail for causes outside the model, and a failed transaction leaves the tables alone.
-- keccak256, the block tags, the provider and the directory of an export are parameters, since they are
-- not in this repository.
--
-- The loops of the paginator run on fuel: the span of the range for its windows, and for a window a
-- bound on how often its step can be halved and doubled; the fetch has one round more than its range
-- has blocks, and so has the loop over the batches of a range. `record`, which calls itself after a
-- recovery, has one round more than the number of the next block, since a recovery lowers that. A
-- batch has its three attempts, and a copy from Parquet one call more than a row group has rows. The
-- walks of `reconcile` and `findForkPoint` recur on the height. Each
-- round of these loops makes a step at least, so the bounds are enough; to run out of rounds is an
-- error of the model's own.
--
-- Ingestion takes its warehouse as a record of operations with laws (Ingestion.Sink), which the log
-- store fills (Ingestion.Warehouse). The provider is a parameter throughout; where a
-- theorem needs that the head it gives for a height has that height, it says so (`Numbers`). What the
-- loop of `Subscriber.Run` waits for is a list of events. Heights stay a million or more below 2^64,
-- where the sums of the code do not wrap.
--
-- A command takes what is not of the program from a record (`Outside`): the flags that Go's package
-- finds, the settings that viper reads, the failures of the database, and which goroutine of `serve`
-- fails first; its retries of a lock are a number that the deadline leaves. The retries of a call are
-- those that package backoff documents, as a relation that a parameter meets (`Retried`).
--
-- Not modelled: the timer of the watchdog, the decoding of Parquet files, the routing of HTTP requests,
-- the lines of the log below errors, the rendering of the connection string, and the DDL of the
-- schema. They are calls of libraries, or of no consequence to the tables.
pub mod Base
pub mod Eventset
pub mod Chain
pub mod Logstore
pub mod Rpcapi
pub mod Ingestion
pub mod Config
pub mod Backfill
pub mod Logger
pub mod Command
