-- ===== src/Lib.antt =====
-- A model of the LogStore node (packages/core) and of what makes its parts correct.
--
-- A query is answered by its primary node together with the nodes that hold the same stream. The
-- HTTP endpoints make a query request (Http), the network managers route the nodes' responses by
-- request id to an Aggregator at the primary and to a Propagator at each other node (Network),
-- both read the database (LogStore, Database), and stored messages are inserted in batches
-- (Storage). The sets that follow the chain are kept by a synchronizer (Sync).
--
-- Base: numbers, Boolean tests, lists, strings, integers, and sets and maps as lists.
-- Protocol: the messages of @logsn/protocol and the message references of @streamr/protocol. Both
--   packages are outside of the repository: a reference is a parameter with a comparison by
--   timestamp and sequence number, and a message is a record of the fields that the node uses.
-- Database/Sqlite, Database/Cassandra: SQLiteDBAdapter.ts and CassandraDBAdapter.ts in
--   packages/core/src/plugins/logStore/database. Database/Sql: the statements that they build. The
--   databases are outside of the repository: a table is a parameter, with the documented behaviour
--   of a selection, its order and limit, and of an insertion under a primary key.
-- Database, LogStore: packages/core/src/plugins/logStore/LogStore.ts and
--   BaseQueryRequestManager.ts. LogStore/Limit: MessageLimitTransform in http/dataTransformers.ts.
--   LogStore/Registry: NodeStreamsRegistry.ts. LogStore/Listener: MessageListener.ts.
-- Network/AggregationList, PropagationList, Aggregator, Propagator, AggregationManager,
--   PropagationManager: the files of the same name in
--   packages/core/src/plugins/logStore/network. Network/InitialQuery: the first query that both
--   constructors issue. A method is the function of its name in snake_case.
-- Network/Config: LogStoreNetworkConfig.ts there, and what LogStoreNetworkPlugin.ts does with its
--   changes. Network/Heartbeat: Heartbeat.ts there. Network/Broadband: BroadbandPublisher.ts and
--   BroadbandSubscriber.ts in packages/core/src/shared.
-- Sync: packages/core/src/utils/SetMembershipSynchronizer.ts.
-- Storage/Chunker, Storage/Batch, Storage/BatchManager, Storage/Bucket,
--   Storage/BucketManager: the files of the same name in
--   packages/core/src/plugins/logStore. Storage/PendingStores: CassandraDBAdapter.store.
-- Http/Numbers, Http/Requests: the requests of packages/core/src/plugins/logStore/http and their
--   checks. Http/Responses: the other transforms of http/dataTransformers.ts.
--   Http/Endpoint: the handler of http/dataQueryEndpoint.ts, in network mode and in standalone mode
--   (network/LogStoreNetworkPlugin.ts, standalone/LogStoreStandalonePlugin.ts). Http/Proxy: the endpoint of
--   packages/core/src/plugins/storageProxy/dataQueryEndpoint.ts.
-- Metrics: packages/core/src/shared/MessageMetrics.ts. Metrics/Summary: MessageMetricsSummary.ts
--   there.
-- Tests: concrete runs.
--
-- State is passed explicitly. A stream, a timer or a call of the database or the client is known by
-- a number or an id, and its callbacks are events, which come in any order: a history is a list of
-- events, or a relation on states with a constructor for each event. An error is a value. A number
-- of the source is a natural number or an integer without a bound; nothing of the model depends on
-- the loss of digits above 2^53. There is no fuel but the twenty trials of the source to
-- connect to Cassandra: every other loop of the source that is modelled runs over a list. A call
-- that awaits an answer is one step where its state cannot change in between, and otherwise the
-- answers are events; a turn of checkFullBuckets and a call of the registry of streams are one step
-- although other calls could come in between.
--
-- Not modelled: the bytes of messages and their serialisation, which is the work of external
-- packages; logging, the streamr client and the databases behind their queries, which are I/O;
-- the queries of the adapters for dates; and the registries on the chain, validation schemas, the
-- programs, the assignments of the storage proxy and the command line.
pub mod Base
pub mod Protocol
pub mod Database
pub mod Network
pub mod Sync
pub mod Storage
pub mod LogStore
pub mod Http
pub mod Metrics
pub mod Tests
