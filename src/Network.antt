-- ===== src/Network.antt =====
-- packages/core/src/plugins/logStore/network: how nodes compare and complete their answers,
-- and what they know of each other and of the streams.
pub mod AggregationList
pub mod PropagationList
pub mod InitialQuery
pub mod Aggregator
pub mod Propagator
pub mod AggregationManager
pub mod PropagationManager
pub mod Heartbeat
pub mod Broadband
pub mod Config
