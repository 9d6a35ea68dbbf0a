-- ===== src/Tests.antt =====
-- Concrete runs, and the theorems at concrete inputs.
mod Sample
mod Engines
mod Databases
mod Buckets
mod Endpoints
mod Nodes
mod Lists
mod Aggregators
mod Propagators
mod Managers
mod Sets
mod Batches
mod Chunks
mod Requests
mod Counters
