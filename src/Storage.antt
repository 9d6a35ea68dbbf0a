-- ===== src/Storage.antt =====
-- packages/core/src/plugins/logStore: how messages are cut into chunks, collected into batches and
-- assigned to buckets, and what a store does with all these.
pub mod Chunker
pub mod Batch
pub mod BatchManager
pub mod Bucket
pub mod BucketManager
pub mod PendingStores
