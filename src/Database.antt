-- ===== src/Database.antt =====
-- packages/core/src/plugins/logStore/database/DatabaseAdapter.ts and LogStore.ts: the queries that
-- the node sends to its database. To those parts the database answers with events;
-- Sql, Sqlite, Cassandra: the adapters and their tables.
pub mod Sql
pub mod Sqlite
pub mod Cassandra
use logstore_node.Base.{ℕ, ℤ, Option, List, Text}
use logstore_node.Protocol.{MessageRefs}

abbrev pub min_sequence_number_value : ℕ
min_sequence_number_value = 0

abbrev pub max_sequence_number_value : ℕ
max_sequence_number_value = 2147483647

abbrev pub max_timestamp_value : ℕ
max_timestamp_value = 8640000000000000

pub record RangeQuery : Type 0 where
  pub stream_id : Text
  pub partition : ℤ
  pub from_timestamp : ℤ
  pub from_sequence_no : ℤ
  pub to_timestamp : ℤ
  pub to_sequence_no : ℤ
  pub publisher_id : Option Text
  pub msg_chain_id : Option Text
  pub limit : Option ℕ

-- The abstract methods of the adapter that read.
pub data DatabaseQuery (refs : MessageRefs) : Type 0 where
  query_last : Text → ℤ → ℤ → DatabaseQuery refs
  query_first : Text → ℤ → ℤ → DatabaseQuery refs
  query_range : RangeQuery → DatabaseQuery refs
  query_by_message_refs : Text → ℤ → List refs.Ref → DatabaseQuery refs
