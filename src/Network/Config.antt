-- ===== src/Network/Config.antt =====
-- network/LogStoreNetworkConfig.ts: the stream parts of this node of a cluster, from the polls of
-- all streams and the events of single streams, and the node that joins and leaves them as
-- network/LogStoreNetworkPlugin.ts says. `keyToArrayIndex` is a parameter; a join counts when
-- it is asked for, although it may time out.
use logstore_node.Base.{
  ℕ, ◌≡◌, Bool, ◌&&◌, ◌||◌, not, List, [], ◌∷◌, Text, ◌==◌, text_eq, filter, arith,
}
use logstore_node.Base.Collections.{has, add, delete, has-add, has-delete}
use logstore_node.Sync.{Synchronizer, Diff, Operation, ingest_snapshot, ingest_patch}
use logstore_node.Sync.Changes.{Describes, ingest_snapshot-Describes, ingest_patch-Describes}

-- An update: the streams of a poll, or those of an event, as lists of their parts.
pub data Update : Type 0 where
  polled : (stream_parts : List Text) (block : ℕ) → Update
  changed : (stream_parts : List Text) → Operation → (block : ℕ) → Update

module _ (key_to_array_index : ℕ → Text → ℕ) (cluster_size my_index_in_cluster : ℕ) where
  abbrev pub is_mine : Text → Bool
  is_mine stream_part = key_to_array_index cluster_size stream_part == my_index_in_cluster

  unfoldable pub create_my_stream_parts : List Text → List Text
  create_my_stream_parts stream_parts = filter is_mine stream_parts

  unfoldable pub on_update : Synchronizer Text → Update → Synchronizer Text × Diff Text
  unfolding create_my_stream_parts
  on_update s (polled stream_parts block) =
      ingest_snapshot s (create_my_stream_parts stream_parts) block
  on_update s (changed stream_parts op block) =
      ingest_patch s (create_my_stream_parts stream_parts) op block

  unfoldable pub has_stream_part : Synchronizer Text → Text → Bool
  has_stream_part s stream_part = has s.state stream_part

  -- `handleDiff`: the parts that the node has joined, after those that are added and removed.
  unfoldable pub join_all : List Text → List Text → List Text
  join_all joined [] = joined
  join_all joined (part ∷ parts) = join_all (add joined part) parts

  unfoldable pub leave_all : List Text → List Text → List Text
  leave_all joined [] = joined
  leave_all joined (part ∷ parts) = leave_all (delete joined part) parts

  unfoldable pub handle_diff : List Text → Diff Text → List Text
  unfolding join_all leave_all
  handle_diff joined d = leave_all (join_all joined d.added) d.removed

  unfoldable pub updates :
      Synchronizer Text × List Text → List Update → Synchronizer Text × List Text
  unfolding on_update handle_diff
  updates (s, joined) [] = (s, joined)
  updates (s, joined) (u ∷ us) =
      let (s', d) = on_update s u in updates (s', handle_diff joined d) us

  has-join_all :
      (joined parts : List Text) (q : Text)
      → has (join_all joined parts) q ≡ (has joined q || has parts q)
  unfolding join_all has
  has-join_all joined [] q = ground arith
  has-join_all joined (p ∷ ps) q =
      ground (arith, has-join_all (add joined p) ps q, has-add joined p q)

  has-leave_all :
      (joined parts : List Text) (q : Text)
      → has (leave_all joined parts) q ≡ (has joined q && not (has parts q))
  unfolding leave_all has
  has-leave_all joined [] q = ground arith
  has-leave_all joined (p ∷ ps) q =
      ground (arith, has-leave_all (delete joined p) ps q, has-delete joined p q)

  has-handle_diff :
      (joined old new : List Text) (d : Diff Text) (q : Text)
      → Describes d old new q
      → has joined q ≡ has old q
      → has (handle_diff joined d) q ≡ has new q
  unfolding handle_diff
  has-handle_diff joined old new d q describes same =
      ground
        (arith, has-leave_all (join_all joined d.added) d.removed q, has-join_all joined d.added q)

  on_update-Describes :
      (s : Synchronizer Text) (u : Update) (q : Text)
      → let (s', d) = on_update s u in Describes d s.state s'.state q
  unfolding on_update
  on_update-Describes s (polled stream_parts block) q =
      ingest_snapshot-Describes s (create_my_stream_parts stream_parts) block q
  on_update-Describes s (changed stream_parts op block) q =
      ingest_patch-Describes s (create_my_stream_parts stream_parts) op block q

  -- After any polls and events, in any order, the node has been told to be in just the stream parts
  -- that the configuration has, when it had been told those before.
  pub updates-has_stream_part :
      (s : Synchronizer Text) (joined : List Text) (us : List Update) (q : Text)
      → has joined q ≡ has_stream_part s q
      → has (updates (s, joined) us).1 q ≡ has_stream_part (updates (s, joined) us).0 q
  unfolding updates has_stream_part
  updates-has_stream_part s joined [] q same = same
  updates-has_stream_part s joined (u ∷ us) q same =
      updates-has_stream_part (on_update s u).0 (handle_diff joined (on_update s u).1) us q (
        has-handle_diff joined s.state (on_update s u).0.state (on_update s u).1 q
          (on_update-Describes s u q) same)
