-- ===== src/Tests/Nodes.antt =====
-- What a node follows: heartbeats, stream parts and streams.
use logstore_node.Base.{
  arith, ℕ, ◌≡◌, refl, ◌&&◌, not, ◌===◌, none, some, List, [], ◌∷◌, Text, text_eq,
}
use logstore_node.Base.Collections.{has, get}
use logstore_node.Sync.{initial, Operation}
use logstore_node.Network.Heartbeat
use logstore_node.Network.Heartbeat.{
  new_heartbeat, on_messages, online_nodes, is_recent, last_of, online_nodes-has,
}
use logstore_node.Network.Config.{
  Update, polled, changed, updates, has_stream_part, updates-has_stream_part,
}
use logstore_node.LogStore.Registry.{Call, register_id, unregister_id, calls, follow, calls-follow}
use logstore_node.Tests.Sample.{alice, bob, carol}

-- Bob's heartbeats at 1000 and 5000, Carol's at 2000, and the node's own, seen at 65000.
abbrev heartbeats : List (Text × ℕ)
heartbeats = (bob, 1000) ∷ (carol, 2000) ∷ (alice, 4000) ∷ (bob, 5000) ∷ []

online_nodes-has_example :
    has (online_nodes (on_messages (Heartbeat.start new_heartbeat alice) heartbeats) 65000) bob
    ≡ (not (bob === alice) && is_recent 65000 (last_of none bob heartbeats))
online_nodes-has_example = online_nodes-has alice heartbeats 65000 bob

-- The index of a part is its first character.
abbrev index : ℕ → Text → ℕ
index size [] = 0
index size (c ∷ cs) = c

abbrev followed : List Update
followed =
    polled (alice ∷ bob ∷ []) 5
    ∷ changed (alice ∷ []) Operation.removed 7
    ∷ changed (alice ∷ []) Operation.added 9
    ∷ []

updates-has_stream_part_example :
    has (updates index 2 97 (initial, []) followed).1 alice
    ≡ has_stream_part index 2 97 (updates index 2 97 (initial, []) followed).0 alice
unfolding has_stream_part has
updates-has_stream_part_example = updates-has_stream_part index 2 97 initial [] followed alice refl

abbrev own_id : Text → Text
own_id t = t

abbrev registry_calls : List (Call Text)
registry_calls =
    register_id alice (some alice)
    ∷ register_id bob none
    ∷ register_id alice (some alice)
    ∷ unregister_id alice
    ∷ []

calls-follow_example :
    follow own_id (calls [] registry_calls).1 (get []) ≡ get (calls [] registry_calls).0
unfolding get
calls-follow_example =
    calls-follow own_id [] registry_calls (λ q s h. absurd (ground (arith, h)))
      (refl, (tt, (refl, (tt, tt))))
