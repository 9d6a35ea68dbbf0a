-- ===== src/Network/Aggregator/Waiting.antt =====
-- What an Aggregator waits for before it reads the database.
use logstore_node.Base.{
  ◌≡◌, refl, inl, inr, true, false, ◌&&◌, ◌||◌, some, List, [], ◌∷◌, arith, Bool-cases, any, map,
  All, ◌===◌, text_eq, Text,
}
use logstore_node.Protocol.{MessageRefs, QueryRequest, QueryResponse}
use logstore_node.Network.AggregationList.{push_primary}
use logstore_node.Network.Aggregator.{
  Aggregator, Event, primary_data, stream_end, primary_error, foreign_response, propagation,
  message_stored, propagation_stored, new_aggregator, do_check, without_stream, take_response,
  handle, handle_all, is_waiting_for_foreign_nodes,
}
use logstore_node.Base.Collections.{get, has, get-put}
use logstore_node.Network.Aggregator.{ForeignNode, new_node, is_silent, get_or_create}

module _ (refs : MessageRefs) where
  open refs use {Ref, compare_to}

  any-get :
      (m : List (Text × ForeignNode refs)) (node : Text) (n : ForeignNode refs)
      → get m node ≡ some n
      → is_silent refs (node, n) ≡ true
      → any (is_silent refs) m ≡ true
  unfolding get
  any-get [] node n h k = cc
  any-get ((j, w) ∷ m) node n h k = elim (Bool-cases (j === node)) [
    | inl here ↦ ground (arith, here)
    | inr other ↦ ground (arith, other, any-get m node n)
  ]

  -- The node has not sent its final response.
  pub record IsUnfinished (a : Aggregator refs) (node : Text) : Type 0 where
    pub status : get a.foreign_node_responses node ≡ some (new_node refs)
    pub unread : a.issued ≡ []
    pub running : a.has_ended ≡ false

  unfinished_waits :
      (a : Aggregator refs) (node : Text)
      → IsUnfinished a node
      → is_waiting_for_foreign_nodes refs a ≡ true
  unfolding is_waiting_for_foreign_nodes
  unfinished_waits a node v = any-get a.foreign_node_responses node (new_node refs) v.status refl

  do_check-IsUnfinished :
      (a : Aggregator refs) (node : Text)
      → IsUnfinished a node
      → IsUnfinished (do_check refs a) node
  unfolding do_check
  do_check-IsUnfinished a node v = rw (unfinished_waits a node v, do_check) v

  -- The event is no final response of the node.
  abbrev pub IsNotFinal : Text → Event refs → Type 0
  IsNotFinal node (foreign_response other response) =
      ((other === node) && response.is_final) ≡ false
  IsNotFinal node (primary_data r) = Unit
  IsNotFinal node (stream_end i) = Unit
  IsNotFinal node primary_error = Unit
  IsNotFinal node (propagation rs) = Unit
  IsNotFinal node (message_stored r) = Unit
  IsNotFinal node propagation_stored = Unit

  take_response-IsUnfinished :
      (a : Aggregator refs) (node other : Text) (response : QueryResponse refs)
      → ((other === node) && response.is_final) ≡ false
      → IsUnfinished a node
      → IsUnfinished (take_response refs a other response) node
  unfolding take_response get_or_create
  take_response-IsUnfinished a node other response h v =
      let n = get_or_create refs a other in
      let w = record n { is_finalized = response.is_final || n.is_finalized } in
      record {
        status = elim (Bool-cases (other === node)) [
          | inl same ↦ ground (
            arith,
            same,
            (text_eq.beq_iff other node).0 same,
            get-put a.foreign_node_responses other w node,
          )
          | inr differs ↦ ground (arith, differs, get-put a.foreign_node_responses other w node)
        ];
        unread = v.unread;
        running = v.running;
      }

  handle-IsUnfinished :
      (a : Aggregator refs) (node : Text) (e : Event refs)
      → IsNotFinal node e
      → IsUnfinished a node
      → IsUnfinished (handle refs a e) node
  unfolding handle
  handle-IsUnfinished a node (primary_data r) h v =
      do_check-IsUnfinished (record a { aggregation_list = push_primary refs a.aggregation_list r })
        node (record { status = v.status; unread = v.unread; running = v.running })
  handle-IsUnfinished a node (stream_end i) h v =
      do_check-IsUnfinished (without_stream refs a i) node
        (record { status = v.status; unread = v.unread; running = v.running })
  handle-IsUnfinished a node primary_error h v = record {
    status = v.status;
    unread = v.unread;
    running = v.running;
  }
  handle-IsUnfinished a node (foreign_response other response) h v =
      do_check-IsUnfinished (take_response refs a other response) node
        (take_response-IsUnfinished a node other response h v)
  handle-IsUnfinished a node (propagation rs) h v = record {
    status = v.status;
    unread = v.unread;
    running = v.running;
  }
  handle-IsUnfinished a node (message_stored r) h v = record {
    status = v.status;
    unread = v.unread;
    running = v.running;
  }
  handle-IsUnfinished a node propagation_stored h v = do_check-IsUnfinished a node v

  handle_all-IsUnfinished :
      (a : Aggregator refs) (node : Text) (es : List (Event refs))
      → All (IsNotFinal node) es
      → IsUnfinished a node
      → IsUnfinished (handle_all refs a es) node
  unfolding handle_all
  handle_all-IsUnfinished a node [] h v = v
  handle_all-IsUnfinished a node (e ∷ es) h v =
      handle_all-IsUnfinished (handle refs a e) node es h.1 (handle-IsUnfinished a node e h.0 v)

  get-new_nodes :
      (nodes : List Text) (node : Text)
      → has nodes node ≡ true
      → get (map (λ (n : Text). (n, new_node refs)) nodes) node ≡ some (new_node refs)
  unfolding get has
  get-new_nodes [] node h = cc
  get-new_nodes (n ∷ nodes) node h = ground (arith, get-new_nodes nodes node)

  -- As long as one of the nodes that were online has not sent its final response, whatever else
  -- happens, the aggregator reads no range from the database and does not end.
  pub handle_all-waits :
      (request : QueryRequest) (nodes : List Text) (node : Text) (es : List (Event refs))
      → has nodes node ≡ true
      → All (IsNotFinal node) es
      → let a = handle_all refs (new_aggregator refs request nodes) es in
        (a.issued ≡ []) × (a.has_ended ≡ false)
  unfolding new_aggregator
  handle_all-waits request nodes node es h k =
      let v =
        handle_all-IsUnfinished (new_aggregator refs request nodes) node es k
          (record { status = get-new_nodes nodes node h; unread = refl; running = refl }) in
      (v.unread, v.running)
