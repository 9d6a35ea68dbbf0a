-- ===== src/Network/Propagator.antt =====
-- network/Propagator.ts: a foreign node sends the primary what the primary lacks. As in the
-- Aggregator, streams are numbered and their `data` and `end` are events.
pub mod Sending
pub mod Complete
pub mod Asked
pub mod Premature
use logstore_node.Base.{
  ℕ, ◌+◌, Bool, true, false, not, ◌&&◌, ◌||◌, any, Option, none, some, List, [], ◌∷◌, ◌++◌, filter,
  ◌==◌, if◌then◌else◌,
}
use logstore_node.Protocol.{MessageRefs, QueryRequest, QueryResponse}
use logstore_node.Database.{DatabaseQuery, query_by_message_refs}
use logstore_node.Network.InitialQuery.{initial_query}
use logstore_node.Network.PropagationList
use logstore_node.Network.PropagationList.{
  PropagationList, push_primary, push_foreign, finalize_primary, finalize_foreign, is_finalized,
  get_diff_and_shrink,
}

-- A query by references, and whether its stream ends the propagation stream (`end` of `pipe`).
pub record Sent (refs : MessageRefs) : Type 0 where
  pub stream : ℕ
  pub message_refs : List refs.Ref
  pub ends : Bool

pub record Propagator (refs : MessageRefs) : Type 0 where
  pub query_request : QueryRequest
  pub propagation_list : PropagationList refs
  pub query_streams : List ℕ
  pub next_stream : ℕ
  pub first_query : DatabaseQuery refs
  pub sent : List (Sent refs)
  pub has_ended : Bool

module _ (refs : MessageRefs) where
  open refs use {Ref}

  unfoldable pub new_propagator : QueryRequest → Propagator refs
  new_propagator request = record {
    query_request = request;
    propagation_list = PropagationList.empty refs;
    query_streams = [];
    next_stream = 0;
    first_query = initial_query refs request;
    sent = [];
    has_ended = false;
  }

  abbrev pub has_no_streams : Propagator refs → Bool
  has_no_streams p = elim p.query_streams [ [] ↦ true | _ ∷ _ ↦ false ]

  -- The query of the difference.
  abbrev pub sent_query : Propagator refs → Sent refs → DatabaseQuery refs
  sent_query p s =
      query_by_message_refs p.query_request.stream_id p.query_request.partition s.message_refs

  -- A nonempty difference is queried, and its stream piped into the propagation stream.
  unfoldable pub send_diff : Propagator refs → List Ref → PropagationList refs → Propagator refs
  send_diff p [] list =
      if is_finalized refs list && has_no_streams p
      then record p { propagation_list = list; has_ended = true }
      else record p { propagation_list = list }
  send_diff p (r ∷ rs) list = record p {
    propagation_list = list;
    query_streams = p.query_streams ++ p.next_stream ∷ [];
    next_stream = p.next_stream + 1;
    sent =
        p.sent
        ++ record { stream = p.next_stream; message_refs = r ∷ rs; ends = is_finalized refs list }
          ∷ [];
  }

  unfoldable pub do_check : Propagator refs → Propagator refs
  unfolding send_diff
  do_check p =
      let (diff, list) = get_diff_and_shrink refs p.propagation_list in send_diff p diff list

  -- `data` and `end` of this node's own query.
  unfoldable pub on_data : Propagator refs → Ref → Propagator refs
  unfolding do_check
  on_data p r = do_check (record p { propagation_list = push_foreign refs p.propagation_list r })

  unfoldable pub on_end : Propagator refs → Propagator refs
  unfolding do_check
  on_end p = do_check (record p { propagation_list = finalize_foreign refs p.propagation_list })

  -- `end` of the query of a difference, which is passed on by the pipe where it is so set.
  unfoldable pub on_sent : Propagator refs → ℕ → Propagator refs
  unfolding do_check
  on_sent p i = do_check (record p {
    query_streams = filter (λ j. not (j == i)) p.query_streams;
    has_ended = p.has_ended || any (λ (s : Sent refs). s.stream == i && s.ends) p.sent;
  })

  unfoldable pub push_all_primary : PropagationList refs → List Ref → PropagationList refs
  push_all_primary l [] = l
  push_all_primary l (r ∷ rs) = push_all_primary (push_primary refs l r) rs

  abbrev pub finalize_if : Bool → PropagationList refs → PropagationList refs
  finalize_if b l = if b then finalize_primary refs l else l

  unfoldable pub on_primary_response : Propagator refs → QueryResponse refs → Propagator refs
  unfolding push_all_primary do_check
  on_primary_response p response = do_check (record p {
    propagation_list =
        finalize_if response.is_final (push_all_primary p.propagation_list response.message_refs);
  })
