-- ===== src/Tests/Endpoints.antt =====
-- The endpoints of a node and of the storage proxy.
use logstore_node.Base.{
  ℕ, ℤ, ◌≡◌, refl, Bool, Text, Option, none, some, [], ◌∷◌, ◌===◌, text_eq, pos,
}
use logstore_node.Protocol.{QueryRequest}
use logstore_node.Http.Numbers.{
  number, parse_int, parse_int_if_exists, skip_spaces, parse_signed, parse_unsigned, parse_digits,
}
use logstore_node.Http.Requests
use logstore_node.Http.Requests.{
  Context, LastQuery, FromQuery, RangeParams, QueryRequestBag, query_request,
  get_for_range_query_request,
}
use logstore_node.Http.Proxy.{handle_range, last_type}
use logstore_node.Http.Alike.{answered, handle_range-answered}
use logstore_node.Http.Endpoint.{
  HttpRequest, success, json, get_format, create_handler, query_request_bag,
  validate_user_query_access, network_access, network, standalone,
}
use logstore_node.Http.Replies.{Follows, create_handler-Follows}
use logstore_node.Http.Accepted.{MayRead, create_handler-success}
use logstore_node.Tests.Sample.{alice, stream}

abbrev context : Context
context = record {
  accept = none;
  consumer = alice;
  stream_id = stream;
  partition = pos 0;
  request_id = 49 ∷ [];
}

-- ?fromTimestamp=12&toTimestamp=34&toSequenceNumber=5
abbrev range : RangeParams
range = record {
  from_timestamp = some (49 ∷ 50 ∷ []);
  to_timestamp = some (51 ∷ 52 ∷ []);
  from_sequence_number = none;
  to_sequence_number = some (53 ∷ []);
  publisher_id = none;
  msg_chain_id = none;
  from_offset = none;
  to_offset = none;
}

handle_range-answered_example :
    get_for_range_query_request 7 context range ≡ answered 7 context (handle_range range)
unfolding parse_int_if_exists parse_int skip_spaces parse_signed parse_unsigned parse_digits
handle_range-answered_example = handle_range-answered 7 context range refl refl

-- .../partitions/0/last
abbrev http_request : HttpRequest
http_request = record {
  id = stream;
  partition = 48 ∷ [];
  query_type = last_type;
  format = none;
  accept = none;
  consumer = alice;
  request_id = 49 ∷ [];
  last = record { count = none };
  from = record { from_timestamp = none; from_sequence_number = none; publisher_id = none };
  range = range;
}

-- The plugin answers with the sequence number of the request.
abbrev process : QueryRequest → Option ℕ
process q = some q.seq_num

-- The names of `Object.prototype`: 'constructor' of them.
abbrev is_inherited : Text → Bool
is_inherited key = key === (99 ∷ 111 ∷ 110 ∷ 115 ∷ 116 ∷ 114 ∷ 117 ∷ 99 ∷ 116 ∷ 111 ∷ 114 ∷ [])

create_handler-Follows_example :
    Follows process is_inherited network 7
      (create_handler process is_inherited network 7 http_request (pos 1))
create_handler-Follows_example =
    create_handler-Follows process is_inherited network 7 http_request (pos 1)

accepted : (create_handler process is_inherited network 7 http_request (pos 1)).0 ≡ success 7 json
unfolding create_handler get_format validate_user_query_access network_access query_request_bag
    parse_int skip_spaces parse_signed parse_unsigned parse_digits parse_int_if_exists
    Requests.get_for_last_query_request Requests.get_count_for_last_request Requests.make
    Requests.get_message_limit_for_request Requests.is_stream_request
accepted = refl

create_handler-success_example :
    MayRead process is_inherited network (pos 1)
    × (get_format is_inherited none ≡ some json)
    × ((p : ℤ) × (q : QueryRequest) × (parse_int (48 ∷ []) ≡ number p)
        × ((query_request_bag 7 http_request p).0 ≡ some (query_request q))
        × (process q ≡ some 7))
create_handler-success_example =
    create_handler-success process is_inherited network 7 http_request (pos 1) 7 json accepted

-- A negative partition is passed on like any other, here in standalone mode without a balance.
negative_accepted :
    create_handler process is_inherited standalone 7
      (record http_request { partition = 45 ∷ 49 ∷ [] })
      (pos 0)
    ≡ (success 7 json, 8)
unfolding create_handler get_format validate_user_query_access network_access query_request_bag
    parse_int skip_spaces parse_signed parse_unsigned parse_digits parse_int_if_exists
    Requests.get_for_last_query_request Requests.get_count_for_last_request Requests.make
    Requests.get_message_limit_for_request Requests.is_stream_request
negative_accepted = refl
