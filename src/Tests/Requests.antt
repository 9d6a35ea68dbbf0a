-- ===== src/Tests/Requests.antt =====
-- HTTP requests.
use logstore_node.Base.{ℕ, ◌≡◌, ◌↔◌, refl, false, none, some, [], ◌∷◌, take, pos, negsuc, text_eq}
use logstore_node.Protocol.{QueryRequest, from_options, range_options}
use logstore_node.LogStore.{Reading, get_data_for_query_request}
use logstore_node.LogStore.Limit.{new_limit, transform_all}
use logstore_node.Http.Numbers.{
  number, nan, parse_int, parse_int_if_exists, skip_spaces, parse_signed, parse_unsigned,
  parse_digits,
}
use logstore_node.Http.Requests.{
  Context, FromQuery, RangeParams, query_request, get_for_range_query_request,
  get_for_from_query_request, is_stream_request, check_timestamp, check_timestamps, combine, make,
  limit_or_undefined_if_infinity, get_message_limit_for_request,
}
use logstore_node.Http.Validation.{IsHalfEmpty, accepted_range-reads, accepted_from-limit}
use logstore_node.Http.Responses.{
  Format, Metadata, ResponseTransform, StreamResponse, computed, new_response, set_metadata, joined,
}
use logstore_node.Tests.Sample.{refs, ref, request, alice, stream}

abbrev context : Context
context = record {
  accept = none;
  consumer = alice;
  stream_id = stream;
  partition = pos 0;
  request_id = 49 ∷ [];
}

-- ?fromTimestamp=12&toTimestamp=34&publisherId=
abbrev range : RangeParams
range = record {
  from_timestamp = some (49 ∷ 50 ∷ []);
  to_timestamp = some (51 ∷ 52 ∷ []);
  from_sequence_number = none;
  to_sequence_number = none;
  publisher_id = some [];
  msg_chain_id = none;
  from_offset = none;
  to_offset = none;
}

abbrev range_request : QueryRequest
range_request = record request {
  query_options =
      range_options (record { timestamp = pos 12; sequence_number = some (pos 0) })
        (record { timestamp = pos 34; sequence_number = some (pos 2147483647) }) (some []) none
        (some 5001);
}

range_accepted : get_for_range_query_request 0 context range ≡ (query_request range_request, 1)
unfolding get_for_range_query_request parse_int_if_exists parse_int skip_spaces parse_signed
    parse_unsigned parse_digits check_timestamps combine make limit_or_undefined_if_infinity
    get_message_limit_for_request is_stream_request
range_accepted = refl

parse_int-runs :
    (parse_int (32 ∷ 45 ∷ 49 ∷ 50 ∷ 97 ∷ []) ≡ number (negsuc 11))
    × (parse_int (48 ∷ 120 ∷ 49 ∷ 70 ∷ []) ≡ number (pos 31))
    × (parse_int (97 ∷ []) ≡ nan)
unfolding parse_int skip_spaces parse_signed parse_unsigned parse_digits
parse_int-runs = (refl, refl, refl)

abbrev from : FromQuery
from = record {
  from_timestamp = some (49 ∷ 50 ∷ []);
  from_sequence_number = none;
  publisher_id = none;
}

abbrev from_request : QueryRequest
from_request = record request {
  query_options =
      from_options (record { timestamp = pos 12; sequence_number = some (pos 0) }) none (some 5001);
}

from_accepted : get_for_from_query_request 0 context from ≡ (query_request from_request, 1)
unfolding get_for_from_query_request parse_int_if_exists parse_int skip_spaces parse_signed
    parse_unsigned parse_digits check_timestamp make limit_or_undefined_if_infinity
    get_message_limit_for_request is_stream_request
from_accepted = refl

accepted_from-limit_example :
    (d : Reading refs) × (get_data_for_query_request refs from_request ≡ some d)
    × ((transform_all (new_limit d.message_limit) (ref 13 ∷ ref 14 ∷ [])).pushed
        ≡ take 5001 (ref 13 ∷ ref 14 ∷ []))
unfolding is_stream_request
accepted_from-limit_example =
    accepted_from-limit refs 0 context from from_request 1 (ref 13 ∷ ref 14 ∷ []) from_accepted refl

accepted_range-reads_example :
    (get_data_for_query_request refs range_request ≡ none) ↔ IsHalfEmpty range
accepted_range-reads_example =
    accepted_range-reads refs 0 context range range_request 1 range_accepted

-- A format of numbers that shows the total in its footer.
abbrev format : Format ℕ
format = record {
  header = some (91 ∷ []);
  delimiter = some (44 ∷ []);
  footer = computed (λ metadata total. (93 ∷ []) ∷ []);
  format_message = λ n. n ∷ [];
}

abbrev metadata : Metadata
metadata = record { has_next = false; next_timestamp = none; next_sequence_number = none }

abbrev answer : ResponseTransform ℕ
answer = set_metadata (new_response format) metadata

joined-runs : joined format (49 ∷ 50 ∷ []) ≡ (49 ∷ []) ∷ (44 ∷ []) ∷ (50 ∷ []) ∷ []
unfolding joined
joined-runs = refl

abbrev streamed : StreamResponse ℕ
streamed = record { format = format; metadata = metadata; pushed = [] }
