-- ===== src/Http/Requests.antt =====
-- http/getDataForRequest and http/messageLimiter.ts: the query request that an endpoint makes of
-- an HTTP request, or its error. The counter of `seqNumQueryRequestState.ts` is passed on, and the
-- request id, a fresh UUID in the source, is an argument.
use logstore_node.Base.{
  ℕ, ◌+◌, ℤ, pos, min_int, Bool, true, false, ◌&&◌, ◌||◌, not, Option, none, some, [], ◌∷◌, Text,
  or_default, if◌then◌else◌, ◌===◌, text_eq,
}
use logstore_node.Protocol.{QueryOptions, QueryRequest, last_options, from_options, range_options}
use logstore_node.Database.{min_sequence_number_value, max_sequence_number_value}
use logstore_node.LogStore.{is_defined}
use logstore_node.Http.Numbers.{Number, nan, number, parse_int_if_exists, parsed_or}

abbrev pub events_per_response_limit_on_non_stream : ℕ
events_per_response_limit_on_non_stream = 5000

-- The parts of a request that do not depend on its kind: the `accept` header, the authenticated
-- consumer, and the path's stream and partition.
pub record Context : Type 0 where
  pub accept : Option Text
  pub consumer : Text
  pub stream_id : Text
  pub partition : ℤ
  pub request_id : Text

pub record LastQuery : Type 0 where
  pub count : Option Text

pub record FromQuery : Type 0 where
  pub from_timestamp : Option Text
  pub from_sequence_number : Option Text
  pub publisher_id : Option Text

pub record RangeParams : Type 0 where
  pub from_timestamp : Option Text
  pub to_timestamp : Option Text
  pub from_sequence_number : Option Text
  pub to_sequence_number : Option Text
  pub publisher_id : Option Text
  pub msg_chain_id : Option Text
  pub from_offset : Option Text
  pub to_offset : Option Text

-- The error messages.
pub data RequestError : Type 0 where
  count_not_a_number : RequestError
  from_timestamp_required : RequestError
  from_timestamp_not_a_number : RequestError
  offsets_not_supported : RequestError
  to_timestamp_required : RequestError
  to_timestamp_not_a_number : RequestError
  invalid_combination : RequestError

pub data QueryRequestBag : Type 0 where
  error : RequestError → QueryRequestBag
  query_request : QueryRequest → QueryRequestBag

-- 'text/event-stream'
abbrev event_stream : Text
event_stream =
    116 ∷ 101 ∷ 120 ∷ 116 ∷ 47 ∷ 101 ∷ 118 ∷ 101 ∷ 110 ∷ 116 ∷ 45 ∷ 115 ∷ 116 ∷ 114 ∷ 101 ∷ 97 ∷ 109
    ∷ []

unfoldable pub is_stream_request : Context → Bool
is_stream_request c = elim c.accept [ none ↦ false | some a ↦ a === event_stream ]

-- None is `Infinity`.
unfoldable pub get_message_limit_for_request : Context → Option ℕ
unfolding is_stream_request
get_message_limit_for_request c =
    if is_stream_request c then none else some events_per_response_limit_on_non_stream

-- `getMessageLimitForRequest(req) + 1`
unfoldable pub limit_or_undefined_if_infinity : Context → Option ℕ
unfolding get_message_limit_for_request
limit_or_undefined_if_infinity c = elim (get_message_limit_for_request c) [
  | none ↦ none
  | some n ↦ some (n + 1)
]

-- The request with the next sequence number, and the counter after it.
unfoldable pub make : ℕ → Context → QueryOptions → QueryRequestBag × ℕ
make seq_num c options = (
  query_request (record {
    seq_num = seq_num;
    request_id = c.request_id;
    consumer_id = c.consumer;
    stream_id = c.stream_id;
    partition = c.partition;
    query_options = options;
  }),
  seq_num + 1,
)

-- None is 'NOT_A_NUMBER'.
unfoldable pub get_count_for_last_request : Context → LastQuery → Option ℤ
unfolding get_message_limit_for_request
get_count_for_last_request c q = elim (or_default (parse_int_if_exists q.count) (number (pos 1))) [
  | nan ↦ none
  | number count ↦ elim (get_message_limit_for_request c) [
    | none ↦ some count
    | some n ↦ some (min_int count (pos (n + 1)))
  ]
]

unfoldable pub get_for_last_query_request : ℕ → Context → LastQuery → QueryRequestBag × ℕ
unfolding get_count_for_last_request make
get_for_last_query_request seq_num c q = elim (get_count_for_last_request c q) [
  | none ↦ (error count_not_a_number, seq_num)
  | some count ↦ make seq_num c (last_options count)
]

-- The test of the parsed timestamp, and the request.
unfoldable pub check_timestamp :
    ℕ → Context → FromQuery → (from_timestamp : Option Number) → QueryRequestBag × ℕ
unfolding make limit_or_undefined_if_infinity
check_timestamp seq_num c q none = (error from_timestamp_required, seq_num)
check_timestamp seq_num c q (some nan) = (error from_timestamp_not_a_number, seq_num)
check_timestamp seq_num c q (some (number from_timestamp)) = make seq_num c (
    from_options
      (record {
        timestamp = from_timestamp;
        sequence_number = some (
            parsed_or (parse_int_if_exists q.from_sequence_number) (pos min_sequence_number_value));
      })
      q.publisher_id (limit_or_undefined_if_infinity c))

unfoldable pub get_for_from_query_request : ℕ → Context → FromQuery → QueryRequestBag × ℕ
unfolding check_timestamp
get_for_from_query_request seq_num c q =
    check_timestamp seq_num c q (parse_int_if_exists q.from_timestamp)

-- A string that is neither `undefined` nor empty.
abbrev pub is_truthy : Option Text → Bool
is_truthy none = false
is_truthy (some []) = false
is_truthy (some (_ ∷ _)) = true

-- The last test of a range request, and the request.
unfoldable pub combine :
    ℕ → Context → RangeParams → (from_timestamp to_timestamp : ℤ) → QueryRequestBag × ℕ
unfolding make limit_or_undefined_if_infinity
combine seq_num c q from_timestamp to_timestamp =
    if is_truthy q.publisher_id && not (is_truthy q.msg_chain_id)
      || not (is_truthy q.publisher_id) && is_truthy q.msg_chain_id
    then (error invalid_combination, seq_num)
    else make seq_num c (
        range_options
          (record {
            timestamp = from_timestamp;
            sequence_number = some (
                parsed_or (parse_int_if_exists q.from_sequence_number)
                  (pos min_sequence_number_value));
          })
          (record {
            timestamp = to_timestamp;
            sequence_number = some (
                parsed_or (parse_int_if_exists q.to_sequence_number)
                  (pos max_sequence_number_value));
          })
          q.publisher_id q.msg_chain_id (limit_or_undefined_if_infinity c))

-- The tests of the two parsed timestamps.
unfoldable pub check_timestamps :
    ℕ → Context → RangeParams → (from_timestamp to_timestamp : Option Number) → QueryRequestBag × ℕ
unfolding combine
check_timestamps seq_num c q none to = (error from_timestamp_required, seq_num)
check_timestamps seq_num c q (some nan) to = (error from_timestamp_not_a_number, seq_num)
check_timestamps seq_num c q (some (number _)) none = (error to_timestamp_required, seq_num)
check_timestamps seq_num c q (some (number _)) (some nan) =
    (error to_timestamp_not_a_number, seq_num)
check_timestamps seq_num c q (some (number from)) (some (number to)) = combine seq_num c q from to

unfoldable pub get_for_range_query_request : ℕ → Context → RangeParams → QueryRequestBag × ℕ
unfolding check_timestamps
get_for_range_query_request seq_num c q =
    if is_defined q.from_offset || is_defined q.to_offset
    then (error offsets_not_supported, seq_num)
    else check_timestamps seq_num c q (parse_int_if_exists q.from_timestamp)
        (parse_int_if_exists q.to_timestamp)
