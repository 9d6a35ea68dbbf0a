-- ===== src/Http/Proxy.antt =====
-- packages/core/src/plugins/storageProxy/dataQueryEndpoint.ts: the endpoint of the storage proxy,
-- which asks the log store's client. The client is a parameter: it answers with messages or fails.
use logstore_node.Base.{
  ℤ, pos, ◌&&◌, ◌||◌, not, Option, none, some, List, [], ◌∷◌, Text, or_default, if◌then◌else◌,
  ◌===◌, text_eq,
}
use logstore_node.Database.{min_sequence_number_value, max_sequence_number_value}
use logstore_node.LogStore.{is_defined}
use logstore_node.Http.Numbers.{Number, nan, number, parse_int_if_exists}
use logstore_node.Http.Requests.{LastQuery, FromQuery, RangeParams, is_truthy}

-- What the client is asked for: a sequence number may be NaN.
pub data ClientQuery : Type 0 where
  query_last : ℤ → ClientQuery
  query_from : ℤ → Number → Option Text → ClientQuery
  query_range : ℤ → Number → ℤ → Number → (publisher_id msg_chain_id : Option Text) → ClientQuery

-- `x ?? d`
abbrev pub nullish_or : Option Number → ℤ → Number
nullish_or none d = number d
nullish_or (some n) d = n

-- The error messages. That for a missing `toTimestamp` names a path of the proxy.
pub data ProxyError : Type 0 where
  count_not_a_number : ProxyError
  from_timestamp_required : ProxyError
  from_timestamp_not_a_number : ProxyError
  offsets_not_supported : ProxyError
  to_timestamp_required_for_streams : ProxyError
  to_timestamp_not_a_number : ProxyError
  invalid_combination : ProxyError

-- What a handler does with the parameters: it sends an error, or asks the client for messages.
pub data Asked : Type 0 where
  refused : ProxyError → Asked
  asked : ClientQuery → Asked

unfoldable pub handle_last : LastQuery → Asked
handle_last q = elim (or_default (parse_int_if_exists q.count) (number (pos 1))) [
  | nan ↦ refused count_not_a_number
  | number count ↦ asked (query_last count)
]

abbrev pub from_asked : FromQuery → Option Number → Asked
from_asked q none = refused from_timestamp_required
from_asked q (some nan) = refused from_timestamp_not_a_number
from_asked q (some (number from_timestamp)) = asked (
    query_from from_timestamp
      (nullish_or (parse_int_if_exists q.from_sequence_number) (pos min_sequence_number_value))
      q.publisher_id)

unfoldable pub handle_from : FromQuery → Asked
handle_from q = from_asked q (parse_int_if_exists q.from_timestamp)

abbrev pub range_asked : RangeParams → (from_timestamp to_timestamp : Option Number) → Asked
range_asked q none to = refused from_timestamp_required
range_asked q (some nan) to = refused from_timestamp_not_a_number
range_asked q (some (number _)) none = refused to_timestamp_required_for_streams
range_asked q (some (number _)) (some nan) = refused to_timestamp_not_a_number
range_asked q (some (number from)) (some (number to)) =
    if is_truthy q.publisher_id && not (is_truthy q.msg_chain_id)
      || not (is_truthy q.publisher_id) && is_truthy q.msg_chain_id
    then refused invalid_combination
    else asked (
        query_range from
          (nullish_or (parse_int_if_exists q.from_sequence_number) (pos min_sequence_number_value))
          to (nullish_or (parse_int_if_exists q.to_sequence_number) (pos max_sequence_number_value))
          q.publisher_id q.msg_chain_id)

unfoldable pub handle_range : RangeParams → Asked
handle_range q =
    if is_defined q.from_offset || is_defined q.to_offset
    then refused offsets_not_supported
    else range_asked q (parse_int_if_exists q.from_timestamp) (parse_int_if_exists q.to_timestamp)

-- The parameters of the path, and those of the query, which each handler reads as its own.
pub record ProxyRequest : Type 0 where
  pub id : Text
  pub partition : Text
  pub resend_type : Text
  pub last : LastQuery
  pub from : FromQuery
  pub range : RangeParams

-- 'last', 'from' and 'range'.
abbrev pub last_type : Text
last_type = 108 ∷ 97 ∷ 115 ∷ 116 ∷ []

abbrev pub from_type : Text
from_type = 102 ∷ 114 ∷ 111 ∷ 109 ∷ []

abbrev pub range_type : Text
range_type = 114 ∷ 97 ∷ 110 ∷ 103 ∷ 101 ∷ []

-- The reply: an error of status 400, the messages of the client, or nothing, when the client fails
-- in a handler that is not awaited.
pub data Reply {ℓ} (M : Type ℓ) : Type ℓ where
  partition_not_a_number unknown_resend_type : Reply M
  bad_request : ProxyError → Reply M
  success : List M → Reply M
  unanswered : Reply M

module _ {ℓ} {M : Type ℓ} (query : Text → ℤ → ClientQuery → Option (List M)) where
  abbrev pub reply_to : Text → ℤ → Asked → Reply M
  reply_to stream_id partition (refused e) = bad_request e
  reply_to stream_id partition (asked q) = elim (query stream_id partition q) [
    | none ↦ unanswered
    | some messages ↦ success messages
  ]

  abbrev pub dispatch : ProxyRequest → Option Number → Reply M
  dispatch r none = partition_not_a_number
  dispatch r (some nan) = partition_not_a_number
  dispatch r (some (number partition)) =
      if r.resend_type === last_type
      then reply_to r.id partition (handle_last r.last)
      else if r.resend_type === from_type
      then reply_to r.id partition (handle_from r.from)
      else if r.resend_type === range_type
      then reply_to r.id partition (handle_range r.range)
      else unknown_resend_type

  unfoldable pub create_handler : ProxyRequest → Reply M
  unfolding handle_last handle_from handle_range
  create_handler r = dispatch r (parse_int_if_exists (some r.partition))
