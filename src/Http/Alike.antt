-- ===== src/Http/Alike.antt =====
-- The endpoint of the storage proxy treats the parameters as the endpoint of a node does.
use logstore_node.Base.{
  ℕ, ◌≡◌, ℤ, pos, zero, suc, negsuc, min_int, Bool, true, false, Option, none, some, Text, arith,
  text_eq,
}
use logstore_node.Protocol.{QueryOptions, last_options, from_options, range_options}
use logstore_node.Http.Numbers.{Number, nan, number, parse_int_if_exists}
use logstore_node.Http.Requests.{
  RequestError, count_not_a_number, from_timestamp_required, from_timestamp_not_a_number,
  offsets_not_supported, to_timestamp_required, to_timestamp_not_a_number, invalid_combination,
  LastQuery, FromQuery, RangeParams, Context, QueryRequestBag, error, make,
  limit_or_undefined_if_infinity, get_for_last_query_request, get_for_from_query_request,
  get_for_range_query_request, get_count_for_last_request, check_timestamp, check_timestamps,
  combine,
}
use logstore_node.Http.Proxy
use logstore_node.Http.Proxy.{
  ClientQuery, query_last, query_from, query_range, Asked, refused, asked, handle_last, handle_from,
  handle_range,
}

abbrev min_or : Option ℕ → ℤ → ℤ
min_or none count = count
min_or (some n) count = min_int count (pos n)

-- The value of a sequence number that is not NaN.
abbrev value_of : Number → Option ℤ
value_of nan = none
value_of (number n) = some n

-- The options of a node's request that asks for the same, with a limit.
abbrev pub options_of : Option ℕ → ClientQuery → QueryOptions
options_of limit (query_last count) = last_options (min_or limit count)
options_of limit (query_from from seq publisher_id) =
    from_options (record { timestamp = from; sequence_number = value_of seq }) publisher_id limit
options_of limit (query_range from from_seq to to_seq publisher_id msg_chain_id) =
    range_options (record { timestamp = from; sequence_number = value_of from_seq })
      (record { timestamp = to; sequence_number = value_of to_seq }) publisher_id msg_chain_id limit

-- The error of a node's endpoint for the same test: the same message, but for a missing
-- `toTimestamp`, where the node's names another path.
abbrev pub node_error : Proxy.ProxyError → RequestError
node_error Proxy.count_not_a_number = count_not_a_number
node_error Proxy.from_timestamp_required = from_timestamp_required
node_error Proxy.from_timestamp_not_a_number = from_timestamp_not_a_number
node_error Proxy.offsets_not_supported = offsets_not_supported
node_error Proxy.to_timestamp_required_for_streams = to_timestamp_required
node_error Proxy.to_timestamp_not_a_number = to_timestamp_not_a_number
node_error Proxy.invalid_combination = invalid_combination

-- What a node's endpoint makes of the same parameters.
abbrev pub answered : ℕ → Context → Asked → QueryRequestBag × ℕ
answered seq_num c (refused e) = (error (node_error e), seq_num)
answered seq_num c (asked q) = make seq_num c (options_of (limit_or_undefined_if_infinity c) q)

-- A number that is given is neither NaN nor zero.
abbrev pub is_usable : Option Text → Bool
is_usable o = elim (parse_int_if_exists o) [
  | none ↦ true
  | some nan ↦ false
  | some (number (pos zero)) ↦ false
  | some (number (pos (suc n))) ↦ true
  | some (number (negsuc n)) ↦ true
]

-- The two endpoints refuse the same requests for the last messages and for those from a time, at
-- the same test, and ask for the same of the others, but for the node's limit; for those from a time
-- a sequence number, where there is one, is neither NaN nor zero.
pub handle_from-answered :
    (seq_num : ℕ) (c : Context) (q : LastQuery) (f : FromQuery)
    → is_usable f.from_sequence_number ≡ true
    → (get_for_last_query_request seq_num c q ≡ answered seq_num c (handle_last q))
      × (get_for_from_query_request seq_num c f ≡ answered seq_num c (handle_from f))
unfolding get_for_last_query_request handle_last make get_count_for_last_request
    limit_or_undefined_if_infinity get_for_from_query_request check_timestamp handle_from
handle_from-answered seq_num c q f h = (grind arith, ground arith)

-- The two endpoints refuse the same requests for a range, at the same test, with the same message
-- but for a missing `toTimestamp`, where the two messages name different paths; they ask for the
-- same of the others, but for the node's limit, when the sequence numbers, where there are some,
-- are neither NaN nor zero.
pub handle_range-answered :
    (seq_num : ℕ) (c : Context) (q : RangeParams)
    → is_usable q.from_sequence_number ≡ true
    → is_usable q.to_sequence_number ≡ true
    → get_for_range_query_request seq_num c q ≡ answered seq_num c (handle_range q)
unfolding get_for_range_query_request check_timestamps combine handle_range make
handle_range-answered seq_num c q h k = ground arith
