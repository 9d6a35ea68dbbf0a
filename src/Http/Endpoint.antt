-- ===== src/Http/Endpoint.antt =====
-- http/dataQueryEndpoint.ts: the handler of the query endpoints, with `getFormat` of
-- DataQueryFormat.ts and the access checks of network/LogStoreNetworkPlugin.ts and
-- standalone/LogStoreStandalonePlugin.ts. What the plugin does with an accepted request is a
-- parameter, which may fail.
use logstore_node.Base.{
  ℕ, ℤ, pos, Bool, true, Option, none, some, [], ◌∷◌, Text, if◌then◌else◌, ◌===◌, text_eq, ltb_int,
  or_default,
}
use logstore_node.Protocol.{QueryRequest}
use logstore_node.Http.Numbers.{Number, nan, number, parse_int}
use logstore_node.Http.Requests.{
  RequestError, LastQuery, FromQuery, RangeParams, Context, QueryRequestBag, error, query_request,
  get_for_last_query_request, get_for_from_query_request, get_for_range_query_request,
}
use logstore_node.Http.Proxy.{last_type, from_type, range_type}

-- The formats of `FORMATS`, and what a lookup finds under a name that every object of JavaScript
-- has, which is no format.
pub data Format : Type 0 where
  json binary : Format
  inherited : Text → Format

-- 'object' and 'raw'.
abbrev pub object_key : Text
object_key = 111 ∷ 98 ∷ 106 ∷ 101 ∷ 99 ∷ 116 ∷ []

abbrev pub raw_key : Text
raw_key = 114 ∷ 97 ∷ 119 ∷ []

-- `FORMATS` is a plain object, so the names of `Object.prototype` are found too; whether a name is
-- one of them is an argument.
unfoldable pub get_format : (is_inherited : Text → Bool) → Option Text → Option Format
get_format is_inherited id =
    let key = or_default id object_key in
    if key === object_key
    then some json
    else if key === raw_key
    then some binary
    else if is_inherited key
    then some (inherited key)
    else none

-- The plugin that the node runs.
pub data Mode : Type 0 where
  network standalone : Mode

-- `validateUserQueryAccess` of the network plugin, given the balance of the consumer.
unfoldable pub network_access : ℤ → Bool
network_access balance = ltb_int (pos 0) balance

-- `validateUserQueryAccess` of the plugin; that of the standalone one lets everyone in.
unfoldable pub validate_user_query_access : Mode → ℤ → Bool
unfolding network_access
validate_user_query_access network balance = network_access balance
validate_user_query_access standalone balance = true

pub record HttpRequest : Type 0 where
  pub id : Text
  pub partition : Text
  pub query_type : Text
  pub format : Option Text
  pub accept : Option Text
  pub consumer : Text
  pub request_id : Text
  pub last : LastQuery
  pub from : FromQuery
  pub range : RangeParams

pub data HandlerError : Type 0 where
  partition_not_a_number format_invalid not_enough_balance unknown_query_type failed : HandlerError
  invalid_query : RequestError → HandlerError

-- An error of status 400, or the call of `sendSuccess` with the data and the format.
pub data HttpReply (D : Type 0) : Type 0 where
  bad_request : HandlerError → HttpReply D
  success : D → Format → HttpReply D

abbrev pub context_of : HttpRequest → ℤ → Context
context_of r partition = record {
  accept = r.accept;
  consumer = r.consumer;
  stream_id = r.id;
  partition = partition;
  request_id = r.request_id;
}

-- The request of a kind, or none for an unknown kind, with the counter after it.
unfoldable pub query_request_bag : ℕ → HttpRequest → ℤ → Option QueryRequestBag × ℕ
unfolding get_for_last_query_request get_for_from_query_request get_for_range_query_request
query_request_bag seq_num r partition =
    let c = context_of r partition in
    if r.query_type === last_type
    then (
      some (get_for_last_query_request seq_num c r.last).0,
      (get_for_last_query_request seq_num c r.last).1,
    )
    else if r.query_type === from_type
    then (
      some (get_for_from_query_request seq_num c r.from).0,
      (get_for_from_query_request seq_num c r.from).1,
    )
    else if r.query_type === range_type
    then (
      some (get_for_range_query_request seq_num c r.range).0,
      (get_for_range_query_request seq_num c r.range).1,
    )
    else (none, seq_num)

module _ {D : Type 0} (process_query_request : QueryRequest → Option D) (is_inherited : Text → Bool)
    (mode : Mode) where
  abbrev pub respond : Format → Option QueryRequestBag → HttpReply D
  respond format none = bad_request unknown_query_type
  respond format (some (error e)) = bad_request (invalid_query e)
  respond format (some (query_request q)) = elim (process_query_request q) [
    | none ↦ bad_request failed
    | some data_ ↦ success data_ format
  ]

  abbrev pub get_data_for_request : ℕ → HttpRequest → Format → ℤ → HttpReply D × ℕ
  get_data_for_request seq_num r format partition =
      let (bag, after) = query_request_bag seq_num r partition in (respond format bag, after)

  abbrev pub with_format :
      ℕ → HttpRequest → (balance partition : ℤ) → Option Format → HttpReply D × ℕ
  with_format seq_num r balance partition none = (bad_request format_invalid, seq_num)
  with_format seq_num r balance partition (some format) =
      if validate_user_query_access mode balance
      then get_data_for_request seq_num r format partition
      else (bad_request not_enough_balance, seq_num)

  abbrev pub with_partition : ℕ → HttpRequest → (balance : ℤ) → Number → HttpReply D × ℕ
  with_partition seq_num r balance nan = (bad_request partition_not_a_number, seq_num)
  with_partition seq_num r balance (number partition) =
      with_format seq_num r balance partition (get_format is_inherited r.format)

  unfoldable pub create_handler : ℕ → HttpRequest → (balance : ℤ) → HttpReply D × ℕ
  unfolding get_format validate_user_query_access query_request_bag
  create_handler seq_num r balance = with_partition seq_num r balance (parse_int r.partition)
