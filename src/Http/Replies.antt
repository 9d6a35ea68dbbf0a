-- ===== src/Http/Replies.antt =====
-- What the replies of the query endpoints tell of the requests.
use logstore_node.Base.{
  ℕ, ◌+◌, ◌≡◌, inl, inr, refl, ℤ, Bool, Text, not, ◌&&◌, ◌||◌, Option, none, some, Option-cases,
  Bool-cases, if_elim, ◌===◌, text_eq,
}
use logstore_node.Protocol.{QueryRequest}
use logstore_node.Http.Numbers.{Number, nan, number, parse_int, parse_int_if_exists}
use logstore_node.Http.Requests.{
  LastQuery, FromQuery, RangeParams, Context, QueryRequestBag, error, query_request, make,
  get_for_last_query_request, get_for_from_query_request, get_for_range_query_request,
  get_count_for_last_request, check_timestamp, check_timestamps, combine, is_truthy,
}
use logstore_node.LogStore.{is_defined}
use logstore_node.Http.Proxy.{last_type, from_type, range_type}
use logstore_node.Http.Endpoint.{
  Format, get_format, validate_user_query_access, HttpRequest, not_enough_balance, failed,
  HttpReply, bad_request, success, Mode, context_of, query_request_bag, respond,
  get_data_for_request, with_format, with_partition, create_handler,
}

-- An error leaves the counter, and a request takes its number from it.
abbrev IsNumbered : ℕ → Option QueryRequestBag → ℕ → Type 0
IsNumbered seq_num none after = after ≡ seq_num
IsNumbered seq_num (some (error e)) after = after ≡ seq_num
IsNumbered seq_num (some (query_request q)) after = (q.seq_num ≡ seq_num) × (after ≡ seq_num + 1)

last-IsNumbered :
    (seq_num : ℕ) (c : Context) (q : LastQuery)
    → let (bag, after) = get_for_last_query_request seq_num c q in
      IsNumbered seq_num (some bag) after
unfolding get_for_last_query_request make
last-IsNumbered seq_num c q = elim (Option-cases (get_count_for_last_request c q)) [
  | inl bad ↦ rw (get_for_last_query_request, bad) refl
  | inr (count, good) ↦ rw (get_for_last_query_request, good) (refl, refl)
]

from-IsNumbered :
    (seq_num : ℕ) (c : Context) (q : FromQuery) (n : Option Number)
    → let (bag, after) = check_timestamp seq_num c q n in IsNumbered seq_num (some bag) after
unfolding check_timestamp make
from-IsNumbered seq_num c q none = refl
from-IsNumbered seq_num c q (some nan) = refl
from-IsNumbered seq_num c q (some (number from)) = (refl, refl)

combine-IsNumbered :
    (seq_num : ℕ) (c : Context) (q : RangeParams) (from to : ℤ)
    → let (bag, after) = combine seq_num c q from to in IsNumbered seq_num (some bag) after
unfolding combine make
combine-IsNumbered seq_num c q from to =
    elim (Bool-cases (
      is_truthy q.publisher_id && not (is_truthy q.msg_chain_id)
      || not (is_truthy q.publisher_id) && is_truthy q.msg_chain_id)) [
        | inl bad ↦ rw (combine, bad) refl
        | inr good ↦ rw (combine, good) (refl, refl)
      ]

range-IsNumbered :
    (seq_num : ℕ) (c : Context) (q : RangeParams) (m n : Option Number)
    → let (bag, after) = check_timestamps seq_num c q m n in IsNumbered seq_num (some bag) after
unfolding check_timestamps
range-IsNumbered seq_num c q none n = refl
range-IsNumbered seq_num c q (some nan) n = refl
range-IsNumbered seq_num c q (some (number _)) none = refl
range-IsNumbered seq_num c q (some (number _)) (some nan) = refl
range-IsNumbered seq_num c q (some (number from)) (some (number to)) =
    combine-IsNumbered seq_num c q from to

range_request-IsNumbered :
    (seq_num : ℕ) (c : Context) (q : RangeParams)
    → let (bag, after) = get_for_range_query_request seq_num c q in
      IsNumbered seq_num (some bag) after
unfolding get_for_range_query_request
range_request-IsNumbered seq_num c q =
    elim (Bool-cases (is_defined q.from_offset || is_defined q.to_offset)) [
      | inl old ↦ rw (get_for_range_query_request, old) refl
      | inr new ↦
          rw (get_for_range_query_request, new)
            (range-IsNumbered seq_num c q (parse_int_if_exists q.from_timestamp)
              (parse_int_if_exists q.to_timestamp))
    ]

query_request_bag-IsNumbered :
    (seq_num : ℕ) (r : HttpRequest) (partition : ℤ)
    → IsNumbered seq_num
        (query_request_bag seq_num r partition).0
        (query_request_bag seq_num r partition).1
unfolding query_request_bag get_for_from_query_request get_for_range_query_request
query_request_bag-IsNumbered seq_num r partition =
    let c = context_of r partition in
    let P = λ (p : Option QueryRequestBag × ℕ). IsNumbered seq_num p.0 p.1 in
    if_elim P (r.query_type === last_type) _ _ (last-IsNumbered seq_num c r.last) (
      if_elim P (r.query_type === from_type) _ _
        (from-IsNumbered seq_num c r.from (parse_int_if_exists r.from.from_timestamp))
        (if_elim P (r.query_type === range_type) _ _ (range_request-IsNumbered seq_num c r.range)
          refl))

module _ {D : Type 0} (process_query_request : QueryRequest → Option D) (is_inherited : Text → Bool)
    (mode : Mode) where
  -- What a reply tells of the request that was made, if one was.
  abbrev pub Follows : ℕ → HttpReply D × ℕ → Type 0
  Follows seq_num (success data_ format, after) =
      (q : QueryRequest) × (process_query_request q ≡ some data_)
      × (q.seq_num ≡ seq_num)
      × (after ≡ seq_num + 1)
  Follows seq_num (bad_request failed, after) =
      (q : QueryRequest) × (process_query_request q ≡ none)
      × (q.seq_num ≡ seq_num)
      × (after ≡ seq_num + 1)
  Follows seq_num (bad_request _, after) = after ≡ seq_num

  respond-Follows :
      (seq_num : ℕ) (format : Format) (bag : Option QueryRequestBag) (after : ℕ)
      → IsNumbered seq_num bag after
      → Follows seq_num (respond process_query_request is_inherited mode format bag, after)
  respond-Follows seq_num format none after h = h
  respond-Follows seq_num format (some (error e)) after h = h
  respond-Follows seq_num format (some (query_request q)) after h =
      go (process_query_request q) refl
    where
      go :
          (o : Option D)
          → process_query_request q ≡ o
          → Follows seq_num
              (elim o [ none ↦ bad_request failed | some data_ ↦ success data_ format ], after)
      go none e = (q, e, h.0, h.1)
      go (some data_) e = (q, e, h.0, h.1)

  get_data_for_request-Follows :
      (seq_num : ℕ) (r : HttpRequest) (format : Format) (partition : ℤ)
      → Follows seq_num
          (get_data_for_request process_query_request is_inherited mode seq_num r format partition)
  get_data_for_request-Follows seq_num r format partition =
      respond-Follows seq_num format (query_request_bag seq_num r partition).0
        (query_request_bag seq_num r partition).1 (query_request_bag-IsNumbered seq_num r partition)

  with_format-Follows :
      (seq_num : ℕ) (r : HttpRequest) (balance partition : ℤ) (o : Option Format)
      → Follows seq_num
          (with_format process_query_request is_inherited mode seq_num r balance partition o)
  with_format-Follows seq_num r balance partition none = refl
  with_format-Follows seq_num r balance partition (some format) =
      if_elim (λ (x : HttpReply D × ℕ). Follows seq_num x) (validate_user_query_access mode balance)
        (get_data_for_request process_query_request is_inherited mode seq_num r format partition)
        (bad_request not_enough_balance, seq_num)
        (get_data_for_request-Follows seq_num r format partition) refl

  with_partition-Follows :
      (seq_num : ℕ) (r : HttpRequest) (balance : ℤ) (n : Number)
      → Follows seq_num (with_partition process_query_request is_inherited mode seq_num r balance n)
  with_partition-Follows seq_num r balance nan = refl
  with_partition-Follows seq_num r balance (number partition) =
      with_format-Follows seq_num r balance partition (get_format is_inherited r.format)

  -- In both modes a request takes a sequence number, the next one, just when it is passed on to the
  -- plugin, whether or not the plugin fails; a refused request takes none. Data come only of a
  -- request that was passed on, with that number.
  pub create_handler-Follows :
      (seq_num : ℕ) (r : HttpRequest) (balance : ℤ)
      → Follows seq_num (create_handler process_query_request is_inherited mode seq_num r balance)
  unfolding create_handler
  create_handler-Follows seq_num r balance =
      with_partition-Follows seq_num r balance (parse_int r.partition)
