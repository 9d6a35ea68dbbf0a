-- ===== src/Http/Validation.antt =====
-- What the checks of the endpoints guarantee when the query is read from the database.
use logstore_node.Base.{
  ℕ, ℤ, ◌+◌, ◌≡◌, ◌≢◌, ◌↔◌, ◌⊎◌, [], ◌∷◌, Text, refl, sym, subst, ap, ◌∙◌, pos, false, ◌&&◌, ◌||◌,
  not, Option, none, some, List, if◌then◌else◌, arith, Bool-cases, inl, inr, take,
}
use logstore_node.Database.{min_sequence_number_value, max_sequence_number_value}
use logstore_node.Protocol.{MessageRefs, QueryOptions, QueryRequest, range_options, from_options}
use logstore_node.LogStore.{
  Reading, limit_or_infinity, get_data_for_query_request, request_range, request_from, is_defined,
}
use logstore_node.LogStore.Limit.{new_limit, transform_all, transform_all-limit}
use logstore_node.Http.Numbers.{Number, nan, number, parse_int_if_exists, parsed_or}
use logstore_node.Http.Requests.{
  Context, FromQuery, RangeParams, QueryRequestBag, query_request, error, invalid_combination, make,
  combine, get_for_range_query_request, get_for_from_query_request, is_stream_request, is_truthy,
  check_timestamp, check_timestamps, limit_or_undefined_if_infinity, get_message_limit_for_request,
}

-- The request of an accepted range request comes from its last test.
accepted_timestamps :
    (seq_num : ℕ) (c : Context) (q : RangeParams) (r : QueryRequest) (next : ℕ)
    (x y : Option Number)
    → check_timestamps seq_num c q x y ≡ (query_request r, next)
    → (from : ℤ) × (to : ℤ) × (combine seq_num c q from to ≡ (query_request r, next))
unfolding check_timestamps
accepted_timestamps seq_num c q r next none y h = cc
accepted_timestamps seq_num c q r next (some nan) y h = cc
accepted_timestamps seq_num c q r next (some (number a)) none h = cc
accepted_timestamps seq_num c q r next (some (number a)) (some nan) h = cc
accepted_timestamps seq_num c q r next (some (number a)) (some (number b)) h = (a, b, h)

accepted_range :
    (seq_num : ℕ) (c : Context) (q : RangeParams) (r : QueryRequest) (next : ℕ)
    → get_for_range_query_request seq_num c q ≡ (query_request r, next)
    → (from : ℤ) × (to : ℤ) × (combine seq_num c q from to ≡ (query_request r, next))
unfolding get_for_range_query_request
accepted_range seq_num c q r next h =
    elim (Bool-cases (is_defined q.from_offset || is_defined q.to_offset)) [
      | inl e ↦ ground (arith, e)
      | inr e ↦
          accepted_timestamps seq_num c q r next (parse_int_if_exists q.from_timestamp)
            (parse_int_if_exists q.to_timestamp) (ground (arith, e))
    ]

-- The options of an accepted range request, and the request with some options.
abbrev range_of : Context → RangeParams → ℤ → ℤ → QueryOptions
range_of c q from to =
    range_options
      (record {
        timestamp = from;
        sequence_number = some (
            parsed_or (parse_int_if_exists q.from_sequence_number) (pos min_sequence_number_value));
      })
      (record {
        timestamp = to;
        sequence_number =
            some (
              parsed_or (parse_int_if_exists q.to_sequence_number) (pos max_sequence_number_value));
      })
      q.publisher_id q.msg_chain_id (limit_or_undefined_if_infinity c)

abbrev requested : ℕ → Context → QueryOptions → QueryRequest
requested seq_num c options = record {
  seq_num = seq_num;
  request_id = c.request_id;
  consumer_id = c.consumer;
  stream_id = c.stream_id;
  partition = c.partition;
  query_options = options;
}

request_injective :
    (r s : QueryRequest) (m n : ℕ)
    → ◌≡◌ {A = QueryRequestBag × ℕ} (query_request r, m) (query_request s, n)
    → r ≡ s
request_injective r s m n h = cc

range_reads :
    (refs : MessageRefs) (seq_num : ℕ) (c : Context) (q : RangeParams) (from to : ℤ)
    → (get_data_for_query_request refs (requested seq_num c (range_of c q from to)) ≡ none)
      ↔ (is_defined q.publisher_id ≢ is_defined q.msg_chain_id)
unfolding get_data_for_query_request request_range
range_reads refs seq_num c q from to = ground arith

-- What an accepted range request becomes.
combined :
    (refs : MessageRefs) (seq_num : ℕ) (c : Context) (q : RangeParams) (r : QueryRequest) (next : ℕ)
    (from to : ℤ)
    → combine seq_num c q from to ≡ (query_request r, next)
    → get_data_for_query_request refs r
      ≡ get_data_for_query_request refs (requested seq_num c (range_of c q from to))
unfolding combine make
combined refs seq_num c q r next from to h =
    elim (Bool-cases (
      is_truthy q.publisher_id && not (is_truthy q.msg_chain_id)
      || not (is_truthy q.publisher_id) && is_truthy q.msg_chain_id)) [
        | inl e ↦ ground (arith, e)
        | inr e ↦ ap (get_data_for_query_request refs) (
            sym (
              request_injective (requested seq_num c (range_of c q from to)) r (seq_num + 1) next (
                subst
                  (λ b.
                    ◌≡◌ {A = QueryRequestBag × ℕ}
                      (if b then (error invalid_combination, seq_num) else (
                        query_request (requested seq_num c (range_of c q from to)),
                        seq_num + 1,
                      ))
                      (query_request r, next))
                  e h)))
      ]

-- One of the two is an empty text, and the other is not given.
abbrev pub IsHalfEmpty : RangeParams → Type 0
IsHalfEmpty q =
    ((q.publisher_id ≡ some []) × (q.msg_chain_id ≡ none))
    ⊎ ((q.publisher_id ≡ none) × (q.msg_chain_id ≡ some []))

-- The endpoint's test takes an empty text for one that is not given.
accepted_together :
    (seq_num : ℕ) (c : Context) (q : RangeParams) (r : QueryRequest) (next : ℕ) (from to : ℤ)
    → combine seq_num c q from to ≡ (query_request r, next)
    → is_truthy q.publisher_id ≡ is_truthy q.msg_chain_id
unfolding combine make
accepted_together seq_num c q r next from to h =
    elim (Bool-cases (
      is_truthy q.publisher_id && not (is_truthy q.msg_chain_id)
      || not (is_truthy q.publisher_id) && is_truthy q.msg_chain_id)) [
        | inl e ↦ ground (arith, e)
        | inr e ↦ ground (arith, e)
      ]

half_empty :
    (publisher_id msg_chain_id : Option Text)
    → is_truthy publisher_id ≡ is_truthy msg_chain_id
    → (is_defined publisher_id ≢ is_defined msg_chain_id) ↔ (
        ((publisher_id ≡ some []) × (msg_chain_id ≡ none))
        ⊎ ((publisher_id ≡ none) × (msg_chain_id ≡ some [])))
half_empty none none h = ground arith
half_empty none (some []) h = ground arith
half_empty none (some (x ∷ xs)) h = ground arith
half_empty (some []) none h = ground arith
half_empty (some []) (some ys) h = ground arith
half_empty (some (x ∷ xs)) none h = ground arith
half_empty (some (x ∷ xs)) (some ys) h = ground arith

-- The database layer refuses a range request that the endpoint has accepted exactly when one of the
-- publisher and the message chain is the empty text and the other is not given.
pub accepted_range-reads :
    (refs : MessageRefs) (seq_num : ℕ) (c : Context) (q : RangeParams) (r : QueryRequest) (next : ℕ)
    → get_for_range_query_request seq_num c q ≡ (query_request r, next)
    → (get_data_for_query_request refs r ≡ none) ↔ IsHalfEmpty q
accepted_range-reads refs seq_num c q r next h =
    let (from, to, e) = accepted_range seq_num c q r next h in
    let refused =
      half_empty q.publisher_id q.msg_chain_id (accepted_together seq_num c q r next from to e) in
    subst (λ d. (d ≡ none) ↔ IsHalfEmpty q) (sym (combined refs seq_num c q r next from to e))
      (let reads = range_reads refs seq_num c q from to in
        (λ d. refused.0 (reads.0 d), λ d. reads.1 (refused.1 d)))

-- The options of an accepted request from a timestamp on.
abbrev from_of : Context → FromQuery → ℤ → QueryOptions
from_of c q from =
    from_options
      (record {
        timestamp = from;
        sequence_number = some (
            parsed_or (parse_int_if_exists q.from_sequence_number) (pos min_sequence_number_value));
      })
      q.publisher_id (limit_or_undefined_if_infinity c)

accepted_timestamp :
    (seq_num : ℕ) (c : Context) (q : FromQuery) (r : QueryRequest) (next : ℕ) (x : Option Number)
    → check_timestamp seq_num c q x ≡ (query_request r, next)
    → (from : ℤ) × (r ≡ requested seq_num c (from_of c q from))
unfolding check_timestamp make
accepted_timestamp seq_num c q r next none h = cc
accepted_timestamp seq_num c q r next (some nan) h = cc
accepted_timestamp seq_num c q r next (some (number a)) h =
    (a, sym (request_injective (requested seq_num c (from_of c q a)) r (seq_num + 1) next h))

plain_limit :
    (c : Context) → is_stream_request c ≡ false → limit_or_undefined_if_infinity c ≡ some 5001
unfolding limit_or_undefined_if_infinity get_message_limit_for_request
plain_limit c h = rw (limit_or_undefined_if_infinity, get_message_limit_for_request, h) refl

from_reads :
    (refs : MessageRefs) (seq_num : ℕ) (c : Context) (q : FromQuery) (from : ℤ)
    → is_stream_request c ≡ false
    → (d : Reading refs) × (get_data_for_query_request refs (requested seq_num c (from_of c q from))
        ≡ some d)
      × (d.message_limit ≡ some 5001)
unfolding get_data_for_query_request request_from
from_reads refs seq_num c q from h = (_, refl, ap limit_or_infinity (plain_limit c h))

-- A request from a timestamp on that the endpoint accepts, and that is not for an event stream, is
-- read, and of whatever messages the database returns it passes on the first 5001.
pub accepted_from-limit :
    (refs : MessageRefs) (seq_num : ℕ) (c : Context) (q : FromQuery) (r : QueryRequest) (next : ℕ)
    (found : List refs.Ref)
    → get_for_from_query_request seq_num c q ≡ (query_request r, next)
    → is_stream_request c ≡ false
    → (d : Reading refs) × (get_data_for_query_request refs r ≡ some d)
      × ((transform_all (new_limit d.message_limit) found).pushed ≡ take 5001 found)
unfolding get_for_from_query_request
accepted_from-limit refs seq_num c q r next found h k =
    let (from, e) =
      accepted_timestamp seq_num c q r next (parse_int_if_exists q.from_timestamp) h in
    let (d, g, l) = from_reads refs seq_num c q from k in
    (
      d,
      ap (get_data_for_query_request refs) e ∙ g,
      ap (λ m. (transform_all (new_limit m) found).pushed) l ∙ (transform_all-limit 5001 found).0,
    )
