-- ===== src/Tests/Sample.antt =====
-- Message references as pairs, and values that the tests share.
use logstore_node.Base.{ℕ, refl, List, [], ◌∷◌, Text, pos, true}
use logstore_node.Protocol.{MessageRefs, lex_sign, QueryRequest, QueryResponse, last_options}

abbrev pub refs : MessageRefs
refs = record {
  Ref = ℕ × ℕ;
  new_ref = λ t s. (t, s);
  timestamp = λ r. r.0;
  sequence_number = λ r. r.1;
  compare_to = λ a b. lex_sign a.0 a.1 b.0 b.1;
  timestamp-new_ref = λ t s. refl;
  sequence_number-new_ref = λ t s. refl;
  compare_to_lem = λ a b. refl;
}

abbrev pub ref : ℕ → ℕ × ℕ
ref t = (t, 0)

abbrev pub alice : Text
alice = 97 ∷ []

abbrev pub bob : Text
bob = 98 ∷ []

abbrev pub carol : Text
carol = 99 ∷ []

abbrev pub stream : Text
stream = 115 ∷ []

abbrev pub request : QueryRequest
request = record {
  seq_num = 0;
  request_id = 49 ∷ [];
  consumer_id = alice;
  stream_id = stream;
  partition = pos 0;
  query_options = last_options (pos 10);
}

abbrev pub response : List (ℕ × ℕ) → QueryResponse refs
response message_refs = record {
  request_id = 49 ∷ [];
  request_publisher_id = alice;
  message_refs = message_refs;
  is_final = true;
}
