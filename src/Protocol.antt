-- ===== src/Protocol.antt =====
-- What the node uses of @streamr/protocol and @logsn/protocol. Their code is not in the
-- repository: message references are a parameter with the documented laws, and the protocol's
-- messages are records of the fields that the node writes and reads.
use logstore_node.Base.{ℕ, ℤ, ◌<◌, ◌≡◌, ◌⊎◌, Bool, Option, List, Text, arith, ltb, if◌then◌else◌}

-- The sign of the number that a comparison returns.
pub data Sign : Type 0 where
  before same after : Sign

-- The order of two pairs, the first number first.
abbrev pub lex_sign : ℕ → ℕ → ℕ → ℕ → Sign
lex_sign t s t' s' =
    if ltb t t'
    then before
    else if ltb t' t
    then after
    else if ltb s s'
    then before
    else if ltb s' s
    then after
    else same

-- `MessageRef`: a timestamp, a sequence number, and a comparison by the two.
pub record MessageRefs : Type 1 where
  pub Ref : Type 0
  pub new_ref : ℕ → ℕ → Ref
  pub timestamp : Ref → ℕ
  pub sequence_number : Ref → ℕ
  pub compare_to : Ref → Ref → Sign
  pub timestamp-new_ref : (t s : ℕ) → timestamp (new_ref t s) ≡ t
  pub sequence_number-new_ref : (t s : ℕ) → sequence_number (new_ref t s) ≡ s
  pub compare_to_lem :
      (a b : Ref)
      → compare_to a b
        ≡ lex_sign (timestamp a) (sequence_number a) (timestamp b) (sequence_number b)

module _ (refs : MessageRefs) where
  open refs use {Ref, timestamp, sequence_number, compare_to, compare_to_lem}

  -- The strict order of references.
  abbrev pub Precedes : Ref → Ref → Type 0
  Precedes a b =
      (timestamp a < timestamp b)
      ⊎ ((timestamp a ≡ timestamp b) × (sequence_number a < sequence_number b))

  abbrev pub Coincides : Ref → Ref → Type 0
  Coincides a b = (timestamp a ≡ timestamp b) × (sequence_number a ≡ sequence_number b)

  pub compare_to_cases :
      (a b : Ref)
      → ((compare_to a b ≡ before) × Precedes a b)
        ⊎ ((compare_to a b ≡ same) × Coincides a b)
        ⊎ ((compare_to a b ≡ after) × Precedes b a)
  compare_to_cases a b = ground (arith, compare_to_lem a b)

-- A bound of a query, whose sequence number may be left out.
pub record QueryRef : Type 0 where
  pub timestamp : ℤ
  pub sequence_number : Option ℤ

pub data QueryOptions : Type 0 where
  last_options : ℤ → QueryOptions
  from_options : (from : QueryRef) (publisher_id : Option Text) (limit : Option ℕ) → QueryOptions
  range_options :
      (from to : QueryRef) (publisher_id msg_chain_id : Option Text) (limit : Option ℕ)
      → QueryOptions

pub record QueryRequest : Type 0 where
  pub seq_num : ℕ
  pub request_id : Text
  pub consumer_id : Text
  pub stream_id : Text
  pub partition : ℤ
  pub query_options : QueryOptions

pub record QueryResponse (refs : MessageRefs) : Type 0 where
  pub request_id : Text
  pub request_publisher_id : Text
  pub message_refs : List refs.Ref
  pub is_final : Bool

-- A propagation, whose payload is the messages of these references.
pub record QueryPropagate (refs : MessageRefs) : Type 0 where
  pub request_id : Text
  pub request_publisher_id : Text
  pub payload : List refs.Ref

-- `SystemMessage.deserialize`: the message types that the node's managers tell apart.
pub data SystemMessage (refs : MessageRefs) : Type 0 where
  request_message : QueryRequest → SystemMessage refs
  response_message : QueryResponse refs → SystemMessage refs
  propagate_message : QueryPropagate refs → SystemMessage refs
  other_message : SystemMessage refs
