-- ===== src/LogStore/Listener.antt =====
-- MessageListener.ts: which messages of the node are stored. The result of
-- `ValidationSchemaManager.validateMessage`, its errors or none, and whether the store takes a message are given
-- with each message.
use logstore_node.Base.{
  ◌≡◌, refl, ap, ◌∙◌, Bool, true, false, ◌&&◌, List, [], ◌∷◌, ◌++◌, if◌then◌else◌, Text, filter,
  map, arith,
}

pub data MessageType : Type 0 where
  message group_key_request group_key_response : MessageType

pub record Incoming (M : Type 0) : Type 0 where
  pub msg : M
  pub message_type : MessageType
  pub stream_part : Text
  pub errors : List Text
  pub is_stored : Bool

-- What a message leads to.
pub data Effect (M : Type 0) : Type 0 where
  stored : M → Effect M
  emitted : M → Effect M
  published_errors : List Text → Effect M

abbrev pub is_storable_message : MessageType → Bool
is_storable_message message = true
is_storable_message group_key_request = false
is_storable_message group_key_response = false

abbrev pub is_empty : List Text → Bool
is_empty [] = true
is_empty (x ∷ xs) = false

module _ {M : Type 0} (has_stream_part : Text → Bool) where
  abbrev pub after_validation : Incoming M → List Text → List (Effect M)
  after_validation m (e ∷ es) = published_errors (e ∷ es) ∷ []
  after_validation m [] = if m.is_stored then stored m.msg ∷ emitted m.msg ∷ [] else []

  unfoldable pub on_stream_message : Incoming M → List (Effect M)
  on_stream_message m =
      if is_storable_message m.message_type && has_stream_part m.stream_part
      then after_validation m m.errors
      else []

  unfoldable pub on_stream_messages : List (Incoming M) → List (Effect M)
  unfolding on_stream_message
  on_stream_messages [] = []
  on_stream_messages (m ∷ ms) = on_stream_message m ++ on_stream_messages ms

  abbrev pub stores : List (Effect M) → List M
  stores [] = []
  stores (stored m ∷ es) = m ∷ stores es
  stores (emitted m ∷ es) = stores es
  stores (published_errors x ∷ es) = stores es

  abbrev pub emits : List (Effect M) → List M
  emits [] = []
  emits (stored m ∷ es) = emits es
  emits (emitted m ∷ es) = m ∷ emits es
  emits (published_errors x ∷ es) = emits es

  -- A message of a stream part of the configuration, without errors, that the store takes.
  abbrev pub is_accepted : Incoming M → Bool
  is_accepted m =
      ((is_storable_message m.message_type && has_stream_part m.stream_part) && is_empty m.errors)
      && m.is_stored

  stores-append : (xs ys : List (Effect M)) → stores (xs ++ ys) ≡ stores xs ++ stores ys
  stores-append [] ys = refl
  stores-append (stored m ∷ xs) ys = ap (◌∷◌ m) (stores-append xs ys)
  stores-append (emitted m ∷ xs) ys = stores-append xs ys
  stores-append (published_errors x ∷ xs) ys = stores-append xs ys

  emits-append : (xs ys : List (Effect M)) → emits (xs ++ ys) ≡ emits xs ++ emits ys
  emits-append [] ys = refl
  emits-append (stored m ∷ xs) ys = emits-append xs ys
  emits-append (emitted m ∷ xs) ys = ap (◌∷◌ m) (emits-append xs ys)
  emits-append (published_errors x ∷ xs) ys = emits-append xs ys

  one_accepted :
      (m : Incoming M)
      → (stores (on_stream_message m) ≡ (if is_accepted m then m.msg ∷ [] else []))
        × (emits (on_stream_message m) ≡ (if is_accepted m then m.msg ∷ [] else []))
  unfolding on_stream_message
  one_accepted m = (ground arith, ground arith)

  filter-accepted :
      (m : Incoming M) (ms : List (Incoming M))
      → map (λ (i : Incoming M). i.msg) (filter is_accepted (m ∷ ms))
        ≡ (if is_accepted m then m.msg ∷ [] else [])
          ++ map (λ (i : Incoming M). i.msg) (filter is_accepted ms)
  filter-accepted m ms = ground arith

  -- Of any messages just the accepted ones are stored, in their order, and the same ones are
  -- emitted to the listeners of the message listener.
  pub on_stream_messages-stores :
      (ms : List (Incoming M))
      → (stores (on_stream_messages ms) ≡ map (λ (i : Incoming M). i.msg) (filter is_accepted ms))
        × (emits (on_stream_messages ms) ≡ map (λ (i : Incoming M). i.msg) (filter is_accepted ms))
  unfolding on_stream_messages
  on_stream_messages-stores [] = (refl, refl)
  on_stream_messages-stores (m ∷ ms) =
      let (s, e) = on_stream_messages-stores ms in
      let (s1, e1) = one_accepted m in
      (
        stores-append (on_stream_message m) (on_stream_messages ms)
            ∙ cc (s, s1, filter-accepted m ms),
        emits-append (on_stream_message m) (on_stream_messages ms)
            ∙ cc (e, e1, filter-accepted m ms),
      )
