-- ===== src/Network/Heartbeat.antt =====
-- network/Heartbeat.ts, with shared/BroadbandPublisher.ts and shared/BroadbandSubscriber.ts: the
-- nodes whose heartbeats came within the last minute, and the partitions that heartbeats are sent
-- to and received from. Time is in milliseconds.
use logstore_node.Base.{
  ℕ, ◌+◌, ◌*◌, ◌≡◌, refl, sym, ap, ◌∙◌, Bool, true, false, ◌&&◌, not, Option, none, some, List, [],
  ◌∷◌, Text, arith, if◌then◌else◌, ◌===◌, text_eq, nat_eq, leb, Bool-cases, inl, inr,
}
use logstore_node.Base.Collections.{get, put, has, get-put, IsMap, put-IsMap}

abbrev pub threshold : ℕ
threshold = 60 * 1000

pub record Heartbeat : Type 0 where
  pub client_id : Option Text
  pub nodes : List (Text × ℕ)

unfoldable pub new_heartbeat : Heartbeat
new_heartbeat = record { client_id = none; nodes = [] }

unfoldable pub start : Heartbeat → Text → Heartbeat
start h client_id = record h { client_id = some client_id }

-- `metadata.publisherId === this.clientId`
abbrev pub is_client : Heartbeat → Text → Bool
is_client h publisher_id = elim h.client_id [ none ↦ false | some c ↦ publisher_id === c ]

unfoldable pub on_message : Heartbeat → Text → ℕ → Heartbeat
on_message h publisher_id timestamp =
    if is_client h publisher_id then h else record h { nodes = put h.nodes publisher_id timestamp }

-- A heartbeat dated in the future is one of the last minute too.
unfoldable pub online_in : ℕ → List (Text × ℕ) → List Text
online_in now [] = []
online_in now ((node, timestamp) ∷ nodes) =
    if leb now (timestamp + threshold) then node ∷ online_in now nodes else online_in now nodes

unfoldable pub online_nodes : Heartbeat → ℕ → List Text
unfolding online_in
online_nodes h now = online_in now h.nodes

unfoldable pub on_messages : Heartbeat → List (Text × ℕ) → Heartbeat
unfolding on_message
on_messages h [] = h
on_messages h ((publisher_id, timestamp) ∷ ms) =
    on_messages (on_message h publisher_id timestamp) ms

-- The time of the last message of a publisher, after one that was known before.
abbrev pub last_of : Option ℕ → Text → List (Text × ℕ) → Option ℕ
last_of known node [] = known
last_of known node ((publisher_id, timestamp) ∷ ms) =
    last_of (if publisher_id === node then some timestamp else known) node ms

abbrev pub is_recent : ℕ → Option ℕ → Bool
is_recent now none = false
is_recent now (some timestamp) = leb now (timestamp + threshold)

absent-online :
    (now : ℕ) (m : List (Text × ℕ)) (q : Text) → get m q ≡ none → has (online_in now m) q ≡ false
unfolding online_in get has
absent-online now [] q h = refl
absent-online now ((node, t) ∷ m) q h = ground (arith, absent-online now m q)

has-online :
    (now : ℕ) (m : List (Text × ℕ)) (q : Text)
    → IsMap m
    → has (online_in now m) q ≡ is_recent now (get m q)
unfolding online_in get has
has-online now [] q h = refl
has-online now ((node, t) ∷ m) q h = elim (Bool-cases (node === q)) [
  | inl eq ↦
      ground
        (arith, eq, absent-online now m q (ap (get m) (sym ((text_eq.beq_iff node q).0 eq)) ∙ h.0))
  | inr ne ↦ ground (arith, ne, has-online now m q h.1)
]

on_message-IsMap :
    (h : Heartbeat) (p : Text) (t : ℕ) → IsMap h.nodes → IsMap (on_message h p t).nodes
unfolding on_message
on_message-IsMap h p t m = elim (Bool-cases (is_client h p)) [
  | inl own ↦ rw (own) m
  | inr other ↦ rw (other) (put-IsMap h.nodes p t m)
]

on_message-get :
    (h : Heartbeat) (p q : Text) (t : ℕ)
    → is_client h q ≡ false
    → get (on_message h p t).nodes q ≡ (if p === q then some t else get h.nodes q)
unfolding on_message
on_message-get h p q t other = elim (Bool-cases (is_client h p)) [
  | inl own ↦ elim (Bool-cases (p === q)) [
    | inl eq ↦
        absurd (ground (arith, sym (ap (is_client h) ((text_eq.beq_iff p q).0 eq)) ∙ own, other))
    | inr ne ↦ rw (own) (rw (ne) refl)
  ]
  | inr else_ ↦ rw (else_) (get-put h.nodes p t q)
]

on_message-client_id :
    (h : Heartbeat) (p : Text) (t : ℕ) → (on_message h p t).client_id ≡ h.client_id
unfolding on_message
on_message-client_id h p t = elim (Bool-cases (is_client h p)) [
  | inl own ↦ rw (own) refl
  | inr other ↦ rw (other) refl
]

same_client :
    (h : Heartbeat) (p q : Text) (t : ℕ) (b : Bool)
    → is_client h q ≡ b
    → is_client (on_message h p t) q ≡ b
same_client h p q t b e =
    ap (λ (o : Option Text). elim o [ none ↦ false | some c ↦ q === c ])
      (on_message-client_id h p t)
    ∙ e

on_messages-has :
    (h : Heartbeat) (ms : List (Text × ℕ)) (now : ℕ) (q : Text)
    → IsMap h.nodes
    → is_client h q ≡ false
    → has (online_nodes (on_messages h ms) now) q ≡ is_recent now (last_of (get h.nodes q) q ms)
unfolding on_messages online_nodes
on_messages-has h [] now q m other = has-online now h.nodes q m
on_messages-has h ((p, t) ∷ ms) now q m other =
    on_messages-has (on_message h p t) ms now q (on_message-IsMap h p t m)
      (same_client h p q t false other)
    ∙ ap (λ o. is_recent now (last_of o q ms)) (on_message-get h p q t other)

-- The node's own heartbeats are left out.
on_message-absent :
    (h : Heartbeat) (p q : Text) (t : ℕ)
    → is_client h q ≡ true
    → get h.nodes q ≡ none
    → get (on_message h p t).nodes q ≡ none
unfolding on_message
on_message-absent h p q t own absent = elim (Bool-cases (is_client h p)) [
  | inl mine ↦ rw (mine) absent
  | inr other ↦ rw (other) (
      get-put h.nodes p t q ∙ elim (Bool-cases (p === q)) [
        | inl eq ↦
            absurd (ground (arith, ap (is_client h) ((text_eq.beq_iff p q).0 eq) ∙ own, other))
        | inr ne ↦ rw (ne) absent
      ])
]

on_messages-absent :
    (h : Heartbeat) (ms : List (Text × ℕ)) (now : ℕ) (q : Text)
    → is_client h q ≡ true
    → get h.nodes q ≡ none
    → has (online_nodes (on_messages h ms) now) q ≡ false
unfolding on_messages online_nodes
on_messages-absent h [] now q own absent = absent-online now h.nodes q absent
on_messages-absent h ((p, t) ∷ ms) now q own absent =
    on_messages-absent (on_message h p t) ms now q (same_client h p q t true own)
      (on_message-absent h p q t own absent)

-- After any heartbeats a node is online just when it is not the node itself and its last heartbeat
-- to come is dated at most a minute ago.
pub online_nodes-has :
    (client_id : Text) (ms : List (Text × ℕ)) (now : ℕ) (q : Text)
    → has (online_nodes (on_messages (start new_heartbeat client_id) ms) now) q
      ≡ (not (q === client_id) && is_recent now (last_of none q ms))
unfolding start new_heartbeat get
online_nodes-has client_id ms now q = elim (Bool-cases (q === client_id)) [
  | inl own ↦ rw (own) (on_messages-absent (start new_heartbeat client_id) ms now q own refl)
  | inr other ↦ rw (other) (on_messages-has (start new_heartbeat client_id) ms now q tt other)
]
