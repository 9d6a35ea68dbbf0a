-- ===== src/Network/Broadband.antt =====
-- shared/BroadbandPublisher.ts and shared/BroadbandSubscriber.ts: the partitions of a stream that
-- messages are published to, one after the other, and those that are subscribed to.
use logstore_node.Base.{
  ℕ, zero, suc, ◌+◌, ◌%◌, ◌<◌, ◌≡◌, ◌∙◌, Bool, true, false, List, [], ◌∷◌, ◌++◌, arith,
  if◌then◌else◌, ◌==◌, any, any-append, All,
}

pub record Publisher : Type 0 where
  pub partitions : ℕ
  pub counter : ℕ

unfoldable pub new_publisher : ℕ → Publisher
new_publisher partitions = record { partitions = partitions; counter = 0 }

-- The partition of a message, and the publisher after it; a message that the client fails to
-- publish leaves the counter.
unfoldable pub publish : Publisher → (publishes : Bool) → ℕ × Publisher
publish p publishes =
    (p.counter % p.partitions, if publishes then record p { counter = p.counter + 1 } else p)

-- The partitions of messages that are published one after the other.
unfoldable pub publish_all : Publisher → List Bool → List ℕ
unfolding publish
publish_all p [] = []
publish_all p (b ∷ bs) = (publish p b).0 ∷ publish_all (publish p b).1 bs

unfoldable pub partitions_below : ℕ → List ℕ
partitions_below zero = []
partitions_below (suc n) = partitions_below n ++ n ∷ []

-- The partitions that a subscriber subscribes to.
unfoldable pub subscribe : (partitions : ℕ) → List ℕ
unfolding partitions_below
subscribe partitions = partitions_below partitions

any-partitions_below : (n k : ℕ) → k < n → any (λ p. p == k) (partitions_below n) ≡ true
unfolding partitions_below
any-partitions_below zero k h = absurd (omega arith)
any-partitions_below (suc n) k h =
    any-append (λ p. p == k) (partitions_below n) (n ∷ [])
    ∙ ground (arith, any-partitions_below n k)

-- Every message is published to a partition that a subscriber of the stream subscribes to, however
-- many messages were published before and whichever of them failed.
pub publish_all-subscribe :
    (p : Publisher) (bs : List Bool)
    → 0 < p.partitions
    → All
        (λ partition. any (λ q. q == partition) (subscribe p.partitions) ≡ true)
        (publish_all p bs)
unfolding publish_all publish subscribe
publish_all-subscribe p [] h = tt
publish_all-subscribe p (true ∷ bs) h = (
  any-partitions_below p.partitions (p.counter % p.partitions) (omega arith),
  publish_all-subscribe (record p { counter = p.counter + 1 }) bs h,
)
publish_all-subscribe p (false ∷ bs) h = (
  any-partitions_below p.partitions (p.counter % p.partitions) (omega arith),
  publish_all-subscribe p bs h,
)
