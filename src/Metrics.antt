-- ===== src/Metrics.antt =====
-- packages/core/src/shared/MessageMetrics.ts: the messages of a subject, counted by publisher.
pub mod Summary
use logstore_node.Base.{
  ℕ, suc, zero, ◌+◌, ◌-◌, ◌<◌, ◌≡◌, Option, none, some, List, [], ◌∷◌, ltb, length, if◌then◌else◌,
  Text, text_eq, text_beq_iff, ap, arith,
}
use logstore_node.Base.Collections.{get, put, get-put}

pub record MessageMetrics : Type 0 where
  pub seq_nums : List (Text × ℕ)
  pub bytes : ℕ
  pub count : ℕ
  pub lost : ℕ

unfoldable pub new_metrics : MessageMetrics
new_metrics = record { seq_nums = []; bytes = 0; count = 0; lost = 0 }

-- The loss between the previous number of a publisher, if there is one that is not 0, and the next.
unfoldable pub lost_between : Option ℕ → ℕ → ℕ
lost_between none n = 0
lost_between (some zero) n = 0
lost_between (some (suc m)) n = if ltb (suc m + 1) n then n - suc m - 1 else 0

unfoldable pub update : MessageMetrics → Text → ℕ → ℕ → MessageMetrics
unfolding lost_between
update m publisher_id seq_num bytes = record {
  seq_nums = put m.seq_nums publisher_id seq_num;
  bytes = m.bytes + bytes;
  count = m.count + 1;
  lost = m.lost + lost_between (get m.seq_nums publisher_id) seq_num;
}

-- The messages of one publisher: their numbers and sizes.
unfoldable pub update_all : MessageMetrics → Text → List (ℕ × ℕ) → MessageMetrics
unfolding update
update_all m publisher_id [] = m
update_all m publisher_id ((n, bytes) ∷ xs) =
    update_all (update m publisher_id n bytes) publisher_id xs

abbrev pub Ascends : ℕ → List (ℕ × ℕ) → Type 0
Ascends n [] = Unit
Ascends n ((k, bytes) ∷ xs) = (n < k) × Ascends k xs

abbrev pub last_from : ℕ → List (ℕ × ℕ) → ℕ
last_from n [] = n
last_from n ((k, bytes) ∷ xs) = last_from k xs

lost_step : (n k : ℕ) → 0 < n → n < k → lost_between (some n) k + 1 + n ≡ k
unfolding lost_between
lost_step zero k h l = ground arith
lost_step (suc n) k h l = ground arith

update-lost :
    (m : MessageMetrics) (publisher_id : Text) (n k bytes : ℕ)
    → get m.seq_nums publisher_id ≡ some n
    → (update m publisher_id k bytes).lost ≡ m.lost + lost_between (some n) k
unfolding update
update-lost m p n k bytes g = ap (λ o. m.lost + lost_between o k) g

update-get :
    (m : MessageMetrics) (publisher_id : Text) (k bytes : ℕ)
    → get (update m publisher_id k bytes).seq_nums publisher_id ≡ some k
unfolding update
update-get m p k bytes = ground (arith, get-put m.seq_nums p k p, text_beq_iff p p)

-- Where a publisher's numbers go on in ascending order from one that is not 0, what is counted as
-- lost is what the numbers leave out: with the messages that came it makes up the distance.
pub update_all-lost :
    (m : MessageMetrics) (publisher_id : Text) (n : ℕ) (xs : List (ℕ × ℕ))
    → get m.seq_nums publisher_id ≡ some n
    → 0 < n
    → Ascends n xs
    → (update_all m publisher_id xs).lost + length xs + n ≡ m.lost + last_from n xs
unfolding update_all update
update_all-lost m p n [] g h a = omega arith
update_all-lost m p n ((k, b) ∷ xs) g h a =
    let rest = update_all-lost (update m p k b) p k xs (update-get m p k b) (omega arith) a.1 in
    omega (arith, rest, update-lost m p n k b g, lost_step n k h a.0)
