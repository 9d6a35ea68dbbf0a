-- ===== src/Sync/Convergence.antt =====
-- The order in which updates arrive.
use logstore_node.Base.{
  ℕ, ◌+◌, ◌*◌, ◌≡◌, refl, ◌≢◌, Bool, Option, none, some, List, [], ◌∷◌, if◌then◌else◌, Eq, arith,
}
use logstore_node.Base.Collections.{has}
use logstore_node.Sync.{Synchronizer, Operation, ingest_snapshot, ingest_patch}
use logstore_node.Sync.Register.{
  Register, write, view, is_added, IsWellFormed, ingest_snapshot-IsWellFormed,
  ingest_patch-IsWellFormed, view-ingest_snapshot, view-ingest_patch,
}

pub data Update {ℓ} (E : Type ℓ) : Type ℓ where
  snapshot : List E → ℕ → Update E
  patch : List E → Operation → ℕ → Update E

abbrev pub write_opt : Register → ℕ → Option Bool → Register
write_opt r n none = r
write_opt r n (some b) = write r n b

write_comm :
    (r : Register) (m n : ℕ) (a b : Option Bool)
    → m ≢ n
    → write_opt (write_opt r m a) n b ≡ write_opt (write_opt r n b) m a
unfolding write
write_comm r m n a b h = ground arith

module _ {ℓ} {E : Type ℓ} ⦃e : Eq E⦄ where
  unfoldable pub ingest : Synchronizer E → Update E → Synchronizer E
  ingest s (snapshot els n) = (ingest_snapshot s els n).0
  ingest s (patch els op n) = (ingest_patch s els op n).0

  -- A snapshot of a block comes after the patches of the block.
  unfoldable pub stamp_of : Update E → ℕ
  stamp_of (snapshot els n) = 2 * n + 1
  stamp_of (patch els op n) = 2 * n

  -- What an update writes at an element, if anything.
  unfoldable pub effect : Update E → E → Option Bool
  effect (snapshot els n) q = some (has els q)
  effect (patch els op n) q = if has els q then some (is_added op) else none

  ingest-IsWellFormed :
      (s : Synchronizer E) (u : Update E) → IsWellFormed s → IsWellFormed (ingest s u)
  unfolding ingest
  ingest-IsWellFormed s (snapshot els n) w = ingest_snapshot-IsWellFormed s els n w
  ingest-IsWellFormed s (patch els op n) w = ingest_patch-IsWellFormed s els op n w

  view-ingest :
      (s : Synchronizer E) (u : Update E) (q : E)
      → IsWellFormed s
      → view (ingest s u) q ≡ write_opt (view s q) (stamp_of u) (effect u q)
  unfolding ingest stamp_of effect
  view-ingest s (snapshot els n) q w = view-ingest_snapshot s els n q w
  view-ingest s (patch els op n) q w = ground (arith, view-ingest_patch s els op n q)

  -- Two updates with different stamps may arrive in either order: what the synchronizer knows of
  -- every element afterwards is the same.
  pub ingest_comm :
      (s : Synchronizer E) (u v : Update E) (q : E)
      → IsWellFormed s
      → stamp_of u ≢ stamp_of v
      → view (ingest (ingest s u) v) q ≡ view (ingest (ingest s v) u) q
  ingest_comm s u v q w h =
      rw
        (
          view-ingest (ingest s u) v q (ingest-IsWellFormed s u w),
          view-ingest (ingest s v) u q (ingest-IsWellFormed s v w),
          view-ingest s u q w,
          view-ingest s v q w,
        )
        (write_comm (view s q) (stamp_of u) (stamp_of v) (effect u q) (effect v q) h)

  pub ingest_all : Synchronizer E → List (Update E) → Synchronizer E
  ingest_all s [] = s
  ingest_all s (u ∷ us) = ingest_all (ingest s u) us

  unfoldable pub write_all : Register → List (Update E) → E → Register
  write_all r [] q = r
  write_all r (u ∷ us) q = write_all (write_opt r (stamp_of u) (effect u q)) us q

  -- Over any sequence of updates the membership of an element is that of its register alone, into
  -- which each update that concerns it is written with its stamp.
  pub view-ingest_all :
      (s : Synchronizer E) (us : List (Update E)) (q : E)
      → IsWellFormed s
      → view (ingest_all s us) q ≡ write_all (view s q) us q
  unfolding ingest_all write_all
  view-ingest_all s [] q w = refl
  view-ingest_all s (u ∷ us) q w =
      rw (← view-ingest s u q w) (view-ingest_all (ingest s u) us q (ingest-IsWellFormed s u w))
