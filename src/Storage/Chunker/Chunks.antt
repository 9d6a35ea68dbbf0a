-- ===== src/Storage/Chunker/Chunks.antt =====
-- What the chunks of a run hold, and which of them is final.
use logstore_node.Base.{ℕ, ◌≡◌, ◌⊎◌, Bool, true, false, List, [], ◌∷◌, ◌++◌}
use logstore_node.Storage.Chunker.{Chunker, Chunk, Outcome}

module _ {ℓ} {T : Type ℓ} where
  pub contents : List (Chunk T) → List T
  contents [] = []
  contents (c ∷ cs) = c.content ++ contents cs

  module _ (size : T → ℕ) (accepts : Chunk T → Bool) where
    -- The input goes into the chunks and the items that are kept, in order, up to a transform that
    -- throws and keeps nothing.
    abbrev Holds : List T → Outcome T → Type ℓ
    Holds all o =
        (rest : List T) × (contents o.chunks ++ (o.chunker.items ++ rest) ≡ all)
        × (((o.has_thrown ≡ false) × (rest ≡ []))
            ⊎ ((o.has_thrown ≡ true) × (o.chunker.items ≡ [])))
