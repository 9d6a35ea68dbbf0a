-- ===== src/Tests/Chunks.antt =====
-- The chunker on strings of given lengths: an item is its own size.
use logstore_node.Base.{
  ℕ, ◌<◌, ◌≡◌, leb, refl, arith, Bool, true, false, List, [], ◌∷◌, ◌++◌, All, length,
}
use logstore_node.Storage.Chunker.{
  Chunker, Chunk, new_chunker, run, transform_all, transform, finish_chunk_if_ready,
}
use logstore_node.Storage.Chunker.Limits.{Bounded, bytes, run_tight}

abbrev size : ℕ → ℕ
size n = n

abbrev accepts : Chunk ℕ → Bool
accepts chunk = true

abbrev chunker : Chunker ℕ
chunker = new_chunker size accepts 2 10

abbrev inputs : List ℕ
inputs = 3 ∷ 4 ∷ 12 ∷ 1 ∷ []

-- A callback that throws on a chunk with an item above ten.
abbrev refuses_large : Chunk ℕ → Bool
refuses_large chunk = elim chunk.content [ [] ↦ true | ◌∷◌ n _ ↦ leb n 10 ]

-- The chunk of 3 and 4 is taken, that of 12 is not, and 1 is not read.
run_refused : run size refuses_large chunker inputs ≡ record {
  chunker = record chunker { chunk_bytes = 12 };
  chunks =
      record { content = 3 ∷ 4 ∷ []; is_final = false }
      ∷ record { content = 12 ∷ []; is_final = false }
      ∷ [];
  has_thrown = true;
}
unfolding run transform_all transform finish_chunk_if_ready
run_refused = refl

inputs_accepted : (run size accepts chunker inputs).has_thrown ≡ false
unfolding run transform_all transform finish_chunk_if_ready
inputs_accepted = refl

run_tight_example :
    (early : List (Chunk ℕ)) × (last : Chunk ℕ) × ((run size accepts chunker inputs).chunks
      ≡ early ++ last ∷ [])
    × All (Bounded size accepts 2 10) early
    × (length last.content < 2)
    × (bytes size last.content < 10)
run_tight_example = run_tight size accepts 2 10 inputs (omega arith) (omega arith) inputs_accepted
