-- ===== src/Storage/Chunker.antt =====
-- Chunker.ts: a transform that hands its input on in chunks, limited in items and bytes.
pub mod Chunks
pub mod Limits
use logstore_node.Base.{
  ℕ, ◌+◌, ◌*◌, Bool, true, false, not, ◌||◌, List, [], ◌∷◌, ◌++◌, leb, length, if◌then◌else◌,
}

abbrev pub items_limit_default : ℕ
items_limit_default = 5000

abbrev pub bytes_limit_default : ℕ
bytes_limit_default = 500 * 1024

pub record Chunker {ℓ} (T : Type ℓ) : Type ℓ where
  pub items_limit : ℕ
  pub bytes_limit : ℕ
  pub items : List T
  pub chunk_bytes : ℕ

-- A call of the chunk callback.
pub record Chunk {ℓ} (T : Type ℓ) : Type ℓ where
  pub content : List T
  pub is_final : Bool

-- What a step does: the state after it, the calls of the chunk callback, and whether one threw.
pub record Outcome {ℓ} (T : Type ℓ) : Type ℓ where
  pub chunker : Chunker T
  pub chunks : List (Chunk T)
  pub has_thrown : Bool

-- `data.length`, and whether the callback returns on a chunk; otherwise it throws.
module _ {ℓ} {T : Type ℓ} (size : T → ℕ) (accepts : Chunk T → Bool) where
  abbrev pub new_chunker : ℕ → ℕ → Chunker T
  new_chunker items_limit bytes_limit = record {
    items_limit = items_limit;
    bytes_limit = bytes_limit;
    items = [];
    chunk_bytes = 0;
  }

  -- The items are taken out before the callback runs; the count of bytes is reset after it.
  unfoldable pub finish_chunk_if_ready : Chunker T → Bool → Outcome T
  finish_chunk_if_ready c is_final =
      let chunk : Chunk T = record { content = c.items; is_final = is_final } in
      if is_final || leb c.items_limit (length c.items) || leb c.bytes_limit c.chunk_bytes
      then (if accepts chunk
          then record {
            chunker = record c { items = []; chunk_bytes = 0 };
            chunks = chunk ∷ [];
            has_thrown = false;
          }
          else record { chunker = record c { items = [] }; chunks = chunk ∷ []; has_thrown = true })
      else record { chunker = c; chunks = []; has_thrown = false }

  -- The calls of the transform's own callback: `true` for one with an error.
  abbrev pub callback_calls : Outcome T → List Bool
  callback_calls o = if o.has_thrown then true ∷ false ∷ [] else false ∷ []

  unfoldable pub transform : Chunker T → T → Outcome T
  unfolding finish_chunk_if_ready
  transform c x =
      finish_chunk_if_ready
        (record c { items = c.items ++ x ∷ []; chunk_bytes = c.chunk_bytes + size x }) false

  -- The transform of each input in turn: an error destroys the stream, and what comes later is not
  -- transformed.
  unfoldable pub transform_all : Chunker T → List T → Outcome T
  transform_all c [] = record { chunker = c; chunks = []; has_thrown = false }
  transform_all c (x ∷ xs) =
      let o = transform c x in
      let rest = transform_all o.chunker xs in
      if o.has_thrown then o else record {
        chunker = rest.chunker;
        chunks = o.chunks ++ rest.chunks;
        has_thrown = rest.has_thrown;
      }

  -- The input ends: `finish` is emitted once, and not at all by a stream with an error.
  unfoldable pub run : Chunker T → List T → Outcome T
  unfolding transform_all finish_chunk_if_ready
  run c xs =
      let o = transform_all c xs in
      let last = finish_chunk_if_ready o.chunker true in
      if o.has_thrown then o else record {
        chunker = last.chunker;
        chunks = o.chunks ++ last.chunks;
        has_thrown = last.has_thrown;
      }
