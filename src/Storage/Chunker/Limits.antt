-- ===== src/Storage/Chunker/Limits.antt =====
-- The sizes of the chunks, while the callback does not throw.
use logstore_node.Base.{
  ℕ, ◌+◌, ◌≤◌, ◌<◌, ◌≡◌, refl, sym, ◌∙◌, ◌⊎◌, Bool, true, false, List, [], ◌∷◌, ◌++◌, length, All,
  All-append, All-map, subst, length-append, arith,
}
use logstore_node.Storage.Chunker.{
  Chunker, Chunk, Outcome, new_chunker, finish_chunk_if_ready, transform, transform_all, run,
}

module _ {T : Type 0} (size : T → ℕ) where
  unfoldable pub bytes : List T → ℕ
  bytes [] = 0
  bytes (x ∷ xs) = size x + bytes xs

  bytes-append : (xs ys : List T) → bytes (xs ++ ys) ≡ bytes xs + bytes ys
  unfolding bytes
  bytes-append [] ys = omega arith
  bytes-append (x ∷ xs) ys = omega (arith, bytes-append xs ys)

  -- Below both limits, with the right count of bytes.
  pub record IsPartial (c : Chunker T) : Type 0 where
    pub few : length c.items < c.items_limit
    pub counted : c.chunk_bytes ≡ bytes c.items
    pub small : bytes c.items < c.bytes_limit

  -- A chunk reaches one of the limits, and did not before its last item.
  abbrev pub IsTight : ℕ → ℕ → List T → Type 0
  IsTight items_limit bytes_limit content =
      (init : List T) × (last : T) × (content ≡ init ++ last ∷ [])
      × (length init < items_limit)
      × (bytes init < bytes_limit)
      × ((items_limit ≤ length content) ⊎ (bytes_limit ≤ bytes content))

  module _ (accepts : Chunk T → Bool) where
    -- The bounds that an outcome keeps.
    abbrev pub Bounded : ℕ → ℕ → Chunk T → Type 0
    Bounded items_limit bytes_limit k = IsTight items_limit bytes_limit k.content

    transform-IsPartial :
        (c : Chunker T) (x : T)
        → 0 < c.items_limit
        → 0 < c.bytes_limit
        → IsPartial c
        → (transform size accepts c x).has_thrown ≡ false
        → let o = transform size accepts c x in
          IsPartial o.chunker
          × (o.chunker.items_limit ≡ c.items_limit)
          × (o.chunker.bytes_limit ≡ c.bytes_limit)
    unfolding transform bytes
    transform-IsPartial c x h k v t =
        ground (arith, length-append c.items (x ∷ []), bytes-append c.items (x ∷ []))

    transform_chunk :
        (c : Chunker T) (x : T)
        → IsPartial c
        → All
            (λ (k : Chunk T).
              (k.content ≡ c.items ++ x ∷ [])
              × ((c.items_limit ≤ length k.content) ⊎ (c.bytes_limit ≤ bytes k.content)))
            (transform size accepts c x).chunks
    unfolding transform bytes
    transform_chunk c x v =
        ground (arith, length-append c.items (x ∷ []), bytes-append c.items (x ∷ []))

    transform_tight :
        (c : Chunker T) (x : T)
        → IsPartial c
        → All (Bounded c.items_limit c.bytes_limit) (transform size accepts c x).chunks
    transform_tight c x v =
        All-map (transform size accepts c x).chunks (λ k h. (c.items, x, h.0, v.few, v.small, h.1))
          (transform_chunk c x v)

    -- A step that returns goes on with the rest.
    transform_all_returned :
        (c : Chunker T) (x : T) (xs : List T)
        → (transform_all size accepts c (x ∷ xs)).has_thrown ≡ false
        → let o = transform size accepts c x in
          let r = transform_all size accepts o.chunker xs in
          (o.has_thrown ≡ false)
          × (r.has_thrown ≡ false)
          × (transform_all size accepts c (x ∷ xs) ≡ record {
            chunker = r.chunker;
            chunks = o.chunks ++ r.chunks;
            has_thrown = r.has_thrown;
          })
    unfolding transform_all
    transform_all_returned c x xs h = ground (arith, h)

    -- What the outcome of an input shows when nothing throws.
    abbrev WithinLimits : Chunker T → Outcome T → Type 0
    WithinLimits c o =
        IsPartial o.chunker
        × (o.chunker.items_limit ≡ c.items_limit)
        × (o.chunker.bytes_limit ≡ c.bytes_limit)
        × All (Bounded c.items_limit c.bytes_limit) o.chunks

    transform_all_tight :
        (c : Chunker T) (xs : List T)
        → 0 < c.items_limit
        → 0 < c.bytes_limit
        → IsPartial c
        → (transform_all size accepts c xs).has_thrown ≡ false
        → WithinLimits c (transform_all size accepts c xs)
    unfolding transform_all
    transform_all_tight c [] h k v t = (v, refl, refl, tt)
    transform_all_tight c (x ∷ xs) h k v t =
        let o = transform size accepts c x in
        let (returned, later, e) = transform_all_returned c x xs t in
        let (p, il, bl) = transform-IsPartial c x h k v returned in
        let (q, il', bl', tight) =
          transform_all_tight o.chunker xs (omega arith) (omega arith) p later in
        subst (WithinLimits c) (sym e) (
          q,
          il' ∙ il,
          bl' ∙ bl,
          All-append _ o.chunks (transform_all size accepts o.chunker xs).chunks
              (transform_tight c x v)
              (subst
                (λ n.
                  All (Bounded n c.bytes_limit) (transform_all size accepts o.chunker xs).chunks)
                il
                (subst
                  (λ n.
                    All (Bounded o.chunker.items_limit n)
                      (transform_all size accepts o.chunker xs).chunks)
                  bl tight)),
        )

    -- While the callback does not throw, every chunk but the final one reaches the limit of items
    -- or of bytes with its last item and not before, and the final one stays below both.
    pub run_tight :
        (items_limit bytes_limit : ℕ) (xs : List T)
        → 0 < items_limit
        → 0 < bytes_limit
        → (run size accepts (new_chunker size accepts items_limit bytes_limit) xs).has_thrown
          ≡ false
        → (early : List (Chunk T)) × (last : Chunk T) × ((run size accepts
              (new_chunker size accepts items_limit bytes_limit)
              xs).chunks
            ≡ early ++ last ∷ [])
          × All (Bounded items_limit bytes_limit) early
          × (length last.content < items_limit)
          × (bytes last.content < bytes_limit)
    unfolding run finish_chunk_if_ready bytes
    run_tight items_limit bytes_limit xs h k t =
        let c = new_chunker size accepts items_limit bytes_limit in
        let o = transform_all size accepts c xs in
        let (v, il, bl, tight) =
          transform_all_tight c xs h k (record { few = h; counted = refl; small = k })
            (ground arith) in
        (
          o.chunks,
          record { content = o.chunker.items; is_final = true },
          ground arith,
          tight,
          omega arith,
          omega arith,
        )
