-- ===== src/LogStore/Limit.antt =====
-- http/dataTransformers.ts: `MessageLimitTransform`, through which a reading is piped.
use logstore_node.Base.{
  ℕ, ◌+◌, ◌≡◌, refl, ◌∙◌, ap, sym, zero, suc, Bool, true, false, Option, none, some, List, [], ◌∷◌,
  ◌++◌, if◌then◌else◌, ltb, take, drop, arith, append-nil, append_assoc,
}

-- The state of the transform, with the messages it pushed and those it emitted `limit-reached` for.
pub record MessageLimit {ℓ} (M : Type ℓ) : Type ℓ where
  pub message_limit : Option ℕ
  pub message_count : ℕ
  pub pushed : List M
  pub over_limit : List M
  pub is_ended : Bool

abbrev pub is_below : ℕ → Option ℕ → Bool
is_below n none = true
is_below n (some limit) = ltb n limit

module _ {ℓ} {M : Type ℓ} where
  unfoldable pub new_limit : Option ℕ → MessageLimit M
  new_limit limit = record {
    message_limit = limit;
    message_count = 0;
    pushed = [];
    over_limit = [];
    is_ended = false;
  }

  unfoldable pub transform : MessageLimit M → M → MessageLimit M
  transform t chunk =
      if is_below t.message_count t.message_limit
      then record t { pushed = t.pushed ++ chunk ∷ []; message_count = t.message_count + 1 }
      else record t { over_limit = t.over_limit ++ chunk ∷ []; is_ended = true }

  unfoldable pub transform_all : MessageLimit M → List M → MessageLimit M
  unfolding transform
  transform_all t [] = t
  transform_all t (x ∷ xs) = transform_all (transform t x) xs

  below_limit :
      (t : MessageLimit M) (k : ℕ)
      → t.message_limit ≡ some (t.message_count + suc k)
      → is_below t.message_count t.message_limit ≡ true
  below_limit t k h = rw h (ground arith)

  at_limit :
      (t : MessageLimit M)
      → t.message_limit ≡ some (t.message_count + 0)
      → is_below t.message_count t.message_limit ≡ false
  at_limit t h = rw h (ground arith)

  -- What a transform with room for `k` more messages does with a stream.
  transform_all-room :
      (k : ℕ) (xs : List M) (t : MessageLimit M)
      → t.message_limit ≡ some (t.message_count + k)
      → ((transform_all t xs).pushed ≡ t.pushed ++ take k xs)
        × ((transform_all t xs).over_limit ≡ t.over_limit ++ drop k xs)
  unfolding transform_all
  transform_all-room zero [] t h = (sym (append-nil t.pushed), sym (append-nil t.over_limit))
  transform_all-room (suc k) [] t h = (sym (append-nil t.pushed), sym (append-nil t.over_limit))
  transform_all-room zero (x ∷ xs) t h =
      let t' = transform t x in
      let (p, o) = transform_all-room zero xs t' (rw (transform, at_limit t h) h) in
      (
        p ∙ (rw (transform, at_limit t h) refl),
        o ∙ (rw (transform, at_limit t h) (append_assoc t.over_limit (x ∷ []) xs)),
      )
  transform_all-room (suc k) (x ∷ xs) t h =
      let t' = transform t x in
      let e = below_limit t k h in
      let (p, o) = transform_all-room k xs t' (rw (transform, e) (h ∙ ap some (omega arith))) in
      (
        p ∙ (rw (transform, e) (append_assoc t.pushed (x ∷ []) (take k xs))),
        o ∙ (rw (transform, e) refl),
      )

  -- A transform with a limit pushes the first messages up to the limit and emits `limit-reached`
  -- for each of the others.
  pub transform_all-limit :
      (limit : ℕ) (xs : List M)
      → ((transform_all (new_limit (some limit)) xs).pushed ≡ take limit xs)
        × ((transform_all (new_limit (some limit)) xs).over_limit ≡ drop limit xs)
  unfolding new_limit
  transform_all-limit limit xs =
      transform_all-room limit xs (new_limit (some limit)) (ap some (omega arith))

  -- A transform without a limit pushes every message.
  transform_all-unlimited :
      (xs : List M) (t : MessageLimit M)
      → t.message_limit ≡ none
      → ((transform_all t xs).pushed ≡ t.pushed ++ xs)
        × ((transform_all t xs).over_limit ≡ t.over_limit)
  unfolding transform_all
  transform_all-unlimited [] t h = (sym (append-nil t.pushed), refl)
  transform_all-unlimited (x ∷ xs) t h =
      let e = ap (is_below t.message_count) h in
      let (p, o) = transform_all-unlimited xs (transform t x) (rw (transform, e) h) in
      (p ∙ (rw (transform, e) (append_assoc t.pushed (x ∷ []) xs)), o ∙ (rw (transform, e) refl))
