-- ===== src/Http/Responses.antt =====
-- http/dataTransformers.ts: `ResponseTransform` and `StreamResponseTransform`, which write the
-- messages of an answer in a format (http/DataQueryFormat.ts).
use logstore_node.Base.{
  ℕ, ◌+◌, ◌≡◌, refl, sym, ◌∙◌, ap, Bool, true, false, Option, none, some, List, [], ◌∷◌, ◌++◌, map,
  length, if◌then◌else◌, Text, append_assoc, append-nil, arith, suc,
}

-- The metadata of an answer, as a footer sees it.
pub record Metadata : Type 0 where
  pub has_next : Bool
  pub next_timestamp : Option ℕ
  pub next_sequence_number : Option ℕ

-- A footer is absent, a string, or a function of the metadata and the number of messages, which a
-- stream does not give.
pub data Footer : Type 0 where
  no_footer : Footer
  constant : Text → Footer
  computed : (Metadata → Option ℕ → List Text) → Footer

pub record Format {ℓ} (M : Type ℓ) : Type ℓ where
  pub header : Option Text
  pub delimiter : Option Text
  pub footer : Footer
  pub format_message : M → Text

-- `if (x !== undefined) this.push(x)`
abbrev pub push_defined : Option Text → List Text
push_defined none = []
push_defined (some x) = x ∷ []

abbrev pub final_chunk : Footer → Metadata → Option ℕ → List Text
final_chunk no_footer metadata total = []
final_chunk (constant text) metadata total = text ∷ []
final_chunk (computed f) metadata total = f metadata total

pub record ResponseTransform {ℓ} (M : Type ℓ) : Type ℓ where
  pub format : Format M
  pub first_message : Bool
  pub total_messages : ℕ
  pub metadata : Metadata
  pub pushed : List Text

module _ {ℓ} {M : Type ℓ} where
  unfoldable pub new_response : Format M → ResponseTransform M
  new_response format = record {
    format = format;
    first_message = true;
    total_messages = 0;
    metadata = record { has_next = false; next_timestamp = none; next_sequence_number = none };
    pushed = [];
  }

  unfoldable pub transform : ResponseTransform M → M → ResponseTransform M
  transform t input = record t {
    first_message = false;
    total_messages = t.total_messages + 1;
    pushed =
        t.pushed
        ++ ((if t.first_message
              then push_defined t.format.header
              else push_defined t.format.delimiter)
            ++ t.format.format_message input ∷ []);
  }

  unfoldable pub set_metadata : ResponseTransform M → Metadata → ResponseTransform M
  set_metadata t metadata = record t { metadata = metadata }

  unfoldable pub update_metadata : ResponseTransform M → (Metadata → Metadata) → ResponseTransform M
  update_metadata t update = record t { metadata = update t.metadata }

  unfoldable pub flush : ResponseTransform M → ResponseTransform M
  flush t = record t {
    pushed =
        t.pushed
        ++ ((if t.first_message then push_defined t.format.header else [])
            ++ final_chunk t.format.footer t.metadata (some t.total_messages));
  }

  unfoldable pub transform_all : ResponseTransform M → List M → ResponseTransform M
  unfolding transform
  transform_all t [] = t
  transform_all t (x ∷ xs) = transform_all (transform t x) xs

  -- The formatted messages with the delimiter between them.
  unfoldable pub joined : Format M → List M → List Text
  joined f [] = []
  joined f (x ∷ []) = f.format_message x ∷ []
  joined f (x ∷ y ∷ xs) = f.format_message x ∷ (push_defined f.delimiter ++ joined f (y ∷ xs))

  -- The same, with a delimiter before each.
  preceded : Format M → List M → List Text
  preceded f [] = []
  preceded f (x ∷ xs) = (push_defined f.delimiter ++ f.format_message x ∷ []) ++ preceded f xs

  joined-preceded :
      (f : Format M) (x : M) (xs : List M) → joined f (x ∷ xs) ≡ f.format_message x ∷ preceded f xs
  unfolding joined preceded
  joined-preceded f x [] = refl
  joined-preceded f x (y ∷ xs) =
      ap (λ ys. f.format_message x ∷ (push_defined f.delimiter ++ ys)) (joined-preceded f y xs)
      ∙ ap (◌∷◌ (f.format_message x))
          (sym (append_assoc (push_defined f.delimiter) (f.format_message y ∷ []) (preceded f xs)))

  -- A transform that has begun.
  abbrev begun : Format M → Metadata → ℕ → List Text → ResponseTransform M
  begun f metadata total pushed = record {
    format = f;
    first_message = false;
    total_messages = total;
    metadata = metadata;
    pushed = pushed;
  }

  transform_all-begun :
      (f : Format M) (d : Metadata) (n : ℕ) (p : List Text) (xs : List M)
      → transform_all (begun f d n p) xs ≡ begun f d (n + length xs) (p ++ preceded f xs)
  unfolding transform_all transform preceded
  transform_all-begun f d n p [] =
      ap (λ k. begun f d k p) (omega arith) ∙ ap (begun f d (n + 0)) (sym (append-nil p))
  transform_all-begun f d n p (x ∷ xs) =
      let step = push_defined f.delimiter ++ f.format_message x ∷ [] in
      transform_all-begun f d (n + 1) (p ++ step) xs
      ∙ ap (λ k. begun f d k ((p ++ step) ++ preceded f xs)) (omega arith)
      ∙ ap (begun f d (n + suc (length xs))) (append_assoc p step (preceded f xs))

  -- A whole answer is the header, the formatted messages with the delimiter between them, and the
  -- footer with the given metadata and the number of the messages, also when there are none.
  pub flush-response :
      (f : Format M) (d : Metadata) (xs : List M)
      → (flush (transform_all (set_metadata (new_response f) d) xs)).pushed
        ≡ push_defined f.header ++ (joined f xs ++ final_chunk f.footer d (some (length xs)))
  unfolding flush transform_all transform set_metadata new_response joined
  flush-response f d [] = refl
  flush-response f d (x ∷ xs) =
      let begin = push_defined f.header ++ f.format_message x ∷ [] in
      let end = final_chunk f.footer d (some (length (x ∷ xs))) in
      let count : 0 + 1 + length xs ≡ suc (length xs) = omega arith in
      ap (λ t. (flush t).pushed) (transform_all-begun f d (0 + 1) begin xs)
      ∙ ap (λ k. (begin ++ preceded f xs) ++ final_chunk f.footer d (some k)) count
      ∙ append_assoc begin (preceded f xs) end
      ∙ append_assoc (push_defined f.header) (f.format_message x ∷ []) (preceded f xs ++ end)
      ∙ ap (λ ys. push_defined f.header ++ (ys ++ end)) (sym (joined-preceded f x xs))

-- `StreamResponseTransform`: a message is pushed as it is formatted, and the footer at the end is
-- told that the answer is a stream. A footer that is absent is pushed as `undefined`.
pub record StreamResponse {ℓ} (M : Type ℓ) : Type ℓ where
  pub format : Format M
  pub metadata : Metadata
  pub pushed : List (Option Text)

abbrev pub stream_final_chunk : Footer → Metadata → List (Option Text)
stream_final_chunk no_footer metadata = none ∷ []
stream_final_chunk (constant text) metadata = some text ∷ []
stream_final_chunk (computed f) metadata = map some (f metadata none)

module _ {ℓ} {M : Type ℓ} where
  unfoldable pub stream_transform : StreamResponse M → M → StreamResponse M
  stream_transform t input = record t {
    pushed = t.pushed ++ some (t.format.format_message input) ∷ [];
  }

  unfoldable pub stream_flush : StreamResponse M → StreamResponse M
  stream_flush t = record t { pushed = t.pushed ++ stream_final_chunk t.format.footer t.metadata }

  unfoldable pub stream_all : StreamResponse M → List M → StreamResponse M
  unfolding stream_transform
  stream_all t [] = t
  stream_all t (x ∷ xs) = stream_all (stream_transform t x) xs

  -- A streamed answer is the formatted messages in order, without a header or a delimiter, and then
  -- the final chunk.
  pub stream_flush-stream_all :
      (t : StreamResponse M) (xs : List M)
      → (stream_flush (stream_all t xs)).pushed
        ≡ t.pushed
          ++ (map (λ x. some (t.format.format_message x)) xs
              ++ stream_final_chunk t.format.footer t.metadata)
  unfolding stream_flush stream_all stream_transform
  stream_flush-stream_all t [] = refl
  stream_flush-stream_all t (x ∷ xs) =
      stream_flush-stream_all (stream_transform t x) xs
      ∙ append_assoc t.pushed (some (t.format.format_message x) ∷ []) (
          map (λ y. some (t.format.format_message y)) xs
          ++ stream_final_chunk t.format.footer t.metadata)
