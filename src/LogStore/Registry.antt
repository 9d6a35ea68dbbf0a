-- ===== src/LogStore/Registry.antt =====
-- NodeStreamsRegistry.ts: the streams of the node, and the events that tell of them. Each call
-- ends before the next begins; the answer of `getStream` is an argument, none where it fails.
use logstore_node.Base.{
  ◌≡◌, refl, sym, ap, ◌∙◌, Bool, true, false, Option, none, some, List, [], ◌∷◌, ◌++◌, Text, arith,
  if◌then◌else◌, ◌===◌, text_eq, fun_ext, subst, or_default, All, Option-cases, Bool-cases, inl,
  inr, map,
}
use logstore_node.Base.Collections.{get, put, delete_key, has_key, get-put, get-delete_key}

pub data Event (S : Type 0) : Type 0 where
  register_stream : S → Event S
  unregister_stream : S → Event S

-- A call of the registry.
pub data Call (S : Type 0) : Type 0 where
  register_id : Text → Option S → Call S
  unregister_id : Text → Call S

module _ {S : Type 0} where
  unfoldable pub get_registered_streams : List (Text × S) → List S
  get_registered_streams registered = map (λ p. p.1) registered

  unfoldable pub register_stream_id :
      List (Text × S) → Text → Option S → List (Text × S) × List (Event S)
  register_stream_id registered stream_id answer =
      if has_key registered stream_id then (registered, []) else elim answer [
        | none ↦ (registered, [])
        | some stream ↦ (put registered stream_id stream, register_stream stream ∷ [])
      ]

  unfoldable pub unregister_stream_id : List (Text × S) → Text → List (Text × S) × List (Event S)
  unregister_stream_id registered stream_id = elim (get registered stream_id) [
    | none ↦ (registered, [])
    | some stream ↦ (delete_key registered stream_id, unregister_stream stream ∷ [])
  ]

  -- `forEach` over the map that each call removes from.
  unfoldable pub clear_keys : List (Text × S) → List Text → List (Text × S) × List (Event S)
  unfolding unregister_stream_id
  clear_keys registered [] = (registered, [])
  clear_keys registered (id ∷ ids) =
      let (registered', events) = unregister_stream_id registered id in
      let (final, rest) = clear_keys registered' ids in (final, events ++ rest)

  unfoldable pub clear : List (Text × S) → List (Text × S) × List (Event S)
  unfolding clear_keys
  clear registered = clear_keys registered (map (λ p. p.0) registered)

  -- What listeners hold who add a stream at its registration and drop it at the other event.
  abbrev pub follow : (S → Text) → List (Event S) → (Text → Option S) → (Text → Option S)
  follow id_of [] known = known
  follow id_of (register_stream s ∷ es) known =
      follow id_of es (λ q. if id_of s === q then some s else known q)
  follow id_of (unregister_stream s ∷ es) known =
      follow id_of es (λ q. if id_of s === q then none else known q)

  -- The streams are registered under their own ids.
  abbrev pub AreOwn : (S → Text) → List (Text × S) → Type 0
  AreOwn id_of registered = (q : Text) (s : S) → get registered q ≡ some s → (id_of s === q) ≡ true

  abbrev pub call : List (Text × S) → Call S → List (Text × S) × List (Event S)
  call registered (register_id id answer) = register_stream_id registered id answer
  call registered (unregister_id id) = unregister_stream_id registered id

  -- `getStream` answers with a stream of the id that it is asked for.
  abbrev pub Answers : (S → Text) → Call S → Type 0
  Answers id_of (register_id id none) = Unit
  Answers id_of (register_id id (some s)) = (id_of s === id) ≡ true
  Answers id_of (unregister_id id) = Unit

  unfoldable pub calls : List (Text × S) → List (Call S) → List (Text × S) × List (Event S)
  unfolding register_stream_id unregister_stream_id
  calls registered [] = (registered, [])
  calls registered (c ∷ cs) =
      let (registered', events) = call registered c in
      let (final, rest) = calls registered' cs in (final, events ++ rest)

  follow-append :
      (id_of : S → Text) (xs ys : List (Event S)) (known : Text → Option S)
      → follow id_of (xs ++ ys) known ≡ follow id_of ys (follow id_of xs known)
  follow-append id_of [] ys known = refl
  follow-append id_of (register_stream s ∷ xs) ys known = follow-append id_of xs ys _
  follow-append id_of (unregister_stream s ∷ xs) ys known = follow-append id_of xs ys _

  has_key-none : (m : List (Text × S)) (id : Text) → has_key m id ≡ false → get m id ≡ none
  unfolding has_key get
  has_key-none [] id h = refl
  has_key-none ((k, v) ∷ m) id h = ground (arith, has_key-none m id)

  some-injective : {a b : S} → some a ≡ some b → a ≡ b
  some-injective {a} {b} h = ap (λ o. or_default o a) h

  put-AreOwn :
      (id_of : S → Text) (registered : List (Text × S)) (id : Text) (s : S)
      → AreOwn id_of registered
      → (id_of s === id) ≡ true
      → AreOwn id_of (put registered id s)
  put-AreOwn id_of registered id s own h q s' e =
      let chosen = λ (c : Bool). if c then some s else get registered q in
      elim (Bool-cases (id === q)) [
        | inl eq ↦
            subst (λ x. (id_of x === q) ≡ true)
              (some-injective (sym (get-put registered id s q ∙ ap chosen eq) ∙ e))
              (ap (λ i. id_of s === i) (sym ((text_eq.beq_iff id q).0 eq)) ∙ h)
        | inr ne ↦ own q s' (sym (get-put registered id s q ∙ ap chosen ne) ∙ e)
      ]

  delete-AreOwn :
      (id_of : S → Text) (registered : List (Text × S)) (id : Text)
      → AreOwn id_of registered
      → AreOwn id_of (delete_key registered id)
  delete-AreOwn id_of registered id own q s' e =
      let chosen = λ (c : Bool). if c then none else get registered q in
      elim (Bool-cases (id === q)) [
        | inl eq ↦ absurd (ground (arith, sym (get-delete_key registered id q ∙ ap chosen eq) ∙ e))
        | inr ne ↦ own q s' (sym (get-delete_key registered id q ∙ ap chosen ne) ∙ e)
      ]

  followed_put :
      (id_of : S → Text) (registered : List (Text × S)) (id : Text) (s : S)
      → (id_of s === id) ≡ true
      → (q : Text)
      → (if id_of s === q then some s else get registered q) ≡ get (put registered id s) q
  followed_put id_of registered id s h q =
      ap (λ i. if i === q then some s else get registered q) ((text_eq.beq_iff (id_of s) id).0 h)
      ∙ sym (get-put registered id s q)

  followed_delete :
      (id_of : S → Text) (registered : List (Text × S)) (id : Text) (s : S)
      → (id_of s === id) ≡ true
      → (q : Text)
      → (if id_of s === q then none else get registered q) ≡ get (delete_key registered id) q
  followed_delete id_of registered id s h q =
      ap (λ i. if i === q then none else get registered q) ((text_eq.beq_iff (id_of s) id).0 h)
      ∙ sym (get-delete_key registered id q)

  call-follow :
      (id_of : S → Text) (registered : List (Text × S)) (c : Call S)
      → AreOwn id_of registered
      → Answers id_of c
      → AreOwn id_of (call registered c).0
        × (follow id_of (call registered c).1 (get registered) ≡ get (call registered c).0)
  unfolding register_stream_id unregister_stream_id
  call-follow id_of registered (register_id id none) own h =
      elim (Bool-cases (has_key registered id)) [
        | inl there ↦ rw (there) (own, refl)
        | inr new ↦ rw (new) (own, refl)
      ]
  call-follow id_of registered (register_id id (some s)) own h =
      elim (Bool-cases (has_key registered id)) [
        | inl there ↦ rw (there) (own, refl)
        | inr new ↦
            rw (new) (
              put-AreOwn id_of registered id s own h,
              fun_ext (followed_put id_of registered id s h),
            )
      ]
  call-follow id_of registered (unregister_id id) own h = elim (Option-cases (get registered id)) [
    | inl absent ↦ rw (unregister_stream_id, absent) (own, refl)
    | inr (s, there) ↦
        rw (unregister_stream_id, there)
          (
            delete-AreOwn id_of registered id own,
            fun_ext (followed_delete id_of registered id s (own id s there)),
          )
  ]

  -- Who listens to the events, adding a stream at its registration and dropping it when it is
  -- unregistered, knows the registered streams after any calls, provided that the streams before are
  -- under their own ids and that those to come have the ids that they are asked for by.
  pub calls-follow :
      (id_of : S → Text) (registered : List (Text × S)) (cs : List (Call S))
      → AreOwn id_of registered
      → All (Answers id_of) cs
      → follow id_of (calls registered cs).1 (get registered) ≡ get (calls registered cs).0
  unfolding calls
  calls-follow id_of registered [] own h = refl
  calls-follow id_of registered (c ∷ cs) own h =
      let (own', followed) = call-follow id_of registered c own h.0 in
      let registered' = (call registered c).0 in
      follow-append id_of (call registered c).1 (calls registered' cs).1 (get registered)
      ∙ ap (follow id_of (calls registered' cs).1) followed
      ∙ calls-follow id_of registered' cs own' h.1
