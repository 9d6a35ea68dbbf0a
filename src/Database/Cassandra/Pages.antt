-- ===== src/Database/Cassandra/Pages.antt =====
-- Which buckets a query for a number of messages reads.
use logstore_node.Base.{
  Bool-cases, ℕ, zero, suc, ◌+◌, ◌≤◌, ◌<◌, ◌≡◌, ◌⊎◌, inl, inr, refl, ap, ◌∙◌, Bool, true, false,
  ◌&&◌, not, List, [], ◌∷◌, ◌++◌, arith, ltb, Text, if◌then◌else◌, length, map, take, append_assoc,
  reverse-append,
}
use logstore_node.Database.Cassandra.{collect_buckets, max_resend_last}

-- The messages of some buckets.
abbrev total_of : (Text → ℕ) → List Text → ℕ
total_of counted [] = 0
total_of counted (id ∷ ids) = counted id + total_of counted ids

-- The messages found so far are enough for the limit.
abbrev is_enough : ℕ → ℕ → Bool
is_enough limit total = not (ltb total limit && ltb total max_resend_last)

abbrev single : Text → List Text
single id = id ∷ []

collect_buckets-single :
    (counted : Text → ℕ) (limit total : ℕ) (ids rest : List Text) (id : Text)
    → collect_buckets counted limit total ids (map single (id ∷ rest)) ≡ (
        if is_enough limit (total + counted id)
        then ids ++ id ∷ []
        else collect_buckets counted limit (total + counted id) (ids ++ id ∷ []) (map single rest))
unfolding collect_buckets
collect_buckets-single counted limit total ids rest id =
    rw (collect_buckets, reverse-append ids (id ∷ [])) (ground arith)

-- What the search has collected: it went through some of the ids, at least one, and stopped when the messages of
-- those were enough or the ids were over. It was not enough before.
abbrev pub Collected : (Text → ℕ) → ℕ → ℕ → List Text → ℕ → Type 0
Collected counted limit total ids k =
    (k ≤ length ids)
    × (is_enough limit (total + total_of counted (take k ids)) ≡ true ⊎ k ≡ length ids)
    × ((j : ℕ) → 0 < j → j < k → is_enough limit (total + total_of counted (take j ids)) ≡ false)

-- A search from one id on: the ids it went through follow those before.
abbrev Search : (Text → ℕ) → ℕ → ℕ → List Text → List Text → Type 0
Search counted limit total before ids =
    (k : ℕ) × (0 < k)
    × (collect_buckets counted limit total before (map single ids) ≡ before ++ take k ids)
    × Collected counted limit total ids k

total-shift :
    (counted : Text → ℕ) (limit total : ℕ) (id : Text) (ids : List Text)
    → is_enough limit (total + total_of counted (id ∷ ids))
      ≡ is_enough limit ((total + counted id) + total_of counted ids)
total-shift counted limit total id ids = ap (is_enough limit) (omega arith)

Search-stop :
    (counted : Text → ℕ) (limit total : ℕ) (before ids : List Text) (id : Text)
    → is_enough limit (total + counted id) ≡ true
    → Search counted limit total before (id ∷ ids)
Search-stop counted limit total before ids id stop = (
  1,
  omega arith,
  collect_buckets-single counted limit total before ids id ∙ ground (arith, stop),
  (omega arith, inl (ap (is_enough limit) (omega arith) ∙ stop), λ j a b. absurd (omega arith)),
)

Search-last :
    (counted : Text → ℕ) (limit total : ℕ) (before : List Text) (id : Text)
    → is_enough limit (total + counted id) ≡ false
    → Search counted limit total before (id ∷ [])
unfolding collect_buckets
Search-last counted limit total before id go = (
  1,
  omega arith,
  collect_buckets-single counted limit total before [] id ∙ ground (arith, go),
  (omega arith, inr refl, λ j a b. absurd (omega arith)),
)

Search-step :
    (counted : Text → ℕ) (limit total : ℕ) (before ids : List Text) (id : Text)
    → is_enough limit (total + counted id) ≡ false
    → Search counted limit (total + counted id) (before ++ id ∷ []) ids
    → Search counted limit total before (id ∷ ids)
Search-step counted limit total before ids id go (k, positive, collected, (le, stop, earlier)) = (
  suc k,
  omega arith,
  collect_buckets-single counted limit total before ids id
      ∙ ground (arith, go)
      ∙ collected
      ∙ append_assoc before (id ∷ []) (take k ids),
  (
    omega arith,
    elim stop [
      | inl enough ↦ inl (total-shift counted limit total id (take k ids) ∙ enough)
      | inr over ↦ inr (omega arith)
    ],
    is_early,
  ),
)
  where
    is_early :
        (j : ℕ)
        → 0 < j
        → j < suc k
        → is_enough limit (total + total_of counted (take j (id ∷ ids))) ≡ false
    is_early zero a b = absurd (omega arith)
    is_early (suc zero) a b = ap (is_enough limit) (omega arith) ∙ go
    is_early (suc (suc j)) a b =
        total-shift counted limit total id (take (suc j) ids)
        ∙ earlier (suc j) (omega arith) (omega arith)

collect_buckets-Search :
    (counted : Text → ℕ) (limit total : ℕ) (before : List Text) (id : Text) (ids : List Text)
    → Search counted limit total before (id ∷ ids)
collect_buckets-Search counted limit total before id [] =
    elim (Bool-cases (is_enough limit (total + counted id))) [
      | inl stop ↦ Search-stop counted limit total before [] id stop
      | inr go ↦ Search-last counted limit total before id go
    ]
collect_buckets-Search counted limit total before id (id' ∷ ids) =
    let rest =
      collect_buckets-Search counted limit (total + counted id) (before ++ id ∷ []) id' ids in
    elim (Bool-cases (is_enough limit (total + counted id))) [
      | inl stop ↦ Search-stop counted limit total before (id' ∷ ids) id stop
      | inr go ↦ Search-step counted limit total before (id' ∷ ids) id go rest
    ]

-- A query for a number of messages, with one bucket on a page: of the buckets in the order of the
-- table it reads the shortest part that is not empty and whose messages are enough, or all of them
-- when no such part has enough. Where there is a bucket at all, at least one is read, also for a
-- limit of zero.
pub collect_buckets-Collected :
    (counted : Text → ℕ) (limit : ℕ) (ids : List Text)
    → (k : ℕ) × (collect_buckets counted limit 0 [] (map single ids) ≡ take k ids)
      × ((0 < k) ⊎ (ids ≡ []))
      × Collected counted limit 0 ids k
unfolding collect_buckets
collect_buckets-Collected counted limit [] =
    (0, refl, inr refl, (omega arith, inr refl, λ j a b. absurd (omega arith)))
collect_buckets-Collected counted limit (id ∷ ids) =
    let (k, positive, collected, all) = collect_buckets-Search counted limit 0 [] id ids in
    (k, collected, inl positive, all)
