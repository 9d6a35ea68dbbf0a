-- ===== src/Database/Cassandra/Connection.antt =====
-- `start` of database/CassandraDBAdapter.ts: the trials to connect.
use logstore_node.Base.{
  ℕ, zero, suc, ◌+◌, ◌<◌, ◌≡◌, ◌⊎◌, inl, inr, refl, ap, ◌∙◌, Option, none, some, Bool, true, false,
  if◌then◌else◌, Bool-cases, arith,
}

-- The connection: what each attempt does. It returns the number of failed attempts before the one
-- that connects; `none` is the error after the last trial.
abbrev pub nb_trials : ℕ
nb_trials = 20

unfoldable pub connect : ℕ → (ℕ → Bool) → ℕ → Option ℕ
connect zero connects failed = none
connect (suc retry_count) connects failed =
    let rest = connect retry_count connects (failed + 1) in
    if connects failed then some failed else rest

unfoldable pub start : (ℕ → Bool) → Option ℕ
unfolding connect
start connects = connect nb_trials connects 0

-- The attempts of a start: the first that connects, or that none of them does.
abbrev pub Attempts : ℕ → (ℕ → Bool) → ℕ → Option ℕ → Type 0
Attempts fuel connects failed result =
    ((i : ℕ) × (i < fuel)
      × (result ≡ some (failed + i))
      × (connects (failed + i) ≡ true)
      × ((j : ℕ) → j < i → connects (failed + j) ≡ false))
    ⊎ ((result ≡ none) × ((j : ℕ) → j < fuel → connects (failed + j) ≡ false))

connect-Attempts :
    (fuel : ℕ) (connects : ℕ → Bool) (failed : ℕ)
    → Attempts fuel connects failed (connect fuel connects failed)
unfolding connect
connect-Attempts zero connects failed = inr (refl, λ j a. absurd (omega arith))
connect-Attempts (suc n) connects failed =
    let rest = connect-Attempts n connects (failed + 1) in
    elim (Bool-cases (connects failed)) [
      | inl up ↦ inl (
        0,
        omega arith,
        ground (arith, up),
        ap connects (omega arith) ∙ up,
        λ j a. absurd (omega arith),
      )
      | inr down ↦ elim rest [
        | inl (i, le, found, up, before) ↦ inl (
          suc i,
          omega arith,
          ground (arith, down, found),
          ap connects (omega arith) ∙ up,
          first n down i before,
        )
        | inr (failed', never) ↦ inr (ground (arith, down, failed'), first n down n never)
      ]
    ]
  where
    first :
        (m : ℕ)
        → connects failed ≡ false
        → (i : ℕ) → ((j : ℕ) → j < i → connects (failed + 1 + j) ≡ false)
        → (j : ℕ) → j < suc i
        → connects (failed + j) ≡ false
    first m down i h zero a = ap connects (omega arith) ∙ down
    first m down i h (suc j) a = ap connects (omega arith) ∙ h j (omega arith)

-- The start of the adapter ends for every database: with the first attempt that connects when it is
-- one of the first twenty, and otherwise with the error.
pub start-Attempts : (connects : ℕ → Bool) → Attempts nb_trials connects 0 (start connects)
unfolding start
start-Attempts connects = connect-Attempts nb_trials connects 0
