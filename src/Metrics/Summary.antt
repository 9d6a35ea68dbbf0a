-- ===== src/Metrics/Summary.antt =====
-- packages/core/src/shared/MessageMetricsSummary.ts: the metrics of each type of system message.
use logstore_node.Base.{
  ℕ, ◌≡◌, refl, sym, ap, ◌∙◌, Option, none, some, List, [], ◌∷◌, if◌then◌else◌, Text, text_eq,
  nat_eq, ◌===◌, map, Option-cases, Bool-cases, inl, inr,
}
use logstore_node.Base.Collections.{get, put, get-put}
use logstore_node.Metrics
use logstore_node.Metrics.{MessageMetrics, new_metrics}

-- A subject: the number of a type of messages, and its name.
pub record Subject : Type 0 where
  pub type_ : ℕ
  pub subject : Text

-- A system message as it is read for the metrics.
pub record Measured : Type 0 where
  pub message_type : ℕ
  pub publisher_id : Text
  pub seq_num : ℕ
  pub bytes : ℕ

unfoldable pub set_all : List (ℕ × MessageMetrics) → List Subject → List (ℕ × MessageMetrics)
set_all m [] = m
set_all m (s ∷ ss) = set_all (put m s.type_ new_metrics) ss

unfoldable pub new_summary : List Subject → List (ℕ × MessageMetrics)
unfolding set_all
new_summary subjects = set_all [] subjects

unfoldable pub update : List (ℕ × MessageMetrics) → Measured → List (ℕ × MessageMetrics)
update summary m = elim (get summary m.message_type) [
  | none ↦ summary
  | some metrics ↦
      put summary m.message_type (Metrics.update metrics m.publisher_id m.seq_num m.bytes)
]

unfoldable pub update_all : List (ℕ × MessageMetrics) → List Measured → List (ℕ × MessageMetrics)
unfolding update
update_all summary [] = summary
update_all summary (m ∷ ms) = update_all (update summary m) ms

-- `get summary`: the metrics of the subjects, in their order.
unfoldable pub summary : List (ℕ × MessageMetrics) → List Subject → List (Option MessageMetrics)
summary m subjects = map (λ (s : Subject). get m s.type_) subjects

-- The messages of one type, one after the other.
abbrev pub only : ℕ → Option MessageMetrics → List Measured → Option MessageMetrics
only type_ known [] = known
only type_ known (m ∷ ms) =
    only type_
      (if m.message_type === type_
        then (elim known [
          | none ↦ none
          | some metrics ↦ some (Metrics.update metrics m.publisher_id m.seq_num m.bytes)
        ])
        else known)
      ms

update-only :
    (known : List (ℕ × MessageMetrics)) (m : Measured) (type_ : ℕ)
    → get (update known m) type_ ≡ only type_ (get known type_) (m ∷ [])
unfolding update
update-only known m type_ = elim (Option-cases (get known m.message_type)) [
  | inl absent ↦ elim (Bool-cases (m.message_type === type_)) [
    | inl eq ↦
        let here : get known type_ ≡ none =
          ap (get known) (sym ((nat_eq.beq_iff m.message_type type_).0 eq)) ∙ absent in
        rw (update, absent) (rw (eq) (rw (here) refl))
    | inr ne ↦ rw (update, absent) (rw (ne) refl)
  ]
  | inr (metrics, there) ↦
      let next = Metrics.update metrics m.publisher_id m.seq_num m.bytes in
      rw (update, there)
        (get-put known m.message_type next type_ ∙ elim (Bool-cases (m.message_type === type_)) [
          | inl eq ↦
              let here : get known type_ ≡ some metrics =
                ap (get known) (sym ((nat_eq.beq_iff m.message_type type_).0 eq)) ∙ there in
              rw (eq) (rw (here) refl)
          | inr ne ↦ rw (ne) refl
        ])
]

-- After any messages the metrics of a type are those that its own messages alone give, whichever
-- other messages came between them; a type that is no subject has none.
pub update_all-only :
    (known : List (ℕ × MessageMetrics)) (ms : List Measured) (type_ : ℕ)
    → get (update_all known ms) type_ ≡ only type_ (get known type_) ms
unfolding update_all
update_all-only known [] type_ = refl
update_all-only known (m ∷ ms) type_ =
    update_all-only (update known m) ms type_
    ∙ ap (λ o. only type_ o ms) (update-only known m type_)
