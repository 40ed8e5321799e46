-- ===== src/Worker/Markers/Laws.antt =====
-- The marker insert returns exactly the ids that had no marker, and adds exactly their markers.
use analytics_pipeline.Prelude.{
  ℕ, String, Bool, false, not, List, [], ◌∷◌, ◌++◌, ite, ℕ_discrete, Bool-cases, inl, inr, contains,
  contains-append, IsDistinct, filter, filter_congr, ◌≡◌, refl, sym, ◌∙◌, arith, map,
}
use mathlib.Core.List.{append-nil, append_assoc}
use analytics_pipeline.Worker.Markers.{Marker_discrete, insert_processed_markers}

-- no marker of this consumer for the id
unfoldable pub unmarked : List (String × ℕ) → String → ℕ → Bool
unmarked table c id = not (contains Marker_discrete (c, id) table)

unmarked-append :
    (table : List (String × ℕ)) (c : String) (id x : ℕ)
    → unmarked (table ++ (c, id) ∷ []) c x ≡ ite (ℕ_discrete id x) false (unmarked table c x)
unfolding unmarked contains
unmarked-append table c id x =
    ground (arith, contains-append Marker_discrete (c, x) table ((c, id) ∷ []))

unmarked-def :
    (table : List (String × ℕ)) (c : String) (id : ℕ)
    → unmarked table c id ≡ not (contains Marker_discrete (c, id) table)
unfolding unmarked
unmarked-def table c id = refl

-- RETURNING: the ids without a marker, in order, if no id stands twice in the statement
pub new_ids-eq-unmarked :
    (table : List (String × ℕ)) (c : String) (ids : List ℕ)
    → IsDistinct ℕ_discrete ids
    → (insert_processed_markers table c ids).1 ≡ filter (unmarked table c) ids
unfolding insert_processed_markers filter
new_ids-eq-unmarked table c [] h = refl
new_ids-eq-unmarked table c (id ∷ ids) h =
    elim (Bool-cases (contains Marker_discrete (c, id) table)) [
      | inl old ↦
          rw old (ground (arith, new_ids-eq-unmarked table c ids h.1, unmarked-def table c id))
      | inr fresh ↦ rw fresh (
          ground (
            arith,
            new_ids-eq-unmarked (table ++ (c, id) ∷ []) c ids h.1,
            filter_congr ℕ_discrete (unmarked (table ++ (c, id) ∷ []) c) (unmarked table c) ids
                (λ x m. ground (arith, unmarked-append table c id x, h.0)),
            unmarked-def table c id,
          ))
    ]

-- the markers of the returned ids are added, and nothing else
pub table-append-new_ids :
    (table : List (String × ℕ)) (c : String) (ids : List ℕ)
    → (insert_processed_markers table c ids).0
      ≡ table ++ map (λ id. (c, id)) (insert_processed_markers table c ids).1
unfolding insert_processed_markers
table-append-new_ids table c [] = sym (append-nil table)
table-append-new_ids table c (id ∷ ids) =
    elim (Bool-cases (contains Marker_discrete (c, id) table)) [
      | inl old ↦ rw old (table-append-new_ids table c ids)
      | inr fresh ↦
          rw fresh (table-append-new_ids (table ++ (c, id) ∷ []) c ids ∙ append_assoc table _ _)
    ]
