-- ===== src/Worker/Markers.antt =====
-- `_insert_processed_markers` of app/workers/rollup_worker.py: INSERT ... ON CONFLICT DO NOTHING
-- RETURNING event_id.
pub mod Laws
use analytics_pipeline.Prelude.{
  ℕ, String, Bool, true, false, List, [], ◌∷◌, ◌++◌, ite, if◌then◌else◌, ℕ_discrete,
  String_discrete, contains, contains-append, IsDistinct, ◌≡◌, refl, arith, map,
}
use analytics_pipeline.Records.{RawEvent}

unfoldable pub Marker_discrete : Discrete (String × ℕ)
unfolding String_discrete ℕ_discrete
Marker_discrete = hlevel (String_discrete, ℕ_discrete)

-- The table afterwards, and the ids of the rows that were inserted.
unfoldable pub insert_processed_markers :
    List (String × ℕ) → String → List ℕ → List (String × ℕ) × List ℕ
insert_processed_markers table consumer_id [] = (table, [])
insert_processed_markers table consumer_id (id ∷ ids) =
    let old = contains Marker_discrete (consumer_id, id) table in
    let table' = if old then table else table ++ (consumer_id, id) ∷ [] in
    let (table'', new_ids) = insert_processed_markers table' consumer_id ids in
    (table'', if old then new_ids else id ∷ new_ids)
