-- ===== src/Rollup/Table/Laws.antt =====
-- A batch of deltas is added to the stored rows, key by key, and never raises on distinct keys.
use analytics_pipeline.Prelude.{
  [], ◌∷◌, Option, none, some, get, update, get-update, HasDistinctKeys, ◌≡◌, refl, true, arith,
}
use analytics_pipeline.Result.{ok}
use analytics_pipeline.Records.{RollupKey, RollupKey_discrete, RollupRow}
use analytics_pipeline.Rollup.Accum.{row_of}
use analytics_pipeline.Rollup.Summary.{combine, combine-none}
use analytics_pipeline.Rollup.Aggregate.{AggMap}
use analytics_pipeline.Rollup.Aggregate.Laws.{row_at}
use analytics_pipeline.Rollup.Table.{
  RollupTable, on_conflict, upsert_rows, has_distinct_keys, batch_upsert,
}

pub on_conflict-combine :
    (row : RollupRow) (o : Option RollupRow) → some (on_conflict row o) ≡ combine o (some row)
unfolding on_conflict combine
on_conflict-combine row none = refl
on_conflict-combine row (some r) = refl

-- The rows after a batch are the rows before it, merged with its deltas.
pub get-upsert_rows :
    (k : RollupKey) (agg : AggMap) (t : RollupTable)
    → HasDistinctKeys RollupKey_discrete agg
    → get RollupKey_discrete k (upsert_rows agg t)
      ≡ combine (get RollupKey_discrete k t) (row_at k agg)
unfolding upsert_rows row_at get
get-upsert_rows k [] t h = ground (arith, combine-none (get RollupKey_discrete k t))
get-upsert_rows k ((key, acc) ∷ agg) t h = ground (
  arith,
  get-upsert_rows k agg (update RollupKey_discrete key (on_conflict (row_of acc)) t) h.1,
  get-update RollupKey_discrete key k (on_conflict (row_of acc)) t,
  on_conflict-combine (row_of acc) (get RollupKey_discrete key t),
  combine-none
      (get RollupKey_discrete k (update RollupKey_discrete key (on_conflict (row_of acc)) t)),
)

has_distinct_keys_of :
    (agg : AggMap) → HasDistinctKeys RollupKey_discrete agg → has_distinct_keys agg ≡ true
unfolding has_distinct_keys
has_distinct_keys_of [] h = refl
has_distinct_keys_of ((key, acc) ∷ agg) h = ground (arith, has_distinct_keys_of agg h.1)

-- The statement runs whenever the keys of the deltas are distinct.
pub batch_upsert-ok :
    (agg : AggMap) (t : RollupTable)
    → HasDistinctKeys RollupKey_discrete agg
    → batch_upsert agg t ≡ ok (upsert_rows agg t)
unfolding batch_upsert upsert_rows
batch_upsert-ok [] t h = refl
batch_upsert-ok (d ∷ agg) t h = ground (arith, has_distinct_keys_of (d ∷ agg) h)

-- One statement adds a whole map of deltas: if its keys are distinct it does not raise, and every
-- row becomes what it was, merged with its delta, a row without a delta staying as it was.
pub batch_upsert_lem :
    (agg : AggMap) (t : RollupTable)
    → HasDistinctKeys RollupKey_discrete agg
    → (t' : RollupTable) × (batch_upsert agg t ≡ ok t')
      × ((k : RollupKey)
          → get RollupKey_discrete k t' ≡ combine (get RollupKey_discrete k t) (row_at k agg))
batch_upsert_lem agg t h =
    (upsert_rows agg t, batch_upsert-ok agg t h, λ k. get-upsert_rows k agg t h)
