-- ===== src/Worker/Measure.antt =====
-- What the rows of a rollup table hold together, under the keys that a test selects: their counts
-- and their volumes.
use analytics_pipeline.Prelude.{
  ℕ, ◌+◌, Bool, List, [], ◌∷◌, none, some, update, if◌then◌else◌, ◌≡◌, refl, ap, arith, if_pos,
  if_neg,
}
use analytics_pipeline.Records.{
  RawEvent, RollupKey, RollupKey_discrete, RollupRow, RollupGranularity, minute, hour, day,
}
use analytics_pipeline.Rollup.Buckets.{rollup_key}
use analytics_pipeline.Rollup.Accum.{BucketAccum, add, row_of}
use analytics_pipeline.Rollup.Aggregate.{
  AggMap, AggMaps, no_deltas, or_new, accumulate, aggregate_event, aggregate_from, aggregate_batch,
  agg_of,
}
use analytics_pipeline.Rollup.Aggregate.Laws.{agg_of-aggregate_event}
use analytics_pipeline.Worker.Weigh.{weight}
use analytics_pipeline.Rollup.Table.{RollupTable, on_conflict, upsert_rows}

pub data Measure : Type 0 where
  number : Measure
  amount : Measure

-- the column of a row
unfoldable pub column : Measure → RollupRow → ℕ
column number row = row.count
column amount row = row.amount_sum_cents

-- what one event adds to it
unfoldable pub part_of : Measure → RawEvent → ℕ
part_of number e = 1
part_of amount e = e.amount_cents

module _ (m : Measure) (q : RollupKey → Bool) where
  -- the column's sum over the rows
  unfoldable pub held_by : RollupTable → ℕ
  held_by [] = 0
  held_by ((k, row) ∷ t) = (if q k then column m row else 0) + held_by t

  unfoldable pub pending : AggMap → ℕ
  pending [] = 0
  pending ((k, acc) ∷ agg) = (if q k then column m (row_of acc) else 0) + pending agg

  -- one event's part, if its key is selected
  unfoldable pub share : RollupGranularity → RawEvent → ℕ
  share g e = if q (rollup_key g e) then part_of m e else 0

column-on_conflict :
    (m : Measure) (row old : RollupRow)
    → column m (on_conflict row (some old)) ≡ column m old + column m row
unfolding column on_conflict
column-on_conflict number row old = refl
column-on_conflict amount row old = refl

column-on_conflict-none :
    (m : Measure) (row : RollupRow) → column m (on_conflict row none) ≡ column m row
unfolding on_conflict
column-on_conflict-none m row = refl

column-add :
    (m : Measure) (acc : BucketAccum) (e : RawEvent)
    → column m (row_of (add acc e.amount_cents)) ≡ column m (row_of acc) + part_of m e
unfolding column row_of add part_of
column-add number acc e = ground arith
column-add amount acc e = ground arith

column-new :
    (m : Measure) (e : RawEvent)
    → column m (row_of (add (or_new none) e.amount_cents)) ≡ part_of m e
unfolding column row_of add part_of or_new
column-new number e = ground arith
column-new amount e = ground arith

column-add-or_new :
    (m : Measure) (acc : BucketAccum) (e : RawEvent)
    → column m (row_of (add (or_new (some acc)) e.amount_cents))
      ≡ column m (row_of acc) + part_of m e
unfolding or_new
column-add-or_new m acc e = column-add m acc e

module _ (m : Measure) (q : RollupKey → Bool) where
  held_by-update :
      (key : RollupKey) (row : RollupRow) (t : RollupTable)
      → held_by m q (update RollupKey_discrete key (on_conflict row) t)
        ≡ held_by m q t + (if q key then column m row else 0)
  unfolding update held_by
  held_by-update key row [] = ground (arith, column-on_conflict-none m row)
  held_by-update key row ((j, old) ∷ t) = elim (RollupKey_discrete j key) [
    | yes p ↦
        rw (if_pos (RollupKey_discrete j key) p, p)
          (unfold held_by in ground (arith, column-on_conflict m row old))
    | no p ↦
        rw (if_neg (RollupKey_discrete j key) p)
          (unfold held_by in ground (arith, held_by-update key row t))
  ]

  -- the deltas of an INSERT are added
  pub held_by-upsert_rows :
      (agg : AggMap) (t : RollupTable)
      → held_by m q (upsert_rows agg t) ≡ held_by m q t + pending m q agg
  unfolding upsert_rows pending
  held_by-upsert_rows [] t = omega arith
  held_by-upsert_rows ((j, acc) ∷ agg) t = ground (
    arith,
    held_by-upsert_rows agg (update RollupKey_discrete j (on_conflict (row_of acc)) t),
    held_by-update j (row_of acc) t,
  )

  pending-accumulate :
      (key : RollupKey) (e : RawEvent) (agg : AggMap)
      → pending m q (accumulate key e.amount_cents agg)
        ≡ pending m q agg + (if q key then part_of m e else 0)
  unfolding accumulate update pending
  pending-accumulate key e [] = ground (arith, column-new m e)
  pending-accumulate key e ((j, acc) ∷ agg) = elim (RollupKey_discrete j key) [
    | yes p ↦
        rw (if_pos (RollupKey_discrete j key) p, p)
          (unfold pending in ground (arith, column-add-or_new m acc e))
    | no p ↦
        rw (if_neg (RollupKey_discrete j key) p)
          (unfold pending in ground (arith, pending-accumulate key e agg))
  ]

  pending-aggregate_from :
      (g : RollupGranularity) (maps : AggMaps) (es : List RawEvent)
      → pending m q (agg_of g (aggregate_from maps es))
        ≡ pending m q (agg_of g maps) + weight (share m q g) es
  unfolding aggregate_from weight share
  pending-aggregate_from g maps [] = omega arith
  pending-aggregate_from g maps (e ∷ es) = ground (
    arith,
    pending-aggregate_from g (aggregate_event maps e) es,
    ap (pending m q) (agg_of-aggregate_event g maps e),
    pending-accumulate (rollup_key g e) e (agg_of g maps),
  )

  -- the deltas of a batch hold what its events add
  pub pending-aggregate_batch :
      (g : RollupGranularity) (es : List RawEvent)
      → pending m q (agg_of g (aggregate_batch es)) ≡ weight (share m q g) es
  unfolding aggregate_batch agg_of pending
  pending-aggregate_batch minute es = ground (arith, pending-aggregate_from minute no_deltas es)
  pending-aggregate_batch hour es = ground (arith, pending-aggregate_from hour no_deltas es)
  pending-aggregate_batch day es = ground (arith, pending-aggregate_from day no_deltas es)
