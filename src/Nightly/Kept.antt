-- ===== src/Nightly/Kept.antt =====
-- What the worker keeps: every row of rollup_day is its hours of rollup_hour, added up.
use analytics_pipeline.Prelude.{
  ℕ, true, List, [], ◌∷◌, Option, none, some, update, All, ite, if_pos, if_neg, ◌≡◌, refl, sym, ap,
  ◌∙◌, arith,
}
use analytics_pipeline.Records.{RawEvent, RollupKey, RollupKey_discrete, RollupRow, day, hour}
use analytics_pipeline.Rollup.Buckets.{day_bucket, rollup_key, bucket_of}
use analytics_pipeline.Rollup.Accum.{BucketAccum, add, row_of}
use analytics_pipeline.Rollup.Summary.{
  summarise, combine, combine-none, combine_assoc, combine_comm,
}
use analytics_pipeline.Rollup.Aggregate.{
  AggMap, AggMaps, no_deltas, or_new, accumulate, aggregate_event, aggregate_from, aggregate_batch,
  agg_of,
}
use analytics_pipeline.Rollup.Aggregate.Laws.{
  amounts_at, summarise-amounts_at, agg_of-aggregate_event, add-combine, add-IsStarted,
}
use analytics_pipeline.Rollup.Table.{RollupTable, on_conflict, upsert_rows}
use analytics_pipeline.Rollup.Table.Laws.{on_conflict-combine}
use analytics_pipeline.Nightly.Compaction.{day_key}
use analytics_pipeline.Nightly.DaySum.{of_day, day_sum, swap_last}

of_day-on_conflict :
    (k j : RollupKey) (row old : RollupRow)
    → of_day k j (on_conflict row (some old)) ≡ combine (of_day k j old) (of_day k j row)
unfolding of_day
of_day-on_conflict k j row old = elim (RollupKey_discrete (day_key j) k) [
  | yes p ↦ rw (if_pos _ p, if_pos _ p, if_pos _ p) (on_conflict-combine row (some old))
  | no p ↦ rw (if_neg _ p, if_neg _ p, if_neg _ p) (unfold combine in refl)
]

-- a write to one hour adds to its day
day_sum-update :
    (k key : RollupKey) (row : RollupRow) (t : RollupTable)
    → day_sum k (update RollupKey_discrete key (on_conflict row) t)
      ≡ combine (day_sum k t) (of_day k key row)
unfolding update day_sum
day_sum-update k key row [] = unfold on_conflict in combine_comm (of_day k key row) none
day_sum-update k key row ((j, old) ∷ t) = elim (RollupKey_discrete j key) [
  | yes p ↦
      ap (day_sum k) (if_pos (RollupKey_discrete j key) p _ _)
      ∙ ap (λ o. combine o (day_sum k t)) (of_day-on_conflict k j row old)
      ∙ swap_last (of_day k j old) (of_day k j row) (day_sum k t)
      ∙ ap (λ q. combine (combine (of_day k j old) (day_sum k t)) (of_day k q row)) p
  | no p ↦
      ap (day_sum k) (if_neg (RollupKey_discrete j key) p _ _)
      ∙ ap (combine (of_day k j old)) (day_sum-update k key row t)
      ∙ sym (combine_assoc (of_day k j old) (day_sum k t) (of_day k key row))
]

-- the deltas of a day's key, merged
pub agg_sum : RollupKey → AggMap → Option RollupRow
agg_sum k [] = none
agg_sum k ((j, acc) ∷ agg) = combine (of_day k j (row_of acc)) (agg_sum k agg)

pub day_sum-upsert_rows :
    (k : RollupKey) (agg : AggMap) (t : RollupTable)
    → day_sum k (upsert_rows agg t) ≡ combine (day_sum k t) (agg_sum k agg)
unfolding upsert_rows agg_sum
day_sum-upsert_rows k [] t = sym (combine-none (day_sum k t))
day_sum-upsert_rows k ((j, acc) ∷ agg) t =
    day_sum-upsert_rows k agg (update RollupKey_discrete j (on_conflict (row_of acc)) t)
    ∙ ap (λ o. combine o (agg_sum k agg)) (day_sum-update k j (row_of acc) t)
    ∙ combine_assoc (day_sum k t) (of_day k j (row_of acc)) (agg_sum k agg)

abbrev AllBegun : AggMap → Type 0
AllBegun = All (λ d. d.1.initialised ≡ true)

of_day-add :
    (k j : RollupKey) (acc : BucketAccum) (x : ℕ)
    → acc.initialised ≡ true
    → of_day k j (row_of (add acc x))
      ≡ combine
          (of_day k j (row_of acc))
          (ite (RollupKey_discrete (day_key j) k) (summarise (x ∷ [])) none)
unfolding of_day
of_day-add k j acc x h = elim (RollupKey_discrete (day_key j) k) [
  | yes p ↦ rw (if_pos _ p, if_pos _ p, if_pos _ p) (unfold or_new in add-combine (some acc) x h)
  | no p ↦ rw (if_neg _ p, if_neg _ p, if_neg _ p) (unfold combine in refl)
]

-- one amount, if its key belongs to the day's key
single : RollupKey → RollupKey → ℕ → Option RollupRow
single k key x = ite (RollupKey_discrete key k) (summarise (x ∷ [])) none

agg_sum-accumulate :
    (k key : RollupKey) (x : ℕ) (agg : AggMap)
    → AllBegun agg
    → agg_sum k (accumulate key x agg) ≡ combine (agg_sum k agg) (single k (day_key key) x)
unfolding accumulate update agg_sum single or_new
agg_sum-accumulate k key x [] h = unfold of_day row_of add summarise combine in ground arith
agg_sum-accumulate k key x ((j, acc) ∷ agg) h = elim (RollupKey_discrete j key) [
  | yes p ↦
      ap (agg_sum k) (if_pos (RollupKey_discrete j key) p _ _)
      ∙ ap (λ o. combine o (agg_sum k agg)) (of_day-add k j acc x h.0)
      ∙ swap_last (of_day k j (row_of acc)) _ (agg_sum k agg)
      ∙ ap
          (λ q.
            combine (combine (of_day k j (row_of acc)) (agg_sum k agg))
              (ite (RollupKey_discrete (day_key q) k) (summarise (x ∷ [])) none))
          p
  | no p ↦
      ap (agg_sum k) (if_neg (RollupKey_discrete j key) p _ _)
      ∙ ap (combine (of_day k j (row_of acc))) (agg_sum-accumulate k key x agg h.1)
      ∙ sym (combine_assoc (of_day k j (row_of acc)) (agg_sum k agg) _)
]

accumulate-AllBegun :
    (key : RollupKey) (x : ℕ) (agg : AggMap) → AllBegun agg → AllBegun (accumulate key x agg)
unfolding accumulate update
accumulate-AllBegun key x [] h = (unfold or_new in add-IsStarted (or_new none) x, tt)
accumulate-AllBegun key x ((j, acc) ∷ agg) h = elim (RollupKey_discrete j key) [
  | yes p ↦ rw (if_pos _ p) (unfold or_new in add-IsStarted acc x, h.1)
  | no p ↦ rw (if_neg _ p) (h.0, accumulate-AllBegun key x agg h.1)
]

-- the day of an event's hour is the event's day
day_key-rollup_key : (e : RawEvent) → day_key (rollup_key hour e) ≡ rollup_key day e
unfolding day_key rollup_key bucket_of day_bucket
day_key-rollup_key e = refl

agg_sum-aggregate_from :
    (k : RollupKey) (m : AggMaps) (es : List RawEvent)
    → AllBegun (agg_of hour m)
    → agg_sum k (agg_of hour (aggregate_from m es))
      ≡ combine (agg_sum k (agg_of hour m)) (summarise (amounts_at day k es))
unfolding aggregate_from
agg_sum-aggregate_from k m [] h =
    sym (unfold amounts_at summarise in combine-none (agg_sum k (agg_of hour m)))
agg_sum-aggregate_from k m (e ∷ es) h =
    let key = rollup_key hour e in
    let x = e.amount_cents in
    agg_sum-aggregate_from k (aggregate_event m e) es
      (rw (agg_of-aggregate_event hour m e) (accumulate-AllBegun key x (agg_of hour m) h))
    ∙ rw
        (
          agg_of-aggregate_event hour m e,
          agg_sum-accumulate k key x (agg_of hour m) h,
          day_key-rollup_key e,
          combine_assoc,
        )
        (ap (combine (agg_sum k (agg_of hour m)))
          (unfold single in summarise-amounts_at day k e es))

-- the hours of a batch add up to its days
pub agg_sum-aggregate_batch :
    (k : RollupKey) (es : List RawEvent)
    → agg_sum k (agg_of hour (aggregate_batch es)) ≡ summarise (amounts_at day k es)
unfolding aggregate_batch agg_of agg_sum combine
agg_sum-aggregate_batch k es = agg_sum-aggregate_from k no_deltas es tt
