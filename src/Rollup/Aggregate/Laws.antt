-- ===== src/Rollup/Aggregate/Laws.antt =====
-- The delta maps of a batch hold, at every key, the summary of the batch's amounts at that key.
use analytics_pipeline.Prelude.{
  ℕ, List, [], ◌∷◌, ◌++◌, Option, none, some, get, get-update, update-HasDistinctKeys,
  HasDistinctKeys, ◌≡◌, refl, sym, ap, ◌∙◌, ite, if_pos, if_neg, true, arith,
}
use mathlib.Core.Option
use analytics_pipeline.Records.{
  RawEvent, RollupKey, RollupKey_discrete, RollupRow, RollupGranularity, minute, hour, day,
}
use analytics_pipeline.Rollup.Buckets.{rollup_key}
use analytics_pipeline.Rollup.Accum.{BucketAccum, add, row_of}
use analytics_pipeline.Rollup.Summary.{
  summarise, combine, combine-none, combine_assoc, summarise-cons,
}
use analytics_pipeline.Rollup.Aggregate.{
  AggMap, AggMaps, no_deltas, or_new, accumulate, aggregate_event, aggregate_from, aggregate_batch,
  agg_of,
}

-- the amounts of the events that are counted under a key
unfoldable pub amounts_at : RollupGranularity → RollupKey → List RawEvent → List ℕ
amounts_at g k [] = []
amounts_at g k (e ∷ es) =
    ite (RollupKey_discrete (rollup_key g e) k) (e.amount_cents ∷ amounts_at g k es)
      (amounts_at g k es)

pub amounts_at-append :
    (g : RollupGranularity) (k : RollupKey) (xs ys : List RawEvent)
    → amounts_at g k (xs ++ ys) ≡ amounts_at g k xs ++ amounts_at g k ys
unfolding amounts_at
amounts_at-append g k [] ys = refl
amounts_at-append g k (e ∷ es) ys = ground (arith, amounts_at-append g k es ys)

-- the row that a delta stands for
unfoldable pub row_at : RollupKey → AggMap → Option RollupRow
row_at k agg = Option.map row_of (get RollupKey_discrete k agg)

abbrev IsStarted : Option BucketAccum → Type 0
IsStarted none = Unit
IsStarted (some acc) = acc.initialised ≡ true

abbrev AllStarted : AggMap → Type 0
AllStarted agg = (k : RollupKey) → IsStarted (get RollupKey_discrete k agg)

-- one more amount in a cell is one more amount in its summary
pub add-combine :
    (o : Option BucketAccum) (x : ℕ)
    → IsStarted o
    → some (row_of (add (or_new o) x)) ≡ combine (Option.map row_of o) (summarise (x ∷ []))
unfolding row_of add or_new combine summarise
add-combine none x h = ground arith
add-combine (some acc) x h = ground arith

pub add-IsStarted : (acc : BucketAccum) (x : ℕ) → (add acc x).initialised ≡ true
unfolding add
add-IsStarted acc x = ground arith

accumulate-AllStarted :
    (key : RollupKey) (x : ℕ) (agg : AggMap) → AllStarted agg → AllStarted (accumulate key x agg)
unfolding accumulate
accumulate-AllStarted key x agg h k = ground (
  arith,
  get-update RollupKey_discrete key k (λ acc. add (or_new acc) x) agg,
  add-IsStarted (or_new (get RollupKey_discrete key agg)) x,
  h k,
)

row_at-accumulate :
    (key k : RollupKey) (x : ℕ) (agg : AggMap)
    → AllStarted agg
    → row_at k (accumulate key x agg)
      ≡ combine (row_at k agg) (ite (RollupKey_discrete key k) (summarise (x ∷ [])) none)
unfolding row_at accumulate
row_at-accumulate key k x agg h = ground (
  arith,
  get-update RollupKey_discrete key k (λ acc. add (or_new acc) x) agg,
  add-combine (get RollupKey_discrete key agg) x (h key),
  combine-none (row_at k agg),
)

pub agg_of-aggregate_event :
    (g : RollupGranularity) (m : AggMaps) (e : RawEvent)
    → agg_of g (aggregate_event m e) ≡ accumulate (rollup_key g e) e.amount_cents (agg_of g m)
unfolding agg_of aggregate_event
agg_of-aggregate_event minute m e = refl
agg_of-aggregate_event hour m e = refl
agg_of-aggregate_event day m e = refl

pub summarise-amounts_at :
    (g : RollupGranularity) (k : RollupKey) (e : RawEvent) (es : List RawEvent)
    → combine
        (ite (RollupKey_discrete (rollup_key g e) k) (summarise (e.amount_cents ∷ [])) none)
        (summarise (amounts_at g k es))
      ≡ summarise (amounts_at g k (e ∷ es))
unfolding amounts_at
summarise-amounts_at g k e es = elim (RollupKey_discrete (rollup_key g e) k) [
  | yes p ↦ rw (if_pos _ p, if_pos _ p) (sym (summarise-cons e.amount_cents (amounts_at g k es)))
  | no p ↦ rw (if_neg _ p, if_neg _ p) (unfold combine in refl)
]

row_at-aggregate_from :
    (g : RollupGranularity) (k : RollupKey) (m : AggMaps) (es : List RawEvent)
    → AllStarted (agg_of g m)
    → row_at k (agg_of g (aggregate_from m es))
      ≡ combine (row_at k (agg_of g m)) (summarise (amounts_at g k es))
unfolding aggregate_from
row_at-aggregate_from g k m [] h =
    sym (unfold amounts_at summarise in combine-none (row_at k (agg_of g m)))
row_at-aggregate_from g k m (e ∷ es) h =
    let key = rollup_key g e in
    let x = e.amount_cents in
    row_at-aggregate_from g k (aggregate_event m e) es
      (rw (agg_of-aggregate_event g m e) (accumulate-AllStarted key x (agg_of g m) h))
    ∙ rw (agg_of-aggregate_event g m e, row_at-accumulate key k x (agg_of g m) h, combine_assoc)
        (ap (combine (row_at k (agg_of g m))) (summarise-amounts_at g k e es))

-- At every key of every granularity the delta of a batch is the summary of the amounts of the
-- events with that key, and there is no delta where there is no event.
pub row_at-aggregate_batch :
    (g : RollupGranularity) (k : RollupKey) (es : List RawEvent)
    → row_at k (agg_of g (aggregate_batch es)) ≡ summarise (amounts_at g k es)
unfolding aggregate_batch row_at get combine agg_of
row_at-aggregate_batch minute k es = row_at-aggregate_from minute k no_deltas es (λ _. tt)
row_at-aggregate_batch hour k es = row_at-aggregate_from hour k no_deltas es (λ _. tt)
row_at-aggregate_batch day k es = row_at-aggregate_from day k no_deltas es (λ _. tt)

accumulate-HasDistinctKeys :
    (key : RollupKey) (x : ℕ) (agg : AggMap)
    → HasDistinctKeys RollupKey_discrete agg
    → HasDistinctKeys RollupKey_discrete (accumulate key x agg)
unfolding accumulate
accumulate-HasDistinctKeys key x agg =
    update-HasDistinctKeys RollupKey_discrete key (λ acc. add (or_new acc) x) agg

aggregate_from-HasDistinctKeys :
    (g : RollupGranularity) (m : AggMaps) (es : List RawEvent)
    → HasDistinctKeys RollupKey_discrete (agg_of g m)
    → HasDistinctKeys RollupKey_discrete (agg_of g (aggregate_from m es))
unfolding aggregate_from
aggregate_from-HasDistinctKeys g m [] h = h
aggregate_from-HasDistinctKeys g m (e ∷ es) h =
    aggregate_from-HasDistinctKeys g (aggregate_event m e) es
      (rw (agg_of-aggregate_event g m e) (accumulate-HasDistinctKeys _ _ (agg_of g m) h))

-- No key stands twice in a delta map, as a single INSERT of its rows requires.
pub aggregate_batch-HasDistinctKeys :
    (g : RollupGranularity) (es : List RawEvent)
    → HasDistinctKeys RollupKey_discrete (agg_of g (aggregate_batch es))
unfolding aggregate_batch agg_of
aggregate_batch-HasDistinctKeys minute es = aggregate_from-HasDistinctKeys minute no_deltas es tt
aggregate_batch-HasDistinctKeys hour es = aggregate_from-HasDistinctKeys hour no_deltas es tt
aggregate_batch-HasDistinctKeys day es = aggregate_from-HasDistinctKeys day no_deltas es tt
