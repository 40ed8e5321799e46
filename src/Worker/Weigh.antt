-- ===== src/Worker/Weigh.antt =====
-- What the events weigh together, each with a weight of its own: the order does not matter, and a
-- batch of the worker adds the weight of its events without a marker.
use mathlib.Core.List.{Perm, Permᴰ}
use mathlib.Core.List.Perm
use mathlib.Core.Logic.{∥∥₁_elim}
use analytics_pipeline.Prelude.{
  ℕ, String, ◌+◌, Bool, not, List, [], ◌∷◌, ◌++◌, filter, filter-append, ℕ_set, if◌then◌else◌,
  IsDistinct, IsDistinct-perm, ℕ_discrete, ◌≡◌, refl, ap, ◌∙◌, arith,
}
use analytics_pipeline.Records.{RawEvent}
use analytics_pipeline.Worker.Markers.Laws.{unmarked}
use analytics_pipeline.Worker.Batch.{ids}
use analytics_pipeline.Database.{Database}
use analytics_pipeline.Worker.Commit.{fresh}
use analytics_pipeline.Worker.Exact.{
  marked, markers_after, marked_events, marked_others, raw_events-after, processed-after,
}
use analytics_pipeline.Worker.Replay.{after_fetched}

filter_unmarked :
    (table : List (String × ℕ)) (c : String) (events : List RawEvent)
    → filter (λ e. unmarked table c e.id) events ≡ filter (λ e. not (marked table c e)) events
unfolding unmarked marked
filter_unmarked table c events = refl

module _ (part : RawEvent → ℕ) where
  unfoldable pub weight : List RawEvent → ℕ
  weight [] = 0
  weight (e ∷ es) = part e + weight es

  weight-append : (xs ys : List RawEvent) → weight (xs ++ ys) ≡ weight xs + weight ys
  unfolding weight
  weight-append [] ys = omega arith
  weight-append (x ∷ xs) ys = ground (arith, weight-append xs ys)

  weight-filter-cons :
      (p : RawEvent → Bool) (e : RawEvent) (es : List RawEvent)
      → weight (filter p (e ∷ es)) ≡ (if p e then part e else 0) + weight (filter p es)
  unfolding filter weight
  weight-filter-cons p e es = ground arith

  weight-filter-permᴰ :
      (p : RawEvent → Bool) {xs ys : List RawEvent}
      → Permᴰ xs ys
      → weight (filter p xs) ≡ weight (filter p ys)
  weight-filter-permᴰ p Permᴰ.nil = refl
  weight-filter-permᴰ p (Permᴰ.cons {a} {b} {l₁} {l₂} e q) =
      ground (arith, weight-filter-cons p a l₁, weight-filter-cons p b l₂, weight-filter-permᴰ p q)
  weight-filter-permᴰ p (Permᴰ.swap {a} {b} {a'} {b'} {l} e f) = ground (
    arith,
    weight-filter-cons p a (b ∷ l),
    weight-filter-cons p b l,
    weight-filter-cons p a' (b' ∷ l),
    weight-filter-cons p b' l,
  )
  weight-filter-permᴰ p (Permᴰ.trans q r) = weight-filter-permᴰ p q ∙ weight-filter-permᴰ p r

  -- the order of the events does not matter
  pub weight-filter-perm :
      (p : RawEvent → Bool) {xs ys : List RawEvent}
      → Perm xs ys
      → weight (filter p xs) ≡ weight (filter p ys)
  weight-filter-perm p q = ∥∥₁_elim q (ℕ_set _ _) (weight-filter-permᴰ p)

  weight-filter-not :
      (p : RawEvent → Bool) (xs : List RawEvent)
      → weight xs ≡ weight (filter p xs) + weight (filter (λ x. not (p x)) xs)
  unfolding filter weight
  weight-filter-not p [] = refl
  weight-filter-not p (x ∷ xs) = ground (arith, weight-filter-not p xs)

  -- the weight of the marked events grows by that of the batch's events without a marker
  weight-marked-after :
      (table : List (String × ℕ)) (c : String) (events others : List RawEvent)
      → IsDistinct ℕ_discrete (ids (events ++ others))
      → weight (filter (marked (markers_after table c events) c) (events ++ others))
        ≡ weight (filter (marked table c) (events ++ others))
          + weight (filter (λ e. unmarked table c e.id) events)
  weight-marked-after table c events others distinct =
      let new = marked (markers_after table c events) c in
      let old = marked table c in
      ground (
        arith,
        ap weight (filter-append new events others),
        ap weight (filter-append old events others),
        weight-append (filter new events) (filter new others),
        weight-append (filter old events) (filter old others),
        ap weight (marked_events table c events others distinct),
        ap weight (marked_others table c events others distinct),
        weight-filter-not old events,
        filter_unmarked table c events,
      )

  -- the weight of the events that the consumer has counted
  unfoldable pub counted_weight : String → Database → ℕ
  counted_weight c db = weight (filter (marked db.processed_rollup_events c) db.raw_events)

  -- A batch counts its events without a marker.
  pub after_fetched-counted_weight :
      (c : String) (db : Database) (events others : List RawEvent)
      → IsDistinct ℕ_discrete (ids db.raw_events)
      → Perm db.raw_events (events ++ others)
      → counted_weight c (after_fetched c db events)
        ≡ counted_weight c db + weight (fresh db c events)
  unfolding after_fetched counted_weight fresh
  after_fetched-counted_weight c db [] others distinct table = unfold filter weight in omega arith
  after_fetched-counted_weight c db (e ∷ es) others distinct table =
      let new = marked (markers_after db.processed_rollup_events c (e ∷ es)) c in
      let old = marked db.processed_rollup_events c in
      let apart = IsDistinct-perm ℕ_discrete (Perm.map (λ (x : RawEvent). x.id) table) distinct in
      rw (processed-after c db e es [], raw_events-after c db e es [])
        (ground (
          arith,
          weight-filter-perm new table,
          weight-filter-perm old table,
          weight-marked-after db.processed_rollup_events c (e ∷ es) others apart,
        ))
