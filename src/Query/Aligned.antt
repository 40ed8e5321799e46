-- ===== src/Query/Aligned.antt =====
-- The rows of the rollup tables stand at buckets, and so do the groups of a query.
use analytics_pipeline.Prelude.{
  ℕ, String, ◌≤◌, true, List, [], ◌∷◌, Option, none, some, Dict, get, update, All, filter-All,
  filter, if_pos, if_neg, ◌≡◌, refl, sym, ap, subst, ◌∙◌, arith,
}
use analytics_pipeline.Moment.{Datetime, Datetime_discrete, micros, at_most}
use analytics_pipeline.Moment.Calendar.{IsMoment}
use analytics_pipeline.Records.{
  RawEvent, RollupKey, RollupKey_discrete, RollupRow, RollupGranularity,
}
use analytics_pipeline.Rollup.Buckets.{bucket_ts, rollup_key}
use analytics_pipeline.Rollup.Aligned.{IsAligned, bucket_of-IsAligned}
use analytics_pipeline.Rollup.Summary.{summarise}
use analytics_pipeline.Rollup.Aggregate.Laws.{amounts_at}
use analytics_pipeline.Rollup.Table.{RollupTable}
use analytics_pipeline.Database.{Database, rollup_of}
use analytics_pipeline.Query.Group.{Sums, Row, add_row, group_from}
use analytics_pipeline.Query.Rollups.{selects}
use analytics_pipeline.Worker.Totals.{total}
use analytics_pipeline.Worker.Exact.{marked, IsExact}

-- a key with a total is the key of an event
total-IsAligned :
    (g : RollupGranularity) (k : RollupKey) (es : List RawEvent) (row : RollupRow)
    → All (λ e. IsMoment (bucket_ts e)) es
    → total g k es ≡ some row
    → IsAligned g k.bucket
unfolding total amounts_at
total-IsAligned g k [] row valid h =
    let e : ◌≡◌ {A = Option RollupRow} none (some row) = unfold summarise in h in absurd (cc e)
total-IsAligned g k (e ∷ es) row valid h = elim (RollupKey_discrete (rollup_key g e) k) [
  | yes p ↦
      subst (λ j. IsAligned g j.bucket) p
        (unfold rollup_key in bucket_of-IsAligned g (bucket_ts e) valid.0)
  | no p ↦
      total-IsAligned g k es row valid.1
        (ap summarise (sym (if_neg (RollupKey_discrete (rollup_key g e) k) p _ _)) ∙ h)
]

-- what holds of every key that reads back holds of every row's key
All-get :
    (P : RollupKey → Type 0) (t : RollupTable)
    → ((k : RollupKey) (row : RollupRow) → get RollupKey_discrete k t ≡ some row → P k)
    → All (λ r. P r.0) t
unfolding get
All-get P [] h = tt
All-get P ((j, old) ∷ t) h = (
  h j old (if_pos (RollupKey_discrete j j) refl _ _),
  All-get P t (λ k row there. elim (RollupKey_discrete j k) [
    | yes p ↦ h k old (if_pos (RollupKey_discrete j k) p _ _)
    | no p ↦ h k row (if_neg (RollupKey_discrete j k) p _ _ ∙ there)
  ]),
)

pub rollup_of-IsAligned :
    (g : RollupGranularity) (c : String) (db : Database)
    → IsExact c db
    → All (λ e. IsMoment (bucket_ts e)) db.raw_events
    → All (λ r. IsAligned g r.0.bucket) (rollup_of g db)
rollup_of-IsAligned g c db exact valid =
    All-get (λ k. IsAligned g k.bucket) (rollup_of g db)
      (λ k row there.
        total-IsAligned g k (filter (marked db.processed_rollup_events c) db.raw_events) row
          (filter-All _ _ db.raw_events valid) (sym (exact.exact g k) ∙ there))

-- A bucket of the range.
abbrev pub InRange : RollupGranularity → Datetime → Datetime → Datetime → Type 0
InRange g start end b = IsAligned g b × (micros start ≤ micros b) × (micros b ≤ micros end)

pub selects-range :
    (g : RollupGranularity) (merchant : ℕ) (start end : Datetime) (r : Row)
    → IsAligned g r.0.bucket
    → selects merchant start end r ≡ true
    → InRange g start end r.0.bucket
unfolding selects at_most
selects-range g merchant start end (k, row) aligned h =
    (aligned, ground (arith, h), ground (arith, h))

module _ (P : Datetime → Type 0) where
  update-All :
      (b : Datetime) (f : Option Sums → Sums) (groups : Dict Datetime Sums)
      → P b
      → All (λ s. P s.0) groups
      → All (λ s. P s.0) (update Datetime_discrete b f groups)
  unfolding update
  update-All b f [] p h = (p, tt)
  update-All b f ((c, s) ∷ groups) p h = elim (Datetime_discrete c b) [
    | yes e ↦ rw (if_pos _ e) h
    | no e ↦ rw (if_neg _ e) (h.0, update-All b f groups p h.1)
  ]

  pub group_from-All :
      (key : RollupKey → Datetime) (rows : List Row) (groups : Dict Datetime Sums)
      → All (λ r. P (key r.0)) rows
      → All (λ s. P s.0) groups
      → All (λ s. P s.0) (group_from Datetime_discrete key groups rows)
  unfolding group_from
  group_from-All key [] groups hr hg = hg
  group_from-All key ((k, row) ∷ rows) groups hr hg =
      group_from-All key rows (update Datetime_discrete (key k) (add_row row) groups) hr.1
        (update-All (key k) (add_row row) groups hr.0 hg)
