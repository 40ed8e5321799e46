-- ===== src/Board/Top.antt =====
-- A leaderboard that Redis does not have is the top of what the events come to.
use mathlib.Core.List.{Perm}
use mathlib.Core.List.Perm
use analytics_pipeline.Prelude.{
  ℕ, ◌≤◌, true, false, List, [], ◌∷◌, ◌++◌, map, contains, contains-perm, contains-append, length,
  length-take-le, All, All-map, All-perm, All-both, All-append_inv, IsSorted, leb, ◌==◌, ℕ_discrete,
  ◌⊎◌, inl, inr, Bool-cases, ◌≡◌, refl, sym, ap, ◌∙◌, arith,
}
use analytics_pipeline.Settings.{Settings}
use analytics_pipeline.Moment.Calendar.{IsMoment}
use analytics_pipeline.Rollup.Buckets.{bucket_ts}
use analytics_pipeline.Database.{Database, empty_database}
use analytics_pipeline.Query.Leaderboard.{
  Standing, by_volume, month_start, period_end, query_leaderboard_from_db,
  query_leaderboard_from_db-top,
}
use analytics_pipeline.Board.Increments.{Period}
use analytics_pipeline.Board.Cold.{month_rows}
use analytics_pipeline.Board.Months.{IsMonth}
use analytics_pipeline.Board.Standings.{
  counted_events, confirmed_by, standings-volume, standings-known, month_rows-confirmed,
}
use analytics_pipeline.Worker.Replay.{Reach}

abbrev merchants_of : List Standing → List ℕ
merchants_of rows = map (λ x. x.merchant_id) rows

-- the row of a merchant that has one, with what holds of every row
pick :
    (P : Standing → Type 0) (m : ℕ) (rows : List Standing)
    → contains ℕ_discrete m (merchants_of rows) ≡ true
    → All P rows
    → (x : Standing) × (x.merchant_id ≡ m) × P x
unfolding contains
pick P m [] there h = absurd (ground (arith, there))
pick P m (x ∷ rows) there h = elim (ℕ_discrete x.merchant_id m) [
  | yes e ↦ (x, e, h.0)
  | no e ↦ pick P m rows (ground (arith, there, e)) h.1
]

merchants_of-append :
    (xs ys : List Standing) → merchants_of (xs ++ ys) ≡ merchants_of xs ++ merchants_of ys
merchants_of-append [] ys = refl
merchants_of-append (x ∷ xs) ys = ap (◌∷◌ x.merchant_id) (merchants_of-append xs ys)

-- a merchant is among the rows, or no row has a smaller volume than it
among-or-below :
    (volume : ℕ → ℕ) (m n : ℕ) {all : List Standing} (rows left_out : List Standing)
    → Perm all (rows ++ left_out)
    → All (λ x. (x.volume_cents == volume x.merchant_id) ≡ true) all
    → All (λ a. All (λ b. by_volume a b ≡ true) left_out) rows
    → (length rows ≡ n) ⊎ (left_out ≡ [])
    → (contains ℕ_discrete m (merchants_of all) ≡ true) ⊎ (volume m ≡ 0)
    → (contains ℕ_discrete m (merchants_of rows) ≡ true)
      ⊎ All (λ x. volume m ≤ x.volume_cents) rows × ((length rows ≡ n) ⊎ (volume m ≡ 0))
unfolding by_volume contains
among-or-below volume m n rows left_out perm named above full (inr zero) =
    inr (All-map rows (λ x a. omega (arith, zero)) above, inr zero)
among-or-below volume m n {all} rows left_out perm named above full (inl there) =
    let split : contains ℕ_discrete m (merchants_of rows ++ merchants_of left_out) ≡ true =
      rw (sym (merchants_of-append rows left_out))
        (sym (contains-perm ℕ_discrete m (Perm.map (λ x. x.merchant_id) perm)) ∙ there) in
    elim (Bool-cases (contains ℕ_discrete m (merchants_of rows))) [
      | inl e ↦ inl e
      | inr e ↦
          let out : contains ℕ_discrete m (merchants_of left_out) ≡ true = ground (
            arith,
            split,
            e,
            contains-append ℕ_discrete m (merchants_of rows) (merchants_of left_out),
          ) in
          let volumes =
            (All-append_inv _ rows left_out
              (All-perm (λ x. x.volume_cents == volume x.merchant_id) perm named)).1 in
          inr (
            All-map rows
                (λ x a.
                  let (y, who, both) = pick _ m left_out out (All-both _ _ left_out a volumes) in
                  let same : volume y.merchant_id ≡ volume m = ap volume who in
                  ground (arith, both.0, both.1, same))
                above,
            elim full [
              | inl f ↦ inl f
              | inr none_left ↦
                  let no_one : true ≡ false =
                    sym out ∙ ap (λ l. contains ℕ_discrete m (merchants_of l)) none_left in
                  absurd (ground (arith, no_one))
            ],
          )
    ]

-- From a new installation on, whatever batches, crashes, offset resets and new events there were, with
-- events at moments that exist: the rows of the fallback for a month are at most `top_n`, in
-- descending order of volume. A merchant without a row has no greater confirmed volume, of the
-- events counted in the month and on the first day of the next, than any merchant with one; and it
-- has none at all if there are fewer rows than `top_n`.
pub Reach-month_rows :
    (s : Settings) (merchants : List ℕ) (p : Period) (top_n m : ℕ) {db : Database}
    → Reach s (empty_database merchants) db
    → All (λ e. IsMoment (bucket_ts e)) db.raw_events
    → IsMonth p
    → let rows = month_rows p top_n db in
      let volume = confirmed_by (counted_events s db) p in
      IsSorted (λ a b. leb b.volume_cents a.volume_cents) rows
      × (length rows ≤ top_n)
      × All (λ x. x.volume_cents ≡ volume x.merchant_id) rows
      × ((contains ℕ_discrete m (map (λ x. x.merchant_id) rows) ≡ true)
          ⊎ All (λ x. volume m ≤ x.volume_cents) rows × ((length rows ≡ top_n) ⊎ (volume m ≡ 0)))
unfolding by_volume
Reach-month_rows s merchants p top_n m {db} r valid h =
    let start = month_start p.year p.month in
    let end = period_end p.year p.month in
    let rows = month_rows p top_n db in
    let volume = confirmed_by (counted_events s db) p in
    let (left_out, perm, sorted, above, full) = query_leaderboard_from_db-top start end top_n db in
    let named = standings-volume s merchants r valid p h in
    (
      sorted,
      unfold query_leaderboard_from_db in length-take-le top_n _,
      month_rows-confirmed s merchants r valid p h top_n,
      among-or-below volume m top_n rows left_out perm named above full
          (standings-known s merchants r valid p h m),
    )
