-- ===== src/Nightly/Snapshot.antt =====
-- `snapshot_leaderboard` and `run_compaction` of scripts/nightly_compaction.py.
use analytics_pipeline.Prelude.{
  ℕ, ◌+◌, Bool, false, List, [], ◌∷◌, Option, some, Dict, get, update, get-update, map, filter,
  sort_by, take, length, ltb, leb, ite, number_of, String_discrete, ℕ_discrete, if_pos, if_neg, inl,
  inr, ◌⊎◌, ◌≢◌, ◌≡◌, refl, sym, ap, ◌∙◌,
}
use analytics_pipeline.Moment.{Datetime, Datetime_discrete}
use analytics_pipeline.Database.{Database}
use analytics_pipeline.Query.Group.{Row, Sums, group_sums}
use analytics_pipeline.Nightly.Compaction.{midnight, in_day, Discrepancy, compact_day_rollup}

-- period_start and merchant_id; every period is 'daily'
pub record SnapshotKey : Type 0 where
  pub period_start : Datetime
  pub merchant_id : ℕ

unfoldable pub SnapshotKey_discrete : Discrete SnapshotKey
unfolding Datetime_discrete ℕ_discrete
SnapshotKey_discrete = hlevel (Datetime_discrete, ℕ_discrete)

pub record Snapshot : Type 0 where
  pub rank : ℕ
  pub amount_sum_cents : ℕ

abbrev pub Snapshots : Type 0
Snapshots = Dict SnapshotKey Snapshot

-- bucket >= $1 AND bucket < $2 AND event_type = 'PAYMENT_CONFIRMED'
unfoldable pub confirmed_on : Datetime → Row → Bool
confirmed_on start (k, row) =
    ite (String_discrete k.event_type "PAYMENT_CONFIRMED") (in_day start k.bucket) false

-- RANK() OVER (ORDER BY SUM(amount_sum_cents) DESC)
unfoldable pub rank_in : Dict ℕ Sums → Sums → ℕ
rank_in groups s = 1 + number_of (λ g. ltb s.volume_cents g.1.volume_cents) groups

unfoldable pub by_volume_desc : ℕ × Sums → ℕ × Sums → Bool
by_volume_desc a b = leb b.1.volume_cents a.1.volume_cents

unfoldable pub ranked : Datetime → Dict ℕ Sums → ℕ × Sums → SnapshotKey × Snapshot
ranked start groups (merchant, s) = (
  record { period_start = start; merchant_id = merchant },
  record { rank = rank_in groups s; amount_sum_cents = s.volume_cents },
)

-- the SELECT: the hundred merchants with the greatest volumes
unfoldable pub top_merchants : Datetime → Database → List (SnapshotKey × Snapshot)
top_merchants start db =
    let groups =
      group_sums ℕ_discrete (λ k. k.merchant_id) (filter (confirmed_on start) db.rollup_day) in
    map (ranked start groups) (take 100 (sort_by by_volume_desc groups))

-- executemany of INSERT ... ON CONFLICT DO UPDATE
unfoldable pub insert_snapshots : List (SnapshotKey × Snapshot) → Snapshots → Snapshots
insert_snapshots [] table = table
insert_snapshots ((k, row) ∷ rows) table =
    insert_snapshots rows (update SnapshotKey_discrete k (λ _. row) table)

unfoldable pub snapshot_leaderboard : Datetime → Database → Snapshots → Snapshots × ℕ
snapshot_leaderboard start db table =
    let rows = top_merchants start db in (insert_snapshots rows table, length rows)

-- `run_compaction`: one transaction, the day first
unfoldable pub run_compaction :
    ℕ → ℕ → ℕ → Database → Snapshots → Database × Snapshots × List Discrepancy × ℕ
run_compaction year month day db table =
    let start = midnight year month day in
    let (db', report) = compact_day_rollup start db in
    let (table', count) = snapshot_leaderboard start db' table in (db', table', report, count)

-- what the statements leave at a key, from what was there
unfoldable written : SnapshotKey → List (SnapshotKey × Snapshot) → Option Snapshot → Option Snapshot
written k [] o = o
written k ((j, row) ∷ rows) o = written k rows (ite (SnapshotKey_discrete j k) (some row) o)

get-insert_snapshots :
    (k : SnapshotKey) (rows : List (SnapshotKey × Snapshot)) (table : Snapshots)
    → get SnapshotKey_discrete k (insert_snapshots rows table)
      ≡ written k rows (get SnapshotKey_discrete k table)
unfolding insert_snapshots written
get-insert_snapshots k [] table = refl
get-insert_snapshots k ((j, row) ∷ rows) table =
    get-insert_snapshots k rows (update SnapshotKey_discrete j (λ _. row) table)
    ∙ ap (written k rows) (get-update SnapshotKey_discrete j k (λ _. row) table)

written_twice :
    (k : SnapshotKey) (rows : List (SnapshotKey × Snapshot)) (o p : Option Snapshot)
    → (written k rows o ≡ written k rows p) ⊎ ((written k rows o ≡ o) × (written k rows p ≡ p))
unfolding written
written_twice k [] o p = inr (refl, refl)
written_twice k ((j, row) ∷ rows) o p = elim (SnapshotKey_discrete j k) [
  | yes q ↦ rw (if_pos _ q, if_pos _ q) (inl refl)
  | no q ↦ rw (if_neg _ q, if_neg _ q) (written_twice k rows o p)
]

-- writing the same rows a second time changes nothing
written_idem :
    (k : SnapshotKey) (rows : List (SnapshotKey × Snapshot)) (o : Option Snapshot)
    → written k rows (written k rows o) ≡ written k rows o
written_idem k rows o = elim (written_twice k rows (written k rows o) o) [
  | inl same ↦ same
  | inr kept ↦ kept.0
]

-- rows of one day do not touch another
written_other :
    (start : Datetime) (groups : Dict ℕ Sums) (k : SnapshotKey) (gs : List (ℕ × Sums))
    (o : Option Snapshot)
    → k.period_start ≢ start
    → written k (map (ranked start groups) gs) o ≡ o
unfolding written ranked
written_other start groups k [] o apart = refl
written_other start groups k ((m, s) ∷ gs) o apart =
    let j : SnapshotKey = record { period_start = start; merchant_id = m } in
    let other : j ≢ k = λ p. apart (ap (λ q. q.period_start) (sym p)) in
    written_other start groups k gs _ apart
    ∙ if_neg (SnapshotKey_discrete j k) other
        (some (record { rank = rank_in groups s; amount_sum_cents = s.volume_cents })) o

-- A second snapshot of a date from the same tables changes no row, and no snapshot touches the rows of
-- another date.
pub snapshot_leaderboard-again :
    (start : Datetime) (db : Database) (table : Snapshots) (k other : SnapshotKey)
    → other.period_start ≢ start
    → (get SnapshotKey_discrete k
          (snapshot_leaderboard start db (snapshot_leaderboard start db table).0).0
        ≡ get SnapshotKey_discrete k (snapshot_leaderboard start db table).0)
      × (get SnapshotKey_discrete other (snapshot_leaderboard start db table).0
          ≡ get SnapshotKey_discrete other table)
unfolding snapshot_leaderboard
snapshot_leaderboard-again start db table k other apart =
    let rows = top_merchants start db in
    let one = get-insert_snapshots k rows table in
    (
      get-insert_snapshots k rows (insert_snapshots rows table)
          ∙ ap (written k rows) one
          ∙ written_idem k rows (get SnapshotKey_discrete k table)
          ∙ sym one,
      get-insert_snapshots other rows table
          ∙ (unfold top_merchants in written_other start _ other _ _ apart),
    )
