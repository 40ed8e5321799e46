-- ===== src/Worker/Replay.antt =====
-- The worker over time: batches, crashes, replays and new events, in any order.
use mathlib.Core.List.{Perm}
use mathlib.Core.List.Perm
use analytics_pipeline.Prelude.{
  ℕ, String, false, List, [], ◌∷◌, ◌++◌, Option, get, contains, contains-perm, filter, IsDistinct,
  IsDistinct-perm, IsDistinct-append_inv, Dict, ℕ_discrete, ◌≡◌, refl, sym, ap, ◌∙◌, arith,
}
use mathlib.Core.List.{map-append}
use analytics_pipeline.Settings.{Settings}
use analytics_pipeline.Result.{ok}
use analytics_pipeline.Records.{
  RawEvent, ConsumerOffset, RollupKey_discrete, RollupGranularity, minute, hour, day,
}
use analytics_pipeline.Database.{Database, rollup_of}
use analytics_pipeline.Worker.Fetch.{get_events_after}
use analytics_pipeline.Worker.Fetch.Split.{not_fetched, get_events_after-perm}
use analytics_pipeline.Worker.Batch.{
  ids, get_consumer_offset, last_event_id_of, process_fetched, process_batch, fetch, committed,
}
use analytics_pipeline.Worker.Totals.{total, total-filter-perm}
use analytics_pipeline.Worker.Commit.{after, fresh, process_events-ok}
use analytics_pipeline.Worker.Exact.{marked, IsExact, after-IsExact}

-- the tables after a batch that fetched some events
unfoldable pub after_fetched : String → Database → List RawEvent → Database
after_fetched c db [] = db
after_fetched c db (e ∷ es) = after c db e es

process_fetched-ok :
    (c : String) (db : Database) (events others : List RawEvent)
    → IsDistinct ℕ_discrete (ids (events ++ others))
    → process_fetched c db events
      ≡ ok (after_fetched c db events, record { events = events; new_events = fresh db c events })
unfolding process_fetched after_fetched
process_fetched-ok c db [] others h = unfold fresh filter in refl
process_fetched-ok c db (e ∷ es) others h =
    process_events-ok c db e es
      (IsDistinct-append_inv ℕ_discrete (ids (e ∷ es)) (ids others) (simp map-append at h)).0

fetch-IsDistinct :
    (raw : List RawEvent) (last : Option ℕ) (limit : ℕ)
    → IsDistinct ℕ_discrete (ids raw)
    → IsDistinct ℕ_discrete (ids (get_events_after raw last limit ++ not_fetched raw last limit))
fetch-IsDistinct raw last limit =
    IsDistinct-perm ℕ_discrete
      (Perm.map (λ (x : RawEvent). x.id) (get_events_after-perm raw last limit))

-- With distinct event ids a batch never raises: it reports what it fetched, and as new exactly the
-- fetched events without a marker.
pub process_batch-ok :
    (s : Settings) (db : Database)
    → IsDistinct ℕ_discrete (ids db.raw_events)
    → process_batch s db
      ≡ ok (
        after_fetched s.worker_id db (fetch s db),
        record { events = fetch s db; new_events = fresh db s.worker_id (fetch s db) },
      )
unfolding process_batch
process_batch-ok s db h =
    let last = last_event_id_of (get_consumer_offset db s.worker_id) in
    process_fetched-ok s.worker_id db (fetch s db)
      (not_fetched db.raw_events last s.worker_batch_size)
      (unfold fetch in fetch-IsDistinct db.raw_events last s.worker_batch_size h)

after_fetched-IsExact :
    (c : String) (db : Database) (events others : List RawEvent)
    → Perm db.raw_events (events ++ others)
    → IsExact c db
    → IsExact c (after_fetched c db events)
unfolding after_fetched
after_fetched-IsExact c db [] others p h = h
after_fetched-IsExact c db (e ∷ es) others p h = after-IsExact c db e es others p h

-- What may happen to the tables. `crash` is a batch whose process dies, or whose statement fails,
-- before the commit: PostgreSQL rolls it back. `seek` is any change of the offsets: a reset, or an
-- offset that is behind or ahead. `store` is a new event, wherever the database puts its row.
pub data Step (s : Settings) : Database → Database → Type 0 where
  batch : (db : Database) → Step s db (committed db (process_batch s db))
  crash : (db : Database) → Step s db db
  seek :
      (db : Database) (offsets : Dict String ConsumerOffset)
      → Step s db (record db { consumer_offsets = offsets })
  store :
      (db : Database) (e : RawEvent) (raw : List RawEvent)
      → contains ℕ_discrete e.id (ids db.raw_events) ≡ false
      → Perm raw (e ∷ db.raw_events)
      → Step s db (record db { raw_events = raw })

pub data Reach (s : Settings) (start : Database) : Database → Type 0 where
  here : Reach s start start
  next : {db db' : Database} → Reach s start db → Step s db db' → Reach s start db'

pub batch-IsExact :
    (s : Settings) (db : Database)
    → IsExact s.worker_id db
    → IsExact s.worker_id (committed db (process_batch s db))
unfolding committed
batch-IsExact s db h =
    let last = last_event_id_of (get_consumer_offset db s.worker_id) in
    rw (process_batch-ok s db h.distinct) (
      after_fetched-IsExact s.worker_id db (fetch s db)
        (not_fetched db.raw_events last s.worker_batch_size)
        (unfold fetch in get_events_after-perm db.raw_events last s.worker_batch_size) h)

pub rollup_of-raw :
    (g : RollupGranularity) (db : Database) (raw : List RawEvent)
    → rollup_of g (record db { raw_events = raw }) ≡ rollup_of g db
unfolding rollup_of
rollup_of-raw minute db raw = refl
rollup_of-raw hour db raw = refl
rollup_of-raw day db raw = refl

pub rollup_of-offsets :
    (g : RollupGranularity) (db : Database) (offsets : Dict String ConsumerOffset)
    → rollup_of g (record db { consumer_offsets = offsets }) ≡ rollup_of g db
unfolding rollup_of
rollup_of-offsets minute db offsets = refl
rollup_of-offsets hour db offsets = refl
rollup_of-offsets day db offsets = refl

-- A new event has no marker, so it adds nothing to any total.
module _ (c : String) (db : Database) (e : RawEvent) (h : IsExact c db)
    (new : contains ℕ_discrete e.id (ids db.raw_events) ≡ false) where
  unmarked_new : marked db.processed_rollup_events c e ≡ false
  unfolding marked
  unmarked_new = ground (arith, h.known e.id)

  pub filter_new :
      filter (marked db.processed_rollup_events c) (e ∷ db.raw_events)
      ≡ filter (marked db.processed_rollup_events c) db.raw_events
  unfolding filter
  filter_new = ground (arith, unmarked_new)

  store-IsExact :
      (raw : List RawEvent)
      → Perm raw (e ∷ db.raw_events)
      → IsExact c (record db { raw_events = raw })
  unfolding contains
  store-IsExact raw p =
      let q : Perm (ids raw) (e.id ∷ ids db.raw_events) = Perm.map (λ (x : RawEvent). x.id) p in
      record {
        distinct = IsDistinct-perm ℕ_discrete (Perm.symm q) (new, h.distinct);
        known = λ id m. ground (arith, contains-perm ℕ_discrete id q, h.known id m);
        exact = λ g k.
            ap (get RollupKey_discrete k) (rollup_of-raw g db raw)
            ∙ h.exact g k
            ∙ ap (total g k) (sym filter_new)
            ∙ sym (total-filter-perm g k (marked db.processed_rollup_events c) p);
      }

seek-IsExact :
    (c : String) (db : Database) (offsets : Dict String ConsumerOffset)
    → IsExact c db
    → IsExact c (record db { consumer_offsets = offsets })
seek-IsExact c db offsets h = record {
  distinct = h.distinct;
  known = h.known;
  exact = λ g k. ap (get RollupKey_discrete k) (rollup_of-offsets g db offsets) ∙ h.exact g k;
}

Step-IsExact :
    {s : Settings} {db db' : Database}
    → Step s db db'
    → IsExact s.worker_id db
    → IsExact s.worker_id db'
Step-IsExact {s} (batch db) h = batch-IsExact s db h
Step-IsExact (crash db) h = h
Step-IsExact {s} (seek db offsets) h = seek-IsExact s.worker_id db offsets h
Step-IsExact {s} (store db e raw new p) h = store-IsExact s.worker_id db e h new raw p

-- Exactly once: from exact tables on, whatever batches, crashes, offset resets and new events there
-- were, every rollup row of every granularity holds the number, the sum and the extremes of exactly
-- the stored events that have a marker, each counted once, and there is no row for a key with no
-- such event.
pub Reach-IsExact :
    (s : Settings) {start db : Database}
    → IsExact s.worker_id start
    → Reach s start db
    → IsExact s.worker_id db
Reach-IsExact s h here = h
Reach-IsExact s h (next r st) = Step-IsExact st (Reach-IsExact s h r)
