-- ===== src/Worker/Idempotent.antt =====
-- Replay: a batch that fetches events with a marker counts nothing.
use analytics_pipeline.Prelude.{
  ℕ, String, true, List, [], ◌∷◌, filter, All, All-map, All-contains, IsDistinct, Dict, ℕ_discrete,
  ◌≡◌, refl, ap, ◌∙◌, arith, last_of, get, String_discrete,
}
use mathlib.Core.List.{append-nil}
use analytics_pipeline.Settings.{Settings}
use analytics_pipeline.Result.{ok}
use analytics_pipeline.Records.{RawEvent, ConsumerOffset}
use analytics_pipeline.Rollup.Aggregate.{aggregate_batch, aggregate_from, agg_of}
use analytics_pipeline.Rollup.Table.{upsert_rows}
use analytics_pipeline.Database.{Database}
use analytics_pipeline.Worker.Fetch.{get_events_after}
use analytics_pipeline.Worker.Markers.Laws.{unmarked}
use analytics_pipeline.Worker.Batch.{
  ids, get_consumer_offset, last_event_id_of, upsert_consumer_offset, process_batch, fetch,
  committed,
}
use analytics_pipeline.Worker.Commit.{with_deltas, fresh, after}
use analytics_pipeline.Worker.Exact.{marked, markers_after, marked-after, raw_events-after}
use analytics_pipeline.Worker.Replay.{after_fetched, process_batch-ok}

abbrev pub AllMarked : List (String × ℕ) → String → List RawEvent → Type 0
AllMarked table c = All (λ e. marked table c e ≡ true)

fresh-marked :
    (db : Database) (c : String) (events : List RawEvent)
    → AllMarked db.processed_rollup_events c events
    → fresh db c events ≡ []
unfolding fresh filter unmarked marked
fresh-marked db c [] h = refl
fresh-marked db c (e ∷ es) h = ground (arith, h.0, fresh-marked db c es h.1)

unmarked_ids :
    (table : List (String × ℕ)) (c : String) (events : List RawEvent)
    → AllMarked table c events
    → filter (unmarked table c) (ids events) ≡ []
unfolding filter unmarked marked
unmarked_ids table c [] h = refl
unmarked_ids table c (e ∷ es) h = ground (arith, h.0, unmarked_ids table c es h.1)

after_marked :
    (db : Database) (c : String) (e : RawEvent) (es : List RawEvent)
    → AllMarked db.processed_rollup_events c (e ∷ es)
    → after c db e es ≡ upsert_consumer_offset c (last_of e es).id (last_of e es).occurred_at db
unfolding after with_deltas
after_marked db c e es h =
    rw
      (
        fresh-marked db c (e ∷ es) h,
        unmarked_ids db.processed_rollup_events c (e ∷ es) h,
        append-nil,
      )
      (unfold aggregate_batch aggregate_from agg_of upsert_rows in refl)

after_fetched_marked :
    (db : Database) (c : String) (events : List RawEvent)
    → AllMarked db.processed_rollup_events c events
    → (offsets : Dict String ConsumerOffset) × (after_fetched c db events
        ≡ record db { consumer_offsets = offsets })
unfolding after_fetched upsert_consumer_offset
after_fetched_marked db c [] h = (db.consumer_offsets, refl)
after_fetched_marked db c (e ∷ es) h = (_, after_marked db c e es h)

-- A batch whose events all have a marker counts none of them: it returns no new event and changes
-- nothing but the offset.
pub process_batch-marked :
    (s : Settings) (db : Database)
    → IsDistinct ℕ_discrete (ids db.raw_events)
    → AllMarked db.processed_rollup_events s.worker_id (fetch s db)
    → (offsets : Dict String ConsumerOffset) × (process_batch s db
        ≡ ok (
          record db { consumer_offsets = offsets },
          record { events = fetch s db; new_events = [] },
        ))
process_batch-marked s db d h =
    let (offsets, e) = after_fetched_marked db s.worker_id (fetch s db) h in
    (offsets, process_batch-ok s db d ∙ rw (e, fresh-marked db s.worker_id (fetch s db) h))

-- After a batch, every event that it fetched has a marker.
marked-after_fetched :
    (c : String) (db : Database) (events : List RawEvent)
    → AllMarked (after_fetched c db events).processed_rollup_events c events
unfolding after_fetched markers_after after upsert_consumer_offset with_deltas
marked-after_fetched c db [] = tt
marked-after_fetched c db (e ∷ es) =
    unfold marked in
    All-map (e ∷ es)
      (λ x h. ground (arith, marked-after db.processed_rollup_events c (e ∷ es) x.id, h))
      (All-contains ℕ_discrete (λ (x : RawEvent). x.id) (e ∷ es))

pub raw_events-after_fetched :
    (c : String) (db : Database) (events : List RawEvent)
    → (after_fetched c db events).raw_events ≡ db.raw_events
unfolding after_fetched
raw_events-after_fetched c db [] = refl
raw_events-after_fetched c db (e ∷ es) = raw_events-after c db e es []

-- the tables after a batch, with the offset back where it was
unfoldable pub rewound : Settings → Database → Database
rewound s db = record (committed db (process_batch s db)) { consumer_offsets = db.consumer_offsets }

pub committed-batch :
    (s : Settings) (db : Database)
    → IsDistinct ℕ_discrete (ids db.raw_events)
    → committed db (process_batch s db) ≡ after_fetched s.worker_id db (fetch s db)
unfolding committed
committed-batch s db d = rw (process_batch-ok s db d)

module _ (s : Settings) (db : Database) (d : IsDistinct ℕ_discrete (ids db.raw_events)) where
  raw_events-rewound : (rewound s db).raw_events ≡ db.raw_events
  unfolding rewound
  raw_events-rewound =
      rw (committed-batch s db d) (raw_events-after_fetched s.worker_id db (fetch s db))

  marked-rewound : AllMarked (rewound s db).processed_rollup_events s.worker_id (fetch s db)
  unfolding rewound
  marked-rewound = rw (committed-batch s db d) (marked-after_fetched s.worker_id db (fetch s db))

  fetch-rewound : fetch s (rewound s db) ≡ fetch s db
  unfolding fetch get_consumer_offset rewound
  fetch-rewound =
      ap
        (λ raw.
          get_events_after raw
            (last_event_id_of (get String_discrete s.worker_id db.consumer_offsets))
            s.worker_batch_size)
        raw_events-rewound

-- If the stored events have distinct ids: processing a batch a second time, from the same offset,
-- fetches the same events, counts none of them, and changes nothing but the offset.
pub process_batch-rewound :
    (s : Settings) (db : Database)
    → IsDistinct ℕ_discrete (ids db.raw_events)
    → (offsets : Dict String ConsumerOffset) × (process_batch s (rewound s db)
        ≡ ok (
          record (rewound s db) { consumer_offsets = offsets },
          record { events = fetch s db; new_events = [] },
        ))
process_batch-rewound s db d =
    let same = fetch-rewound s db d in
    let (offsets, e) =
      process_batch-marked s (rewound s db) (rw (raw_events-rewound s db d) d)
        (rw same (marked-rewound s db d)) in
    (offsets, rw same at e)
