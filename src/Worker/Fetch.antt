-- ===== src/Worker/Fetch.antt =====
-- `get_events_after` of app/repositories/event_repository.py.
pub mod Split
use analytics_pipeline.Prelude.{
  ℕ, Bool, true, List, [], ◌∷◌, Option, none, some, ite, leb, ltb, if◌then◌else◌, ℕ_discrete, take,
  filter, sort_by,
}
use analytics_pipeline.Moment.{Datetime, micros, at_most, before}
use analytics_pipeline.Records.{RawEvent}

-- ORDER BY created_at
unfoldable pub by_created_at : RawEvent → RawEvent → Bool
by_created_at a b = at_most a.created_at b.created_at

-- ORDER BY created_at, id
unfoldable pub by_created_at_id : RawEvent → RawEvent → Bool
by_created_at_id a b =
    if before a.created_at b.created_at
    then true
    else if before b.created_at a.created_at
    then Bool.false
    else leb a.id b.id

-- SELECT created_at FROM raw_events WHERE id = :last_event_id. Event ids are distinct
-- (Ingest.Idempotency), so there is one row at most.
unfoldable pub created_at_of : ℕ → List RawEvent → Option Datetime
created_at_of id [] = none
created_at_of id (e ∷ es) = ite (ℕ_discrete e.id id) (some e.created_at) (created_at_of id es)

-- WHERE created_at > (subquery): with no row in the subquery the comparison is NULL, and no row
-- passes.
unfoldable pub later_than : Option Datetime → RawEvent → Bool
later_than none e = Bool.false
later_than (some t) e = before t e.created_at

unfoldable pub get_events_after : List RawEvent → Option ℕ → ℕ → List RawEvent
get_events_after raw none limit = take limit (sort_by by_created_at raw)
get_events_after raw (some last_event_id) limit =
    take limit
      (sort_by by_created_at_id (filter (later_than (created_at_of last_event_id raw)) raw))
