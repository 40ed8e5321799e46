-- ===== src/Ingest/Served.antt =====
-- Sequences of requests of POST /events: each idempotency key has one event at most.
use analytics_pipeline.Prelude.{
  ℕ, String, true, List, [], ◌∷◌, some, map, get, contains, All, IsDistinct, ℕ_discrete,
  String_discrete, ◌≡◌, arith, Dict,
}
use analytics_pipeline.Result.{Result}
use analytics_pipeline.Moment.{Datetime}
use analytics_pipeline.Records.{RawEvent, EventIngest}
use analytics_pipeline.Database.{Database, empty_database}
use analytics_pipeline.Worker.Batch.{ids}
use analytics_pipeline.Ingest.Single.{IsKeyed, IsFresh}
use analytics_pipeline.Ingest.Service.{Counters, post_event}
use analytics_pipeline.Ingest.Requests.{post_event-IsKeyed}

abbrev pub keys : List RawEvent → List String
keys = map (λ e. e.idempotency_key)

-- a key among the rows is the key of a row whose id the claims give it
key_claimed :
    (d : Dict String ℕ) (key : String) (id : ℕ) (raw : List RawEvent)
    → All (λ e. get String_discrete e.idempotency_key d ≡ some e.id) raw
    → get String_discrete key d ≡ some id
    → contains String_discrete key (keys raw) ≡ true
    → contains ℕ_discrete id (ids raw) ≡ true
unfolding contains
key_claimed d key id [] h k c = c
key_claimed d key id (e ∷ es) h k c = ground (arith, h.0, key_claimed d key id es h.1 k)

keys-IsDistinct :
    (d : Dict String ℕ) (raw : List RawEvent)
    → IsDistinct ℕ_discrete (ids raw)
    → All (λ e. get String_discrete e.idempotency_key d ≡ some e.id) raw
    → IsDistinct String_discrete (keys raw)
keys-IsDistinct d [] dis h = tt
keys-IsDistinct d (e ∷ es) dis h = (
  ground (arith, key_claimed d e.idempotency_key e.id es h.1 h.0),
  keys-IsDistinct d es dis.1 h.1,
)

-- The databases that requests make of an empty one. Redis may fail each of them.
pub data Served (merchants : List ℕ) : Database → Type 0 where
  fresh_start : Served merchants (empty_database merchants)
  request :
      {db : Database} (redis : Result (Unit {0})) (id : ℕ) (at now : Datetime) (event : EventIngest)
      (counters : Counters)
      → Served merchants db
      → IsFresh id db
      → Served merchants (post_event redis id at now event db counters).1

pub Served-IsKeyed : (merchants : List ℕ) (db : Database) → Served merchants db → IsKeyed db
unfolding get
Served-IsKeyed merchants db fresh_start = record {
  distinct = tt;
  claimed = λ key id h. ground arith;
  keyed = tt;
}
Served-IsKeyed merchants db (request {db = before} redis id at now event counters s fresh) =
    post_event-IsKeyed id at now event before redis counters (Served-IsKeyed merchants before s)
      fresh

-- However many requests to POST /events with fresh ids there were from an empty database on, and
-- whichever of them failed, no two stored events have the same idempotency key, and no two have the
-- same id.
pub Served-IsDistinct :
    (merchants : List ℕ) (db : Database)
    → Served merchants db
    → IsDistinct String_discrete (keys db.raw_events) × IsDistinct ℕ_discrete (ids db.raw_events)
Served-IsDistinct merchants db s =
    let agree = Served-IsKeyed merchants db s in
    (keys-IsDistinct db.event_idempotency db.raw_events agree.distinct agree.keyed, agree.distinct)
