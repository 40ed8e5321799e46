-- ===== src/Rollup/Buckets.antt =====
-- The bucket helpers of app/workers/rollup_worker.py.
use analytics_pipeline.Prelude.{ℕ, ◌*◌, ◌/◌, ◌≡◌, refl, none, some, arith}
use analytics_pipeline.Moment.{Datetime, HasClockTime, micros}
use analytics_pipeline.Records.{RawEvent, RollupKey, RollupGranularity, minute, hour, day}

unfoldable pub minute_bucket : Datetime → Datetime
minute_bucket ts = record ts { second = 0; microsecond = 0 }

unfoldable pub hour_bucket : Datetime → Datetime
hour_bucket ts = record ts { minute = 0; second = 0; microsecond = 0 }

unfoldable pub day_bucket : Datetime → Datetime
day_bucket ts = record ts { hour = 0; minute = 0; second = 0; microsecond = 0 }

-- event.client_timestamp or event.occurred_at
unfoldable pub bucket_ts : RawEvent → Datetime
bucket_ts event = elim event.client_timestamp [ none ↦ event.occurred_at | some ts ↦ ts ]

-- the bucket of a granularity
unfoldable pub bucket_of : RollupGranularity → Datetime → Datetime
unfolding minute_bucket hour_bucket day_bucket
bucket_of minute ts = minute_bucket ts
bucket_of hour ts = hour_bucket ts
bucket_of day ts = day_bucket ts

-- the key that an event is counted under
unfoldable pub rollup_key : RollupGranularity → RawEvent → RollupKey
unfolding bucket_of bucket_ts
rollup_key g event = record {
  merchant_id = event.merchant_id;
  bucket = bucket_of g (bucket_ts event);
  event_type = event.event_type;
}

-- the length of a bucket, in microseconds
abbrev pub width : RollupGranularity → ℕ
width minute = 60000000
width hour = 3600000000
width day = 86400000000

-- A bucket starts at the last multiple of its width that is not after the moment.
pub micros-bucket_of :
    (g : RollupGranularity) (ts : Datetime)
    → HasClockTime ts
    → micros (bucket_of g ts) ≡ micros ts / width g * width g
unfolding micros bucket_of
micros-bucket_of minute ts h = omega arith
micros-bucket_of hour ts h = omega arith
micros-bucket_of day ts h = omega arith

-- A coarser bucket depends on the finer bucket alone: two moments of one minute are in one hour.
pub bucket_of-minute_bucket :
    (g : RollupGranularity) (ts : Datetime) → bucket_of g (bucket_of minute ts) ≡ bucket_of g ts
unfolding bucket_of
bucket_of-minute_bucket minute ts = refl
bucket_of-minute_bucket hour ts = refl
bucket_of-minute_bucket day ts = refl
