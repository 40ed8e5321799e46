-- ===== src/Records.antt =====
-- app/models/orm.py and app/models/schemas.py: the rows of the tables, and what the routes take and
-- return. A UUID is its number. Columns that no code reads back (`updated_at`, `processed_at`,
-- `created_at` outside raw_events) are left out.
use analytics_pipeline.Prelude.{ℕ, String, Option, String_discrete, ℕ_discrete}
use analytics_pipeline.Moment.{Datetime, Datetime_discrete}

pub data EventType : Type 0 where
  payment_initiated payment_confirmed payment_failed : EventType

-- the text of the enumeration's member, as it is stored
unfoldable pub value : EventType → String
value EventType.payment_initiated = "PAYMENT_INITIATED"
value EventType.payment_confirmed = "PAYMENT_CONFIRMED"
value EventType.payment_failed = "PAYMENT_FAILED"

-- A row of raw_events. `metadata` is the JSON text, which the program stores and never reads.
pub record RawEvent : Type 0 where
  pub id : ℕ
  pub event_type : String
  pub merchant_id : ℕ
  pub amount_cents : ℕ
  pub currency : String
  pub idempotency_key : String
  pub occurred_at : Datetime
  pub client_timestamp : Option Datetime
  pub metadata : Option String
  pub created_at : Datetime

-- The body of POST /events, after validation.
pub record EventIngest : Type 0 where
  pub event_type : EventType
  pub merchant_id : ℕ
  pub amount_cents : ℕ
  pub currency : String
  pub idempotency_key : String
  pub client_timestamp : Option Datetime
  pub metadata : Option String

-- The primary key of each rollup table.
pub record RollupKey : Type 0 where
  pub merchant_id : ℕ
  pub bucket : Datetime
  pub event_type : String

unfoldable pub RollupKey_discrete : Discrete RollupKey
unfolding String_discrete ℕ_discrete Datetime_discrete
RollupKey_discrete = hlevel (ℕ_discrete, String_discrete, Datetime_discrete)

-- The other columns of a rollup row.
pub record RollupRow : Type 0 where
  pub count : ℕ
  pub amount_sum_cents : ℕ
  pub amount_min_cents : ℕ
  pub amount_max_cents : ℕ

-- A row of consumer_offsets, behind its consumer_id.
pub record ConsumerOffset : Type 0 where
  pub last_event_id : Option ℕ
  pub last_event_at : Option Datetime

pub data RollupGranularity : Type 0 where
  minute hour day : RollupGranularity
