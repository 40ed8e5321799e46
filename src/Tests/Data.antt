-- ===== src/Tests/Data.antt =====
-- A morning of payments, as the tests of the repository have them.
use analytics_pipeline.Prelude.{ℕ, List, [], ◌∷◌, none}
use analytics_pipeline.Moment.{Datetime}
use analytics_pipeline.Records.{RawEvent}
use analytics_pipeline.Settings.{Settings, default_settings}
use analytics_pipeline.Database.{Database, empty_database}

abbrev pub at : ℕ → ℕ → ℕ → Datetime
at hour minute second = record {
  year = 2026;
  month = 5;
  day = 12;
  hour = hour;
  minute = minute;
  second = second;
  microsecond = 123456;
}

abbrev pub payment : ℕ → ℕ → Datetime → RawEvent
payment id amount when = record {
  id = id;
  event_type = "PAYMENT_CONFIRMED";
  merchant_id = 7;
  amount_cents = amount;
  currency = "EUR";
  idempotency_key = "key";
  occurred_at = when;
  client_timestamp = none;
  metadata = none;
  created_at = when;
}

abbrev pub first : RawEvent
first = payment 1 1000 (at 14 37 42)

abbrev pub second : RawEvent
second = payment 2 250 (at 14 37 50)

-- of the same transaction as `second`
abbrev pub third : RawEvent
third = payment 3 4000 (at 14 37 50)

abbrev pub small_batches : Settings
small_batches = record default_settings { worker_batch_size = 2 }

abbrev pub stored : List RawEvent → Database
stored es = record (empty_database (7 ∷ [])) { raw_events = es }
