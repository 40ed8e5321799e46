-- ===== src/Rollup/Aligned.antt =====
-- Buckets: moments that their own truncation leaves alone.
use analytics_pipeline.Prelude.{ℕ, ◌-◌, ◌*◌, ◌/◌, ◌≤◌, ◌<◌, ◌≡◌, refl, sym, ap, ◌∙◌, arith}
use analytics_pipeline.Moment.{Datetime, micros}
use analytics_pipeline.Moment.Calendar.{IsMoment, micros_inj}
use analytics_pipeline.Records.{RollupGranularity, minute, hour, day}
use analytics_pipeline.Rollup.Buckets.{bucket_of, width, micros-bucket_of}

pub record IsAligned (g : RollupGranularity) (b : Datetime) : Type 0 where
  pub moment : IsMoment b
  pub own : bucket_of g b ≡ b

-- the same date, with a time of the day that exists
on_date :
    (ts : Datetime) (h m s u : ℕ)
    → IsMoment ts
    → h < 24
    → m < 60
    → s < 60
    → u < 1000000
    → IsMoment (record ts { hour = h; minute = m; second = s; microsecond = u })
on_date ts h m s u v hh hm hs hu = record {
  year_from = v.year_from;
  month_from = v.month_from;
  month_to = v.month_to;
  day_from = v.day_from;
  day_to = v.day_to;
  clock = record { hour_lt = hh; minute_lt = hm; second_lt = hs; microsecond_lt = hu };
}

pub bucket_of-IsAligned :
    (g : RollupGranularity) (ts : Datetime) → IsMoment ts → IsAligned g (bucket_of g ts)
unfolding bucket_of
bucket_of-IsAligned minute ts v = record {
  moment =
      on_date ts ts.hour ts.minute 0 0 v v.clock.hour_lt v.clock.minute_lt (omega arith)
        (omega arith);
  own = refl;
}
bucket_of-IsAligned hour ts v = record {
  moment = on_date ts ts.hour 0 0 0 v v.clock.hour_lt (omega arith) (omega arith) (omega arith);
  own = refl;
}
bucket_of-IsAligned day ts v = record {
  moment = on_date ts 0 0 0 0 v (omega arith) (omega arith) (omega arith) (omega arith);
  own = refl;
}

IsAligned-micros :
    (g : RollupGranularity) (b : Datetime) → IsAligned g b → micros b ≡ micros b / width g * width g
IsAligned-micros g b h = ap micros (sym h.own) ∙ micros-bucket_of g b h.moment.clock

-- the number of whole buckets between a moment and a bucket
unfoldable pub place : RollupGranularity → Datetime → Datetime → ℕ
place g start b = (micros b - micros start) / width g

-- Of the buckets from a moment on no two have the same place.
pub place_inj :
    (g : RollupGranularity) (start a b : Datetime)
    → IsAligned g a
    → IsAligned g b
    → micros start ≤ micros a
    → micros start ≤ micros b
    → place g start a ≡ place g start b
    → a ≡ b
unfolding place
place_inj minute start a b ha hb la lb h =
    micros_inj a b ha.moment hb.moment
      (omega (arith, h, IsAligned-micros minute a ha, IsAligned-micros minute b hb))
place_inj hour start a b ha hb la lb h =
    micros_inj a b ha.moment hb.moment
      (omega (arith, h, IsAligned-micros hour a ha, IsAligned-micros hour b hb))
place_inj day start a b ha hb la lb h =
    micros_inj a b ha.moment hb.moment
      (omega (arith, h, IsAligned-micros day a ha, IsAligned-micros day b hb))

-- and the last is as far as the end
pub place-le :
    (g : RollupGranularity) (start end b : Datetime)
    → micros b ≤ micros end
    → place g start b ≤ (micros end - micros start) / width g
unfolding place
place-le minute start end b h = omega arith
place-le hour start end b h = omega arith
place-le day start end b h = omega arith
