-- ===== src/Query/Again.antt =====
-- The second of two calls of `get_merchant_metrics` of app/services/query_service.py.
use analytics_pipeline.Prelude.{
  String_discrete, contains, ℕ, Option, none, some, ◌≡◌, refl, sym, subst,
}
use analytics_pipeline.Result.{Result, ok, err, type_error, ◌>>=◌}
use analytics_pipeline.Settings.{Settings}
use analytics_pipeline.Moment.{Datetime}
use analytics_pipeline.Database.{Database}
use analytics_pipeline.Query.Metrics.{
  MetricsResponse, CachedMetrics, MetricsCache, model_dump, if_cached, rebuild, query_rollups,
  respond, get_merchant_metrics,
}

-- what is left in the cache is the response of the call
IsDump : Result (MetricsResponse × Option (CachedMetrics × ℕ)) → Type 0
IsDump (ok (response, some (entry, ttl))) = entry ≡ model_dump response
IsDump (ok (response, none)) = Unit {0}
IsDump (err e) = Unit {0}

bind-IsDump :
    {A : Type 0} (r : Result A) (f : A → Result (MetricsResponse × Option (CachedMetrics × ℕ)))
    → ((a : A) → IsDump (f a))
    → IsDump (r >>= f)
unfolding IsDump
bind-IsDump (ok a) f h = h a
bind-IsDump (err e) f h = tt

module _ (settings : Settings) (redis : MetricsCache) (merchant : ℕ) (start end : Datetime)
    (db : Database) where
  respond-IsDump :
      (found : Option CachedMetrics) → IsDump (respond settings redis merchant start end db found)
  unfolding respond query_rollups IsDump
  respond-IsDump none =
      bind-IsDump redis.counted _ (λ counted. bind-IsDump redis.stored _ (λ stored. refl))
  respond-IsDump (some cached) =
      bind-IsDump redis.counted _ (λ counted. bind-IsDump (rebuild cached) _ (λ response. tt))

  get_merchant_metrics-IsDump : IsDump (get_merchant_metrics settings redis merchant start end db)
  unfolding get_merchant_metrics
  get_merchant_metrics-IsDump =
      bind-IsDump redis.lookup _ (λ found. respond-IsDump (if_cached found))

-- the dict of a response is not empty, and clashes with what the call gives
model_dump-clash :
    (entry : CachedMetrics) (response : MetricsResponse)
    → entry ≡ model_dump response
    → (if_cached (some entry) ≡ some entry) × (rebuild entry ≡ err type_error)
unfolding if_cached rebuild model_dump contains String_discrete
model_dump-clash entry response e =
    subst (λ c. (if_cached (some c) ≡ some c) × (rebuild c ≡ err type_error)) (sym e) (refl, refl)

-- Of two calls for the same range with the same merchant, let Redis have in the second what the
-- first has left there, and count the hit. If the first has left anything, the second raises a
-- TypeError, whatever became of the tables: the dict has keys that the call gives as well.
pub get_merchant_metrics-again :
    (settings : Settings) (redis later : MetricsCache) (merchant : ℕ) (start end : Datetime)
    (db changed : Database) (response : MetricsResponse) (entry : CachedMetrics) (ttl : ℕ)
    → get_merchant_metrics settings redis merchant start end db ≡ ok (response, some (entry, ttl))
    → later.lookup ≡ ok (some entry)
    → later.counted ≡ ok tt
    → get_merchant_metrics settings later merchant start end changed ≡ err type_error
unfolding get_merchant_metrics respond IsDump
get_merchant_metrics-again settings redis later merchant start end db changed response entry ttl h
      found counted =
    let dumped : entry ≡ model_dump response =
      subst IsDump h (get_merchant_metrics-IsDump settings redis merchant start end db) in
    let (given, clash) = model_dump-clash entry response dumped in
    rw (found, given, counted, clash) refl
