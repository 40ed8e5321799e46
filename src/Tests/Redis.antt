-- ===== src/Tests/Redis.antt =====
-- A server of sorted sets and texts that is two maps.
use analytics_pipeline.Prelude.{
  ℕ, ◌+◌, String, Dict, Option, none, some, get, update, get-update, String_discrete, ◌≡◌, refl, ap,
  ◌∙◌, if_pos, if_neg,
}
use analytics_pipeline.Board.SortedSets.{SortedSets}
use analytics_pipeline.Redis.Strings.{Strings}
use analytics_pipeline.Tests.Board.{Sets, server}
use analytics_pipeline.Tests.Unary.{strokes, number_of_strokes, number_of_strokes-strokes}

pub record Store : Type 0 where
  pub sets : Sets
  pub texts : Dict String String

abbrev pub sorted_sets : SortedSets Store
sorted_sets = record {
  zscore = λ p m s. server.zscore p m s.sets;
  zincrby = λ p amount m s. record s { sets = server.zincrby p amount m s.sets };
  expire = λ p seconds s. s;
  delete = λ p s. record s { sets = server.delete p s.sets };
  zadd = λ p m score s. record s { sets = server.zadd p m score s.sets };
  exists = λ p s. server.exists p s.sets;
  incr = λ counter s. s;
  zrevrange = λ p n s. server.zrevrange p n s.sets;
  zscore-zincrby =
      λ period p merchant amount m s. server.zscore-zincrby period p merchant amount m s.sets;
  zscore-expire = λ period p seconds m s. refl;
  zscore-delete = λ period p m s. server.zscore-delete period p m s.sets;
  zscore-zadd = λ period p merchant score m s. server.zscore-zadd period p merchant score m s.sets;
  exists-zscore = λ period m score s h. server.exists-zscore period m score s.sets h;
}

abbrev pub write : String → (Option String → String) → Store → Store
write k f s = record s { texts = update String_discrete k f s.texts }

-- one more than what stands there
abbrev pub raised : ℕ → Option String → String
raised n none = strokes n
raised n (some old) = strokes (number_of_strokes old + n)

pub incrby-present :
    (k : String) (n m : ℕ) (d : Dict String String)
    → get String_discrete k d ≡ some (strokes m)
    → get String_discrete k (update String_discrete k (raised n) d) ≡ some (strokes (m + n))
incrby-present k n m d h =
    get-update String_discrete k k (raised n) d
    ∙ if_pos (String_discrete k k) refl _ _
    ∙ ap (λ o. some (raised n o)) h
    ∙ ap (λ x. some (strokes (x + n))) (number_of_strokes-strokes m)

abbrev pub texts : Strings Store
texts = record {
  get = λ k s. get String_discrete k s.texts;
  set = λ k value seconds s. write k (λ _. value) s;
  incrby = λ k n s. write k (raised n) s;
  expire = λ k seconds s. s;
  decimal = strokes;
  int = λ t. some (number_of_strokes t);
  int-decimal = λ n. ap some (number_of_strokes-strokes n);
  get-set = λ k j value seconds s. get-update String_discrete k j (λ _. value) s.texts;
  get-expire = λ k j seconds s. refl;
  incrby-absent = λ k n s h.
      get-update String_discrete k k (raised n) s.texts
      ∙ if_pos (String_discrete k k) refl _ _
      ∙ ap (λ o. some (raised n o)) h;
  incrby-present = λ k n m s h. incrby-present k n m s.texts h;
  incrby-other = λ k j n s apart.
      get-update String_discrete k j (raised n) s.texts ∙ if_neg (String_discrete k j) apart _ _;
}
