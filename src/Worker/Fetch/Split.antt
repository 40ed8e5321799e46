-- ===== src/Worker/Fetch/Split.antt =====
-- A fetch takes rows of the table, each once: the table is the fetched rows and the others.
use mathlib.Core.List.{Perm}
use mathlib.Core.List.Perm
use analytics_pipeline.Prelude.{
  ℕ, List, ◌++◌, Option, none, some, not, take, drop, take-append-drop, filter, filter-not-perm,
  sort_by, sort_by-perm, sym, subst,
}
use mathlib.Core.List.{append_assoc}
use analytics_pipeline.Records.{RawEvent}
use analytics_pipeline.Worker.Fetch.{
  get_events_after, by_created_at, by_created_at_id, later_than, created_at_of,
}

-- the rows that a fetch leaves
unfoldable pub not_fetched : List RawEvent → Option ℕ → ℕ → List RawEvent
not_fetched raw none limit = drop limit (sort_by by_created_at raw)
not_fetched raw (some id) limit =
    let later = later_than (created_at_of id raw) in
    drop limit (sort_by by_created_at_id (filter later raw)) ++ filter (λ e. not (later e)) raw

pub get_events_after-perm :
    (raw : List RawEvent) (last : Option ℕ) (limit : ℕ)
    → Perm raw (get_events_after raw last limit ++ not_fetched raw last limit)
unfolding get_events_after not_fetched
get_events_after-perm raw none limit =
    subst (λ (l : List RawEvent). Perm raw l)
      (sym (take-append-drop limit (sort_by by_created_at raw)))
      (Perm.symm (sort_by-perm by_created_at raw))
get_events_after-perm raw (some id) limit =
    let later = later_than (created_at_of id raw) in
    let sorted = sort_by by_created_at_id (filter later raw) in
    let rest = filter (λ e. not (later e)) raw in
    let split : Perm raw (sorted ++ rest) =
      Perm.trans (filter-not-perm later raw)
        (Perm.append_right rest (Perm.symm (sort_by-perm by_created_at_id (filter later raw)))) in
    rw (← append_assoc (take limit sorted) (drop limit sorted) rest, take-append-drop limit sorted)
      split
