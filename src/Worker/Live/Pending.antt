-- ===== src/Worker/Live/Pending.antt =====
-- The events that a cursor has not passed, and what a fetch does to them.
use mathlib.Core.List.{Perm, append-nil}
use analytics_pipeline.Prelude.{
  ℕ, zero, suc, ◌+◌, ◌≤◌, Bool, true, false, not, List, [], ◌∷◌, ◌++◌, Option, none, some, map,
  take, drop, take-append-drop, length, filter, All, All-map, All-append_inv, All-filter,
  All-last_of, number_of, number_of-append, number_of-perm, number_of-All, number_of_none, ◌≡◌,
  refl, sym, ap, ◌∙◌, arith, last_of, sort_by, IsSorted, sort_by-IsSorted, sort_by-All,
  Option-cases, inl, inr,
}
use analytics_pipeline.Moment.{micros, before, at_most}
use analytics_pipeline.Records.{RawEvent}
use analytics_pipeline.Worker.Fetch.{
  get_events_after, later_than, created_at_of, by_created_at, by_created_at_id,
}
use analytics_pipeline.Worker.Fetch.Split.{not_fetched, get_events_after-perm}

-- the worker has still to read the event
unfoldable pub is_pending : List RawEvent → Option ℕ → RawEvent → Bool
is_pending raw none e = true
is_pending raw (some id) e = later_than (created_at_of id raw) e

-- the moments of creation, in microseconds
abbrev pub moments : List RawEvent → List ℕ
moments = map (λ e. micros e.created_at)

by_created_at-total : (a b : RawEvent) → by_created_at a b ≡ false → by_created_at b a ≡ true
unfolding by_created_at at_most
by_created_at-total a b h = ground arith

by_created_at_trans :
    (a b c : RawEvent)
    → by_created_at a b ≡ true
    → by_created_at b c ≡ true
    → by_created_at a c ≡ true
unfolding by_created_at at_most
by_created_at_trans a b c h k = ground arith

by_created_at_id-total :
    (a b : RawEvent) → by_created_at_id a b ≡ false → by_created_at_id b a ≡ true
unfolding by_created_at_id before
by_created_at_id-total a b h = ground arith

by_created_at_id_trans :
    (a b c : RawEvent)
    → by_created_at_id a b ≡ true
    → by_created_at_id b c ≡ true
    → by_created_at_id a c ≡ true
unfolding by_created_at_id before
by_created_at_id_trans a b c h k = ground arith

by_created_at_id-by_created_at :
    (a b : RawEvent) → by_created_at_id a b ≡ true → by_created_at a b ≡ true
unfolding by_created_at_id by_created_at before at_most
by_created_at_id-by_created_at a b h = ground arith

-- the pending events in the order in which a fetch reads them
unfoldable pub in_order : List RawEvent → Option ℕ → List RawEvent
in_order raw none = sort_by by_created_at raw
in_order raw (some id) = sort_by by_created_at_id (filter (later_than (created_at_of id raw)) raw)

-- and the events that are not pending
unfoldable pub passed : List RawEvent → Option ℕ → List RawEvent
passed raw none = []
passed raw (some id) = filter (λ e. not (later_than (created_at_of id raw) e)) raw

pub get_events_after-take :
    (raw : List RawEvent) (last : Option ℕ) (limit : ℕ)
    → get_events_after raw last limit ≡ take limit (in_order raw last)
unfolding get_events_after in_order
get_events_after-take raw none limit = refl
get_events_after-take raw (some id) limit = refl

IsSorted-map :
    {le le' : RawEvent → RawEvent → Bool} (xs : List RawEvent)
    → ((a b : RawEvent) → le a b ≡ true → le' a b ≡ true)
    → IsSorted le xs
    → IsSorted le' xs
IsSorted-map [] f h = tt
IsSorted-map (x ∷ xs) f h = (All-map xs (f x) h.0, IsSorted-map xs f h.1)

pub in_order-IsSorted :
    (raw : List RawEvent) (last : Option ℕ) → IsSorted by_created_at (in_order raw last)
unfolding in_order
in_order-IsSorted raw none =
    sort_by-IsSorted by_created_at by_created_at-total by_created_at_trans raw
in_order-IsSorted raw (some id) =
    let kept = filter (later_than (created_at_of id raw)) raw in
    IsSorted-map (sort_by by_created_at_id kept) by_created_at_id-by_created_at
      (sort_by-IsSorted by_created_at_id by_created_at_id-total by_created_at_id_trans kept)

All-true : (xs : List RawEvent) → All (λ e. true ≡ true) xs
All-true [] = tt
All-true (x ∷ xs) = (refl, All-true xs)

pub in_order-pending :
    (raw : List RawEvent) (last : Option ℕ)
    → All (λ e. is_pending raw last e ≡ true) (in_order raw last)
unfolding in_order is_pending
in_order-pending raw none = All-true (sort_by by_created_at raw)
in_order-pending raw (some id) =
    let later = later_than (created_at_of id raw) in
    sort_by-All (λ e. later e ≡ true) by_created_at_id (filter later raw) (All-filter later raw)

pub passed-pending :
    (raw : List RawEvent) (last : Option ℕ)
    → All (λ e. is_pending raw last e ≡ false) (passed raw last)
unfolding passed is_pending
passed-pending raw none = tt
passed-pending raw (some id) =
    let later = later_than (created_at_of id raw) in
    All-map (filter (λ e. not (later e)) raw) (λ e h. ground (arith, h))
      (All-filter (λ e. not (later e)) raw)

-- an event that a cursor passed is passed by a later cursor
pub later-passed :
    (raw : List RawEvent) (last : Option ℕ) (l e : RawEvent)
    → is_pending raw last l ≡ true
    → is_pending raw last e ≡ false
    → before l.created_at e.created_at ≡ false
unfolding is_pending later_than before
later-passed raw none l e p q = ground arith
later-passed raw (some id) l e p q = elim (Option-cases (created_at_of id raw)) [
  | inl n ↦ ground (arith, n)
  | inr s ↦ ground (arith, s.1)
]

-- nothing of a sorted list is after its last element
pub sorted-last :
    (x : RawEvent) (xs : List RawEvent)
    → IsSorted by_created_at (x ∷ xs)
    → All (λ e. before (last_of x xs).created_at e.created_at ≡ false) (x ∷ xs)
unfolding by_created_at at_most before
sorted-last x [] h = (ground arith, tt)
sorted-last x (y ∷ ys) h =
    let rest = sorted-last y ys h.1 in
    (ground (arith, All-last_of (λ z. by_created_at x z ≡ true) y ys h.0), rest)

-- the pending events that the fetch leaves
unfoldable pub left : List RawEvent → Option ℕ → ℕ → List RawEvent
left raw last limit = drop limit (in_order raw last)

-- the table: the fetched events, the pending events after them, and the events passed before
pub raw-perm :
    (raw : List RawEvent) (last : Option ℕ) (limit : ℕ)
    → Perm raw (get_events_after raw last limit ++ (left raw last limit ++ passed raw last))
raw-perm raw none limit =
    unfold passed left in
    rw append-nil (unfold not_fetched in_order in get_events_after-perm raw none limit)
raw-perm raw (some id) limit =
    unfold not_fetched in_order passed left in get_events_after-perm raw (some id) limit

module _ (raw : List RawEvent) (last : Option ℕ) (limit : ℕ) where
  pub in_order-append : in_order raw last ≡ get_events_after raw last limit ++ left raw last limit
  unfolding left
  in_order-append =
      rw (get_events_after-take raw last limit) (sym (take-append-drop limit (in_order raw last)))

  pub number_of-pending :
      number_of (is_pending raw last) raw
      ≡ length (get_events_after raw last limit) + length (left raw last limit)
  number_of-pending =
      let left' = left raw last limit in
      let fetched = get_events_after raw last limit in
      let p = is_pending raw last in
      let pending =
        All-append_inv (λ e. p e ≡ true) fetched left'
          (rw (← in_order-append) (in_order-pending raw last)) in
      ground (
        arith,
        number_of-perm p (raw-perm raw last limit),
        number_of-append p fetched (left' ++ passed raw last),
        number_of-append p left' (passed raw last),
        number_of-All p fetched pending.0,
        number_of-All p left' pending.1,
        number_of_none p (passed raw last) (passed-pending raw last),
      )

length-drop_none :
    {A : Type 0} (n : ℕ) (xs : List A) → 1 ≤ n → take n xs ≡ [] → length (drop n xs) ≡ 0
length-drop_none zero xs h e = ground (arith, h)
length-drop_none (suc n) [] h e = refl
length-drop_none (suc n) (x ∷ xs) h e = ground (arith, e)

-- A fetch of at least one event that reads none has left none.
pub pending_none :
    (raw : List RawEvent) (last : Option ℕ) (limit : ℕ)
    → 1 ≤ limit
    → get_events_after raw last limit ≡ []
    → number_of (is_pending raw last) raw ≡ 0
unfolding left
pending_none raw last limit h e = ground (
  arith,
  number_of-pending raw last limit,
  ap length e,
  length-drop_none limit (in_order raw last) h (sym (get_events_after-take raw last limit) ∙ e),
)
