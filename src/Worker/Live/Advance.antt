-- ===== src/Worker/Live/Advance.antt =====
-- A batch moves the cursor past exactly what it read.
use mathlib.Core.List.{Perm, map-append}
use mathlib.Core.List.Perm
use analytics_pipeline.Prelude.{
  ℕ, ◌≤◌, true, false, List, [], ◌∷◌, ◌++◌, Option, some, length, All, All-map, All-contains,
  All-last_of, number_of, number_of-append, number_of-perm, number_of_none, number_of-le-length,
  contains, contains-append, IsDistinct, IsDistinct-perm, IsDistinct-append_inv, ℕ_discrete, ◌≡◌,
  ap, subst, ◌∙◌, arith, last_of, IsSorted, IsSorted-append_inv, All-append_inv,
}
use analytics_pipeline.Moment.{micros, at_most, before}
use analytics_pipeline.Records.{RawEvent}
use analytics_pipeline.Worker.Fetch.{get_events_after, later_than, created_at_of, by_created_at}
use analytics_pipeline.Worker.Live.Pending.{
  is_pending, moments, in_order, in_order-IsSorted, in_order-append, in_order-pending, passed,
  passed-pending, raw-perm, later-passed, sorted-last, left,
}

-- of events at or after `l`, none of its moment, all are after it
strictly-after :
    (l : RawEvent) (es : List RawEvent)
    → All (λ e. by_created_at l e ≡ true) es
    → contains ℕ_discrete (micros l.created_at) (moments es) ≡ false
    → All (λ e. before l.created_at e.created_at ≡ true) es
unfolding contains by_created_at at_most before
strictly-after l [] h k = tt
strictly-after l (e ∷ es) h k = (ground (arith, h.0), strictly-after l es h.1 (ground arith))

-- The fetch read `x ∷ xs`; its last event is where the cursor goes.
module _ (raw : List RawEvent) (last : Option ℕ) (limit : ℕ) (x : RawEvent) (xs : List RawEvent)
    (read : get_events_after raw last limit ≡ x ∷ xs) where
  whole : in_order raw last ≡ (x ∷ xs) ++ left raw last limit
  whole = in_order-append raw last limit ∙ ap (λ f. f ++ left raw last limit) read

  table : Perm raw ((x ∷ xs) ++ (left raw last limit ++ passed raw last))
  table =
      subst (λ f. Perm raw (f ++ (left raw last limit ++ passed raw last))) read
        (raw-perm raw last limit)

  sorted : IsSorted by_created_at ((x ∷ xs) ++ left raw last limit)
  sorted = subst (IsSorted by_created_at) whole (in_order-IsSorted raw last)

  parts :
      IsSorted by_created_at (x ∷ xs)
      × All (λ a. All (λ b. by_created_at a b ≡ true) (left raw last limit)) (x ∷ xs)
  parts = IsSorted-append_inv by_created_at (x ∷ xs) (left raw last limit) sorted

  last-pending : is_pending raw last (last_of x xs) ≡ true
  last-pending =
      let pending : All (λ e. is_pending raw last e ≡ true) ((x ∷ xs) ++ left raw last limit) =
        subst (All (λ e. is_pending raw last e ≡ true)) whole (in_order-pending raw last) in
      All-last_of (λ e. is_pending raw last e ≡ true) x xs
        (All-append_inv (λ e. is_pending raw last e ≡ true) (x ∷ xs) (left raw last limit)
          pending).0

  -- what was passed stays passed
  pub passed-after :
      All (λ e. before (last_of x xs).created_at e.created_at ≡ false) (passed raw last)
  passed-after =
      All-map (passed raw last) (λ e h. later-passed raw last (last_of x xs) e last-pending h)
        (passed-pending raw last)

  -- no more is pending than what the fetch left
  pub number_of-pending-after :
      created_at_of (last_of x xs).id raw ≡ some (last_of x xs).created_at
      → number_of (is_pending raw (some (last_of x xs).id)) raw ≤ length (left raw last limit)
  unfolding is_pending later_than
  number_of-pending-after at =
      let p = λ (e : RawEvent). before (last_of x xs).created_at e.created_at in
      let rest = left raw last limit in
      let pending : is_pending raw (some (last_of x xs).id) ≡ p = ap later_than at in
      ground (
        arith,
        ap (λ q. number_of q raw) pending,
        number_of-perm p table,
        number_of-append p (x ∷ xs) (rest ++ passed raw last),
        number_of-append p rest (passed raw last),
        number_of_none p (x ∷ xs) (sorted-last x xs parts.0),
        number_of_none p (passed raw last) passed-after,
        number_of-le-length p rest,
      )

  -- and all of that is pending, if no two events have one moment of creation
  pub left-after :
      IsDistinct ℕ_discrete (moments raw)
      → All (λ e. before (last_of x xs).created_at e.created_at ≡ true) (left raw last limit)
  left-after h =
      let l = last_of x xs in
      let rest = left raw last limit ++ passed raw last in
      let moment = λ (e : RawEvent). micros e.created_at in
      let apart = IsDistinct-append_inv ℕ_discrete (moments (x ∷ xs)) (moments rest) (
        subst (IsDistinct ℕ_discrete) (map-append moment (x ∷ xs) rest)
          (IsDistinct-perm ℕ_discrete (Perm.map moment table) h)) in
      let own =
        All-last_of (λ e. contains ℕ_discrete (moment e) (moments (x ∷ xs)) ≡ true) x xs
          (All-contains ℕ_discrete moment (x ∷ xs)) in
      strictly-after l (left raw last limit)
        (All-last_of (λ a. All (λ b. by_created_at a b ≡ true) (left raw last limit)) x xs parts.1)
        (ground (
          arith,
          apart.2 (moment l) own,
          map-append moment (left raw last limit) (passed raw last),
          contains-append ℕ_discrete (moment l) (moments (left raw last limit))
              (moments (passed raw last)),
        ))
