-- ===== src/Nightly/Partitions.antt =====
-- `create_partitions` of scripts/create_partitions.py. A date is its ordinal number, and the
-- partition of a date is named by it; the tables are the dates that have a partition. The migrations
-- leave a default partition, raw_events_default: the dates of its rows are an argument.
use analytics_pipeline.Prelude.{
  ℕ, zero, suc, ◌+◌, ◌-◌, ◌<◌, true, false, List, [], ◌∷◌, ◌++◌, contains, contains-append,
  Bool-cases, inl, inr, ◌⊎◌, if◌then◌else◌, ℕ_discrete, ◌≡◌, refl, sym, ap, ◌∙◌, arith,
}
use analytics_pipeline.Result.{Result, ok, err, check_violation}

pub record Partitions : Type 0 where
  pub tables : List ℕ
  pub created : List ℕ
  pub skipped : List ℕ

-- One round of the loop: FOR VALUES FROM (date) TO (date + 1). PostgreSQL refuses a partition for
-- which the default partition holds a row. Each statement commits by itself.
unfoldable pub create_partition : List ℕ → ℕ → Partitions → Partitions × Result (Unit {0})
create_partition defaults date p =
    if contains ℕ_discrete date p.tables
    then (record p { skipped = p.skipped ++ date ∷ [] }, ok tt)
    else if contains ℕ_discrete date defaults
    then (p, err check_violation)
    else (record p { tables = p.tables ++ date ∷ []; created = p.created ++ date ∷ [] }, ok tt)

-- `n` dates from `date` on; an exception ends the script
unfoldable pub create_from : List ℕ → ℕ → ℕ → Partitions → Partitions × Result (Unit {0})
create_from defaults zero date p = (p, ok tt)
create_from defaults (suc n) date p =
    let (p', result) = create_partition defaults date p in
    let rest = create_from defaults n (date + 1) p' in
    elim result [ ok done ↦ rest | err e ↦ (p', err e) ]

-- range(-1, days_ahead + 1)
unfoldable pub create_partitions : ℕ → ℕ → List ℕ → List ℕ → Partitions × Result (Unit {0})
create_partitions today days_ahead defaults tables =
    create_from defaults (days_ahead + 2) (today - 1)
      (record { tables = tables; created = []; skipped = [] })

-- every one of `n` dates from `date` on has a partition
abbrev pub AreCovered : ℕ → ℕ → List ℕ → Type 0
AreCovered zero date tables = Unit {0}
AreCovered (suc n) date tables =
    (contains ℕ_discrete date tables ≡ true) × AreCovered n (date + 1) tables

-- The script is through with `n` dates from `date` on, or it has raised at one of them: at a date that
-- has no partition, and rows in the default partition, after all the dates before it.
abbrev pub IsDone : List ℕ → ℕ → ℕ → Partitions × Result (Unit {0}) → Type 0
IsDone defaults n date (p, result) =
    (result ≡ ok tt) × AreCovered n date p.tables
    ⊎ (k : ℕ) × (k < n)
      × (result ≡ err check_violation)
      × AreCovered k date p.tables
      × (contains ℕ_discrete (date + k) defaults ≡ true)
      × (contains ℕ_discrete (date + k) p.tables ≡ false)

-- a partition stays
create_partition-kept :
    (defaults : List ℕ) (date x : ℕ) (p : Partitions)
    → contains ℕ_discrete x p.tables ≡ true
    → contains ℕ_discrete x (create_partition defaults date p).0.tables ≡ true
unfolding create_partition
create_partition-kept defaults date x p h =
    ground (arith, h, contains-append ℕ_discrete x p.tables (date ∷ []))

create_from-kept :
    (defaults : List ℕ) (n date x : ℕ) (p : Partitions)
    → contains ℕ_discrete x p.tables ≡ true
    → contains ℕ_discrete x (create_from defaults n date p).0.tables ≡ true
unfolding create_from
create_from-kept defaults zero date x p h = h
create_from-kept defaults (suc n) date x p h =
    let one = create_partition defaults date p in
    let kept = create_partition-kept defaults date x p h in
    let rest = create_from-kept defaults n (date + 1) x one.0 kept in ground (arith, kept, rest)

-- one more date, before dates that are done
IsDone-suc :
    (defaults : List ℕ) (n date : ℕ) (r : Partitions × Result (Unit {0}))
    → contains ℕ_discrete date r.0.tables ≡ true
    → IsDone defaults n (date + 1) r
    → IsDone defaults (suc n) date r
IsDone-suc defaults n date r h (inl (through, covered)) = inl (through, (h, covered))
IsDone-suc defaults n date r h (inr (k, below, raised, covered, held, open_date)) =
    let e : date + 1 + k ≡ date + suc k = omega arith in
    inr (
      suc k,
      omega (arith, below),
      raised,
      (h, covered),
      ap (λ x. contains ℕ_discrete x defaults) (sym e) ∙ held,
      ap (λ x. contains ℕ_discrete x r.0.tables) (sym e) ∙ open_date,
    )

module _ (defaults : List ℕ) (n date : ℕ) (p : Partitions) where
  create_from_skipped :
      contains ℕ_discrete date p.tables ≡ true
      → create_from defaults (suc n) date p
        ≡ create_from defaults n (date + 1) (record p { skipped = p.skipped ++ date ∷ [] })
  unfolding create_from create_partition
  create_from_skipped h = ground (arith, h)

  create_from_raised :
      contains ℕ_discrete date p.tables ≡ false
      → contains ℕ_discrete date defaults ≡ true
      → create_from defaults (suc n) date p ≡ (p, err check_violation)
  unfolding create_from create_partition
  create_from_raised h k = ground (arith, h, k)

  create_from_created :
      contains ℕ_discrete date p.tables ≡ false
      → contains ℕ_discrete date defaults ≡ false
      → create_from defaults (suc n) date p
        ≡ create_from defaults n
            (date + 1)
            (record p { tables = p.tables ++ date ∷ []; created = p.created ++ date ∷ [] })
  unfolding create_from create_partition
  create_from_created h k = ground (arith, h, k)

create_from-IsDone :
    (defaults : List ℕ) (n date : ℕ) (p : Partitions)
    → IsDone defaults n date (create_from defaults n date p)
create_from-IsDone defaults zero date p = inl (unfold create_from in refl, tt)
create_from-IsDone defaults (suc n) date p = elim (Bool-cases (contains ℕ_discrete date p.tables)) [
  | inl known ↦
      let p' : Partitions = record p { skipped = p.skipped ++ date ∷ [] } in
      rw (create_from_skipped defaults n date p known) (
        IsDone-suc defaults n date (create_from defaults n (date + 1) p')
          (create_from-kept defaults n (date + 1) date p' known)
          (create_from-IsDone defaults n (date + 1) p'))
  | inr new ↦ elim (Bool-cases (contains ℕ_discrete date defaults)) [
    | inl held ↦
        let e : date + 0 ≡ date = omega arith in
        rw (create_from_raised defaults n date p new held) (
          inr (
            zero,
            omega arith,
            refl,
            tt,
            ap (λ x. contains ℕ_discrete x defaults) e ∙ held,
            ap (λ x. contains ℕ_discrete x p.tables) e ∙ new,
          ))
    | inr free ↦
        let p' : Partitions = record p {
          tables = p.tables ++ date ∷ [];
          created = p.created ++ date ∷ [];
        } in
        let there : contains ℕ_discrete date (p.tables ++ date ∷ []) ≡ true =
          unfold contains in ground (arith, contains-append ℕ_discrete date p.tables (date ∷ [])) in
        rw (create_from_created defaults n date p new free) (
          IsDone-suc defaults n date (create_from defaults n (date + 1) p')
            (create_from-kept defaults n (date + 1) date p' there)
            (create_from-IsDone defaults n (date + 1) p'))
  ]
]

-- a run that creates nothing and ends as another one ended
abbrev IsIdle : Result (Unit {0}) → Partitions → Partitions × Result (Unit {0}) → Type 0
IsIdle result p (p', result') =
    (p'.tables ≡ p.tables) × (p'.created ≡ p.created) × (result' ≡ result)

create_from_covered :
    (defaults : List ℕ) (n date : ℕ) (p : Partitions)
    → AreCovered n date p.tables
    → IsIdle (ok tt) p (create_from defaults n date p)
create_from_covered defaults zero date p h = unfold create_from in (refl, refl, refl)
create_from_covered defaults (suc n) date p h =
    rw (create_from_skipped defaults n date p h.0) (
      create_from_covered defaults n (date + 1) (record p { skipped = p.skipped ++ date ∷ [] }) h.1)

create_from_stopped :
    (defaults : List ℕ) (n k date : ℕ) (p : Partitions)
    → k < n
    → AreCovered k date p.tables
    → contains ℕ_discrete (date + k) defaults ≡ true
    → contains ℕ_discrete (date + k) p.tables ≡ false
    → IsIdle (err check_violation) p (create_from defaults n date p)
create_from_stopped defaults zero k date p below h held open_date = absurd (omega (arith, below))
create_from_stopped defaults (suc n) zero date p below h held open_date =
    let e : date + 0 ≡ date = omega arith in
    rw
      (create_from_raised defaults n date p
        (ap (λ x. contains ℕ_discrete x p.tables) (sym e) ∙ open_date)
        (ap (λ x. contains ℕ_discrete x defaults) (sym e) ∙ held))
      (refl, refl, refl)
create_from_stopped defaults (suc n) (suc k) date p below h held open_date =
    let e : date + 1 + k ≡ date + suc k = omega arith in
    rw (create_from_skipped defaults n date p h.0) (
      create_from_stopped defaults n k (date + 1) (record p { skipped = p.skipped ++ date ∷ [] })
        (omega (arith, below)) h.1 (ap (λ x. contains ℕ_discrete x defaults) e ∙ held)
        (ap (λ x. contains ℕ_discrete x p.tables) e ∙ open_date))

create_from_again :
    (defaults : List ℕ) (n date : ℕ) (r : Partitions × Result (Unit {0}))
    → IsDone defaults n date r
    → let again =
        create_from defaults n date (record { tables = r.0.tables; created = []; skipped = [] }) in
      (again.0.tables ≡ r.0.tables) × (again.0.created ≡ []) × (again.1 ≡ r.1)
create_from_again defaults n date r (inl (through, covered)) =
    let idle = create_from_covered defaults n date _ covered in
    (idle.0, idle.1, idle.2 ∙ sym through)
create_from_again defaults n date r (inr (k, below, raised, covered, held, open_date)) =
    let idle = create_from_stopped defaults n k date _ below covered held open_date in
    (idle.0, idle.1, idle.2 ∙ sym raised)

-- Either the script is through, and every date from yesterday to `days_ahead` days from today has a
-- partition; or it has raised at one of them which has none, and of which the default partition holds
-- a row, and all the dates before it have one. Run again on the same day, with the same rows in
-- the default partition, it creates nothing, changes nothing, and ends the same way.
pub create_partitions-again :
    (today days_ahead : ℕ) (defaults tables : List ℕ)
    → let (p, result) = create_partitions today days_ahead defaults tables in
      let (p', result') = create_partitions today days_ahead defaults p.tables in
      IsDone defaults (days_ahead + 2) (today - 1) (p, result)
      × (p'.tables ≡ p.tables)
      × (p'.created ≡ [])
      × (result' ≡ result)
unfolding create_partitions
create_partitions-again today days_ahead defaults tables =
    let start : Partitions = record { tables = tables; created = []; skipped = [] } in
    let n = days_ahead + 2 in
    let date = today - 1 in
    let done = create_from-IsDone defaults n date start in
    let again = create_from_again defaults n date (create_from defaults n date start) done in
    (done, again.0, again.1, again.2)
