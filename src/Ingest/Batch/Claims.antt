-- ===== src/Ingest/Batch/Claims.antt =====
-- The bulk claim of keys, ON CONFLICT DO NOTHING.
use analytics_pipeline.Prelude.{
  ℕ, String, Bool, true, false, [], ◌∷◌, Option, none, some, get, update, get-update, contains,
  String_discrete, Dict, ◌≡◌, refl, arith, inl, inr, Option-cases,
}
use analytics_pipeline.Ingest.Batch.{claim_keys, claim, returning}

abbrev pub first_of : Option ℕ → Option ℕ → Option ℕ
first_of none b = b
first_of (some a) b = some a

abbrev pub is_new : Option ℕ → Option ℕ → Bool
is_new none (some b) = true
is_new none none = false
is_new (some a) b = false

first_of-none : (o : Option ℕ) → (o ≡ first_of o none) × (false ≡ is_new o none)
first_of-none none = (refl, refl)
first_of-none (some a) = (refl, refl)

-- A claim never changes the id of a key, and every other key of the batch gets the id of its first
-- row; the keys returned are those that had no id.
pub claim_keys_lem :
    (rows table : Dict String ℕ) (key : String)
    → (get String_discrete key (claim_keys rows table).0
        ≡ first_of (get String_discrete key table) (get String_discrete key rows))
      × (contains String_discrete key (claim_keys rows table).1
          ≡ is_new (get String_discrete key table) (get String_discrete key rows))
unfolding claim_keys claim returning get contains
claim_keys_lem [] table key = first_of-none (get String_discrete key table)
claim_keys_lem ((k, id) ∷ rows) table key =
    let rest = claim_keys_lem rows (update String_discrete k (claim id) table) key in
    let written = get-update String_discrete k key (claim id) table in
    elim (Option-cases (get String_discrete key table)) [
      | inl e ↦ elim (Option-cases (get String_discrete k table)) [
        | inl f ↦ (ground (arith, rest.0, written), ground (arith, rest.1, written))
        | inr f ↦ (ground (arith, rest.0, written), ground (arith, rest.1, written))
      ]
      | inr e ↦ elim (Option-cases (get String_discrete k table)) [
        | inl f ↦ (ground (arith, rest.0, written), ground (arith, rest.1, written))
        | inr f ↦ (ground (arith, rest.0, written), ground (arith, rest.1, written))
      ]
    ]
