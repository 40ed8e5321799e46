-- ===== src/Ingest/Batch/Assigned.antt =====
-- The ids and the rows of a batch whose keys differ and are new: `event_id_map`, the claims and
-- `raw_values` of `insert_batch` of app/repositories/event_repository.py.
use analytics_pipeline.Prelude.{
  ℕ, String, ◌+◌, false, List, [], ◌∷◌, ◌++◌, Option, none, some, Dict, get, update, contains, map,
  All, IsDistinct, String_discrete, ◌≡◌, refl, sym, ap, ◌∙◌, arith, if_pos,
}
use mathlib.Core.List.{append_assoc, append-nil}
use analytics_pipeline.Result.{ok}
use analytics_pipeline.Moment.{Datetime}
use analytics_pipeline.Records.{RawEvent, EventIngest}
use analytics_pipeline.Ingest.Store.{row_for}
use analytics_pipeline.Ingest.Batch.{
  event_id_map, claim, returning, claim_keys, found, subscript, raw_values,
}

abbrev pub keys : List EventIngest → List String
keys = map (λ e. e.idempotency_key)

-- no key of the events has an id
abbrev pub AreNew : Dict String ℕ → List EventIngest → Type 0
AreNew table = All (λ e. get String_discrete e.idempotency_key table ≡ none)

pub AreNew-nil : (es : List EventIngest) → AreNew [] es
unfolding get
AreNew-nil [] = tt
AreNew-nil (e ∷ es) = (refl, AreNew-nil es)

get_none-append :
    (k : String) (d d' : Dict String ℕ)
    → get String_discrete k d ≡ none
    → get String_discrete k (d ++ d') ≡ get String_discrete k d'
unfolding get
get_none-append k [] d' h = refl
get_none-append k ((j, v) ∷ d) d' h = ground (arith, h, get_none-append k d d')

lookup :
    (k : String) (v : ℕ) (d d' : Dict String ℕ)
    → get String_discrete k d ≡ none
    → get String_discrete k (d ++ (k, v) ∷ d') ≡ some v
unfolding get
lookup k v d d' h =
    get_none-append k d ((k, v) ∷ d') h ∙ if_pos (String_discrete k k) refl (some v) _

pub update-none :
    (k : String) (f : Option ℕ → ℕ) (d : Dict String ℕ)
    → get String_discrete k d ≡ none
    → update String_discrete k f d ≡ d ++ (k, f none) ∷ []
unfolding get update
update-none k f [] h = refl
update-none k f ((j, v) ∷ d) h = ground (arith, h, update-none k f d)

-- one more key, which none of the others is
pub AreNew-append :
    (k : String) (v : ℕ) (d : Dict String ℕ) (es : List EventIngest)
    → contains String_discrete k (keys es) ≡ false
    → AreNew d es
    → AreNew (d ++ (k, v) ∷ []) es
unfolding contains get
AreNew-append k v d [] h new = tt
AreNew-append k v d (e ∷ es) h new = (
  ground (arith, h, get_none-append e.idempotency_key d ((k, v) ∷ []) new.0),
  AreNew-append k v d es (ground (arith, h)) new.1,
)

module _ (uuid4 : ℕ → ℕ) (occurred_at now : Datetime) where
  -- the ids of the keys, and the rows of the events
  unfoldable pub assigned : ℕ → List EventIngest → Dict String ℕ
  assigned i [] = []
  assigned i (e ∷ es) = (e.idempotency_key, uuid4 i) ∷ assigned (1 + i) es

  unfoldable pub rows_from : ℕ → List EventIngest → List RawEvent
  rows_from i [] = []
  rows_from i (e ∷ es) = row_for (uuid4 i) occurred_at now e ∷ rows_from (1 + i) es

  pub event_id_map-assigned :
      (i : ℕ) (es : List EventIngest) (d : Dict String ℕ)
      → IsDistinct String_discrete (keys es)
      → AreNew d es
      → event_id_map uuid4 i es d ≡ d ++ assigned i es
  unfolding event_id_map assigned
  event_id_map-assigned i [] d h new = sym (append-nil d)
  event_id_map-assigned i (e ∷ es) d h new =
      let k = e.idempotency_key in
      ap (event_id_map uuid4 (1 + i) es) (update-none k (λ _. uuid4 i) d new.0)
      ∙ event_id_map-assigned (1 + i) es (d ++ (k, uuid4 i) ∷ []) h.1
          (AreNew-append k (uuid4 i) d es h.0 new.1)
      ∙ append_assoc d ((k, uuid4 i) ∷ []) (assigned (1 + i) es)

  pub claim_keys-assigned :
      (i : ℕ) (es : List EventIngest) (table : Dict String ℕ)
      → IsDistinct String_discrete (keys es)
      → AreNew table es
      → claim_keys (assigned i es) table ≡ (table ++ assigned i es, keys es)
  unfolding claim_keys assigned returning claim
  claim_keys-assigned i [] table h new = ap (λ t. (t, [])) (sym (append-nil table))
  claim_keys-assigned i (e ∷ es) table h new =
      let k = e.idempotency_key in
      let rest =
        claim_keys-assigned (1 + i) es (table ++ (k, uuid4 i) ∷ []) h.1
          (AreNew-append k (uuid4 i) table es h.0 new.1) in
      rw (update-none k (claim (uuid4 i)) table new.0, rest, new.0)
        (ap (λ t. (t, k ∷ keys es)) (append_assoc table ((k, uuid4 i) ∷ []) (assigned (1 + i) es)))

  pub raw_values-assigned :
      (i : ℕ) (es : List EventIngest) (before : Dict String ℕ)
      → IsDistinct String_discrete (keys es)
      → AreNew before es
      → raw_values (before ++ assigned i es) occurred_at now es ≡ ok (rows_from i es)
  unfolding raw_values assigned rows_from subscript found
  raw_values-assigned i [] before h new = refl
  raw_values-assigned i (e ∷ es) before h new =
      let k = e.idempotency_key in
      let tail = assigned (1 + i) es in
      let whole = append_assoc before ((k, uuid4 i) ∷ []) tail in
      let rest =
        ap (λ d. raw_values d occurred_at now es) (sym whole)
        ∙ raw_values-assigned (1 + i) es (before ++ (k, uuid4 i) ∷ []) h.1
            (AreNew-append k (uuid4 i) before es h.0 new.1) in
      rw (lookup k (uuid4 i) before tail new.0, rest) refl
