-- ===== src/Result.antt =====
-- What a call may raise, and a chain of calls that stops at the first that raises.
use analytics_pipeline.Prelude.{ℕ, Bool, true, false}

pub data Error : Type 0 where
  -- MerchantNotFoundError(merchant_id)
  merchant_not_found : ℕ → Error
  -- IntegrityError: a second row with a primary key
  unique_violation : Error
  -- ON CONFLICT DO UPDATE met one key twice in one statement
  cardinality_violation : Error
  -- a value that does not fit an INTEGER column
  numeric_out_of_range : Error
  -- NoResultFound, MultipleResultsFound: `.one()` on no row, or on several
  not_one_row : Error
  -- KeyError: a subscript with a key that the dict lacks
  key_error : Error
  -- TypeError: a keyword argument that is given twice
  type_error : Error
  -- ValueError: no such date
  value_error : Error
  -- the Redis client cannot reach its server
  redis_unavailable : Error
  -- CheckViolation: a new partition for rows that the default partition holds
  check_violation : Error
  -- DuplicateTable: CREATE with the name of a table or an index that is there
  duplicate_relation : Error
  -- UndefinedTable, UndefinedObject: a table or an index that is not there
  undefined_relation : Error

pub data Result {ℓ} (A : Type ℓ) : Type ℓ where
  ok : A → Result A
  err : Error → Result A

infixl 5 ◌>>=◌
abbrev pub ◌>>=◌ {ℓ κ} : {A : Type ℓ} {B : Type κ} → Result A → (A → Result B) → Result B
ok a >>= f = f a
err e >>= f = err e

unfoldable pub is_ok {ℓ} : {A : Type ℓ} → Result A → Bool
is_ok (ok a) = true
is_ok (err e) = false
