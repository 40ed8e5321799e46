-- ===== src/Settings/Url.antt =====
-- `fix_database_url` of app/core/config.py, and what the worker and the start-up make of the URL. A text
-- is the list of its characters.
use analytics_pipeline.Prelude.{
  ℕ, zero, suc, ◌-◌, Bool, true, false, List, [], ◌∷◌, ◌++◌, length, drop, ◌==◌, ◌&&◌,
  if◌then◌else◌, ◌≡◌, refl, ap,
}

abbrev pub Url : Type 0
Url = List ℕ

unfoldable pub startswith : Url → Url → Bool
startswith [] url = true
startswith (p ∷ ps) [] = false
startswith (p ∷ ps) (c ∷ cs) = p == c && startswith ps cs

-- url.replace(old, new), of an `old` that has a character: `skip` characters belong to the occurrence before
unfoldable pub replace_from : Url → Url → ℕ → Url → Url
unfolding startswith
replace_from old new skip [] = []
replace_from old new (suc skip) (c ∷ cs) = replace_from old new skip cs
replace_from old new zero (c ∷ cs) =
    let replaced = replace_from old new (length old - 1) cs in
    let kept = replace_from old new zero cs in
    if startswith old (c ∷ cs) then new ++ replaced else c ∷ kept

unfoldable pub replace : Url → Url → Url → Url
unfolding replace_from
replace old new = replace_from old new zero

-- url.replace(old, new, 1), for a URL that starts with `old`
unfoldable pub replace_prefix : Url → Url → Url → Url
replace_prefix old new url = new ++ drop (length old) url

-- "postgresql", "postgres://", "postgresql://", "postgresql+asyncpg://" and "+asyncpg"
abbrev pub scheme : Url
scheme = b'p' ∷ b'o' ∷ b's' ∷ b't' ∷ b'g' ∷ b'r' ∷ b'e' ∷ b's' ∷ b'q' ∷ b'l' ∷ []

abbrev pub postgres : Url
postgres = b'p' ∷ b'o' ∷ b's' ∷ b't' ∷ b'g' ∷ b'r' ∷ b'e' ∷ b's' ∷ b':' ∷ b'/' ∷ b'/' ∷ []

abbrev pub postgresql : Url
postgresql =
    b'p' ∷ b'o' ∷ b's' ∷ b't' ∷ b'g' ∷ b'r' ∷ b'e' ∷ b's' ∷ b'q' ∷ b'l' ∷ b':' ∷ b'/' ∷ b'/' ∷ []

abbrev pub driver : Url
driver = b'+' ∷ b'a' ∷ b's' ∷ b'y' ∷ b'n' ∷ b'c' ∷ b'p' ∷ b'g' ∷ []

abbrev pub asyncpg : Url
asyncpg =
    b'p' ∷ b'o' ∷ b's' ∷ b't' ∷ b'g' ∷ b'r' ∷ b'e' ∷ b's' ∷ b'q' ∷ b'l' ∷ b'+' ∷ b'a' ∷ b's' ∷ b'y'
    ∷ b'n' ∷ b'c' ∷ b'p' ∷ b'g' ∷ b':' ∷ b'/' ∷ b'/' ∷ []

-- `fix_database_url`
unfoldable pub fix_database_url : Url → Url
unfolding startswith replace_prefix
fix_database_url url =
    let v = if startswith postgres url then replace_prefix postgres asyncpg url else url in
    if startswith postgresql v then replace_prefix postgresql asyncpg v else v

-- database_url.replace("+asyncpg", ""), of `start` of the worker
unfoldable pub dsn : Url → Url
unfolding replace
dsn = replace driver []

-- database_url.replace("+asyncpg", "+psycopg2"), of `_run_migrations`
abbrev pub psycopg : Url
psycopg = b'+' ∷ b'p' ∷ b's' ∷ b'y' ∷ b'c' ∷ b'o' ∷ b'p' ∷ b'g' ∷ b'2' ∷ []

unfoldable pub sync_url : Url → Url
unfolding replace
sync_url = replace driver psycopg

-- the text has no part "+asyncpg"
abbrev pub IsPlain : Url → Type 0
IsPlain [] = Unit
IsPlain (c ∷ cs) = (startswith driver (c ∷ cs) ≡ false) × IsPlain cs

replace_from-IsPlain : (new url : Url) → IsPlain url → replace_from driver new zero url ≡ url
unfolding replace_from
replace_from-IsPlain new [] h = refl
replace_from-IsPlain new (c ∷ cs) h = rw (h.0) (ap (◌∷◌ c) (replace_from-IsPlain new cs h.1))

-- the driver of a URL with the scheme postgresql is replaced, and nothing else
replace-asyncpg :
    (new rest : Url)
    → IsPlain rest
    → replace driver new (asyncpg ++ rest) ≡ scheme ++ new ++ b':' ∷ b'/' ∷ b'/' ∷ rest
unfolding replace replace_from startswith
replace-asyncpg new rest h =
    ap (λ end. scheme ++ new ++ b':' ∷ b'/' ∷ b'/' ∷ end) (replace_from-IsPlain new rest h)

-- Let the rest of a URL have no part "+asyncpg". With either name of the scheme, and with the driver
-- already there, the URL is given the driver; the DSN of the worker is then the URL with the
-- scheme postgresql, and the URL of the migrations is that with the synchronous driver.
pub dsn-fix_database_url :
    (rest : Url)
    → IsPlain rest
    → (fix_database_url (postgres ++ rest) ≡ asyncpg ++ rest)
      × (fix_database_url (postgresql ++ rest) ≡ asyncpg ++ rest)
      × (fix_database_url (asyncpg ++ rest) ≡ asyncpg ++ rest)
      × (dsn (fix_database_url (postgres ++ rest)) ≡ postgresql ++ rest)
      × (sync_url (fix_database_url (postgres ++ rest))
          ≡ scheme ++ psycopg ++ b':' ∷ b'/' ∷ b'/' ∷ rest)
unfolding fix_database_url startswith replace_prefix dsn sync_url
dsn-fix_database_url rest h =
    (refl, refl, refl, replace-asyncpg [] rest h, replace-asyncpg psycopg rest h)
