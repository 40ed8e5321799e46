-- ===== src/Tests/Url.antt =====
-- A database URL at a concrete input.
use analytics_pipeline.Prelude.{[], ◌∷◌, ◌++◌, ◌≡◌, refl}
use analytics_pipeline.Settings.Url.{
  Url, IsPlain, startswith, scheme, postgres, postgresql, asyncpg, psycopg, replace_from, replace,
  replace_prefix, fix_database_url, dsn, sync_url, dsn-fix_database_url,
}

url_program : Unit {0}
unfolding startswith replace_from replace replace_prefix fix_database_url dsn sync_url
url_program = tt

-- "db/x"
abbrev rest : Url
rest = b'd' ∷ b'b' ∷ b'/' ∷ b'x' ∷ []

rest-IsPlain : IsPlain rest
unfolding url_program
rest-IsPlain = (refl, (refl, (refl, (refl, tt))))

dsn-fix_database_url_example :
    (fix_database_url (postgres ++ rest) ≡ asyncpg ++ rest)
    × (fix_database_url (postgresql ++ rest) ≡ asyncpg ++ rest)
    × (fix_database_url (asyncpg ++ rest) ≡ asyncpg ++ rest)
    × (dsn (fix_database_url (postgres ++ rest)) ≡ postgresql ++ rest)
    × (sync_url (fix_database_url (postgres ++ rest))
        ≡ scheme ++ psycopg ++ b':' ∷ b'/' ∷ b'/' ∷ rest)
dsn-fix_database_url_example = dsn-fix_database_url rest rest-IsPlain

-- a password that holds the name of the driver loses it
abbrev password : Url
password = b'+' ∷ b'a' ∷ b's' ∷ b'y' ∷ b'n' ∷ b'c' ∷ b'p' ∷ b'g' ∷ b'@' ∷ rest

cut : dsn (fix_database_url (postgres ++ password)) ≡ postgresql ++ b'@' ∷ rest
unfolding url_program
cut = refl
