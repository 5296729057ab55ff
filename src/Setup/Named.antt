-- ===== src/Setup/Named.antt =====
-- dictd/dictd.c: the members of a virtual database are the databases its list names.
use dictd.Prelude.{ℕ, ◌≡◌, ◌≢◌, Option, none, some, List, [], ◌∷◌, ◌++◌, Bool, true, not, ◌&&◌, All}
use dictd.Prelude.Result.{Result, ok, err, ◌>>=◌}
use dictd.Daemon.Types.{Database}
use dictd.Setup.Members.{SetupFault, unknown_database, is_separator, append_named}

abbrev pub append_each :
    List Database → List (List ℕ) → List Database → Result SetupFault (List Database)
append_each dbl [] l = ok l
append_each dbl (name ∷ names) l = append_named dbl name l >>= append_each dbl names

-- Without commas and newlines.
abbrev pub plain : List ℕ → Bool
plain [] = true
plain (c ∷ name) = not (is_separator c) && plain name

abbrev pub IsPlain : List ℕ → Type 0
IsPlain name = plain name ≡ true

-- The databases of names, behind those of a list: the first database of each name, in order. An
-- empty name is passed over, and a name that no database has ends it.
pub data Gathered (dbl : List Database)
    : List (List ℕ) → List Database → Result SetupFault (List Database) → Type 0 where
  all_gathered : (l : List Database) → Gathered dbl [] l (ok l)
  passed_over :
      (names : List (List ℕ)) (l : List Database) (r : Result SetupFault (List Database))
      → Gathered dbl names l r
      → Gathered dbl ([] ∷ names) l r
  gathered :
      (name : List ℕ) (names : List (List ℕ)) (l before after : List Database) (db : Database)
      (r : Result SetupFault (List Database))
      → dbl ≡ before ++ (db ∷ after)
      → All (λ (d : Database). d.database_name ≢ name) before
      → db.database_name ≡ name
      → Gathered dbl names (l ++ (db ∷ [])) r
      → Gathered dbl (name ∷ names) l r
  stopped :
      (name : List ℕ) (names : List (List ℕ)) (l : List Database)
      → All (λ (d : Database). d.database_name ≢ name) dbl
      → Gathered dbl (name ∷ names) l (err unknown_database)

-- What the search for a name says of the list.
data Place (name : List ℕ) (dbl : List Database) : Option Database → Type 0 where
  here :
      (before after : List Database) (db : Database)
      → dbl ≡ before ++ (db ∷ after)
      → All (λ (d : Database). d.database_name ≢ name) before
      → db.database_name ≡ name
      → Place name dbl (some db)
  nowhere : All (λ (d : Database). d.database_name ≢ name) dbl → Place name dbl none
