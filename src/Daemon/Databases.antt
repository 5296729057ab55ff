-- ===== src/Daemon/Databases.antt =====
-- dictd/daemon.c: `next_database` and `count_databases`. A position in the list of databases is
-- the rest of the list from there; NULL, after the last, is the empty rest and holds no datum.
use dictd.Prelude.{
  ℕ, zero, suc, ◌+◌, ◌≡◌, refl, List, [], ◌∷◌, Option, none, some, Bool, true, false, not, ◌&&◌,
  ◌||◌, ◌==◌, if◌then◌else◌, arith, length, Bool-cases, inl, inr, ap, ◌∙◌, ◌≤◌, ◌<◌,
}
use dictd.Daemon.Types.{Database, star, bang}

-- strcmp
unfoldable pub same_string : List ℕ → List ℕ → Bool
same_string [] [] = true
same_string [] (d ∷ t) = false
same_string (c ∷ s) [] = false
same_string (c ∷ s) (d ∷ t) = (c == d) && same_string s t

-- `*name == '*' || *name == '!'`
unfoldable pub is_any : List ℕ → Bool
is_any [] = false
is_any (c ∷ s) = c == star || c == bang

abbrev pub Found : Type 0
Found = Option Database × List Database

-- The do loop for `*` and `!`: skips the databases that are hidden or not available.
unfoldable pub next_any : List Database → Found
next_any [] = (none, [])
next_any (db ∷ rest) =
    let skipped = next_any rest in
    if not db.available || db.invisible then skipped else (some db, rest)

-- The while loop for a name.
unfoldable pub next_named : List ℕ → List Database → Found
next_named name [] = (none, [])
next_named name (db ∷ rest) =
    let skipped = next_named name rest in
    if not db.invisible && db.available && same_string db.database_name name
    then (some db, rest)
    else skipped

-- The name is not NULL here.
unfoldable pub next_database : List Database → List ℕ → Found
unfolding is_any
next_database position name = if is_any name then next_any position else next_named name position

-- The loop of `count_databases`; `*` is the name.
unfoldable pub count_from : ℕ → List Database → ℕ → Option ℕ
count_from zero position count = none
count_from (suc fuel) position count =
    let (db, rest) = next_database position (star ∷ []) in
    elim db [
      | none ↦ some count
      | some d ↦ count_from fuel rest (if d.exit_db then count else count + 1)
    ]

unfoldable pub count_databases : List Database → Option ℕ
count_databases dbl = count_from (suc (length dbl)) dbl 0

-- Is a database one that the name asks for?
unfoldable pub chosen : List ℕ → Database → Bool
unfolding is_any
chosen name db =
    db.available && not db.invisible && (is_any name || same_string db.database_name name)

-- The databases asked for, in order.
abbrev pub select : (Database → Bool) → List Database → List Database
select p [] = []
select p (db ∷ rest) = if p db then db ∷ select p rest else select p rest

-- What `next_database` gives, as the first of the databases asked for.
abbrev pub First : (Database → Bool) → List Database → Found → Type 0
First p l (none, rest) = (select p l ≡ []) × (rest ≡ [])
First p l (some db, rest) = select p l ≡ db ∷ select p rest

First-skip :
    (p : Database → Bool) (db : Database) (l : List Database) (f : Found)
    → p db ≡ false
    → First p l f
    → First p (db ∷ l) f
First-skip p db l (none, rest) e h = rw e h
First-skip p db l (some d, rest) e h = rw e h

First-take :
    (p : Database → Bool) (db : Database) (l : List Database)
    → p db ≡ true
    → First p (db ∷ l) (some db, l)
First-take p db l e = rw e refl

next_any-First :
    (l : List Database) (name : List ℕ) → is_any name ≡ true → First (chosen name) l (next_any l)
unfolding next_any chosen
next_any-First [] name h = (refl, refl)
next_any-First (db ∷ rest) name h = elim (Bool-cases (not db.available || db.invisible)) [
  | inl e ↦ rw e (
      First-skip (chosen name) db rest (next_any rest) (ground (arith, e, h))
        (next_any-First rest name h))
  | inr e ↦ rw e (First-take (chosen name) db rest (ground (arith, e, h)))
]

next_named-First :
    (l : List Database) (name : List ℕ)
    → is_any name ≡ false
    → First (chosen name) l (next_named name l)
unfolding next_named chosen
next_named-First [] name h = (refl, refl)
next_named-First (db ∷ rest) name h =
    elim (Bool-cases (not db.invisible && db.available && same_string db.database_name name)) [
      | inl e ↦ rw e (First-take (chosen name) db rest (ground (arith, e, h)))
      | inr e ↦ rw e (
          First-skip (chosen name) db rest (next_named name rest) (ground (arith, e, h))
            (next_named-First rest name h))
    ]

pub next_database-First :
    (position : List Database) (name : List ℕ)
    → First (chosen name) position (next_database position name)
unfolding next_database
next_database-First position name = elim (Bool-cases (is_any name)) [
  | inl e ↦ rw e (next_any-First position name e)
  | inr e ↦ rw e (next_named-First position name e)
]

pub select-length : (p : Database → Bool) (l : List Database) → length (select p l) ≤ length l
select-length p [] = omega arith
select-length p (db ∷ l) = ground (arith, select-length p l)

-- The databases that are listed.
abbrev pub listed : List Database → List Database
listed dbl = select (λ d. not d.exit_db) (select (chosen (star ∷ [])) dbl)

count_round :
    (next : List Database → ℕ → Option ℕ) (fuel : ℕ)
    → ((l : List Database) (c : ℕ)
        → length (select (chosen (star ∷ [])) l) < fuel
        → next l c ≡ some (c + length (listed l)))
    → (l : List Database) (count : ℕ) (f : Found) → First (chosen (star ∷ [])) l f
    → length (select (chosen (star ∷ [])) l) < suc fuel
    → elim f.0 [ none ↦ some count | some d ↦ next f.1 (if d.exit_db then count else count + 1) ]
      ≡ some (count + length (listed l))
count_round next fuel ih l count (none, rest) (e, _) h = rw e (ground arith)
count_round next fuel ih l count (some d, rest) e h =
    let go = λ (c : ℕ). ih rest c (omega (arith, ap length e)) in
    rw e (elim (Bool-cases d.exit_db) [
      | inl x ↦ rw x (go count)
      | inr x ↦ rw x (go (count + 1) ∙ ap some (omega arith))
    ])

count_from-listed :
    (fuel : ℕ) (l : List Database) (count : ℕ)
    → length (select (chosen (star ∷ [])) l) < fuel
    → count_from fuel l count ≡ some (count + length (listed l))
unfolding count_from
count_from-listed zero l count h = absurd (omega arith)
count_from-listed (suc fuel) l count h =
    count_round (count_from fuel) fuel (count_from-listed fuel) l count
      (next_database l (star ∷ [])) (next_database-First l (star ∷ [])) h

-- count_databases ends, and gives the number of the databases that are available, not hidden and
-- no end marks.
pub count_databases-listed :
    (dbl : List Database) → count_databases dbl ≡ some (length (listed dbl))
unfolding count_databases
count_databases-listed dbl =
    count_from-listed (suc (length dbl)) dbl 0
      (omega (arith, select-length (chosen (star ∷ [])) dbl))
    ∙ ap some (omega arith)
