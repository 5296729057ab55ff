-- ===== src/Setup/Exits.antt =====
-- dictd/dictd.c: `make_dictexit_invisible`. `db_exit` is an index in the list.
use dictd.Prelude.{
  ℕ, zero, suc, ◌<◌, ◌≡◌, refl, sym, ap, ◌∙◌, List, [], ◌∷◌, ◌++◌, append_assoc, append-nil, Option,
  none, some, Bool, true, false, not, ◌||◌, arith, if◌then◌else◌, length, length-append, All,
}
use dictd.Daemon.Types.{Database}

-- `db_exit -> invisible = 0`
unfoldable pub show_at : ℕ → List Database → List Database
show_at i [] = []
show_at zero (db ∷ l) = record db { invisible = false } ∷ l
show_at (suc i) (db ∷ l) = db ∷ show_at i l

unfoldable pub show_pending : Option ℕ → List Database → List Database
unfolding show_at
show_pending none l = l
show_pending (some i) l = show_at i l

-- A database of the loop, with what is before it and `db_exit`.
unfoldable pub before : Bool → Option ℕ → List Database → List Database
unfolding show_pending
before true db_exit l = l
before false db_exit l = show_pending db_exit l

unfoldable pub pending : Bool → Bool → Option ℕ → ℕ → Option ℕ
pending true invisible db_exit n = some n
pending false true db_exit n = db_exit
pending false false db_exit n = none

abbrev pub hide_exit : Database → Database
hide_exit db = if db.exit_db then record db { invisible = true } else db

unfoldable pub exit_loop : Option ℕ → List Database → List Database → List Database
exit_loop db_exit l [] = l
exit_loop db_exit l (db ∷ rest) =
    exit_loop (pending db.exit_db db.invisible db_exit (length l))
      (before db.invisible db_exit l ++ (hide_exit db ∷ [])) rest

unfoldable pub make_dictexit_invisible : List Database → List Database
unfolding exit_loop
make_dictexit_invisible dbl = exit_loop none [] dbl

-- Is there a database that is not hidden?
abbrev pub any_visible : List Database → Bool
any_visible [] = false
any_visible (db ∷ l) = not db.invisible || any_visible l

-- Every exit mark is hidden just if all behind it is hidden, as configured.
abbrev pub exits_hidden : List Database → List Database
exits_hidden [] = []
exits_hidden (db ∷ l) =
    (if db.exit_db then record db { invisible = not (any_visible l) } else db) ∷ exits_hidden l

-- An exit mark is not hidden in the configuration.
abbrev pub IsConfigured : Database → Type 0
IsConfigured db = db.exit_db ≡ true → db.invisible ≡ false

show_at_before :
    (i : ℕ) (l m : List Database) → i < length l → show_at i (l ++ m) ≡ show_at i l ++ m
unfolding show_at
show_at_before i [] m h = absurd (omega arith)
show_at_before zero (db ∷ l) m h = refl
show_at_before (suc i) (db ∷ l) m h = ap (λ k. db ∷ k) (show_at_before i l m (omega (arith, h)))

show_at_end :
    (l : List Database) (db : Database)
    → show_at (length l) (l ++ (db ∷ [])) ≡ l ++ (record db { invisible = false } ∷ [])
unfolding show_at
show_at_end [] db = refl
show_at_end (d ∷ l) db = ap (λ k. d ∷ k) (show_at_end l db)

length-show_at : (i : ℕ) (l : List Database) → length (show_at i l) ≡ length l
unfolding show_at
length-show_at i [] = refl
length-show_at zero (db ∷ l) = refl
length-show_at (suc i) (db ∷ l) = ap suc (length-show_at i l)

-- The pending mark stands in the list.
abbrev Inside : Option ℕ → List Database → Type 0
Inside none l = Unit
Inside (some i) l = i < length l

-- What the rest of the loop makes of the databases before it.
abbrev resolved : Bool → Option ℕ → List Database → List Database
resolved true db_exit l = show_pending db_exit l
resolved false db_exit l = l

length-show_pending : (o : Option ℕ) (l : List Database) → length (show_pending o l) ≡ length l
unfolding show_pending
length-show_pending none l = refl
length-show_pending (some i) l = length-show_at i l

show_pending_before :
    (o : Option ℕ) (l m : List Database)
    → Inside o l
    → show_pending o (l ++ m) ≡ show_pending o l ++ m
unfolding show_pending
show_pending_before none l m h = refl
show_pending_before (some i) l m h = show_at_before i l m h

resolved_before :
    (b : Bool) (o : Option ℕ) (l m : List Database)
    → Inside o l
    → resolved b o (l ++ m) ≡ resolved b o l ++ m
resolved_before true o l m h = show_pending_before o l m h
resolved_before false o l m h = refl

resolved-none : (b : Bool) (l : List Database) → resolved b none l ≡ l
unfolding show_pending
resolved-none true l = refl
resolved-none false l = refl

-- An exit mark at the end of the list.
resolved_end :
    (b : Bool) (l : List Database) (db : Database)
    → resolved b (some (length l)) (l ++ (record db { invisible = true } ∷ []))
      ≡ l ++ (record db { invisible = not b } ∷ [])
unfolding show_pending
resolved_end true l db = show_at_end l (record db { invisible = true })
resolved_end false l db = refl

-- One round, whatever the database is.
round_resolved :
    (b e v : Bool) (db : Database) (o : Option ℕ) (l : List Database)
    → Inside o l
    → (e ≡ true → v ≡ false)
    → resolved b
        (pending e v o (length l))
        (before v o l ++ ((if e then record db { invisible = true } else db) ∷ []))
      ≡ resolved (not v || b) o l ++ ((if e then record db { invisible = not b } else db) ∷ [])
unfolding pending before
round_resolved b true true db o l i c = absurd (ground (arith, c refl))
round_resolved b true false db o l i c =
    ap (λ n. resolved b (some n) (show_pending o l ++ (record db { invisible = true } ∷ [])))
      (sym (length-show_pending o l))
    ∙ resolved_end b (show_pending o l) db
round_resolved b false true db o l i c = resolved_before b o l (db ∷ []) i
round_resolved b false false db o l i c = resolved-none b (show_pending o l ++ (db ∷ []))

Inside-append :
    (o : Option ℕ) (l : List Database) (db : Database) → Inside o l → Inside o (l ++ (db ∷ []))
Inside-append none l db h = tt
Inside-append (some i) l db h = omega (arith, h, length-append l (db ∷ []))

round-Inside :
    (e v : Bool) (db : Database) (o : Option ℕ) (l : List Database)
    → Inside o l
    → Inside (pending e v o (length l)) (before v o l ++ (db ∷ []))
unfolding pending before
round-Inside true true db o l i = omega (arith, length-append l (db ∷ []))
round-Inside true false db o l i =
    omega (arith, length-append (show_pending o l) (db ∷ []), length-show_pending o l)
round-Inside false true db o l i = Inside-append o l db i
round-Inside false false db o l i = tt

exit_loop-resolved :
    (rest : List Database) (o : Option ℕ) (l : List Database)
    → All IsConfigured rest
    → Inside o l
    → exit_loop o l rest ≡ resolved (any_visible rest) o l ++ exits_hidden rest
unfolding exit_loop
exit_loop-resolved [] o l h i = sym (append-nil l)
exit_loop-resolved (db ∷ rest) o l (h, hs) i =
    let b = any_visible rest in
    let hidden : Database = if db.exit_db then record db { invisible = not b } else db in
    exit_loop-resolved rest (pending db.exit_db db.invisible o (length l))
      (before db.invisible o l ++ (hide_exit db ∷ [])) hs
      (round-Inside db.exit_db db.invisible (hide_exit db) o l i)
    ∙ ap (λ k. k ++ exits_hidden rest) (round_resolved b db.exit_db db.invisible db o l i h)
    ∙ append_assoc (resolved (not db.invisible || b) o l) (hidden ∷ []) (exits_hidden rest)

-- After make_dictexit_invisible an exit mark is hidden just if every database and mark behind it is
-- hidden in the configuration, and nothing else has changed. No mark is hidden in the
-- configuration.
pub make_dictexit_invisible-hidden :
    (dbl : List Database) → All IsConfigured dbl → make_dictexit_invisible dbl ≡ exits_hidden dbl
unfolding make_dictexit_invisible show_pending
make_dictexit_invisible-hidden dbl h =
    exit_loop-resolved dbl none [] h tt
    ∙ ap (λ l. l ++ exits_hidden dbl) (resolved-none (any_visible dbl) [])
