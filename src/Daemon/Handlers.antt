-- ===== src/Daemon/Handlers.antt =====
-- dictd/daemon.c: `daemon_define`, `daemon_match` and `daemon_show_db`. The search over the databases
-- (`dict_search_databases`) and `lookup_strategy` are interfaces here. The log, the timer and the
-- freeing of memory are left out.
use dictd.Prelude.{
  ℕ, zero, suc, ◌+◌, List, [], ◌∷◌, ◌++◌, Option, none, some, Bool, true, false, not, ◌&&◌, ◌==◌,
  if◌then◌else◌, ltb, length,
}
use dictd.Prelude.Int.{ℤ, pos, negsuc}
use dictd.Prelude.Result.{Result, ok, err, ◌>>=◌}
use dictd.Daemon.Types.{Database, DictWord, star}
use dictd.Daemon.Databases.{next_database, count_databases}
use dictd.Daemon.Search.{DaemonFault, no_fuel}
use dictd.Daemon.Print.{
  Output, status, count_line, database_line, period, blank_line, daemon_count_defs,
  daemon_dump_defs, daemon_count_matches, daemon_dump_matches,
}

-- Result of a search: the returned number, `*db_found`, the list.
pub record Searched : Type 0 where
  pub returned : ℤ
  pub db_found : Bool
  pub list : List DictWord

-- `daemonMime`, `_dict_defines`, `_dict_matches`.
pub record Session : Type 0 where
  pub daemon_mime : Bool
  pub dict_defines : ℕ
  pub dict_matches : ℕ

abbrev pub Handled : Type 0
Handled = Result DaemonFault (Session × List Output)

abbrev pub strat_exact : ℕ
strat_exact = 1

abbrev pub match_mask : ℕ
match_mask = 32768

-- `argv[0]` is just this letter.
unfoldable pub is_letter : ℕ → List (List ℕ) → Bool
is_letter c ((d ∷ []) ∷ args) = d == c
is_letter c _ = false

unfoldable pub abs : ℤ → ℕ
abs (pos n) = n
abs (negsuc n) = suc n

abbrev pub any_name : List ℕ
any_name = star ∷ []

abbrev pub dot_name : List ℕ
dot_name = 46 ∷ []

-- The database and the word of DEFINE, or of its short form `d`.
unfoldable pub define_args : Bool → List (List ℕ) → Option (List ℕ × List ℕ)
define_args true (_ ∷ word ∷ []) = some (any_name, word)
define_args true (_ ∷ db ∷ word ∷ []) = some (db, word)
define_args false (_ ∷ db ∷ word ∷ []) = some (db, word)
define_args _ _ = none

-- The database, the strategy and the word of MATCH, or of its short form `m`.
unfoldable pub match_args : Bool → List (List ℕ) → Option (List ℕ × List ℕ × List ℕ)
match_args true (_ ∷ word ∷ []) = some (any_name, dot_name, word)
match_args true (_ ∷ strategy ∷ word ∷ []) = some (any_name, strategy, word)
match_args true (_ ∷ db ∷ strategy ∷ word ∷ []) = some (db, strategy, word)
match_args false (_ ∷ db ∷ strategy ∷ word ∷ []) = some (db, strategy, word)
match_args _ _ = none

module _ (dict_search_databases : List ℕ → List ℕ → ℕ → Result DaemonFault Searched)
    (lookup_strategy : List ℕ → Option ℕ) (dict_data_obtain : Database → DictWord → List ℕ)
    (dict_data_filter : List ℕ → List ℕ → List ℕ) where
  -- After the search of DEFINE.
  unfoldable pub define_reply : Session → Searched → Session × List Output
  unfolding abs
  define_reply se r =
      let actual = daemon_count_defs r.list in
      if r.db_found && ltb 0 (abs r.returned)
      then (
        record se { dict_defines = se.dict_defines + actual },
        count_line 150 actual
            ∷ (daemon_dump_defs dict_data_obtain dict_data_filter se.daemon_mime r.list
                ++ (status 250 ∷ [])),
      )
      else if not r.db_found
      then (se, status 550 ∷ [])
      else (se, status 552 ∷ [])

  unfoldable pub define_with : Session → Option (List ℕ × List ℕ) → Handled
  define_with se none = ok (se, status 501 ∷ [])
  define_with se (some (db, word)) = do
    r ← dict_search_databases db word strat_exact
    ok (define_reply se r)

  unfoldable pub daemon_define : Session → List (List ℕ) → Handled
  unfolding define_args is_letter
  daemon_define se argv = define_with se (define_args (is_letter 100 argv) argv)

  -- After the search of MATCH.
  unfoldable pub match_reply : Session → Searched → Session × List Output
  unfolding abs
  match_reply se r =
      let actual = daemon_count_matches r.list in
      if r.db_found && ltb 0 (abs r.returned)
      then (
        record se { dict_matches = se.dict_matches + actual },
        count_line 152 actual ∷ (daemon_dump_matches se.daemon_mime r.list ++ (status 250 ∷ [])),
      )
      else if not r.db_found
      then (se, status 550 ∷ [])
      else (se, status 552 ∷ [])

  unfoldable pub match_found : Session → List ℕ → List ℕ → Option ℕ → Handled
  match_found se db word none = ok (se, status 551 ∷ [])
  match_found se db word (some n) = do
    r ← dict_search_databases db word (n + match_mask)
    ok (match_reply se r)

  unfoldable pub match_with : Session → Option (List ℕ × List ℕ × List ℕ) → Handled
  match_with se none = ok (se, status 501 ∷ [])
  match_with se (some (db, strategy, word)) = match_found se db word (lookup_strategy strategy)

  unfoldable pub daemon_match : Session → List (List ℕ) → Handled
  unfolding match_args is_letter match_with match_found
  daemon_match se argv = match_with se (match_args (is_letter 109 argv) argv)

-- The loop of `daemon_show_db`.
unfoldable pub show_dbs : ℕ → List Database → Result DaemonFault (List Output)
show_dbs zero position = err no_fuel
show_dbs (suc fuel) position =
    let (candidate, rest) = next_database position any_name in
    elim candidate [
      | none ↦ ok []
      | some db ↦ do
        more ← show_dbs fuel rest
        ok (if db.exit_db then more else database_line db.database_name db.database_short ∷ more)
    ]

unfoldable pub show_listed : Session → List Database → ℕ → Handled
unfolding show_dbs
show_listed se dbl count =
    let mime = if se.daemon_mime then blank_line ∷ [] else [] in
    if count == 0 then ok (se, status 554 ∷ []) else (do
      lines ← show_dbs (suc (length dbl)) dbl
      ok (se, count_line 110 count ∷ (mime ++ (lines ++ (period ∷ (status 250 ∷ []))))))

unfoldable pub daemon_show_db : List Database → Session → List (List ℕ) → Handled
unfolding show_listed
daemon_show_db dbl se argv =
    let listing = elim (count_databases dbl) as (λ _. Handled) [
      | none ↦ err no_fuel
      | some n ↦ show_listed se dbl n
    ] in
    if length argv == 2 then listing else ok (se, status 501 ∷ [])
