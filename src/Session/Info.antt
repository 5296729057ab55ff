-- ===== src/Session/Info.antt =====
-- dictd/daemon.c: the handlers that only inform: `daemon_show_strat`, `daemon_show_info`,
-- `daemon_show_server`, `daemon_help`, `daemon_status` and the like. `Services` holds what they
-- ask of other parts: the strategy table, the search, the data files, the site's settings.
use dictd.Prelude.{
  ℕ, zero, suc, List, [], ◌∷◌, ◌++◌, Option, none, some, Bool, true, false, not, ◌&&◌, ◌==◌,
  if◌then◌else◌, length,
}
use dictd.Prelude.Text.{codes}
use dictd.Prelude.Int.{ℤ, pos, eqb_ℤ}
use dictd.Prelude.Result.{Result, ok, err, ◌>>=◌}
use dictd.Daemon.Types.{Database, DictWord, star, bang}
use dictd.Daemon.Databases.{Found, next_database, count_databases}
use dictd.Daemon.Search.{DaemonFault, no_fuel}
use dictd.Daemon.Print.{
  Output, status, count_line, about_line, line, strategy_line, text_body, text_part, blank_line,
  period,
}
use dictd.Daemon.Handlers.{Session, Searched, any_name}

pub record Services : Type 0 where
  -- With the MIME option and the databases: for a database name, a word and a strategy.
  pub search : Bool → List Database → List ℕ → List ℕ → ℕ → Result DaemonFault Searched
  pub lookup_strategy : List ℕ → Option ℕ
  pub strategies : List (List ℕ × List ℕ)
  pub dict_data_obtain : Database → DictWord → List ℕ
  pub dict_data_filter : List ℕ → List ℕ → List ℕ
  -- One database searched for an exact word; its description, and is it a virtual one?
  pub dict_search : Database → List ℕ → Result DaemonFault (ℤ × List DictWord)
  pub database_info : Database → Option (List ℕ)
  pub virtual_db : Database → Bool
  -- What SHOW SERVER prints: each part is empty where the settings leave it out.
  pub banner_lines : List (List ℕ)
  pub uptime_lines : List (List ℕ)
  pub site_info_no_dblist : Bool
  pub database_row : Database → List ℕ
  pub site_lines : List (List ℕ)
  -- The text of HELP.
  pub help_text : List ℕ

abbrev pub mime_lines : Session → List Output
mime_lines se = if se.daemon_mime then blank_line ∷ [] else []

abbrev pub as_lines : List (List ℕ) → List Output
as_lines [] = []
as_lines (l ∷ ls) = line l ∷ as_lines ls

module _ (sv : Services) where
  unfoldable pub strategy_lines : List (List ℕ × List ℕ) → List Output
  strategy_lines [] = []
  strategy_lines ((name, description) ∷ l) = strategy_line name description ∷ strategy_lines l

  unfoldable pub daemon_show_strat : Session → List (List ℕ) → List Output
  unfolding strategy_lines
  daemon_show_strat se argv =
      let count = length sv.strategies in
      if not (length argv == 2)
      then status 501 ∷ []
      else if count == 0
      then status 555 ∷ []
      else count_line 111 count
        ∷ (mime_lines se ++ (strategy_lines sv.strategies ++ (period ∷ (status 250 ∷ []))))

  -- The entry that holds the description, for a name behind an `@`, and a text given as it is.
  unfoldable pub info_entry : List ℕ → Option (List ℕ)
  info_entry (c ∷ name) = if c == 64 then some name else none
  info_entry [] = none

  unfoldable pub info_items : List DictWord → List Output
  info_items [] = []
  info_items (dw ∷ l) =
      line (codes "============ " ++ (dw.database.database_name ++ codes " ============"))
      ∷ (text_part (sv.dict_data_obtain dw.database dw) ∷ info_items l)

  -- After the search for the entry.
  unfoldable pub info_found : Session → List ℕ → Database → ℤ × List DictWord → List Output
  unfolding info_items
  info_found se name db (count, list) =
      let virtual =
        if sv.virtual_db db
        then line (
            codes "The virtual dictionary `"
            ++ (db.database_name ++ codes "' includes the following:"))
          ∷ (blank_line ∷ [])
        else [] in
      let items =
        if eqb_ℤ count (pos 0)
        then text_body (codes "No information available" ++ (10 ∷ [])) ∷ []
        else virtual ++ (info_items list ++ (text_body (10 ∷ []) ∷ [])) in
      about_line 112 name ∷ (mime_lines se ++ (items ++ (status 250 ∷ [])))

  unfoldable pub info_search :
      Session → List ℕ → Database → List ℕ → Result DaemonFault (List Output)
  unfolding info_found
  info_search se name db entry = do
    found ← sv.dict_search db entry
    ok (info_found se name db found)

  abbrev pub default_entry : List ℕ
  default_entry = codes "00-database-info"

  -- With a description, and the entry that it names, if it does.
  unfoldable pub described :
      Session → List ℕ → Database → List ℕ → Option (List ℕ) → Result DaemonFault (List Output)
  unfolding info_search
  described se name db info (some entry) = info_search se name db entry
  described se name db info none =
      ok (about_line 112 name ∷ (mime_lines se ++ (text_body info ∷ (status 250 ∷ []))))

  unfoldable pub info_of :
      Session → List ℕ → Database → Option (List ℕ) → Result DaemonFault (List Output)
  unfolding described info_entry
  info_of se name db none = info_search se name db default_entry
  info_of se name db (some info) = described se name db info (info_entry info)

  -- `*` or `!` and nothing more
  unfoldable pub is_wildcard : List ℕ → Bool
  is_wildcard (c ∷ []) = if c == star then true else c == bang
  is_wildcard _ = false

  -- Both branches in the loop over the databases return, so only the first one counts.
  unfoldable pub info_answer : Session → List ℕ → Found → Result DaemonFault (List Output)
  unfolding info_of
  info_answer se name (none, rest) = ok (status 550 ∷ [])
  info_answer se name (some db, rest) = info_of se name db (sv.database_info db)

  unfoldable pub daemon_show_info :
      List Database → Session → List (List ℕ) → Result DaemonFault (List Output)
  unfolding info_answer is_wildcard
  daemon_show_info dbl se (_ ∷ _ ∷ name ∷ []) =
      if is_wildcard name
      then ok (status 550 ∷ [])
      else info_answer se name (next_database dbl name)
  daemon_show_info dbl se _ = ok (status 501 ∷ [])

  -- The rows of the databases.
  unfoldable pub server_rows : ℕ → List Database → Result DaemonFault (List Output)
  server_rows zero position = err no_fuel
  server_rows (suc fuel) position =
      let (candidate, rest) = next_database position any_name in
      elim candidate [
        | none ↦ ok []
        | some db ↦ do more ← server_rows fuel rest; ok (line (sv.database_row db) ∷ more)
      ]

  unfoldable pub database_table : List Database → ℕ → Result DaemonFault (List Output)
  unfolding server_rows
  database_table dbl count =
      if not sv.site_info_no_dblist && not (count == 0)
      then (do
        rows ← server_rows (suc (length dbl)) dbl
        ok (
            line (codes "Database      Headwords         Index          Data  Uncompressed")
            ∷ (rows ++ (blank_line ∷ []))))
      else ok []

  -- With the number of the databases.
  unfoldable pub server_reply :
      List Database → Session → Option ℕ → Result DaemonFault (List Output)
  unfolding database_table
  server_reply dbl se none = err no_fuel
  server_reply dbl se (some count) = do
    table ← database_table dbl count
    ok (
        status 114
        ∷ (mime_lines se
            ++ (as_lines sv.banner_lines
                ++ (as_lines sv.uptime_lines
                    ++ (table ++ (as_lines sv.site_lines ++ (period ∷ (status 250 ∷ []))))))))

  unfoldable pub daemon_show_server : List Database → Session → Result DaemonFault (List Output)
  unfolding server_reply
  daemon_show_server dbl se = server_reply dbl se (count_databases dbl)
