-- ===== src/Session/Listing.antt =====
-- dictd/daemon.c: what SHOW DB and SHOW SERVER list.
use dictd.Prelude.{
  ℕ, zero, suc, ◌<◌, ◌≡◌, refl, inl, inr, List, [], ◌∷◌, ◌++◌, none, some, not, ◌&&◌, arith, ◌==◌,
  if◌then◌else◌, length, Bool-cases, ap,
}
use dictd.Prelude.Text.{codes}
use dictd.Prelude.Result.{Result, ok, ◌>>=◌}
use dictd.Daemon.Types.{Database}
use dictd.Daemon.Databases.{
  Found, First, next_database, chosen, select, listed, select-length, next_database-First,
  count_databases-listed,
}
use dictd.Daemon.Print.{Output, status, count_line, line, database_line, period, blank_line}
use dictd.Daemon.Search.{DaemonFault}
use dictd.Daemon.Handlers.{Session, any_name, show_dbs, show_listed, daemon_show_db}
use dictd.Session.Info.{
  Services, mime_lines, server_rows, database_table, as_lines, server_reply, daemon_show_server,
}

-- A row of SHOW DB for each database.
abbrev pub database_lines : List Database → List Output
database_lines [] = []
database_lines (db ∷ l) = database_line db.database_name db.database_short ∷ database_lines l

-- The databases that `*` asks for.
abbrev pub visible : List Database → List Database
visible dbl = select (chosen any_name) dbl

show_dbs_round :
    (next : List Database → Result DaemonFault (List Output)) (fuel : ℕ)
    → ((l : List Database) → length (visible l) < fuel → next l ≡ ok (database_lines (listed l)))
    → (l : List Database) (f : Found) → First (chosen any_name) l f
    → length (visible l) < suc fuel
    → elim f.0 as (λ _. Result DaemonFault (List Output)) [
      | none ↦ ok []
      | some db ↦ next f.1 >>= λ more.
          ok (if db.exit_db then more else database_line db.database_name db.database_short ∷ more)
    ]
      ≡ ok (database_lines (listed l))
show_dbs_round next fuel ih l (none, rest) (e, _) h = rw e refl
show_dbs_round next fuel ih l (some d, rest) e h =
    let go = ih rest (omega (arith, ap length e)) in
    rw (e, go) (elim (Bool-cases d.exit_db) [ inl x ↦ rw x refl | inr x ↦ rw x refl ])

show_dbs-listed :
    (fuel : ℕ) (l : List Database)
    → length (visible l) < fuel
    → show_dbs fuel l ≡ ok (database_lines (listed l))
unfolding show_dbs
show_dbs-listed zero l h = absurd (omega arith)
show_dbs-listed (suc fuel) l h =
    show_dbs_round (show_dbs fuel) fuel (show_dbs-listed fuel) l (next_database l any_name)
      (next_database-First l any_name) h

-- SHOW DB, without further arguments, answers with an error line if no database is available, not
-- hidden and no end mark; else with the number of these databases, exactly their rows in order and
-- a final 250. The state stays as it is.
pub daemon_show_db-listed :
    (dbl : List Database) (se : Session) (a b : List ℕ)
    → daemon_show_db dbl se (a ∷ b ∷ [])
      ≡ ok (
        se,
        if length (listed dbl) == 0
            then status 554 ∷ []
            else count_line 110 (length (listed dbl))
              ∷ (mime_lines se ++ (database_lines (listed dbl) ++ (period ∷ (status 250 ∷ [])))),
      )
unfolding daemon_show_db show_listed
daemon_show_db-listed dbl se a b =
    let rows =
      show_dbs-listed (suc (length dbl)) dbl (omega (arith, select-length (chosen any_name) dbl)) in
    rw (count_databases-listed dbl, rows)
      (elim (Bool-cases (length (listed dbl) == 0)) [ inl e ↦ rw e refl | inr e ↦ rw e refl ])

module _ (sv : Services) where
  abbrev pub rows_of : List Database → List Output
  rows_of [] = []
  rows_of (db ∷ l) = line (sv.database_row db) ∷ rows_of l

  rows_round :
      (next : List Database → Result DaemonFault (List Output)) (fuel : ℕ)
      → ((l : List Database) → length (visible l) < fuel → next l ≡ ok (rows_of (visible l)))
      → (l : List Database) (f : Found) → First (chosen any_name) l f
      → length (visible l) < suc fuel
      → elim f.0 as (λ _. Result DaemonFault (List Output)) [
        | none ↦ ok []
        | some db ↦ next f.1 >>= λ more. ok (line (sv.database_row db) ∷ more)
      ]
        ≡ ok (rows_of (visible l))
  rows_round next fuel ih l (none, rest) (e, _) h = rw e refl
  rows_round next fuel ih l (some d, rest) e h =
      let go = ih rest (omega (arith, ap length e)) in rw (e, go) refl

  server_rows-visible :
      (fuel : ℕ) (l : List Database)
      → length (visible l) < fuel
      → server_rows sv fuel l ≡ ok (rows_of (visible l))
  unfolding server_rows
  server_rows-visible zero l h = absurd (omega arith)
  server_rows-visible (suc fuel) l h =
      rows_round (server_rows sv fuel) fuel (server_rows-visible fuel) l (next_database l any_name)
        (next_database-First l any_name) h

  -- The table of SHOW SERVER: hidden where the settings say so, or where SHOW DB would be empty.
  unfoldable pub table_of : List Database → List Output
  table_of dbl =
      if not sv.site_info_no_dblist && not (length (listed dbl) == 0)
      then line (codes "Database      Headwords         Index          Data  Uncompressed")
        ∷ (rows_of (visible dbl) ++ (blank_line ∷ []))
      else []

  -- SHOW SERVER always gives an answer: the 114 line; the parts for the banner, the time the server
  -- is up and the site; the table; a period and a final 250. The table is there if the settings want
  -- it and SHOW DB would list a database. It has one row for each database that is available and not
  -- hidden, in order, the end marks included.
  pub daemon_show_server-visible :
      (dbl : List Database) (se : Session)
      → daemon_show_server sv dbl se
        ≡ ok (
            status 114
            ∷ (mime_lines se
                ++ (as_lines sv.banner_lines
                    ++ (as_lines sv.uptime_lines
                        ++ (table_of dbl
                            ++ (as_lines sv.site_lines ++ (period ∷ (status 250 ∷ []))))))))
  unfolding daemon_show_server server_reply database_table table_of
  daemon_show_server-visible dbl se =
      let rows =
        server_rows-visible (suc (length dbl)) dbl
          (omega (arith, select-length (chosen any_name) dbl)) in
      rw (count_databases-listed dbl, rows)
        (elim (Bool-cases (not sv.site_info_no_dblist && not (length (listed dbl) == 0))) [
          | inl e ↦ rw e refl
          | inr e ↦ rw e refl
        ])
