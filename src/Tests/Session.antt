-- ===== src/Tests/Session.antt =====
-- Tests of dictd/daemon.c: the commands of a client and the loop that reads them.
use dictd.Prelude.{
  ℕ, ◌≡◌, refl, inr, List, [], ◌∷◌, ◌++◌, Option, none, some, true, false, arith, length, ◌==◌,
  if◌then◌else◌,
}
use dictd.Prelude.Text.{codes}
use dictd.Prelude.Int.{pos}
use dictd.Prelude.Result.{Result, ok, err, Returns}
use dictd.Daemon.Types.{Database}
use dictd.Daemon.Databases.{chosen, listed}
use dictd.Daemon.Print.{Output, status, count_line, period}
use dictd.Daemon.Search.{DaemonFault, null_word}
use dictd.Daemon.Handlers.{Session, daemon_show_db}
use dictd.Access.Lists.{daemon_check_auth, daemon_check_list}
use dictd.Session.Commands.{Command, show_db, command_info, row_fits, lookup_command}
use dictd.Session.Longest.{Longest, lookup_command-Longest}
use dictd.Session.Info.{Services, mime_lines}
use dictd.Session.Listing.{database_lines, daemon_show_db-listed}
use dictd.Session.Auth.{Security, daemon_auth}
use dictd.Session.Answered.{Outcome, daemon_auth-Outcome}
use dictd.Session.Execute.{Server, Executed, execute}
use dictd.Session.Total.{Ran, execute-Ran}
use dictd.Session.Loop.{Limits, Conn, handle_line, handleconn}
use dictd.Session.Ends.{is_ending, Within, handleconn-Within}
use dictd.Session.Alarm.{Timed, handle_line-Timed}
use dictd.Tests.Daemon.{dbl, web}
use dictd.Tests.Access.{client}

abbrev show_db_line : List (List ℕ)
show_db_line = codes "SHOW" ∷ codes "DB" ∷ []

lookup_command-Longest_example : Longest command_info show_db_line 1 (lookup_command show_db_line)
unfolding row_fits
lookup_command-Longest_example =
    lookup_command-Longest show_db_line (codes "show" ∷ []) Command.show 10 refl refl

-- SHOW DB and not SHOW.
show_db_found : lookup_command show_db_line ≡ some show_db
unfolding lookup_command
show_db_found = refl

abbrev session : Session
session = record { daemon_mime = true; dict_defines = 0; dict_matches = 0 }

abbrev server : Server
server = record { session = session; dbl = dbl }

-- Three queries in all.
abbrev three_queries : Limits
three_queries = record {
  limit_queries = 3;
  limit_time = 0;
  client_delay = 600;
  stdin2stdout_mode = false;
}

abbrev simple : Server → List ℕ → Executed
simple s buf = ok (true, s, status 250 ∷ [])

abbrev let_in : List Database → Result DaemonFault (ℕ × List Database)
let_in l = ok (0, l)

abbrev new_server : List Database → Server
new_server l = record { session = session; dbl = l }

-- Four lines, of which the second is empty: `a`, ``, `b`, `c`.
abbrev four_lines : List ℕ
four_lines = 97 ∷ 10 ∷ 10 ∷ 98 ∷ 10 ∷ 99 ∷ 10 ∷ []

handleconn-Within_example :
    Returns
      (handleconn three_queries simple let_in new_server false [] (pos 0) dbl four_lines)
      (λ e. Within three_queries e.conn.query_count e.reason)
unfolding is_ending
handleconn-Within_example =
    handleconn-Within three_queries simple (λ s buf. tt) let_in new_server false [] (pos 0) dbl
      four_lines tt refl

abbrev conn : Conn
conn = record { server = server; query_count = 0; alarm = 600; output = [] }

handle_line-Timed_example :
    Returns (handle_line three_queries simple 4 (codes "help") conn) (Timed 600)
handle_line-Timed_example =
    handle_line-Timed three_queries simple (λ s buf. tt) 4 (codes "help") conn refl

daemon_show_db-listed_example :
    daemon_show_db dbl session show_db_line
    ≡ ok (
      session,
      count_line 110 3
          ∷ (mime_lines session ++ (database_lines (listed dbl) ++ (period ∷ (status 250 ∷ [])))),
    )
unfolding chosen
daemon_show_db-listed_example = daemon_show_db-listed dbl session (codes "SHOW") (codes "DB")

-- One user with a secret; the sum is the text itself.
abbrev secrets : List ℕ → Option (List ℕ)
secrets name = if length name == 2 then some (codes "pw") else none

abbrev security : Security
security = record {
  usl = some secrets;
  md5_hex = λ text. text;
  daemon_stamp = codes "<1>";
  client = client;
  acl = none;
  db_acl = λ d. none;
}

daemon_auth-Outcome_example :
    Returns (daemon_auth security dbl (codes "auth" ∷ codes "me" ∷ codes "<1>pw" ∷ [])) (λ r.
      (out : List Output) × Outcome security dbl (codes "me") (codes "<1>pw") (r.0, out)
      × (r.1 ≡ (if true then out else status 501 ∷ out)))
daemon_auth-Outcome_example =
    daemon_auth-Outcome security tt (λ d. tt) dbl (codes "auth") (codes "me") (codes "<1>pw") []

-- The word is right: the user is let in.
me_is_let_in :
    daemon_auth security (web ∷ []) (codes "auth" ∷ codes "me" ∷ codes "<1>pw" ∷ [])
    ≡ ok (web ∷ [], status 230 ∷ [])
unfolding daemon_auth daemon_check_auth daemon_check_list
me_is_let_in = refl

-- One argument, and the program uses NULL.
null_name : daemon_auth security dbl (codes "auth" ∷ []) ≡ err null_word
unfolding daemon_auth
null_name = refl

abbrev services : Services
services = record {
  search = λ mime l name word n. ok (record { returned = pos 0; db_found = true; list = [] });
  lookup_strategy = λ name. none;
  strategies = [];
  dict_data_obtain = λ db dw. [];
  dict_data_filter = λ name text. text;
  dict_search = λ db word. ok (pos 0, []);
  database_info = λ db. none;
  virtual_db = λ db. false;
  banner_lines = [];
  uptime_lines = [];
  site_info_no_dblist = false;
  database_row = λ db. db.database_name;
  site_lines = [];
  help_text = [];
}

-- Every line is `show info w`.
abbrev show_info_words : List ℕ → List (List ℕ)
show_info_words buf = codes "show" ∷ codes "info" ∷ codes "w" ∷ []

execute-Ran_example :
    Returns
      (execute services security show_info_words server [])
      (Ran services security (lookup_command (show_info_words [])))
unfolding lookup_command
execute-Ran_example =
    execute-Ran services security (λ mime l name word n. tt) (λ db word. tt) tt (λ d. tt)
      show_info_words server [] (λ e. inr (omega arith))
