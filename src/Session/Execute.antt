-- ===== src/Session/Execute.antt =====
-- dictd/daemon.c: the call of the function that `lookup_command` found.
use dictd.Prelude.{ℕ, List, [], ◌∷◌, ◌++◌, Option, none, some, Bool, true, false}
use dictd.Prelude.Result.{Result, ok, ◌>>=◌}
use dictd.Daemon.Types.{Database}
use dictd.Daemon.Search.{DaemonFault}
use dictd.Daemon.Print.{Output, status, text_body}
use dictd.Daemon.Handlers.{Session, daemon_define, daemon_match, daemon_show_db}
use dictd.Session.Commands.{
  Command, define, match, show_db, show_strat, show_info, show_server, show, option_mime, option,
  client, auth, help, quit, lookup_command,
}
use dictd.Session.Info.{
  Services, mime_lines, daemon_show_strat, daemon_show_info, daemon_show_server,
}
use dictd.Session.Auth.{Security, daemon_auth}

pub record Server : Type 0 where
  pub session : Session
  pub dbl : List Database

-- What a command leaves: does the connection go on, the state, the output.
abbrev pub Executed : Type 0
Executed = Result DaemonFault (Bool × Server × List Output)

module _ (sv : Services) (sc : Security) where
  abbrev pub inform : Server → Result DaemonFault (List Output) → Executed
  inform s m = do out ← m; ok (true, s, out)

  abbrev pub handled : Server → Result DaemonFault (Session × List Output) → Executed
  handled s m = do (se, out) ← m; ok (true, record s { session = se }, out)

  unfoldable pub run_command : Server → List (List ℕ) → Command → Executed
  run_command s argv define = handled s (
      daemon_define (sv.search s.session.daemon_mime s.dbl) sv.lookup_strategy sv.dict_data_obtain
        sv.dict_data_filter s.session argv)
  run_command s argv match = handled s (
      daemon_match (sv.search s.session.daemon_mime s.dbl) sv.lookup_strategy sv.dict_data_obtain
        sv.dict_data_filter s.session argv)
  run_command s argv show_db = handled s (daemon_show_db s.dbl s.session argv)
  run_command s argv show_strat = ok (true, s, daemon_show_strat sv s.session argv)
  run_command s argv show_info = inform s (daemon_show_info sv s.dbl s.session argv)
  run_command s argv show_server = inform s (daemon_show_server sv s.dbl s.session)
  run_command s argv show = ok (true, s, status 501 ∷ [])
  run_command s argv option_mime =
      ok (true, record s { session = record s.session { daemon_mime = true } }, status 250 ∷ [])
  run_command s argv option = ok (true, s, status 501 ∷ [])
  run_command s argv client = ok (true, s, status 250 ∷ [])
  run_command s argv auth = do
    (dbl', out) ← daemon_auth sc s.dbl argv
    ok (true, record s { dbl = dbl' }, out)
  run_command s argv Command.status = ok (true, s, status 210 ∷ [])
  run_command s argv help =
      ok (
        true,
        s,
        status 113 ∷ (mime_lines s.session ++ (text_body sv.help_text ∷ (status 250 ∷ []))),
      )
  run_command s argv quit = ok (false, s, status 221 ∷ [])

  unfoldable pub run_found : Server → List (List ℕ) → Option Command → Executed
  unfolding run_command
  run_found s argv none = ok (true, s, status 500 ∷ [])
  run_found s argv (some f) = run_command s argv f

  -- A line of the client: its arguments, the command, its function.
  unfoldable pub execute : (List ℕ → List (List ℕ)) → Server → List ℕ → Executed
  unfolding run_found
  execute argify s buf = run_found s (argify buf) (lookup_command (argify buf))
