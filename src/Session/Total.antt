-- ===== src/Session/Total.antt =====
-- dictd/daemon.c: every line of a client is answered.
use dictd.Prelude.{
  ℕ, ◌≤◌, ◌<◌, ◌≡◌, refl, ◌⊎◌, inl, inr, List, [], ◌∷◌, Option, none, some, Bool, true, false, not,
  arith, ◌==◌, if◌then◌else◌, length,
}
use dictd.Prelude.Result.{Result, ok, Returns, Returns-bind, Returns-map}
use dictd.Daemon.Types.{Database}
use dictd.Daemon.Print.{Output, status}
use dictd.Daemon.Search.{DaemonFault}
use dictd.Daemon.Handlers.{Session, daemon_define, daemon_match, daemon_show_db}
use dictd.Daemon.Answers.{Defined, Matched, daemon_define-Defined, daemon_match-Matched}
use dictd.Daemon.Counted.{definitions, matches}
use dictd.Access.Auth.{Short}
use dictd.Session.Commands.{
  Command, define, match, show_db, show_strat, show_info, show_server, show, option_mime, option,
  client, auth, help, quit, lookup_command,
}
use dictd.Session.Info.{Services, daemon_show_info}
use dictd.Session.Auth.{Security, find_secret, check_digest, daemon_auth}
use dictd.Session.Answered.{daemon_auth-Outcome, Outcome}
use dictd.Session.Execute.{Server, handled, inform, run_command, run_found, execute}
use dictd.Session.Listing.{daemon_show_server-visible}
use dictd.Session.Responses.{
  Answer-answered, one_or_two, daemon_show_db-answered, daemon_show_strat-answered,
  daemon_show_info-answered,
}

unfoldable pub is_quit : Option Command → Bool
is_quit (some quit) = true
is_quit _ = false

module _ (sv : Services) (sc : Security) where
  -- What a line leaves: the connection goes on unless the command is QUIT, and there is output.
  abbrev pub Ran : Option Command → Bool × Server × List Output → Type 0
  Ran f (continue, s, out) = (continue ≡ not (is_quit f)) × (0 < length out)

  module _
      (search_total : (mime : Bool) (dbl : List Database) (name word : List ℕ) (n : ℕ)
        → Returns (sv.search mime dbl name word n) (λ r. Unit {0}))
      (info_total : (db : Database) (word : List ℕ)
        → Returns (sv.dict_search db word) (λ r. Unit {0})) where
    handled-Ran :
        (f : Option Command) (s : Server) (m : Result DaemonFault (Session × List Output))
        → is_quit f ≡ false
        → Returns m (λ r. 0 < length r.1)
        → Returns (handled sv sc s m) (Ran f)
    handled-Ran f s m q h =
        Returns-bind m (λ (se, out). ok (true, record s { session = se }, out))
          (λ r. 0 < length r.1) (Ran f) h (λ r l. (rw q refl, l))

    inform-Ran :
        (f : Option Command) (s : Server) (m : Result DaemonFault (List Output))
        → is_quit f ≡ false
        → Returns m (λ out. 0 < length out)
        → Returns (inform sv sc s m) (Ran f)
    inform-Ran f s m q h =
        Returns-bind m (λ out. ok (true, s, out)) (λ out. 0 < length out) (Ran f) h
          (λ out l. (rw q refl, l))

    -- AUTH is called with a user and a word, or there are no secrets.
    abbrev pub Ready : Option Command → List (List ℕ) → Type 0
    Ready f argv = f ≡ some auth → (sc.usl ≡ none) ⊎ (3 ≤ length argv)

    module _ (short : Short sc.acl) (shorts : (db : Database) → Short (sc.db_acl db)) where
      Outcome_length :
          (dbl : List Database) (user given : List ℕ) (r : List Database × List Output)
          → Outcome sc dbl user given r
          → 0 < length r.1
      Outcome_length dbl user given r Outcome.refused = omega arith
      Outcome_length dbl user given r (Outcome.accepted n dbl' v e) = omega arith

      auth_answered :
          (dbl : List Database) (argv : List (List ℕ))
          → (sc.usl ≡ none) ⊎ (3 ≤ length argv)
          → Returns (daemon_auth sc dbl argv) (λ r. 0 < length r.1)
      unfolding daemon_auth find_secret check_digest
      auth_answered dbl argv (inl e) = rw e (ground arith)
      auth_answered dbl [] (inr h) = absurd (omega arith)
      auth_answered dbl (a ∷ []) (inr h) = absurd (omega arith)
      auth_answered dbl (a ∷ b ∷ []) (inr h) = absurd (omega arith)
      auth_answered dbl (a ∷ user ∷ given ∷ more) (inr h) =
          Returns-map (daemon_auth sc dbl (a ∷ user ∷ given ∷ more))
            (λ r.
              (out : List Output) × Outcome sc dbl user given (r.0, out)
              × (r.1 ≡ (if length more == 0 then out else status 501 ∷ out)))
            (λ r. 0 < length r.1) (daemon_auth-Outcome sc short shorts dbl a user given more)
            (λ r (out, o, e).
              one_or_two (length more == 0) out r.1 (Outcome_length dbl user given (r.0, out) o) e)

      run_command-Ran :
          (s : Server) (argv : List (List ℕ)) (f : Command)
          → Ready (some f) argv
          → Returns (run_command sv sc s argv f) (Ran (some f))
      unfolding run_command is_quit
      run_command-Ran s argv define r =
          handled-Ran (some define) s
            (daemon_define (sv.search s.session.daemon_mime s.dbl) sv.lookup_strategy
              sv.dict_data_obtain sv.dict_data_filter s.session argv)
            refl
            (Returns-map
              (daemon_define (sv.search s.session.daemon_mime s.dbl) sv.lookup_strategy
                sv.dict_data_obtain sv.dict_data_filter s.session argv)
              (Defined s.session) (λ r. 0 < length r.1)
              (daemon_define-Defined (sv.search s.session.daemon_mime s.dbl) sv.lookup_strategy
                sv.dict_data_obtain sv.dict_data_filter (search_total s.session.daemon_mime s.dbl)
                s.session argv)
              (λ (se', o) (n, (a, _)). Answer-answered 150 definitions n o a))
      run_command-Ran s argv match r =
          handled-Ran (some match) s
            (daemon_match (sv.search s.session.daemon_mime s.dbl) sv.lookup_strategy
              sv.dict_data_obtain sv.dict_data_filter s.session argv)
            refl
            (Returns-map
              (daemon_match (sv.search s.session.daemon_mime s.dbl) sv.lookup_strategy
                sv.dict_data_obtain sv.dict_data_filter s.session argv)
              (Matched s.session) (λ r. 0 < length r.1)
              (daemon_match-Matched (sv.search s.session.daemon_mime s.dbl) sv.lookup_strategy
                sv.dict_data_obtain sv.dict_data_filter (search_total s.session.daemon_mime s.dbl)
                s.session argv)
              (λ (se', o) (n, (a, _)). Answer-answered 152 matches n o a))
      run_command-Ran s argv show_db r =
          handled-Ran (some show_db) s (daemon_show_db s.dbl s.session argv) refl
            (daemon_show_db-answered s.dbl s.session argv)
      run_command-Ran s argv show_strat r = (refl, daemon_show_strat-answered sv s.session argv)
      run_command-Ran s argv show_info r =
          inform-Ran (some show_info) s (daemon_show_info sv s.dbl s.session argv) refl
            (daemon_show_info-answered sv info_total s.dbl s.session argv)
      run_command-Ran s argv show_server r =
          let e = daemon_show_server-visible sv s.dbl s.session in rw e (refl, omega arith)
      run_command-Ran s argv show r = (refl, omega arith)
      run_command-Ran s argv option_mime r = (refl, omega arith)
      run_command-Ran s argv option r = (refl, omega arith)
      run_command-Ran s argv client r = (refl, omega arith)
      run_command-Ran s argv auth r =
          Returns-bind (daemon_auth sc s.dbl argv)
            (λ (dbl', out). ok (true, record s { dbl = dbl' }, out)) (λ r. 0 < length r.1)
            (Ran (some auth)) (auth_answered s.dbl argv (r refl)) (λ r l. (refl, l))
      run_command-Ran s argv Command.status r = (refl, omega arith)
      run_command-Ran s argv help r = (refl, omega arith)
      run_command-Ran s argv quit r = (refl, omega arith)

      run_found-Ran :
          (s : Server) (argv : List (List ℕ)) (f : Option Command)
          → Ready f argv
          → Returns (run_found sv sc s argv f) (Ran f)
      unfolding run_found is_quit
      run_found-Ran s argv none r = (refl, omega arith)
      run_found-Ran s argv (some f) r = run_command-Ran s argv f r

      -- A line of a client always gets an answer, of one line or more, and the connection goes on
      -- unless the command is QUIT: if the search over the databases and the search in one give
      -- results, the specifications of the access lists are shorter than 128 characters, and an AUTH
      -- has two arguments or there are no secrets.
      pub execute-Ran :
          (argify : List ℕ → List (List ℕ)) (s : Server) (buf : List ℕ)
          → Ready (lookup_command (argify buf)) (argify buf)
          → Returns (execute sv sc argify s buf) (Ran (lookup_command (argify buf)))
      unfolding execute
      execute-Ran argify s buf r = run_found-Ran s (argify buf) (lookup_command (argify buf)) r
