-- ===== src/Session/Loop.antt =====
-- dictd/daemon.c: `_handleconn`, the life of a connection. The log and the process title are left
-- out; of alarm(2) it is kept how many seconds it was last called with, 0 for no timer.
use dictd.Prelude.{
  ℕ, zero, suc, ◌+◌, List, [], ◌∷◌, ◌++◌, Bool, not, ◌&&◌, leb, ◌==◌, if◌then◌else◌, length,
}
use dictd.Prelude.Int.{ℤ, pos, negsuc}
use dictd.Prelude.Result.{Result, ok, err, ◌>>=◌}
use dictd.Net.Line.{net_read}
use dictd.Daemon.Types.{Database}
use dictd.Daemon.Search.{DaemonFault, no_fuel}
use dictd.Daemon.Print.{Output, status, about_line, line}
use dictd.Session.Execute.{Server, Executed}

-- Why a connection ends: the argument of `daemon_terminate`.
pub data Reason : Type 0 where
  unavailable denied query_limit quit_command closed : Reason

pub record Conn : Type 0 where
  pub server : Server
  pub query_count : ℕ
  pub alarm : ℕ
  pub output : List Output

pub record End : Type 0 where
  pub conn : Conn
  pub reason : Reason

pub data Step : Type 0 where
  go_on : Conn → Step
  terminate : End → Step

-- `_dict_daemon_limit_queries` and `_dict_daemon_limit_time` (0: no limit), `client_delay` (0: no
-- delay) and `stdin2stdout_mode`.
pub record Limits : Type 0 where
  pub limit_queries : ℕ
  pub limit_time : ℕ
  pub client_delay : ℕ
  pub stdin2stdout_mode : Bool

module _ (lm : Limits) (execute : Server → List ℕ → Executed) where
  -- `if (!_dict_daemon_limit_time) alarm(seconds)`
  unfoldable pub set_alarm : ℕ → Conn → Conn
  set_alarm seconds c = if lm.limit_time == 0 then record c { alarm = seconds } else c

  unfoldable pub echo_line : List ℕ → Conn → Conn
  echo_line buf c =
      if lm.stdin2stdout_mode
      then record c { output = c.output ++ (line (35 ∷ (32 ∷ buf)) ∷ []) }
      else c

  -- After a command that went through.
  unfoldable pub after_command : Conn → Bool × Server × List Output → Step
  after_command c (continue, s, out) =
      let c' = record c { server = s; output = c.output ++ out } in
      if continue
      then go_on (set_alarm lm.client_delay c')
      else terminate (record { conn = c'; reason = quit_command })

  unfoldable pub run_line : ℕ → List ℕ → Conn → Result DaemonFault Step
  run_line zero buf c = ok (go_on c)
  run_line (suc count) buf c = do done ← execute c.server buf; ok (after_command c done)

  -- The body of the loop, on `count` and the line in `buf`.
  unfoldable pub handle_line : ℕ → List ℕ → Conn → Result DaemonFault Step
  handle_line count buf c =
      let c' = record c { query_count = c.query_count + 1 } in
      if not (lm.limit_queries == 0) && leb lm.limit_queries (c.query_count + 1)
      then ok (terminate (record { conn = c'; reason = query_limit }))
      else run_line count buf (set_alarm 0 (echo_line buf c'))

  unfoldable pub after_step : Step → (Conn → Result DaemonFault End) → Result DaemonFault End
  after_step (terminate e) next = ok e
  after_step (go_on c) next = next c

  -- A round on the result of the read; `next` is the rest of the loop.
  unfoldable pub on_read :
      ℤ → List ℕ → Conn → (Conn → Result DaemonFault End) → Result DaemonFault End
  on_read (negsuc _) buf c next = ok (record { conn = c; reason = closed })
  on_read (pos count) buf c next = do step ← handle_line count buf c; after_step step next

  -- The loop, on the socket's bytes.
  unfoldable pub serve : ℤ → ℕ → List ℕ → Conn → Result DaemonFault End
  serve ending zero bytes c = err no_fuel
  serve ending (suc fuel) bytes c =
      let l = net_read ending 4000 bytes in
      on_read l.result l.buf c (λ c'. serve ending fuel l.rest c')

  abbrev pub start_conn : Server → List Output → Conn
  start_conn s out = record { server = s; query_count = 0; alarm = 0; output = out }

  -- After the check of the address.
  unfoldable pub greet :
      (List Database → Server) → List ℕ → ℤ → List ℕ → ℕ × List Database → Result DaemonFault End
  greet new_server banner ending bytes (refused, d) =
      if refused == 0
      then serve ending (suc (length bytes)) bytes
          (set_alarm lm.client_delay (start_conn (new_server d) (about_line 220 banner ∷ [])))
      else ok (record { conn = start_conn (new_server d) (status 530 ∷ []); reason = denied })

  -- The answer to an error at the start, or the check of the address, the banner and the loop.
  unfoldable pub handleconn :
      (List Database → Result DaemonFault (ℕ × List Database))
      → (List Database → Server)
      → Bool
      → List ℕ
      → ℤ
      → List Database
      → List ℕ
      → Result DaemonFault End
  handleconn check_auth new_server error banner ending dbl bytes =
      if error
      then ok
          (record { conn = start_conn (new_server dbl) (status 420 ∷ []); reason = unavailable })
      else (do checked ← check_auth dbl; greet new_server banner ending bytes checked)
