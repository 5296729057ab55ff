-- ===== src/Session/Alarm.antt =====
-- dictd/daemon.c: the timer of a connection without a limit of time.
use dictd.Prelude.{
  ℕ, zero, suc, ◌+◌, ◌≡◌, refl, inl, inr, List, ◌++◌, Bool, true, false, not, ◌&&◌, arith, leb,
  ◌==◌, if◌then◌else◌, Bool-cases,
}
use dictd.Prelude.Result.{ok, Returns, Returns-bind}
use dictd.Daemon.Print.{Output}
use dictd.Session.Execute.{Server, Executed}
use dictd.Session.Loop.{
  Conn, Step, go_on, terminate, Limits, set_alarm, echo_line, after_command, run_line, handle_line,
}

-- The timer of a connection that goes on.
abbrev pub Timed : ℕ → Step → Type 0
Timed n (go_on c) = c.alarm ≡ n
Timed n (terminate e) = Unit

module _ (lm : Limits) (execute : Server → List ℕ → Executed)
    (total : (s : Server) (buf : List ℕ) → Returns (execute s buf) (λ r. Unit {0})) where
  set_alarm-alarm : (n : ℕ) (c : Conn) → lm.limit_time ≡ 0 → (set_alarm lm execute n c).alarm ≡ n
  unfolding set_alarm
  set_alarm-alarm n c h =
      let e : (lm.limit_time == 0) ≡ true = ground (arith, h) in rw (e, set_alarm) refl

  after_command-Timed :
      (c : Conn) (r : Bool × Server × List Output)
      → lm.limit_time ≡ 0
      → Timed lm.client_delay (after_command lm execute c r)
  unfolding after_command
  after_command-Timed c (true, s, out) h =
      set_alarm-alarm lm.client_delay (record c { server = s; output = c.output ++ out }) h
  after_command-Timed c (false, s, out) h = tt

  run_line-Timed :
      (count : ℕ) (buf : List ℕ) (c : Conn)
      → lm.limit_time ≡ 0
      → c.alarm ≡ 0
      → Returns
          (run_line lm execute count buf c)
          (Timed (if count == 0 then 0 else lm.client_delay))
  unfolding run_line
  run_line-Timed zero buf c h a = a
  run_line-Timed (suc count) buf c h a =
      let e : (suc count == 0) ≡ false = ground arith in
      rw e (
        Returns-bind (execute c.server buf) (λ r. ok (after_command lm execute c r)) (λ r. Unit {0})
          (Timed lm.client_delay) (total c.server buf) (λ r _. after_command-Timed c r h))

  -- Without a limit of time, and if every command gives a result: a line that the connection
  -- survives leaves a timer of client_delay seconds running for the next read if the line was not
  -- empty, and no timer if it was empty. A client_delay of 0 seconds is no timer.
  pub handle_line-Timed :
      (count : ℕ) (buf : List ℕ) (c : Conn)
      → lm.limit_time ≡ 0
      → Returns
          (handle_line lm execute count buf c)
          (Timed (if count == 0 then 0 else lm.client_delay))
  unfolding handle_line
  handle_line-Timed count buf c h =
      let c1 : Conn = record c { query_count = c.query_count + 1 } in
      elim (Bool-cases (not (lm.limit_queries == 0) && leb lm.limit_queries (c.query_count + 1))) [
        | inl e ↦ rw e tt
        | inr e ↦ rw e (
            run_line-Timed count buf (set_alarm lm execute 0 (echo_line lm execute buf c1)) h
              (set_alarm-alarm 0 (echo_line lm execute buf c1) h))
      ]
