-- ===== src/Session/Ends.antt =====
-- dictd/daemon.c: every connection ends, within its limit of queries.
use dictd.Prelude.{
  ℕ, zero, suc, ◌+◌, ◌≤◌, ◌<◌, ◌≡◌, inl, inr, List, [], ◌∷◌, ◌++◌, Bool, true, false, not, ◌&&◌,
  arith, leb, ◌==◌, length, Bool-cases, ◌∙◌,
}
use dictd.Prelude.Int.{ℤ, pos, negsuc, eqb_ℤ}
use dictd.Prelude.Result.{Result, ok, Returns, Returns-bind}
use dictd.Net.Line.{read_end, read_loop, net_read}
use dictd.Daemon.Types.{Database}
use dictd.Daemon.Print.{Output, about_line}
use dictd.Daemon.Search.{DaemonFault}
use dictd.Session.Execute.{Server, Executed}
use dictd.Session.Loop.{
  Reason, query_limit, Conn, End, Step, go_on, terminate, Limits, set_alarm, echo_line,
  after_command, run_line, handle_line, after_step, on_read, serve, greet, start_conn, handleconn,
}

-- What read(2) gives behind the last byte: 0, or a negative number.
unfoldable pub is_ending : ℤ → Bool
is_ending (pos n) = n == 0
is_ending (negsuc n) = true

read_loop-rest :
    (maxlen : ℕ) (ending n : ℤ) (len : ℕ) (bytes : List ℕ)
    → length (read_loop maxlen ending n len bytes).rest ≤ length bytes
unfolding read_loop
read_loop-rest maxlen ending n len [] = omega arith
read_loop-rest maxlen ending n len (c ∷ bytes) = ground (
  arith,
  read_loop-rest maxlen ending (pos 1) len bytes,
  read_loop-rest maxlen ending (pos 1) (suc len) bytes,
)

-- A line that was read took a byte or more.
abbrev Shorter : ℤ → ℕ → ℕ → Type 0
Shorter (negsuc n) rest bytes = Unit
Shorter (pos n) rest bytes = rest < bytes

Shorter-of_lt : (r : ℤ) (rest bytes : ℕ) → rest < bytes → Shorter r rest bytes
Shorter-of_lt (pos n) rest bytes h = h
Shorter-of_lt (negsuc n) rest bytes h = tt

net_read-rest :
    (ending : ℤ) (c : ℕ) (bytes : List ℕ)
    → length (net_read ending 4000 (c ∷ bytes)).rest ≤ length bytes
unfolding net_read read_loop
net_read-rest ending c bytes =
    ground (
      arith,
      read_loop-rest 4000 ending (pos 1) 0 bytes,
      read_loop-rest 4000 ending (pos 1) 1 bytes,
    )

net_read-Shorter :
    (ending : ℤ) (bytes : List ℕ)
    → is_ending ending ≡ true
    → Shorter
        (net_read ending 4000 bytes).result
        (length (net_read ending 4000 bytes).rest)
        (length bytes)
unfolding net_read read_loop read_end is_ending eqb_ℤ
net_read-Shorter (pos zero) [] h = tt
net_read-Shorter (pos (suc n)) [] h = ground (arith, h)
net_read-Shorter (negsuc n) [] h =
    let e : eqb_ℤ (negsuc n) (pos 0) ≡ false = ground arith in rw e tt
net_read-Shorter ending (c ∷ bytes) h =
    Shorter-of_lt (net_read ending 4000 (c ∷ bytes)).result
      (length (net_read ending 4000 (c ∷ bytes)).rest) (suc (length bytes))
      (omega (arith, net_read-rest ending c bytes))

unfoldable pub is_limit : Reason → Bool
is_limit query_limit = true
is_limit _ = false

module _ (lm : Limits) where
  -- Within the limit, if there is one.
  pub record Within (n : ℕ) (reason : Reason) : Type 0 where
    pub bounded : 0 < lm.limit_queries → n ≤ lm.limit_queries
    pub exact : is_limit reason ≡ true → n ≡ lm.limit_queries

  -- The count before a line is read.
  abbrev Below : ℕ → Type 0
  Below n = 0 < lm.limit_queries → n < lm.limit_queries

  -- What a step leaves.
  abbrev Stepped : Step → Type 0
  Stepped (go_on c) = Below c.query_count
  Stepped (terminate e) = Within e.conn.query_count e.reason

  module _ (execute : Server → List ℕ → Executed)
      (total : (s : Server) (buf : List ℕ) → Returns (execute s buf) (λ r. Unit {0})) where
    set_alarm-count : (n : ℕ) (c : Conn) → (set_alarm lm execute n c).query_count ≡ c.query_count
    unfolding set_alarm
    set_alarm-count n c = ground arith

    echo_line-count :
        (buf : List ℕ) (c : Conn) → (echo_line lm execute buf c).query_count ≡ c.query_count
    unfolding echo_line
    echo_line-count buf c = ground arith

    after_command-Stepped :
        (c : Conn) (r : Bool × Server × List Output)
        → Below c.query_count
        → Stepped (after_command lm execute c r)
    unfolding after_command is_limit
    after_command-Stepped c (true, s, out) h =
        let c' : Conn = record c { server = s; output = c.output ++ out } in
        λ l. omega (arith, h l, set_alarm-count lm.client_delay c')
    after_command-Stepped c (false, s, out) h = record {
      bounded = λ l. omega (arith, h l);
      exact = λ x. ground (arith, x);
    }

    run_line-Stepped :
        (count : ℕ) (buf : List ℕ) (c : Conn)
        → Below c.query_count
        → Returns (run_line lm execute count buf c) Stepped
    unfolding run_line
    run_line-Stepped zero buf c h = h
    run_line-Stepped (suc count) buf c h =
        Returns-bind (execute c.server buf) (λ r. ok (after_command lm execute c r)) (λ r. Unit {0})
          Stepped (total c.server buf) (λ r _. after_command-Stepped c r h)

    handle_line-Stepped :
        (count : ℕ) (buf : List ℕ) (c : Conn)
        → Below c.query_count
        → Returns (handle_line lm execute count buf c) Stepped
    unfolding handle_line
    handle_line-Stepped count buf c h =
        let c1 : Conn = record c { query_count = c.query_count + 1 } in
        let c2 = set_alarm lm execute 0 (echo_line lm execute buf c1) in
        let same : c2.query_count ≡ c.query_count + 1 =
          set_alarm-count 0 (echo_line lm execute buf c1) ∙ echo_line-count buf c1 in
        elim (Bool-cases
          (not (lm.limit_queries == 0) && leb lm.limit_queries (c.query_count + 1))) [
            | inl e ↦
                rw e
                  (record { bounded = λ l. omega (arith, h l); exact = λ x. ground (arith, e, h) })
            | inr e ↦ rw e (run_line-Stepped count buf c2 (λ l. ground (arith, e, same, l)))
          ]

    after_step-Within :
        (st : Step) (next : Conn → Result DaemonFault End)
        → Stepped st
        → ((c : Conn)
            → Below c.query_count
            → Returns (next c) (λ e. Within e.conn.query_count e.reason))
        → Returns (after_step lm execute st next) (λ e. Within e.conn.query_count e.reason)
    unfolding after_step
    after_step-Within (go_on c) next b k = k c b
    after_step-Within (terminate e) next b k = b

    on_read-Within :
        (result : ℤ) (buf : List ℕ) (c : Conn) (next : Conn → Result DaemonFault End)
        (rest bytes : ℕ)
        → Below c.query_count
        → Shorter result rest bytes
        → (rest < bytes
            → (c' : Conn) → Below c'.query_count
            → Returns (next c') (λ e. Within e.conn.query_count e.reason))
        → Returns (on_read lm execute result buf c next) (λ e. Within e.conn.query_count e.reason)
    unfolding on_read is_limit
    on_read-Within (negsuc n) buf c next rest bytes b h k = record {
      bounded = λ l. omega (arith, b l);
      exact = λ x. ground (arith, x);
    }
    on_read-Within (pos count) buf c next rest bytes b h k =
        Returns-bind (handle_line lm execute count buf c) (λ st. after_step lm execute st next)
          Stepped (λ e. Within e.conn.query_count e.reason) (handle_line-Stepped count buf c b)
          (λ st s. after_step-Within st next s (k h))

    serve-Within :
        (ending : ℤ) (fuel : ℕ) (bytes : List ℕ) (c : Conn)
        → is_ending ending ≡ true
        → length bytes < fuel
        → Below c.query_count
        → Returns (serve lm execute ending fuel bytes c) (λ e. Within e.conn.query_count e.reason)
    unfolding serve
    serve-Within ending zero bytes c i h b = absurd (omega arith)
    serve-Within ending (suc fuel) bytes c i h b =
        let l = net_read ending 4000 bytes in
        on_read-Within l.result l.buf c (λ c'. serve lm execute ending fuel l.rest c')
          (length l.rest) (length bytes) b (net_read-Shorter ending bytes i)
          (λ r c' b'. serve-Within ending fuel l.rest c' i (omega arith) b')

    greet-Within :
        (new_server : List Database → Server) (banner : List ℕ) (ending : ℤ) (bytes : List ℕ)
        (r : ℕ × List Database)
        → is_ending ending ≡ true
        → Returns
            (greet lm execute new_server banner ending bytes r)
            (λ e. Within e.conn.query_count e.reason)
    unfolding greet is_limit
    greet-Within new_server banner ending bytes (refused, d) i =
        let c = start_conn lm execute (new_server d) (about_line 220 banner ∷ []) in
        elim (Bool-cases (refused == 0)) [
          | inl e ↦ rw e (
              serve-Within ending (suc (length bytes)) bytes
                (set_alarm lm execute lm.client_delay c) i (omega arith)
                (λ l. omega (arith, l, set_alarm-count lm.client_delay c)))
          | inr e ↦ rw e (record { bounded = λ l. omega arith; exact = λ x. ground (arith, x) })
        ]

    -- Every connection ends, whatever bytes the client sends, if each command gives a result, the
    -- check of the address does, and read(2) gives 0 or a negative number behind the last byte. With
    -- a limit of queries it has read at most as many lines as the limit, and exactly as many when the
    -- limit ends it.
    pub handleconn-Within :
        (check_auth : List Database → Result DaemonFault (ℕ × List Database))
        (new_server : List Database → Server) (error : Bool) (banner : List ℕ) (ending : ℤ)
        (dbl : List Database) (bytes : List ℕ)
        → Returns (check_auth dbl) (λ r. Unit {0})
        → is_ending ending ≡ true
        → Returns
            (handleconn lm execute check_auth new_server error banner ending dbl bytes)
            (λ e. Within e.conn.query_count e.reason)
    unfolding handleconn is_limit
    handleconn-Within check_auth new_server true banner ending dbl bytes t i = record {
      bounded = λ l. omega arith;
      exact = λ x. ground (arith, x);
    }
    handleconn-Within check_auth new_server false banner ending dbl bytes t i =
        Returns-bind (check_auth dbl) (λ r. greet lm execute new_server banner ending bytes r)
          (λ r. Unit {0}) (λ e. Within e.conn.query_count e.reason) t
          (λ r _. greet-Within new_server banner ending bytes r i)
