-- ===== src/Net/Transfer.antt =====
-- dictd/daemon.c and dict/dict.c: the text of a definition reaches the client.
use dictd.Prelude.{
  ℕ, zero, suc, ◌+◌, ◌<◌, ◌≤◌, ◌≡◌, refl, List, [], ◌∷◌, ◌++◌, Bool, true, false, ◌&&◌, arith, ◌==◌,
  if◌then◌else◌, length, All, append_assoc, length-append, ap, sym, ◌∙◌,
}
use dictd.Prelude.Int.{ℤ}
use dictd.Prelude.Slices.{take_all}
use dictd.Prelude.Result.{ok, ◌>>=◌}
use dictd.Net.Line.{newline, return, IsPlain, net_read-line}
use dictd.Net.Text.{
  dot_char, at_newline, crlf_end, crlf_loop, daemon_crlf, is_end, undouble, take_line, read_round,
  text_loop, client_read_text,
}

-- The lines, each with its newline.
abbrev pub unlines : List (List ℕ) → List ℕ
unlines [] = []
unlines (l ∷ ls) = l ++ (newline ∷ unlines ls)

-- Does the line begin with two dots?
abbrev pub two_dots : List ℕ → Bool
two_dots [] = false
two_dots (c ∷ []) = false
two_dots (c ∷ d ∷ l) = (c == dot_char) && (d == dot_char)

-- A line that survives: plain, shorter than the client's buffer, not beginning with two dots.
pub record IsLine (l : List ℕ) : Type 0 where
  pub is_plain : IsPlain l
  pub short : length l < 2046
  pub no_dots : two_dots l ≡ false

-- A line on the wire without its end: a lone dot is doubled.
abbrev pub stuffed : List ℕ → List ℕ
stuffed [] = []
stuffed (c ∷ []) = if c == dot_char then dot_char ∷ (c ∷ []) else c ∷ []
stuffed (c ∷ d ∷ l) = c ∷ (d ∷ l)

crlf_loop_inner :
    (l s : List ℕ)
    → IsPlain l
    → crlf_loop true false (l ++ (newline ∷ s)) ≡ l ++ (return ∷ (newline ∷ crlf_loop true true s))
unfolding crlf_loop
crlf_loop_inner [] s p = refl
crlf_loop_inner (c ∷ l) s p = ground (arith, p, crlf_loop_inner l s p.1)

pub crlf_loop_line :
    (l s : List ℕ)
    → IsPlain l
    → crlf_loop true true (l ++ (newline ∷ s))
      ≡ stuffed l ++ (return ∷ (newline ∷ crlf_loop true true s))
unfolding crlf_loop at_newline
crlf_loop_line [] s p = refl
crlf_loop_line (c ∷ []) s p = ground (arith, p)
crlf_loop_line (c ∷ d ∷ l) s p = ground (arith, p, crlf_loop_inner (d ∷ l) s p.1)

crlf_loop_open :
    (l : List ℕ)
    → IsPlain l
    → crlf_loop true false l ≡ l ++ (return ∷ (newline ∷ crlf_end true true))
unfolding crlf_loop crlf_end
crlf_loop_open [] p = refl
crlf_loop_open (c ∷ l) p = ground (arith, p, crlf_loop_open l p.1)

-- The last line of a text has a line end added if it has none.
crlf_loop_last :
    (c : ℕ) (l : List ℕ)
    → IsPlain (c ∷ l)
    → crlf_loop true true (c ∷ l) ≡ (c ∷ l) ++ (return ∷ (newline ∷ crlf_end true true))
unfolding crlf_loop at_newline crlf_end
crlf_loop_last c [] p = ground (arith, p)
crlf_loop_last c (d ∷ l) p = ground (arith, p, crlf_loop_open (d ∷ l) p.1)

pub crlf_loop-length : (first : Bool) (s : List ℕ) → length s + 3 ≤ length (crlf_loop true first s)
unfolding crlf_loop crlf_end
crlf_loop-length true [] = omega arith
crlf_loop-length false [] = omega arith
crlf_loop-length first (c ∷ s) = ground (arith, crlf_loop-length true s, crlf_loop-length false s)

unlines-length : (ls : List (List ℕ)) → length ls ≤ length (unlines ls)
unlines-length [] = omega arith
unlines-length (l ∷ ls) = omega (arith, unlines-length ls, length-append l (newline ∷ unlines ls))

stuffed-IsPlain : (l : List ℕ) → IsPlain l → IsPlain (stuffed l)
stuffed-IsPlain [] p = tt
stuffed-IsPlain (c ∷ []) p = ground (arith, p)
stuffed-IsPlain (c ∷ d ∷ l) p = p

stuffed-length : (l : List ℕ) → length (stuffed l) ≤ length l + 1
stuffed-length [] = omega arith
stuffed-length (c ∷ []) = ground arith
stuffed-length (c ∷ d ∷ l) = omega arith

is_end-stuffed : (l : List ℕ) → is_end (stuffed l) ≡ false
unfolding is_end
is_end-stuffed [] = refl
is_end-stuffed (c ∷ []) = ground arith
is_end-stuffed (c ∷ d ∷ l) = refl

undouble-stuffed : (l : List ℕ) → two_dots l ≡ false → undouble (stuffed l) ≡ l
unfolding undouble
undouble-stuffed [] h = refl
undouble-stuffed (c ∷ []) h = ground arith
undouble-stuffed (c ∷ d ∷ l) h = ground (arith, h)

-- The last line, which need not end in a newline: it may not be a lone dot then.
pub record IsLast (l : List ℕ) : Type 0 where
  pub line : IsLine l
  pub no_end : is_end l ≡ false

-- The last line as it is shown: no line if it is empty.
abbrev pub shown : List ℕ → List (List ℕ)
shown [] = []
shown (c ∷ l) = (c ∷ l) ∷ []

module _ (ending : ℤ) where
  -- A round reads a line that is not the final dot.
  pub text_loop_wire :
      (fuel : ℕ) (w s : List ℕ)
      → IsPlain w
      → length w < 2047
      → text_loop ending (suc fuel) (w ++ (return ∷ (newline ∷ s)))
        ≡ take_line w s (text_loop ending fuel s)
  unfolding text_loop read_round
  text_loop_wire fuel w s p h =
      ap (λ l. read_round l (λ r. text_loop ending fuel r)) (net_read-line ending 2047 w s p h)
      ∙ ap (λ x. take_line x s (text_loop ending fuel s)) (take_all (length w) w (omega arith))

  text_loop_line :
      (fuel : ℕ) (l s : List ℕ)
      → IsLine l
      → text_loop ending (suc fuel) (stuffed l ++ (return ∷ (newline ∷ s)))
        ≡ (text_loop ending fuel s >>= λ t. ok (l ∷ t.0, t.1))
  unfolding take_line
  text_loop_line fuel l s i =
      rw
        (text_loop_wire fuel (stuffed l) s (stuffed-IsPlain l i.is_plain)
          (omega (arith, stuffed-length l, i.short)))
        (rw (is_end-stuffed l) (rw (undouble-stuffed l i.no_dots) refl))

  pub text_loop_end :
      (fuel : ℕ) (rest : List ℕ)
      → text_loop ending (suc fuel) (crlf_end true true ++ rest) ≡ ok ([], rest)
  unfolding crlf_end take_line is_end
  text_loop_end fuel rest = text_loop_wire fuel (dot_char ∷ []) rest (refl, tt) (omega arith)

  stuffed_last : (l : List ℕ) → is_end l ≡ false → stuffed l ≡ l
  unfolding is_end
  stuffed_last [] h = refl
  stuffed_last (c ∷ []) h = ground (arith, h)
  stuffed_last (c ∷ d ∷ l) h = refl

  text_loop_last :
      (fuel : ℕ) (l rest : List ℕ)
      → IsLast l
      → text_loop ending (suc (suc fuel)) (crlf_loop true true l ++ rest) ≡ ok (shown l, rest)
  unfolding crlf_loop
  text_loop_last fuel [] rest i = text_loop_end (suc fuel) rest
  text_loop_last fuel (c ∷ l) rest i = rw (crlf_loop_last c l i.line.is_plain) (
      rw (append_assoc (c ∷ l) (return ∷ (newline ∷ crlf_end true true)) rest) (
        ap
          (λ w.
            text_loop ending (suc (suc fuel))
              (w ++ (return ∷ (newline ∷ (crlf_end true true ++ rest)))))
          (sym (stuffed_last (c ∷ l) i.no_end))
        ∙ text_loop_line (suc fuel) (c ∷ l) (crlf_end true true ++ rest) i.line
        ∙ ap (λ r. r >>= λ t. ok ((c ∷ l) ∷ t.0, t.1)) (text_loop_end fuel rest)))

  -- Lines before a tail that reads as `tail` and leaves `left`.
  text_loop_lines :
      (l rest left : List ℕ) (tail : List (List ℕ))
      → ((fuel : ℕ)
          → text_loop ending (suc (suc fuel)) (crlf_loop true true l ++ rest) ≡ ok (tail, left))
      → (fuel : ℕ) (ls : List (List ℕ)) → All IsLine ls
      → length ls < fuel
      → text_loop ending (suc fuel) (crlf_loop true true (unlines ls ++ l) ++ rest)
        ≡ ok (ls ++ tail, left)
  text_loop_lines l rest left tail e zero ls a h = absurd (omega arith)
  text_loop_lines l rest left tail e (suc fuel) [] a h = e fuel
  text_loop_lines l rest left tail e (suc fuel) (k ∷ ls) (b, a) h =
      let s = unlines ls ++ l in
      rw (append_assoc k (newline ∷ unlines ls) l) (
        rw (crlf_loop_line k s b.is_plain) (
          rw (append_assoc (stuffed k) (return ∷ (newline ∷ crlf_loop true true s)) rest) (
            text_loop_line (suc fuel) k (crlf_loop true true s ++ rest) b
            ∙ ap (λ r. r >>= λ t. ok (k ∷ t.0, t.1))
                (text_loop_lines l rest left tail e fuel ls a (omega arith)))))

  pub client_read_text_lines :
      (l rest left : List ℕ) (tail ls : List (List ℕ))
      → ((fuel : ℕ)
          → text_loop ending (suc (suc fuel)) (crlf_loop true true l ++ rest) ≡ ok (tail, left))
      → All IsLine ls
      → client_read_text ending (daemon_crlf (unlines ls ++ l) true ++ rest) ≡ ok (ls ++ tail, left)
  unfolding client_read_text daemon_crlf
  client_read_text_lines l rest left tail ls e a =
      let s = unlines ls ++ l in
      text_loop_lines l rest left tail e (length (crlf_loop true true s ++ rest)) ls a (
        omega (
          arith,
          unlines-length ls,
          length-append (unlines ls) l,
          crlf_loop-length true s,
          length-append (crlf_loop true true s) rest,
        ))

-- The text that daemon_crlf sends with its final dot reaches the reader of the client line by line:
-- client_read_text gives the lines, the last one also if it has no newline, and leaves exactly what
-- follows the text. Each line is free of CR, shorter than 2046 characters and does not begin with
-- two dots, and a last line without newline is not a lone dot.
pub client_read_text-daemon_crlf :
    (ending : ℤ) (ls : List (List ℕ)) (l rest : List ℕ)
    → All IsLine ls
    → IsLast l
    → client_read_text ending (daemon_crlf (unlines ls ++ l) true ++ rest)
      ≡ ok (ls ++ shown l, rest)
client_read_text-daemon_crlf ending ls l rest a i =
    client_read_text_lines ending l rest rest (shown l) ls
      (λ fuel. text_loop_last ending fuel l rest i) a
