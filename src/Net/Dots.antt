-- ===== src/Net/Dots.antt =====
-- dictd/daemon.c and dict/dict.c: dots at the start of a line that the client
-- misreads.
use dictd.Prelude.{
  ℕ, zero, suc, ◌<◌, ◌≡◌, refl, List, [], ◌∷◌, ◌++◌, true, arith, length, All, append_assoc,
  append-nil, length-append, ap, ◌∙◌,
}
use dictd.Prelude.Int.{ℤ}
use dictd.Prelude.Result.{ok, ◌>>=◌}
use dictd.Net.Transfer.{
  unlines, IsLine, crlf_loop_line, crlf_loop-length, text_loop_wire, text_loop_end,
  client_read_text_lines,
}
use dictd.Net.Line.{newline, return, IsPlain}
use dictd.Net.Text.{
  dot_char, crlf_end, crlf_loop, daemon_crlf, is_end, undouble, take_line, text_loop,
  client_read_text,
}

-- A text whose last line is a dot without a newline is cut short: the dot is not doubled, the
-- client takes it for the end of the text, and the line that really ends the text is left to be
-- read as the server's next answer. The lines before it are free of CR, shorter than 2046
-- characters and do not begin with two dots.
pub client_read_text-lone_dot :
    (ending : ℤ) (ls : List (List ℕ)) (rest : List ℕ)
    → All IsLine ls
    → client_read_text ending (daemon_crlf (unlines ls ++ (dot_char ∷ [])) true ++ rest)
      ≡ ok (ls, dot_char ∷ (return ∷ (newline ∷ rest)))
unfolding crlf_loop crlf_end
client_read_text-lone_dot ending ls rest a =
    let left = dot_char ∷ (return ∷ (newline ∷ rest)) in
    client_read_text_lines ending (dot_char ∷ []) rest left [] ls
      (λ fuel. text_loop_end ending (suc fuel) left) a
    ∙ ap (λ t. ok (t, left)) (append-nil ls)

crlf_loop_nil : crlf_loop true true [] ≡ crlf_end true true
unfolding crlf_loop
crlf_loop_nil = refl

two_dots_loop :
    (ending : ℤ) (l rest : List ℕ)
    → IsPlain l
    → length l < 2000
    → (fuel : ℕ) → 0 < fuel
    → text_loop ending
        (suc fuel)
        (crlf_loop true true ((dot_char ∷ (dot_char ∷ l)) ++ (newline ∷ [])) ++ rest)
      ≡ ok ((dot_char ∷ l) ∷ [], rest)
unfolding take_line is_end undouble
two_dots_loop ending l rest p h zero g = absurd (omega arith)
two_dots_loop ending l rest p h (suc fuel) g =
    let k = dot_char ∷ (dot_char ∷ l) in
    rw (crlf_loop_line k [] (refl, (refl, p))) (
      rw crlf_loop_nil (
        rw (append_assoc k (return ∷ (newline ∷ crlf_end true true)) rest) (
          text_loop_wire ending (suc fuel) k (crlf_end true true ++ rest) (refl, (refl, p))
            (omega arith)
          ∙ ap (λ r. r >>= λ t. ok ((dot_char ∷ l) ∷ t.0, t.1)) (text_loop_end ending fuel rest))))

-- A line of a definition that begins with two dots reaches the client with one of them missing:
-- daemon_crlf sends it as it is, and client_read_text takes the first dot for a doubled one.
-- Behind the dots there are fewer than 2000 characters, none of them CR or newline.
pub client_read_text-two_dots :
    (ending : ℤ) (l rest : List ℕ)
    → IsPlain l
    → length l < 2000
    → client_read_text ending
        (daemon_crlf ((dot_char ∷ (dot_char ∷ l)) ++ (newline ∷ [])) true ++ rest)
      ≡ ok ((dot_char ∷ l) ∷ [], rest)
unfolding client_read_text daemon_crlf
client_read_text-two_dots ending l rest p h =
    let k = dot_char ∷ (dot_char ∷ l) in
    let fuel = length (crlf_loop true true (k ++ (newline ∷ [])) ++ rest) in
    two_dots_loop ending l rest p h fuel (
      omega (
        arith,
        crlf_loop-length true (k ++ (newline ∷ [])),
        length-append (crlf_loop true true (k ++ (newline ∷ []))) rest,
      ))
