-- ===== src/Tests/Net.antt =====
-- Tests of the text on the wire: libcommon/io.c, dictd/daemon.c, dict/dict.c.
use dictd.Prelude.{ℕ, ◌≡◌, refl, List, [], ◌∷◌, ◌++◌, true, arith, length, take, length-take}
use dictd.Prelude.Int.{ℤ, pos}
use dictd.Prelude.Result.{ok, Returns}
use dictd.Net.Line.{newline, return, net_read, net_read-full}
use dictd.Net.Write.{net_write, daemon_write, Progress, net_write-all, net_write-partial}
use dictd.Net.Text.{dot_char, daemon_crlf, client_read_text, is_end}
use dictd.Net.Transfer.{IsLine, unlines, shown, client_read_text-daemon_crlf}
use dictd.Net.Dots.{client_read_text-lone_dot, client_read_text-two_dots}

abbrev hello : List ℕ
hello = 72 ∷ 105 ∷ []

abbrev reply : List ℕ
reply = 50 ∷ 53 ∷ 48 ∷ []

net_read-full_example :
    net_read (pos 0) 2 (hello ++ (33 ∷ [])) ≡ record { result = pos 1; buf = hello; rest = 33 ∷ [] }
net_read-full_example = net_read-full (pos 0) 72 (105 ∷ []) 33 [] (refl, (refl, tt))

hello-IsLine : IsLine hello
hello-IsLine = record { is_plain = (refl, (refl, tt)); short = omega arith; no_dots = refl }

dot-IsLine : IsLine (dot_char ∷ [])
dot-IsLine = record { is_plain = (refl, tt); short = omega arith; no_dots = refl }

-- A text of two lines, one of them a dot, and a last line without newline.
client_read_text-daemon_crlf_example :
    client_read_text
      (pos 0)
      (daemon_crlf (unlines (hello ∷ (dot_char ∷ []) ∷ []) ++ hello) true ++ reply)
    ≡ ok ((hello ∷ (dot_char ∷ []) ∷ []) ++ shown hello, reply)
unfolding is_end
client_read_text-daemon_crlf_example =
    client_read_text-daemon_crlf (pos 0) (hello ∷ (dot_char ∷ []) ∷ []) hello reply
      (hello-IsLine, (dot-IsLine, tt)) (record { line = hello-IsLine; no_end = refl })

client_read_text-lone_dot_example :
    client_read_text (pos 0) (daemon_crlf (unlines (hello ∷ []) ++ (dot_char ∷ [])) true ++ reply)
    ≡ ok (hello ∷ [], dot_char ∷ (return ∷ (newline ∷ reply)))
client_read_text-lone_dot_example =
    client_read_text-lone_dot (pos 0) (hello ∷ []) reply (hello-IsLine, tt)

client_read_text-two_dots_example :
    client_read_text
      (pos 0)
      (daemon_crlf ((dot_char ∷ (dot_char ∷ hello)) ++ (newline ∷ [])) true ++ reply)
    ≡ ok ((dot_char ∷ hello) ∷ [], reply)
client_read_text-two_dots_example =
    client_read_text-two_dots (pos 0) hello reply (refl, (refl, tt)) (omega arith)

-- A socket that takes two bytes at most in one call; its state is what it got.
abbrev two_bytes : List ℕ → List ℕ → ℤ × List ℕ
two_bytes sent bytes = (pos (length (take 2 bytes)), sent ++ take 2 bytes)

two_bytes-Progress : (sent bytes : List ℕ) → Progress (two_bytes sent bytes).0 (length bytes)
two_bytes-Progress sent bytes =
    (omega (arith, length-take 2 bytes), λ h. omega (arith, length-take 2 bytes))

net_write-all_example : Returns (net_write two_bytes [] reply) (λ r. r.0 ≡ pos 3)
net_write-all_example = net_write-all two_bytes two_bytes-Progress [] reply

-- The bytes 50 53 48 arrive as 50 53 50.
net_write-partial_example :
    (net_write two_bytes [] reply ≡ ok (pos 3, 50 ∷ 53 ∷ 50 ∷ []))
    × (daemon_write two_bytes [] reply ≡ ok (50 ∷ 53 ∷ 50 ∷ []))
net_write-partial_example =
    net_write-partial two_bytes [] (50 ∷ 53 ∷ []) (50 ∷ 53 ∷ 50 ∷ []) reply 2 (omega arith)
      (omega arith) refl refl
