-- ===== src/Net/Line.antt =====
-- libcommon/io.c: `net_read`, which reads a line byte by byte.
use dictd.Prelude.{
  ℕ, suc, ◌+◌, ◌<◌, ◌≡◌, List, [], ◌∷◌, ◌++◌, Bool, true, false, arith, ltb, ◌==◌, if◌then◌else◌,
  length, All,
}
use dictd.Prelude.Int.{ℤ, pos, negsuc, eqb_ℤ}

abbrev pub newline : ℕ
newline = 10

abbrev pub return : ℕ
return = 13

-- What a call leaves: its result, the string in `buf`, the bytes not read yet.
pub record Line : Type 0 where
  pub result : ℤ
  pub buf : List ℕ
  pub rest : List ℕ

-- EOF is -1.
abbrev pub eof : ℤ
eof = negsuc 0

-- After the loop that `read` ended with `n`, and `len` characters stored.
unfoldable pub read_end : ℤ → ℕ → ℤ
read_end n len = if eqb_ℤ n (pos 0) then (if len == 0 then eof else pos len) else n

abbrev pub store_char : ℕ → Line → Line
store_char c l = record { result = l.result; buf = c ∷ l.buf; rest = l.rest }

-- The loop. The socket holds `bytes`, after which `read` gives `ending`: 0 at the end of file, a
-- negative number for an error. `n` is the last result of `read`, 1 once a byte came.
unfoldable pub read_loop : ℕ → ℤ → ℤ → ℕ → List ℕ → Line
read_loop maxlen ending n len [] =
    let stop = if ltb len maxlen then ending else n in
    record { result = read_end stop len; buf = []; rest = [] }
read_loop maxlen ending n len (c ∷ bytes) =
    let skipped = read_loop maxlen ending (pos 1) len bytes in
    let stored = read_loop maxlen ending (pos 1) (suc len) bytes in
    if ltb len maxlen
    then (if c == newline
        then record { result = pos len; buf = []; rest = bytes }
        else if c == return
        then skipped
        else store_char c stored)
    else record { result = read_end n len; buf = []; rest = c ∷ bytes }

unfoldable pub net_read : ℤ → ℕ → List ℕ → Line
net_read ending maxlen bytes = read_loop maxlen ending (pos 0) 0 bytes

abbrev pub plain : ℕ → Bool
plain c = if c == newline then false else if c == return then false else true

-- No carriage return or newline.
abbrev pub IsPlain : List ℕ → Type 0
IsPlain l = All (λ (c : ℕ). plain c ≡ true) l

read_loop_line :
    (maxlen : ℕ) (ending n : ℤ) (len : ℕ) (l rest : List ℕ)
    → IsPlain l
    → len + length l < maxlen
    → read_loop maxlen ending n len (l ++ (return ∷ (newline ∷ rest)))
      ≡ record { result = pos (len + length l); buf = l; rest = rest }
unfolding read_loop
read_loop_line maxlen ending n len [] rest p h = ground arith
read_loop_line maxlen ending n len (c ∷ l) rest p h =
    ground (arith, p, read_loop_line maxlen ending (pos 1) (suc len) l rest p.1)

-- net_read on a line that ends in CR LF and is shorter than the buffer gives the line, without its
-- end, and its length, and leaves what follows.
pub net_read-line :
    (ending : ℤ) (maxlen : ℕ) (l rest : List ℕ)
    → IsPlain l
    → length l < maxlen
    → net_read ending maxlen (l ++ (return ∷ (newline ∷ rest)))
      ≡ record { result = pos (length l); buf = l; rest = rest }
unfolding net_read
net_read-line ending maxlen l rest p h =
    let z : 0 + length l ≡ length l = omega arith in
    ground (arith, z, read_loop_line maxlen ending (pos 0) 0 l rest p (omega arith))

read_loop_full :
    (maxlen : ℕ) (ending : ℤ) (len : ℕ) (l : List ℕ) (c : ℕ) (rest : List ℕ)
    → IsPlain l
    → len + length l ≡ maxlen
    → read_loop maxlen ending (pos 1) len (l ++ (c ∷ rest))
      ≡ record { result = pos 1; buf = l; rest = c ∷ rest }
unfolding read_loop read_end eqb_ℤ
read_loop_full maxlen ending len [] c rest p h = ground (arith, h)
read_loop_full maxlen ending len (d ∷ l) c rest p h =
    ground (arith, p, h, read_loop_full maxlen ending (suc len) l c rest p.1 (omega arith))

-- When characters other than CR and newline fill the buffer, one or more, and more is to be read,
-- net_read stops with the characters in the buffer but returns 1 in place of their number.
pub net_read-full :
    (ending : ℤ) (d : ℕ) (l : List ℕ) (c : ℕ) (rest : List ℕ)
    → IsPlain (d ∷ l)
    → net_read ending (length (d ∷ l)) ((d ∷ l) ++ (c ∷ rest))
      ≡ record { result = pos 1; buf = d ∷ l; rest = c ∷ rest }
unfolding net_read read_loop
net_read-full ending d l c rest p =
    ground (arith, p, read_loop_full (suc (length l)) ending 1 l c rest p.1 (omega arith))
