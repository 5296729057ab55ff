-- ===== src/Net/Text.antt =====
-- dictd/daemon.c: `daemon_crlf`; dict/dict.c: `client_read_text`, which reads what it sends.
use dictd.Prelude.{
  ℕ, zero, suc, ◌-◌, List, [], ◌∷◌, Bool, true, false, ◌&&◌, ◌==◌, if◌then◌else◌, length, take,
}
use dictd.Prelude.Int.{ℤ, pos, negsuc}
use dictd.Prelude.Result.{Result, ok, err, ◌>>=◌}
use dictd.Net.Line.{newline, return, Line, net_read}

abbrev pub dot_char : ℕ
dot_char = 46

-- `s[1] == '\n'`; a C string ends in a NUL, which is none.
unfoldable pub at_newline : List ℕ → Bool
at_newline [] = false
at_newline (c ∷ s) = c == newline

-- The end of the text: `dot` adds the line that ends it.
unfoldable pub crlf_end : Bool → Bool → List ℕ
crlf_end dot first =
    let final = dot_char ∷ (return ∷ (newline ∷ [])) in
    if dot then (if first then final else return ∷ (newline ∷ final)) else []

unfoldable pub crlf_loop : Bool → Bool → List ℕ → List ℕ
unfolding at_newline crlf_end
crlf_loop dot first [] = crlf_end dot first
crlf_loop dot first (c ∷ s) =
    let next_line = crlf_loop dot true s in
    let same_line = crlf_loop dot false s in
    if c == newline
    then return ∷ (newline ∷ next_line)
    else if dot && first && (c == dot_char) && at_newline s
    then dot_char ∷ (c ∷ same_line)
    else c ∷ same_line

unfoldable pub daemon_crlf : List ℕ → Bool → List ℕ
daemon_crlf s dot = crlf_loop dot true s

-- The client.

abbrev pub buffer_size : ℕ
buffer_size = 2048

pub data ReadFault : Type 0 where
  read_error no_fuel : ReadFault

-- `line[0] == '.' && line[1] == '\0'`
unfoldable pub is_end : List ℕ → Bool
is_end [] = false
is_end (c ∷ []) = c == dot_char
is_end (c ∷ d ∷ l) = false

-- Two dots at the start of a line stand for one.
unfoldable pub undouble : List ℕ → List ℕ
undouble [] = []
undouble (c ∷ []) = c ∷ []
undouble (c ∷ d ∷ l) = if (c == dot_char) && (d == dot_char) then d ∷ l else c ∷ (d ∷ l)

abbrev pub Text : Type 0
Text = List (List ℕ) × List ℕ

-- A round with a line of `len` characters, `line[len] = 0`; `more` is the rest of the loop.
unfoldable pub take_line : List ℕ → List ℕ → Result ReadFault Text → Result ReadFault Text
take_line line rest more =
    if is_end line then ok ([], rest) else (do (ls, left) ← more; ok (undouble line ∷ ls, left))

-- A round of the loop on what `net_read` gave; `more` is the rest of the loop.
unfoldable pub read_round : Line → (List ℕ → Result ReadFault Text) → Result ReadFault Text
unfolding take_line
read_round l more = elim l.result [
  | negsuc _ ↦ err read_error
  | pos len ↦ take_line (take len l.buf) l.rest (more l.rest)
]

unfoldable pub text_loop : ℤ → ℕ → List ℕ → Result ReadFault Text
unfolding read_round
text_loop ending zero bytes = err no_fuel
text_loop ending (suc fuel) bytes =
    read_round (net_read ending (buffer_size - 1) bytes) (λ rest. text_loop ending fuel rest)

-- Each round but the last reads at least a byte.
unfoldable pub client_read_text : ℤ → List ℕ → Result ReadFault Text
client_read_text ending bytes = text_loop ending (suc (length bytes)) bytes
