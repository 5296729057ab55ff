-- ===== src/Session/Commands.antt =====
-- dictd/daemon.c: the table `commandInfo` and `lookup_command`.
use dictd.Prelude.{
  ℕ, ◌+◌, List, [], ◌∷◌, Option, none, some, Bool, true, false, ◌&&◌, leb, if◌then◌else◌, map,
}
use dictd.Daemon.Databases.{same_string}
use dictd.Prelude.Text.{codes}

-- The functions of the table.
pub data Command : Type 0 where
  define match show_db show_strat show_info show_server show option_mime option client auth :
      Command
  status help quit : Command

-- A row: the words of the command and its function. `argc` is the number of the words.
abbrev pub Row : Type 0
Row = List (List ℕ) × Command

abbrev pub command_info : List Row
command_info =
    (codes "define" ∷ [], define)
    ∷ (codes "d" ∷ [], define)
    ∷ (codes "match" ∷ [], match)
    ∷ (codes "m" ∷ [], match)
    ∷ (codes "show" ∷ codes "db" ∷ [], show_db)
    ∷ (codes "show" ∷ codes "databases" ∷ [], show_db)
    ∷ (codes "show" ∷ codes "strat" ∷ [], show_strat)
    ∷ (codes "show" ∷ codes "strategies" ∷ [], show_strat)
    ∷ (codes "show" ∷ codes "info" ∷ [], show_info)
    ∷ (codes "show" ∷ codes "server" ∷ [], show_server)
    ∷ (codes "show" ∷ [], show)
    ∷ (codes "option" ∷ codes "mime" ∷ [], option_mime)
    ∷ (codes "option" ∷ [], option)
    ∷ (codes "client" ∷ [], client)
    ∷ (codes "auth" ∷ [], auth)
    ∷ (codes "status" ∷ [], status)
    ∷ (codes "s" ∷ [], status)
    ∷ (codes "help" ∷ [], help)
    ∷ (codes "h" ∷ [], help)
    ∷ (codes "quit" ∷ [], quit)
    ∷ (codes "q" ∷ [], quit)
    ∷ []

-- Letters of ASCII in lower case, and strcasecmp as a test, in the C locale.
unfoldable pub to_lower : ℕ → ℕ
to_lower c = if leb 65 c && leb c 90 then c + 32 else c

unfoldable pub same_ignoring_case : List ℕ → List ℕ → Bool
unfolding to_lower same_string
same_ignoring_case a b = same_string (map to_lower a) (map to_lower b)

-- The test of a row: there are as many arguments as words, and each is its word.
unfoldable pub row_fits : List (List ℕ) → List (List ℕ) → Bool
unfolding same_ignoring_case
row_fits argv [] = true
row_fits [] (w ∷ words) = false
row_fits (a ∷ argv) (w ∷ words) = same_ignoring_case a w && row_fits argv words

-- The loop over the table.
unfoldable pub lookup_row : List Row → List (List ℕ) → Option Command
unfolding row_fits
lookup_row [] argv = none
lookup_row ((words, f) ∷ rows) argv = if row_fits argv words then some f else lookup_row rows argv

unfoldable pub lookup_command : List (List ℕ) → Option Command
unfolding lookup_row
lookup_command argv = lookup_row command_info argv
