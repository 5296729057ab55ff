-- ===== src/Session/Longest.antt =====
-- dictd/daemon.c: `lookup_command` prefers the command with the most words.
use dictd.Prelude.{
  ℕ, zero, suc, ◌≤◌, ◌≡◌, refl, inl, inr, List, [], ◌∷◌, Option, some, Bool, true, not, ◌&&◌, ◌||◌,
  arith, leb, length, get_elem?, map, Bool-cases, ◌∙◌, sym,
}
use dictd.Daemon.Databases.{same_string}
use dictd.Session.Commands.{
  Command, Row, command_info, same_ignoring_case, to_lower, row_fits, lookup_row, lookup_command,
}

pub same_string_eq : (a b : List ℕ) → same_string a b ≡ true → a ≡ b
unfolding same_string
same_string_eq [] [] h = refl
same_string_eq [] (d ∷ b) h = ground (arith, h)
same_string_eq (c ∷ a) [] h = ground (arith, h)
same_string_eq (c ∷ a) (d ∷ b) h = ground (arith, h, same_string_eq a b)

pub same_string_refl : (a : List ℕ) → same_string a a ≡ true
unfolding same_string
same_string_refl [] = refl
same_string_refl (c ∷ a) = ground (arith, same_string_refl a)

same_case_both :
    (a v w : List ℕ)
    → same_ignoring_case a v ≡ true
    → same_ignoring_case a w ≡ true
    → same_ignoring_case v w ≡ true
unfolding same_ignoring_case
same_case_both a v w p q =
    let e = sym (same_string_eq (map to_lower a) (map to_lower v) p) in
    let f = same_string_eq (map to_lower a) (map to_lower w) q in
    rw (e ∙ f) (same_string_refl (map to_lower w))

-- Can one list of arguments fit both rows?
unfoldable compatible : List (List ℕ) → List (List ℕ) → Bool
unfolding same_ignoring_case
compatible [] ws = true
compatible (v ∷ vs) [] = true
compatible (v ∷ vs) (w ∷ ws) = same_ignoring_case v w && compatible vs ws

row_fits-compatible :
    (argv vs ws : List (List ℕ))
    → row_fits argv vs ≡ true
    → row_fits argv ws ≡ true
    → compatible vs ws ≡ true
unfolding row_fits compatible
row_fits-compatible argv [] ws p q = refl
row_fits-compatible argv (v ∷ vs) [] p q = refl
row_fits-compatible [] (v ∷ vs) (w ∷ ws) p q = ground (arith, p)
row_fits-compatible (a ∷ argv) (v ∷ vs) (w ∷ ws) p q =
    ground (arith, p, q, same_case_both a v w, row_fits-compatible argv vs ws)

-- No row below has more words than this one, if both can fit.
unfoldable longer_first : List (List ℕ) → List Row → Bool
unfolding compatible
longer_first vs [] = true
longer_first vs ((ws, f) ∷ rows) =
    (not (compatible vs ws) || leb (length ws) (length vs)) && longer_first vs rows

unfoldable in_order : List Row → Bool
unfolding longer_first
in_order [] = true
in_order ((ws, f) ∷ rows) = longer_first ws rows && in_order rows

longer_first-le :
    (argv vs ws : List (List ℕ)) (f : Command) (rows : List Row) (i : ℕ)
    → longer_first vs rows ≡ true
    → row_fits argv vs ≡ true
    → get_elem? rows i ≡ some (ws, f)
    → row_fits argv ws ≡ true
    → length ws ≤ length vs
unfolding longer_first
longer_first-le argv vs ws f [] i o p e q = ground (arith, e)
longer_first-le argv vs ws f ((us, g) ∷ rows) zero o p e q =
    ground (arith, o, e, row_fits-compatible argv vs us p)
longer_first-le argv vs ws f ((us, g) ∷ rows) (suc i) o p e q =
    longer_first-le argv vs ws f rows i (ground (arith, o)) p e q

-- A row that was found: it stands in the table, fits, and has at least so many words.
pub record Longest (rows : List Row) (argv : List (List ℕ)) (n : ℕ) (r : Option Command)
    : Type 0 where
  pub index : ℕ
  pub words : List (List ℕ)
  pub command : Command
  pub row : get_elem? rows index ≡ some (words, command)
  pub fits : row_fits argv words ≡ true
  pub longest : n ≤ length words
  pub found : r ≡ some command

below-Longest :
    (r : Row) (rows : List Row) (argv : List (List ℕ)) (n : ℕ) (o : Option Command)
    → Longest rows argv n o
    → Longest (r ∷ rows) argv n o
below-Longest r rows argv n o l = record {
  index = suc l.index;
  words = l.words;
  command = l.command;
  row = l.row;
  fits = l.fits;
  longest = l.longest;
  found = l.found;
}

first-le :
    (argv us ws : List (List ℕ)) (g f : Command) (rows : List Row) (i : ℕ)
    → in_order ((us, g) ∷ rows) ≡ true
    → row_fits argv us ≡ true
    → get_elem? ((us, g) ∷ rows) i ≡ some (ws, f)
    → row_fits argv ws ≡ true
    → length ws ≤ length us
unfolding in_order
first-le argv us ws g f rows zero o p e q = ground (arith, e)
first-le argv us ws g f rows (suc i) o p e q =
    longer_first-le argv us ws f rows i (ground (arith, o)) p e q

first-Longest :
    (rows : List Row) (argv us ws : List (List ℕ)) (g f : Command) (i : ℕ)
    → in_order ((us, g) ∷ rows) ≡ true
    → get_elem? ((us, g) ∷ rows) i ≡ some (ws, f)
    → row_fits argv ws ≡ true
    → row_fits argv us ≡ true
    → Longest ((us, g) ∷ rows) argv (length ws) (some g)
first-Longest rows argv us ws g f i o e p h = record {
  index = 0;
  words = us;
  command = g;
  row = refl;
  fits = h;
  longest = first-le argv us ws g f rows i o h e p;
  found = refl;
}

lookup_row-Longest :
    (rows : List Row) (argv ws : List (List ℕ)) (f : Command) (i : ℕ)
    → in_order rows ≡ true
    → get_elem? rows i ≡ some (ws, f)
    → row_fits argv ws ≡ true
    → Longest rows argv (length ws) (lookup_row rows argv)
unfolding lookup_row in_order
lookup_row-Longest [] argv ws f i o e p = absurd (ground (arith, e))
lookup_row-Longest ((us, g) ∷ rows) argv ws f zero o e p =
    let same : row_fits argv us ≡ true = ground (arith, e, p) in
    rw same (first-Longest rows argv us ws g f zero o e p same)
lookup_row-Longest ((us, g) ∷ rows) argv ws f (suc i) o e p = elim (Bool-cases (row_fits argv us)) [
  | inl h ↦ rw h (first-Longest rows argv us ws g f (suc i) o e p h)
  | inr h ↦ rw h (
      below-Longest (us, g) rows argv (length ws) (lookup_row rows argv)
        (lookup_row-Longest rows argv ws f i (ground (arith, o)) e p))
]

table_in_order : in_order command_info ≡ true
unfolding in_order same_ignoring_case
table_in_order = refl

-- If the arguments fit a row of the table of commands, ignoring the case of letters, lookup_command
-- finds a row that they fit too and that has at least as many words: SHOW DB is not taken for SHOW.
pub lookup_command-Longest :
    (argv words : List (List ℕ)) (f : Command) (i : ℕ)
    → get_elem? command_info i ≡ some (words, f)
    → row_fits argv words ≡ true
    → Longest command_info argv (length words) (lookup_command argv)
unfolding lookup_command
lookup_command-Longest argv words f i e p =
    lookup_row-Longest command_info argv words f i table_in_order e p
