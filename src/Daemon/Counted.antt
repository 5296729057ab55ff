-- ===== src/Daemon/Counted.antt =====
-- dictd/daemon.c: as many definitions and matches are printed as are counted.
use dictd.Prelude.{ℕ, ◌+◌, ◌≡◌, refl, List, [], ◌∷◌, ◌++◌, Option, none, some, Bool, arith}
use dictd.Daemon.Types.{Database, DictWord}
use dictd.Daemon.Print.{
  Output, definition_line, match_line, period, blank_line, text_body, Previous, previous_of,
  count_defs_from, daemon_count_defs, header_lines, daemon_mime_definition, filtered, dump_def,
  dump_defs_from, daemon_dump_defs, PrevMatch, count_matches_from, daemon_count_matches,
  dump_matches_from, daemon_dump_matches,
}

abbrev definition_weight : Output → ℕ
definition_weight (definition_line w n s) = 1
definition_weight _ = 0

abbrev match_weight : Output → ℕ
match_weight (match_line n w) = 1
match_weight _ = 0

-- How many definitions, and how many matches, an output holds.
abbrev pub definitions : List Output → ℕ
definitions [] = 0
definitions (x ∷ o) = definition_weight x + definitions o

abbrev pub matches : List Output → ℕ
matches [] = 0
matches (x ∷ o) = match_weight x + matches o

definitions-append : (o p : List Output) → definitions (o ++ p) ≡ definitions o + definitions p
definitions-append [] p = omega arith
definitions-append (x ∷ o) p = omega (arith, definitions-append o p)

matches-append : (o p : List Output) → matches (o ++ p) ≡ matches o + matches p
matches-append [] p = omega arith
matches-append (x ∷ o) p = omega (arith, matches-append o p)

module _ (dict_data_obtain : Database → DictWord → List ℕ)
    (dict_data_filter : List ℕ → List ℕ → List ℕ) (daemon_mime_on : Bool) where
  header_lines-none : (h : Option (List ℕ)) → definitions (header_lines h) ≡ 0
  unfolding header_lines
  header_lines-none none = refl
  header_lines-none (some h) = refl

  daemon_mime_definition-none :
      (db : Database)
      → definitions (daemon_mime_definition dict_data_obtain dict_data_filter daemon_mime_on db) ≡ 0
  unfolding daemon_mime_definition
  daemon_mime_definition-none db = ground (
    arith,
    header_lines-none db.mime_header,
    definitions-append (header_lines db.mime_header) (blank_line ∷ []),
  )

  dump_def-one :
      (dw : DictWord)
      → definitions (dump_def dict_data_obtain dict_data_filter daemon_mime_on dw) ≡ 1
  unfolding dump_def
  dump_def-one dw =
      let buf = dict_data_obtain dw.database dw in
      let shown =
        filtered dict_data_obtain dict_data_filter daemon_mime_on dw.database.filter buf in
      omega (
        arith,
        daemon_mime_definition-none dw.database,
        definitions-append
            (daemon_mime_definition dict_data_obtain dict_data_filter daemon_mime_on dw.database)
            (text_body shown ∷ []),
      )

  dump_defs_from-count :
      (q : Previous) (l : List DictWord)
      → definitions (dump_defs_from dict_data_obtain dict_data_filter daemon_mime_on q l)
        ≡ count_defs_from q l
  unfolding dump_defs_from count_defs_from
  dump_defs_from-count q [] = refl
  dump_defs_from-count q (dw ∷ l) = ground (
    arith,
    dump_defs_from-count q l,
    dump_defs_from-count (previous_of dw) l,
    dump_def-one dw,
    definitions-append (dump_def dict_data_obtain dict_data_filter daemon_mime_on dw)
        (dump_defs_from dict_data_obtain dict_data_filter daemon_mime_on (previous_of dw) l),
  )

  -- daemon_dump_defs prints as many definitions as daemon_count_defs counts.
  pub daemon_dump_defs-count :
      (l : List DictWord)
      → definitions (daemon_dump_defs dict_data_obtain dict_data_filter daemon_mime_on l)
        ≡ daemon_count_defs l
  unfolding daemon_dump_defs daemon_count_defs
  daemon_dump_defs-count l = dump_defs_from-count (record { start = 0; stop = 0; def = none }) l

dump_matches_from-count :
    (q : PrevMatch) (l : List DictWord) → matches (dump_matches_from q l) ≡ count_matches_from q l
unfolding dump_matches_from count_matches_from
dump_matches_from-count q [] = refl
dump_matches_from-count q (dw ∷ l) =
    ground
      (arith, dump_matches_from-count q l, dump_matches_from-count (some (dw.word, dw.database)) l)

-- daemon_dump_matches prints as many matches as daemon_count_matches counts.
pub daemon_dump_matches-count :
    (mime : Bool) (l : List DictWord)
    → matches (daemon_dump_matches mime l) ≡ daemon_count_matches l
unfolding daemon_dump_matches daemon_count_matches
daemon_dump_matches-count mime l =
    ground (
      arith,
      dump_matches_from-count none l,
      matches-append (dump_matches_from none l) (period ∷ []),
    )
