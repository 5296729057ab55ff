-- ===== src/Daemon/Print.antt =====
-- dictd/daemon.c: the counting and the printing of definitions and matches. An item of the output
-- is one call of daemon_printf, daemon_mime... or daemon_text with its arguments; their formatting is
-- left to printf. `dict_data_obtain` (libdictd/data.c) and the filter command are interfaces.
use dictd.Prelude.{
  ℕ, suc, List, [], ◌∷◌, ◌++◌, Option, none, some, Bool, true, false, ◌&&◌, ◌==◌, if◌then◌else◌,
}
use dictd.Daemon.Types.{Database, DictWord, star}
use dictd.Daemon.Databases.{same_string}

pub data Output : Type 0 where
  -- A line with a code, and one that also has a number.
  status : ℕ → Output
  count_line : ℕ → ℕ → Output
  -- 151 with the word, and the name and the description of its database.
  definition_line : List ℕ → List ℕ → List ℕ → Output
  mime_header_line : List ℕ → Output
  blank_line : Output
  text_body : List ℕ → Output
  -- A match and the name of its database; a database and its description.
  match_line : List ℕ → List ℕ → Output
  database_line : List ℕ → List ℕ → Output
  strategy_line : List ℕ → List ℕ → Output
  -- A line with a code about a name; any other line; a text without its final dot.
  about_line : ℕ → List ℕ → Output
  line : List ℕ → Output
  text_part : List ℕ → Output
  period : Output

-- `previousStart`, `previousEnd`, `previousDef`.
pub record Previous : Type 0 where
  pub start : ℕ
  pub stop : ℕ
  pub def : Option ℕ

unfoldable pub same_address : Option ℕ → Option ℕ → Bool
same_address none none = true
same_address none (some b) = false
same_address (some a) none = false
same_address (some a) (some b) = a == b

-- Is this the definition before once more?
unfoldable pub repeated : Previous → DictWord → Bool
unfolding same_address
repeated q dw = (q.start == dw.start) && (q.stop == dw.stop) && same_address q.def dw.def

abbrev pub previous_of : DictWord → Previous
previous_of dw = record { start = dw.start; stop = dw.stop; def = dw.def }

unfoldable pub count_defs_from : Previous → List DictWord → ℕ
count_defs_from q [] = 0
count_defs_from q (dw ∷ l) =
    let skipped = count_defs_from q l in
    let counted = suc (count_defs_from (previous_of dw) l) in
    if repeated q dw then skipped else counted

unfoldable pub daemon_count_defs : List DictWord → ℕ
daemon_count_defs l = count_defs_from (record { start = 0; stop = 0; def = none }) l

unfoldable pub visible_of : Database → Option Database → Database
visible_of db none = db
visible_of db (some v) = v

-- `if (db -> mime_header)`
unfoldable pub header_lines : Option (List ℕ) → List Output
header_lines none = []
header_lines (some h) = mime_header_line h ∷ []

module _ (dict_data_obtain : Database → DictWord → List ℕ)
    (dict_data_filter : List ℕ → List ℕ → List ℕ) (daemon_mime_on : Bool) where
  unfoldable pub daemon_mime_definition : Database → List Output
  unfolding header_lines
  daemon_mime_definition db =
      if daemon_mime_on then header_lines db.mime_header ++ (blank_line ∷ []) else []

  -- `if (db->filter)`
  unfoldable pub filtered : Option (List ℕ) → List ℕ → List ℕ
  filtered none buf = buf
  filtered (some command) buf = dict_data_filter buf command

  -- One definition: its 151 line, the MIME header and the text.
  unfoldable pub dump_def : DictWord → List Output
  unfolding visible_of filtered
  dump_def dw =
      let db = dw.database in
      let visible = visible_of db dw.database_visible in
      let buf = dict_data_obtain db dw in
      definition_line dw.word (if visible.invisible then star ∷ [] else visible.database_name)
        (if visible.invisible then [] else visible.database_short)
      ∷ (daemon_mime_definition db ++ (text_body (filtered db.filter buf) ∷ []))

  unfoldable pub dump_defs_from : Previous → List DictWord → List Output
  dump_defs_from q [] = []
  dump_defs_from q (dw ∷ l) =
      let skipped = dump_defs_from q l in
      let dumped = dump_def dw ++ dump_defs_from (previous_of dw) l in
      if repeated q dw then skipped else dumped

  unfoldable pub daemon_dump_defs : List DictWord → List Output
  daemon_dump_defs l = dump_defs_from (record { start = 0; stop = 0; def = none }) l

-- `prevword` and `prevdb`.
abbrev pub PrevMatch : Type 0
PrevMatch = Option (List ℕ × Database)

unfoldable pub repeated_match : PrevMatch → DictWord → Bool
unfolding same_string
repeated_match none dw = false
repeated_match (some (w, db)) dw = (db.id == dw.database.id) && same_string w dw.word

unfoldable pub count_matches_from : PrevMatch → List DictWord → ℕ
count_matches_from q [] = 0
count_matches_from q (dw ∷ l) =
    let skipped = count_matches_from q l in
    let counted = suc (count_matches_from (some (dw.word, dw.database)) l) in
    if repeated_match q dw then skipped else counted

unfoldable pub daemon_count_matches : List DictWord → ℕ
daemon_count_matches l = count_matches_from none l

unfoldable pub dump_matches_from : PrevMatch → List DictWord → List Output
dump_matches_from q [] = []
dump_matches_from q (dw ∷ l) =
    let db = visible_of dw.database dw.database_visible in
    let skipped = dump_matches_from q l in
    let dumped = dump_matches_from (some (dw.word, dw.database)) l in
    if repeated_match q dw
    then skipped
    else match_line (if db.invisible then star ∷ [] else db.database_name) dw.word ∷ dumped

unfoldable pub daemon_dump_matches : Bool → List DictWord → List Output
daemon_dump_matches mime l =
    let lines = dump_matches_from none l ++ (period ∷ []) in
    if mime then blank_line ∷ lines else lines
