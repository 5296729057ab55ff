-- ===== src/Index/Compare.antt =====
-- libdictd/index.c: `compare_allchars`, `compare_alnumspace`, `compare`, `compare_1or4`.
-- The entry is the file from `start` on, with the count of bytes before `end`; to read on where the
-- file has ended is a fault. A word is the bytes before its NUL.
use dictd.Prelude.{
  ℕ, zero, suc, ◌-◌, ◌+◌, List, [], ◌∷◌, Bool, true, false, not, ◌&&◌, ◌||◌, ltb, ◌==◌,
  if◌then◌else◌, drop,
}
use dictd.Prelude.Result.{Result, ok, err, ◌>>=◌}
use dictd.Index.Types.{
  Cmp, less, prefix, equal, greater, SearchFault, past_end, bad_index, Tables, DictIndex, tab,
  newline, is_stop,
}

-- The word is used up: is the headword too?
unfoldable pub word_done : List ℕ → Result SearchFault Cmp
word_done [] = err past_end
word_done (b ∷ bs) = ok (if is_stop b then equal else prefix)

unfoldable pub compare_allchars : List ℕ → List ℕ → ℕ → Result SearchFault Cmp
unfolding word_done
compare_allchars [] bs n = word_done bs
compare_allchars (w ∷ ws) bs zero = if is_stop w then word_done bs else ok greater
compare_allchars (w ∷ ws) [] (suc n) = err past_end
compare_allchars (w ∷ ws) (b ∷ bs) (suc n) =
    let rest = compare_allchars ws bs n in
    if is_stop w
    then word_done (b ∷ bs)
    else if is_stop b
    then ok greater
    else if w == b
    then rest
    else if ltb w b
    then ok less
    else ok greater

-- The loop after the main one: bytes that the index ignores, which may run past `end`.
unfoldable pub skip_ignored : (ℕ → Bool) → List ℕ → List ℕ
skip_ignored spacealnum [] = []
skip_ignored spacealnum (b ∷ bs) =
    if is_stop b then b ∷ bs else if spacealnum b then b ∷ bs else skip_ignored spacealnum bs

module _ (t : Tables) (x : DictIndex) where
  -- Which of two different characters comes first.
  unfoldable pub char_order : ℕ → ℕ → Cmp
  char_order c1 c2 =
      let place = λ (c : ℕ). if t.utf8_mode && ltb 127 c then c else t.c2i c in
      if ltb (place c1) (place c2) then less else greater

  unfoldable pub fold : ℕ → ℕ
  fold c = if x.flag_casesensitive then c else t.tolower c

  -- What follows the loop of `compare_alnumspace`.
  unfoldable pub alnumspace_done : List ℕ → List ℕ → Result SearchFault Cmp
  unfolding skip_ignored word_done
  alnumspace_done ws bs = elim (skip_ignored x.isspacealnum bs) [
    | [] ↦ err past_end
    | b ∷ rest ↦ elim ws [
      | [] ↦ word_done (b ∷ rest)
      | w ∷ _ ↦ if is_stop w then word_done (b ∷ rest) else ok greater
    ]
  ]

  unfoldable pub compare_alnumspace : List ℕ → List ℕ → ℕ → Result SearchFault Cmp
  unfolding fold char_order alnumspace_done
  compare_alnumspace [] bs n = alnumspace_done [] bs
  compare_alnumspace (w ∷ ws) bs zero = alnumspace_done (w ∷ ws) bs
  compare_alnumspace (w ∷ ws) [] (suc n) = err past_end
  compare_alnumspace (w ∷ ws) (b ∷ bs) (suc n) =
      let skipped = compare_alnumspace (w ∷ ws) bs n in
      let rest = compare_alnumspace ws bs n in
      if is_stop w || is_stop b
      then alnumspace_done (w ∷ ws) (b ∷ bs)
      else if not (x.isspacealnum b)
      then skipped
      else if fold w == fold b
      then rest
      else ok (char_order (fold w) (fold b))

  -- The comparison that the kind of the index calls for, of the entry at `start`.
  unfoldable pub compare : List ℕ → ℕ → ℕ → Result SearchFault Cmp
  compare word start stop =
      if x.flag_allchars || x.flag_utf8 || x.flag_8bit
      then compare_allchars word (drop start x.bytes) (stop - start)
      else compare_alnumspace word (drop start x.bytes) (stop - start)

-- Counts tabs up to the newline: two make three columns, three make four.
unfoldable pub count_columns : List ℕ → ℕ → ℕ → Result SearchFault Bool
count_columns bs zero tabs = err bad_index
count_columns [] (suc n) tabs = err bad_index
count_columns (b ∷ bs) (suc n) tabs =
    let rest = count_columns bs n (if b == tab then tabs + 1 else tabs) in
    if b == newline
    then (if tabs == 2 then ok false else if tabs == 3 then ok true else err bad_index)
    else rest

-- `while (start < end && *start != '\t') ++start; ++start`
unfoldable pub after_tab : List ℕ → ℕ → ℕ → ℕ
after_tab bs zero start = start + 1
after_tab [] (suc n) start = start + 1
after_tab (b ∷ bs) (suc n) start =
    let rest = after_tab bs n (start + 1) in if b == tab then start + 1 else rest

module _ (t : Tables) (x : DictIndex) where
  unfoldable pub dict_entry_is_4column : ℕ → ℕ → Result SearchFault Bool
  dict_entry_is_4column start stop = count_columns (drop start x.bytes) (stop - start) 0

  unfoldable pub next_column : ℕ → ℕ → ℕ
  next_column start stop = after_tab (drop start x.bytes) (stop - start) start

  -- Compares with the first column, or with the fourth where there is one; gives its place too.
  unfoldable pub compare_1or4 : List ℕ → ℕ → ℕ → Result SearchFault (Cmp × ℕ)
  unfolding dict_entry_is_4column next_column
  compare_1or4 word start stop = do
    four ← dict_entry_is_4column start stop
    let column = if four then next_column (next_column start stop) stop else start
    c ← compare t x word column stop
    ok (c, column)
