-- ===== src/Lev/Search.antt =====
-- libdictd/index.c and libdictd/lev.h: the macro CHECK and `dict_search_lev_8bit`. The set of the
-- words that were counted is a list.
use dictd.Prelude.{
  ℕ, ◌+◌, List, [], ◌∷◌, Option, none, some, Bool, true, false, ◌||◌, if◌then◌else◌, length, drop,
}
use dictd.Prelude.Result.{Result, ok, ◌>>=◌}
use dictd.Daemon.Databases.{same_string}
use dictd.Index.Types.{Cmp, less, prefix, equal, greater, SearchFault, Tables, DictIndex}
use dictd.Index.Compare.{compare}
use dictd.Index.Search.{dict_index_search}
use dictd.Index.Word.{DictWord, dict_add_word_to_list}
use dictd.Lev.Candidates.{candidates}

pub record Checked : Type 0 where
  pub seen : List (List ℕ)
  pub count : ℕ
  pub list : List DictWord

-- set_member
unfoldable pub set_member : List (List ℕ) → List ℕ → Bool
unfolding same_string
set_member [] w = false
set_member (v ∷ s) w = same_string v w || set_member s w

module _ (b64_decode_buf : List ℕ → ℕ) (t : Tables) (x : DictIndex) (limit : ℕ) where
  abbrev pub only_equal : ℕ → Cmp → Option ℕ
  only_equal pt equal = some pt
  only_equal pt less = none
  only_equal pt prefix = none
  only_equal pt greater = none

  unfoldable pub compare_found : List ℕ → Option ℕ → Result SearchFault (Option ℕ)
  compare_found w none = ok none
  compare_found w (some pt) = do c ← compare t x w pt (length x.bytes); ok (only_equal pt c)

  -- The entry of a headword that is equal to the word.
  unfoldable pub find_equal : List ℕ → Result SearchFault (Option ℕ)
  unfolding compare_found
  find_equal w = do found ← dict_index_search t x w; compare_found w found

  -- What adding to the list leaves: `false` met the limit.
  abbrev pub added : Checked → Option (List DictWord) → Bool × Checked
  added st none = (false, st)
  added st (some l) = (true, record st { list = l })

  unfoldable pub check_found : List ℕ → Checked → Option ℕ → Result SearchFault (Bool × Checked)
  unfolding set_member
  check_found w st none = ok (true, st)
  check_found w st (some pt) = if set_member st.seen w then ok (true, st) else (do
    r ← dict_add_word_to_list b64_decode_buf limit st.list (drop pt x.bytes)
    ok (added (record { seen = w ∷ st.seen; count = st.count + 1; list = st.list }) r))

  -- CHECK: a word that is an entry, and that was not counted before, is counted and added.
  unfoldable pub check : List ℕ → Checked → Result SearchFault (Bool × Checked)
  unfolding check_found find_equal
  check w st = do found ← find_equal w; check_found w st found

  unfoldable pub after_check :
      Bool × Checked → (Checked → Result SearchFault Checked) → Result SearchFault Checked
  after_check (true, st) next = next st
  after_check (false, st) next = ok st

  -- The checks in order; one that meets the limit is the last.
  unfoldable pub check_all : List (List ℕ) → Checked → Result SearchFault Checked
  check_all [] st = ok st
  check_all (w ∷ words) st = do r ← check w st; after_check r (check_all words)

  unfoldable pub dict_search_lev_8bit : List DictWord → List ℕ → List ℕ → Result SearchFault Checked
  unfolding candidates
  dict_search_lev_8bit l word alphabet =
      check_all (candidates alphabet word) (record { seen = []; count = 0; list = l })
