-- ===== src/Index/Search.antt =====
-- libdictd/index.c: `binary_search`, `binary_search_8bit`, `linear_search`, `dict_index_search`.
use dictd.Prelude.{
  ℕ, zero, suc, ◌+◌, ◌-◌, ◌/◌, List, Option, none, some, ltb, ◌||◌, if◌then◌else◌, length, get_or,
}
use dictd.Prelude.Result.{Result, ok, err, ◌>>=◌}
use dictd.Index.Types.{Cmp, less, prefix, equal, greater, SearchFault, no_fuel, Tables, DictIndex}
use dictd.Index.Compare.{compare_allchars, compare_alnumspace, compare}
use dictd.Index.Lines.{find_prev, find_next}
use dictd.Prelude.{drop}

-- The two binary searches differ in the comparison alone: `cmp pt end`.
module _ (cmp : ℕ → ℕ → Result SearchFault Cmp) (buf : List ℕ) where
  -- pt = start + (end-start)/2; FIND_PREV(start, pt)
  unfoldable pub middle : ℕ → ℕ → ℕ
  middle start stop = find_prev buf start (start + (stop - start) / 2)

  unfoldable pub search_loop : ℕ → ℕ → ℕ → Result SearchFault ℕ
  search_loop zero start stop = err no_fuel
  search_loop (suc fuel) start stop =
      let pt = middle start stop in
      let round = (do
        c ← cmp pt stop
        elim c [
          | greater ↦ search_loop fuel (find_next buf pt stop) stop
          | _ ↦ search_loop fuel start pt
        ]) in
      if ltb start stop then round else ok start

  -- From `pt` on, the entry that the word is equal to or a prefix of.
  unfoldable pub linear_loop : ℕ → ℕ → ℕ → Result SearchFault (Option ℕ)
  linear_loop zero pt stop = err no_fuel
  linear_loop (suc fuel) pt stop =
      let round = (do
        c ← cmp pt stop
        elim c [
          | less ↦ ok none
          | prefix ↦ ok (some pt)
          | equal ↦ ok (some pt)
          | greater ↦ linear_loop fuel (find_next buf pt stop) stop
        ]) in
      if ltb pt stop then round else ok none

module _ (t : Tables) (x : DictIndex) (word : List ℕ) where
  -- The range shrinks by a byte or more in each round.
  unfoldable pub binary_search : ℕ → ℕ → Result SearchFault ℕ
  binary_search start stop = search_loop (compare t x word) x.bytes (suc (stop - start)) start stop

  -- The comparison of `binary_search_8bit`, which does not ask for `flag_8bit`.
  unfoldable pub compare_8bit : ℕ → ℕ → Result SearchFault Cmp
  compare_8bit start stop =
      if x.flag_utf8 || x.flag_allchars
      then compare_allchars word (drop start x.bytes) (stop - start)
      else compare_alnumspace t x word (drop start x.bytes) (stop - start)

  unfoldable pub binary_search_8bit : ℕ → ℕ → Result SearchFault ℕ
  binary_search_8bit start stop = search_loop compare_8bit x.bytes (suc (stop - start)) start stop

  unfoldable pub linear_search : ℕ → ℕ → Result SearchFault (Option ℕ)
  linear_search start stop = linear_loop (compare t x word) x.bytes (suc (stop - start)) start stop

  -- The character whose starting points bound the search; the NUL of an empty word counts.
  unfoldable pub search_start : ℕ
  search_start = if t.opt_start_mode then x.opt_start (get_or word 0 0) else 0

  unfoldable pub search_stop : ℕ
  search_stop =
      let stop =
        if t.opt_start_mode
        then x.opt_start (t.i2c (t.c2i (get_or word 0 0) + 1))
        else length x.bytes in
      if ltb stop search_start then length x.bytes else stop

  unfoldable pub dict_index_search : Result SearchFault (Option ℕ)
  unfolding search_stop search_start
  dict_index_search = do
    start ← binary_search search_start search_stop
    linear_search start (length x.bytes)
