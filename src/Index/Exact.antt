-- ===== src/Index/Exact.antt =====
-- libdictd/index.c: `dict_search_exact` and `dict_search_prefix_first`, which walk down the lines
-- from the first match and collect words.
use dictd.Prelude.{
  ℕ, zero, suc, ◌+◌, ◌-◌, List, Option, none, some, Bool, true, false, not, ◌&&◌, ◌||◌, ltb, ◌==◌,
  if◌then◌else◌, length, get_or, drop,
}
use dictd.Prelude.Result.{Result, ok, err, ◌>>=◌}
use dictd.Index.Types.{prefix, equal, SearchFault, no_fuel, Tables, DictIndex, tab}
use dictd.Index.Compare.{compare, compare_1or4}
use dictd.Index.Lines.{find_next}
use dictd.Index.Search.{dict_index_search}
use dictd.Index.Word.{DictWord, dict_add_word_to_list}

-- The list that is filled (NULL where only the count is wanted) and the count returned.
pub record Matches : Type 0 where
  pub list : Option (List DictWord)
  pub count : ℕ

-- What `previous` makes of a line: is it kept, and the new `previous`.
abbrev pub Kept : Type 0
Kept = Bool × Option ℕ

-- What a round hands on: go on, `previous`, the matches; with the numbers to skip and to take.
abbrev pub ExactStep : Type 0
ExactStep = Bool × Option ℕ × Matches

abbrev pub PrefixStep : Type 0
PrefixStep = Bool × Option ℕ × ℕ × ℕ × Matches

module _ (b64_decode_buf : List ℕ → ℕ) (t : Tables) (x : DictIndex) (limit : ℕ)
    (word : List ℕ) where
  -- `!previous || compare_1or4(previous, dbindex, pt, end, &previous)`: the comparison, which alone
  -- sets `previous`, is made only if it is set.
  unfoldable pub differs_from_previous : Option ℕ → ℕ → Result SearchFault Kept
  differs_from_previous none pt = ok (true, none)
  differs_from_previous (some q) pt = do
    (c, column) ← compare_1or4 t x (drop q x.bytes) pt (length x.bytes)
    ok (elim c [ equal ↦ (false, some column) | _ ↦ (true, some column) ])

  -- Counts a match and stores it if there is a list; `true` goes on, `false` met the limit.
  unfoldable pub store : Matches → ℕ → Result SearchFault (Bool × Matches)
  store m pt = elim m.list [
    | none ↦ ok (true, record m { count = m.count + 1 })
    | some l ↦ do
      added ← dict_add_word_to_list b64_decode_buf limit l (drop pt x.bytes)
      elim added [
        | none ↦ ok (false, record m { count = m.count + 1 })
        | some l' ↦ ok (true, record { list = some l'; count = m.count + 1 })
      ]
  ]

  -- A match in the loop of `dict_search_exact`.
  unfoldable pub exact_match : Bool → ℕ → Option ℕ → Matches → Result SearchFault ExactStep
  exact_match uniq_only pt previous m = do
    (keep, previous') ←
        (if uniq_only then differs_from_previous previous pt else ok (true, previous))
    (more, m') ← (if keep then store m pt else ok (true, m))
    ok (more, previous', m')

  -- The body of that loop, up to FIND_NEXT: whether to go on, `previous`, the matches.
  unfoldable pub exact_step : Bool → ℕ → Option ℕ → Matches → Result SearchFault ExactStep
  unfolding exact_match
  exact_step uniq_only pt previous m = do
    c ← compare t x word pt (length x.bytes)
    elim c [ equal ↦ exact_match uniq_only pt previous m | _ ↦ ok (false, previous, m) ]

  unfoldable pub exact_loop : Bool → ℕ → ℕ → Option ℕ → Matches → Result SearchFault Matches
  exact_loop uniq_only zero pt previous m = err no_fuel
  exact_loop uniq_only (suc fuel) pt previous m =
      let next = find_next x.bytes pt (length x.bytes) in
      let round = (do
        (more, previous', m') ← exact_step uniq_only pt previous m
        let rest = exact_loop uniq_only fuel next previous' m'
        if more then rest else ok m') in
      if ltb pt (length x.bytes) then round else ok m

  -- The loop from the first match, if there is one.
  unfoldable pub exact_from : Option (List DictWord) → Bool → Option ℕ → Result SearchFault Matches
  exact_from l uniq_only none = ok (record { list = l; count = 0 })
  exact_from l uniq_only (some pt) =
      exact_loop uniq_only (suc (length x.bytes - pt)) pt none (record { list = l; count = 0 })

  unfoldable pub dict_search_exact : Option (List DictWord) → Bool → Result SearchFault Matches
  unfolding exact_from
  dict_search_exact l uniq_only = do
    found ← dict_index_search t x word
    exact_from l uniq_only found

  -- `first`: only where the word ends at a tab, a space or a punctuation mark.
  unfoldable pub ends_word : (ℕ → Bool) → ℕ → Bool
  ends_word isspacepunct pt =
      let c = get_or x.bytes (pt + length word) 0 in c == tab || isspacepunct c

  -- Passes over a match, or stores it: the numbers to skip and to take left over, and whether to go on.
  unfoldable pub take_item : ℕ → ℕ → Matches → ℕ → Result SearchFault (Bool × ℕ × ℕ × Matches)
  take_item (suc skip_count) item_count m pt = ok (true, skip_count, item_count, m)
  take_item zero item_count m pt = do
    (more, m') ← store m pt
    ok (more && not (item_count == 1), 0, item_count - 1, m')

  -- A match in the loop of `dict_search_prefix_first`.
  unfoldable pub prefix_match :
      (ℕ → Bool) → Bool → ℕ → Option ℕ → ℕ → ℕ → Matches → Result SearchFault PrefixStep
  prefix_match punct first pt previous skip item m = do
    (keep, previous') ← differs_from_previous previous pt
    (more, skip', item', m') ←
        (if keep && (not first || ends_word punct pt)
          then take_item skip item m pt
          else ok (true, skip, item, m))
    ok (more, previous', skip', item', m')

  -- The body of that loop, up to FIND_NEXT.
  unfoldable pub prefix_step :
      (ℕ → Bool) → Bool → ℕ → Option ℕ → ℕ → ℕ → Matches → Result SearchFault PrefixStep
  prefix_step punct first pt previous skip item m = do
    c ← compare t x word pt (length x.bytes)
    elim c [
      | equal ↦ prefix_match punct first pt previous skip item m
      | prefix ↦ prefix_match punct first pt previous skip item m
      | _ ↦ ok (false, previous, skip, item, m)
    ]

  unfoldable pub prefix_loop :
      (ℕ → Bool) → Bool → ℕ → ℕ → Option ℕ → ℕ → ℕ → Matches → Result SearchFault Matches
  prefix_loop punct first zero pt previous skip item m = err no_fuel
  prefix_loop punct first (suc fuel) pt previous skip item m =
      let next = find_next x.bytes pt (length x.bytes) in
      let round = (do
        (more, previous', skip', item', m') ← prefix_step punct first pt previous skip item m
        let rest = prefix_loop punct first fuel next previous' skip' item' m'
        if more then rest else ok m') in
      if ltb pt (length x.bytes) then round else ok m

  unfoldable pub dict_search_prefix_first :
      (ℕ → Bool) → Bool → ℕ → ℕ → Option (List DictWord) → Result SearchFault Matches
  dict_search_prefix_first punct first skip_count item_count l = do
    found ← dict_index_search t x word
    let m : Matches = record { list = l; count = 0 }
    if item_count == 0 then ok m else elim found [
      | none ↦ ok m
      | some pt ↦
          prefix_loop punct first (suc (length x.bytes - pt)) pt none skip_count item_count m
    ]
