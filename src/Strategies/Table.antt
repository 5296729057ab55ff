-- ===== src/Strategies/Table.antt =====
-- libdictd/strategy.c: the table of strategies. A pointer to a strategy is its index in the table.
use dictd.Prelude.{
  ℕ, zero, suc, ◌+◌, List, [], ◌∷◌, ◌++◌, Option, none, some, Bool, false, ◌==◌, if◌then◌else◌,
  get_elem?,
}
use dictd.Prelude.Int.{ℤ, pos, negsuc}
use dictd.Prelude.Text.{codes}
use dictd.Session.Commands.{same_ignoring_case}

pub record Strategy : Type 0 where
  pub name : List ℕ
  pub description : List ℕ
  pub number : ℕ

-- `strategies` with `strategy_count`, and `strategy_id`.
pub record Table : Type 0 where
  pub strategies : List Strategy
  pub strategy_id : ℕ

abbrev pub entry : List ℕ → List ℕ → ℕ → Strategy
entry n d k = record { name = n; description = d; number = k }

abbrev pub strategy_info : List Strategy
strategy_info =
    entry (codes "exact") (codes "Match headwords exactly") 1
    ∷ entry (codes "prefix") (codes "Match prefixes") 2
    ∷ entry (codes "nprefix") (codes "Match prefixes (skip, count)") 10
    ∷ entry (codes "substring") (codes "Match substring occurring anywhere in a headword") 3
    ∷ entry (codes "suffix") (codes "Match suffixes") 4
    ∷ entry (codes "re") (codes "POSIX 1003.2 (modern) regular expressions") 5
    ∷ entry (codes "regexp") (codes "Old (basic) regular expressions") 6
    ∷ entry (codes "soundex") (codes "Match using SOUNDEX algorithm") 7
    ∷ entry (codes "lev") (codes "Match headwords within Levenshtein distance one") 8
    ∷ entry (codes "word") (codes "Match separate words within headwords") 9
    ∷ entry (codes "first") (codes "Match the first word within headwords") 11
    ∷ entry (codes "last") (codes "Match the last word within headwords") 12
    ∷ []

abbrev pub new_strat_id : ℕ
new_strat_id = 100

unfoldable pub dict_init_strategies : Table
dict_init_strategies = record { strategies = strategy_info; strategy_id = new_strat_id }

unfoldable pub dict_add_strategy : List ℕ → List ℕ → Table → Table
dict_add_strategy strat description t = record {
  strategies = t.strategies ++ (entry strat description t.strategy_id ∷ []);
  strategy_id = t.strategy_id + 1;
}

-- The number of the last strategy, or -1.
unfoldable pub last_number : List Strategy → ℤ
last_number [] = negsuc 0
last_number (s ∷ []) = pos s.number
last_number (s ∷ r ∷ l) = last_number (r ∷ l)

unfoldable pub get_max_strategy_num : Table → ℤ
unfolding last_number
get_max_strategy_num t = last_number t.strategies

abbrev pub one_more : Option ℕ → Option ℕ
one_more none = none
one_more (some i) = some (suc i)

-- strcasecmp in the C locale.
unfoldable pub index_of : List ℕ → List Strategy → Option ℕ
index_of strategy [] = none
index_of strategy (s ∷ l) =
    let rest = index_of strategy l in
    if same_ignoring_case strategy s.name then some 0 else one_more rest

-- -1 is `none`.
unfoldable pub lookup_strategy_index : List ℕ → Table → Option ℕ
unfolding index_of
lookup_strategy_index strategy t = index_of strategy t.strategies

abbrev pub number_of : Option Strategy → Option ℕ
number_of none = none
number_of (some s) = some s.number

abbrev pub number_at : List Strategy → Option ℕ → Option ℕ
number_at l none = none
number_at l (some i) = number_of (get_elem? l i)

-- `strategy[0] == '.' && strategy[1] == '\0'`
unfoldable pub is_dot : List ℕ → Bool
is_dot (c ∷ []) = c == 46
is_dot _ = false

unfoldable pub lookup_strategy : List ℕ → Table → Option ℕ
unfolding is_dot
lookup_strategy strategy t =
    if is_dot strategy then some 0 else number_at t.strategies (lookup_strategy_index strategy t)

unfoldable pub first_with : ℕ → List Strategy → Option Strategy
first_with strat [] = none
first_with strat (s ∷ l) = if strat == s.number then some s else first_with strat l

unfoldable pub get_strategy : ℕ → Table → Option Strategy
unfolding first_with
get_strategy strat t = first_with strat t.strategies

abbrev pub put_back : Strategy → Option (List Strategy) → Option (List Strategy)
put_back s none = none
put_back s (some l) = some (s ∷ l)

-- The loop and memmove, for the strategy at an index; the end of the loop is `abort()`.
unfoldable pub without : ℕ → List Strategy → Option (List Strategy)
without i [] = none
without zero (s ∷ l) = some l
without (suc i) (s ∷ l) = put_back s (without i l)

abbrev pub with_strategies : Table → Option (List Strategy) → Option Table
with_strategies t none = none
with_strategies t (some l) = some (record t { strategies = l })

unfoldable pub dict_disable_strategy : ℕ → Table → Option Table
unfolding without
dict_disable_strategy i t = with_strategies t (without i t.strategies)
