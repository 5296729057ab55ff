-- ===== src/Tests/Strategies.antt =====
-- Tests of libdictd/strategy.c and of dict_disable_strat.
use dictd.Prelude.{ℕ, ◌≡◌, refl, List, [], ◌∷◌, none, some, arith}
use dictd.Prelude.Text.{codes, join}
use dictd.Prelude.Result.{err, ◌>>=◌, Returns}
use dictd.Session.Commands.{same_ignoring_case}
use dictd.Strategies.Table.{
  Table, dict_init_strategies, dict_add_strategy, lookup_strategy, lookup_strategy_index, index_of,
  is_dot, dict_disable_strategy,
}
use dictd.Strategies.Disable.{disable_at, overflow, dict_disable_strategies}
use dictd.Strategies.Removed.{Disables, dict_disable_strategies-Disables}
use dictd.Strategies.Numbers.{Reached, start, add, Valid, Reached-Valid}
use dictd.Strategies.Lookup.{Lookup, lookup_strategy-Lookup}
use dictd.Strategies.Disabled.{
  initial, added, Marked, dict_disable_strat, dict_disable_strat-Marked,
}

abbrev first_last : List (List ℕ)
first_last = codes "first" ∷ codes "last" ∷ []

dict_disable_strategies-Disables_example :
    Disables first_last dict_init_strategies
      (dict_disable_strategies (join first_last) dict_init_strategies)
dict_disable_strategies-Disables_example =
    dict_disable_strategies-Disables first_last dict_init_strategies (refl, (refl, tt))
      (omega arith)

-- With a strategy of a plugin.
abbrev plugged : Table
plugged = dict_add_strategy (codes "new") (codes "A strategy of a plugin") dict_init_strategies

plugged-Reached : Reached plugged
plugged-Reached = add (codes "new") (codes "A strategy of a plugin") dict_init_strategies start

Reached-Valid_example : Valid plugged
Reached-Valid_example = Reached-Valid plugged plugged-Reached

lookup_strategy-Lookup_example :
    Lookup (codes "NEW") plugged.strategies (lookup_strategy (codes "NEW") plugged)
unfolding is_dot
lookup_strategy-Lookup_example = lookup_strategy-Lookup plugged (codes "NEW") plugged-Reached refl

new_number : lookup_strategy (codes "NEW") plugged ≡ some 100
unfolding lookup_strategy lookup_strategy_index index_of same_ignoring_case dict_add_strategy
    dict_init_strategies
new_number = refl

dict_disable_strat-Marked_example :
    Returns (dict_disable_strat plugged none (codes "NEW")) (Marked plugged 100)
dict_disable_strat-Marked_example =
    dict_disable_strat-Marked plugged (codes "NEW") 100
      (added (codes "new") (codes "A strategy of a plugin") dict_init_strategies initial) new_number

-- After `first` and `last` are disabled for the server, the last strategy of the table is `word`,
-- with number 9, and the array for a database is too short for nprefix, with number 10.
too_short :
    (dict_disable_strategies (join first_last) dict_init_strategies >>= λ t.
    dict_disable_strat t none (codes "nprefix"))
    ≡ err overflow
unfolding dict_disable_strategies dict_disable_strat disable_at lookup_strategy_index
    dict_init_strategies same_ignoring_case dict_disable_strategy lookup_strategy
too_short = refl
