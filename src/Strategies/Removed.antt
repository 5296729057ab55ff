-- ===== src/Strategies/Removed.antt =====
-- libdictd/strategy.c: `dict_disable_strategies` takes the named strategies out of the table.
use dictd.Prelude.{
  ℕ, suc, ◌<◌, ◌≡◌, refl, ap, inl, inr, List, [], ◌∷◌, ◌++◌, Option, none, some, true, false, ◌==◌,
  arith, All, ltb, length, Bool-cases,
}
use dictd.Prelude.Text.{join}
use dictd.Prelude.Result.{Result, ok, err, ◌>>=◌}
use dictd.Session.Commands.{same_ignoring_case}
use dictd.Strategies.Table.{
  Strategy, Table, one_more, index_of, lookup_strategy_index, put_back, without,
  dict_disable_strategy,
}
use dictd.Strategies.Disable.{
  Fault, unknown, disable_at, disable_name, dict_disable_strategies, disable_each, IsName,
  loop-join,
}

abbrev pub IsNamed : List ℕ → Strategy → Type 0
IsNamed name s = same_ignoring_case name s.name ≡ true

abbrev pub IsOther : List ℕ → Strategy → Type 0
IsOther name s = same_ignoring_case name s.name ≡ false

-- Disabling names one after the other: the first strategy of each name is taken out, the others
-- stay in order; a name that no strategy has ends it.
pub data Disables : List (List ℕ) → Table → Result Fault Table → Type 0 where
  all_disabled : (t : Table) → Disables [] t (ok t)
  disabled :
      (name : List ℕ) (names : List (List ℕ)) (t : Table) (before after : List Strategy)
      (s : Strategy) (r : Result Fault Table)
      → t.strategies ≡ before ++ (s ∷ after)
      → All (IsOther name) before
      → IsNamed name s
      → Disables names (record t { strategies = before ++ after }) r
      → Disables (name ∷ names) t r
  stopped :
      (name : List ℕ) (names : List (List ℕ)) (t : Table)
      → All (IsOther name) t.strategies
      → Disables (name ∷ names) t (err unknown)

-- What the index of a name says of the list.
data Place (name : List ℕ) (l : List Strategy) : Option ℕ → Type 0 where
  here :
      (before after : List Strategy) (s : Strategy) (i : ℕ)
      → l ≡ before ++ (s ∷ after)
      → All (IsOther name) before
      → IsNamed name s
      → without i l ≡ some (before ++ after)
      → Place name l (some i)
  nowhere : All (IsOther name) l → Place name l none

Place-below :
    (name : List ℕ) (s : Strategy) (l : List Strategy) (o : Option ℕ)
    → IsOther name s
    → Place name l o
    → Place name (s ∷ l) (one_more o)
unfolding without
Place-below name s l o h (here before after r i e a n w) =
    here (s ∷ before) after r (suc i) (ap (λ k. s ∷ k) e) (h, a) n (ap (put_back s) w)
Place-below name s l o h (nowhere a) = nowhere (h, a)

index_of-Place : (name : List ℕ) (l : List Strategy) → Place name l (index_of name l)
unfolding index_of without
index_of-Place name [] = nowhere tt
index_of-Place name (s ∷ l) = elim (Bool-cases (same_ignoring_case name s.name)) [
  | inl h ↦ rw h (here [] l s 0 refl tt h refl)
  | inr h ↦ rw h (Place-below name s l (index_of name l) h (index_of-Place name l))
]

disable_at-Disables :
    (name : List ℕ) (names : List (List ℕ)) (t : Table) (o : Option ℕ)
    → Place name t.strategies o
    → ((t' : Table) → Disables names t' (disable_each names t'))
    → Disables (name ∷ names) t (disable_at o t >>= disable_each names)
unfolding disable_at dict_disable_strategy
disable_at-Disables name names t o (here before after s i e a n w) ih =
    rw w (
      disabled name names t before after s _ e a n (ih (record t { strategies = before ++ after })))
disable_at-Disables name names t o (nowhere a) ih = stopped name names t a

disable_each-Disables :
    (names : List (List ℕ)) (t : Table) → Disables names t (disable_each names t)
unfolding disable_name lookup_strategy_index
disable_each-Disables [] t = all_disabled t
disable_each-Disables (name ∷ names) t =
    disable_at-Disables name names t (index_of name t.strategies) (index_of-Place name t.strategies)
      (disable_each-Disables names)

-- Given names with commas between them, less than 400 characters in all, dict_disable_strategies
-- takes the first strategy of each name out of the table, one name after the other, and keeps the
-- rest in order; it exits at the first name that no strategy has then, and has no other fault. A
-- name has a character or more, and no commas and zeros in it; it is compared without the case of
-- its letters.
pub dict_disable_strategies-Disables :
    (names : List (List ℕ)) (t : Table)
    → All IsName names
    → length (join names) < 400
    → Disables names t (dict_disable_strategies (join names) t)
unfolding dict_disable_strategies
dict_disable_strategies-Disables names t h l =
    let e : ltb 400 (length (join names)) ≡ false = ground (arith, l) in
    let f : (length (join names) == 400) ≡ false = ground (arith, l) in
    rw (e, f, loop-join names t h) (disable_each-Disables names t)
