-- ===== src/Strategies/Disabled.antt =====
-- dictd/dictd.c: `dict_disable_strat`, the strategies that are disabled for one database.
use dictd.Prelude.{
  ℕ, zero, suc, ◌+◌, ◌<◌, ◌≡◌, refl, inl, inr, List, [], ◌∷◌, ◌++◌, Option, none, some, Bool, true,
  false, arith, ltb, ◌==◌, if◌then◌else◌, length, replicate, set, get_or, get_elem?, Bool-cases, ap,
  ◌∙◌, length-set,
}
use dictd.Prelude.Int.{ℤ, pos, negsuc}
use dictd.Prelude.Result.{Result, ok, err, Returns}
use dictd.Strategies.Table.{
  Strategy, Table, entry, dict_init_strategies, dict_add_strategy, last_number,
  get_max_strategy_num, number_of, number_at, is_dot, lookup_strategy, lookup_strategy_index,
}
use dictd.Strategies.Disable.{Fault, unknown, overflow}
use dictd.Strategies.Numbers.{Reached, start, add, Below, Reached-Valid, Below-append}

-- `get_max_strategy_num() + 1`
abbrev pub array_size : ℤ → ℕ
array_size (pos n) = n + 1
array_size (negsuc n) = 0

-- `strategy_disabled` of the database, NULL at first.
abbrev pub array_of : Table → Option (List Bool) → List Bool
array_of t none = replicate (array_size (get_max_strategy_num t)) false
array_of t (some a) = a

abbrev pub mark : List Bool → Option ℕ → Result Fault (List Bool)
mark a none = err unknown
mark a (some strat) = if ltb strat (length a) then ok (set a strat true) else err overflow

unfoldable pub dict_disable_strat : Table → Option (List Bool) → List ℕ → Result Fault (List Bool)
unfolding get_max_strategy_num
dict_disable_strat t disabled strategy = mark (array_of t disabled) (lookup_strategy strategy t)

-- The tables before strategies are disabled for the whole server.
pub data Grown : Table → Type 0 where
  initial : Grown dict_init_strategies
  added :
      (strat description : List ℕ) (t : Table)
      → Grown t
      → Grown (dict_add_strategy strat description t)

Grown-Reached : (t : Table) → Grown t → Reached t
Grown-Reached t initial = start
Grown-Reached t (added s d t0 g) = add s d t0 (Grown-Reached t0 g)

last_number-append : (l : List Strategy) (s : Strategy) → last_number (l ++ (s ∷ [])) ≡ pos s.number
unfolding last_number
last_number-append [] s = refl
last_number-append (r ∷ []) s = refl
last_number-append (r ∷ q ∷ l) s = last_number-append (q ∷ l) s

-- The last strategy has the greatest number.
abbrev Bounded : ℕ → List Strategy → Type 0
Bounded k l = (0 < k) × Below k l

Grown-Bounded : (t : Table) → Grown t → Bounded (array_size (get_max_strategy_num t)) t.strategies
unfolding get_max_strategy_num dict_init_strategies dict_add_strategy
Grown-Bounded t initial = omega arith
Grown-Bounded t (added strat description t0 g) =
    let v = Reached-Valid t0 (Grown-Reached t0 g) in
    let s = entry strat description t0.strategy_id in
    rw (last_number-append t0.strategies s)
      (omega arith, Below-append t0.strategy_id t0.strategies s v.below refl)

get_elem?-Below :
    (k n i : ℕ) (l : List Strategy) → Below k l → number_of (get_elem? l i) ≡ some n → n < k
get_elem?-Below k n i [] b e = ground (arith, e)
get_elem?-Below k n zero (s ∷ l) (h, b) e = ground (arith, e, h)
get_elem?-Below k n (suc i) (s ∷ l) (h, b) e = get_elem?-Below k n i l b e

number_at-lt :
    (k n : ℕ) (l : List Strategy) (o : Option ℕ) → Below k l → number_at l o ≡ some n → n < k
number_at-lt k n l none b e = ground (arith, e)
number_at-lt k n l (some i) b e = get_elem?-Below k n i l b e

lookup_strategy-lt :
    (k n : ℕ) (t : Table) (name : List ℕ)
    → Bounded k t.strategies
    → lookup_strategy name t ≡ some n
    → n < k
unfolding lookup_strategy
lookup_strategy-lt k n t name (z, b) e = elim (Bool-cases (is_dot name)) [
  | inl h ↦ ground (arith, h, e, z)
  | inr h ↦ number_at-lt k n t.strategies (lookup_strategy_index name t) b (ground (arith, h, e))
]

get_or-replicate : (k m : ℕ) → get_or (replicate k false) m false ≡ false
get_or-replicate zero m = refl
get_or-replicate (suc k) zero = refl
get_or-replicate (suc k) (suc m) = get_or-replicate k m

length-replicate : (k : ℕ) → length (replicate k false) ≡ k
length-replicate zero = refl
length-replicate (suc k) = ap suc (length-replicate k)

get_or-set :
    (a : List Bool) (n m : ℕ)
    → n < length a
    → get_or (set a n true) m false ≡ (if m == n then true else get_or a m false)
get_or-set [] n m h = absurd (omega arith)
get_or-set (b ∷ a) zero zero h = ground arith
get_or-set (b ∷ a) zero (suc m) h = ground arith
get_or-set (b ∷ a) (suc n) zero h = ground arith
get_or-set (b ∷ a) (suc n) (suc m) h = ground (arith, get_or-set a n m (omega arith))

unmarked : (m n : ℕ) (b : Bool) → b ≡ false → (if m == n then true else b) ≡ (m == n)
unmarked m n b h = ground (arith, h)

-- An array for the strategies of a table, in which just one is marked.
pub record Marked (t : Table) (n : ℕ) (a : List Bool) : Type 0 where
  pub only : (m : ℕ) → get_or a m false ≡ (m == n)
  pub room : (name : List ℕ) (m : ℕ) → lookup_strategy name t ≡ some m → m < length a

-- Before any strategy is disabled for the whole server, dict_disable_strat on a database without
-- disabled strategies writes inside the array it allocates: it marks the strategy of the name, and
-- no other, and the array has room for the number of every strategy of the table.
pub dict_disable_strat-Marked :
    (t : Table) (name : List ℕ) (n : ℕ)
    → Grown t
    → lookup_strategy name t ≡ some n
    → Returns (dict_disable_strat t none name) (Marked t n)
unfolding dict_disable_strat
dict_disable_strat-Marked t name n g e =
    let k = array_size (get_max_strategy_num t) in
    let a = replicate k false in
    let b = Grown-Bounded t g in
    let h : n < length a = rw (length-replicate k) (lookup_strategy-lt k n t name b e) in
    let f : ltb n (length a) ≡ true = ground (arith, h) in
    rw (e, f)
      (record {
        only = λ m. get_or-set a n m h ∙ unmarked m n (get_or a m false) (get_or-replicate k m);
        room = λ other m l.
            rw (length-set a n true, length-replicate k) (lookup_strategy-lt k m t other b l);
      })
