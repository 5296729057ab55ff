-- ===== src/Strategies/Numbers.antt =====
-- libdictd/strategy.c: the numbers of the strategies are all different.
use dictd.Prelude.{
  ℕ, zero, suc, ◌+◌, ◌<◌, ◌≡◌, ◌≢◌, refl, inl, inr, List, [], ◌∷◌, ◌++◌, Option, none, some, Bool,
  false, not, ◌||◌, ltb, take, arith, ◌==◌, length, All, Bool-cases,
}
use dictd.Prelude.Result.{Result, ok, Keeps, Keeps-bind}
use dictd.Strategies.Table.{
  Strategy, Table, entry, dict_init_strategies, dict_add_strategy, lookup_strategy_index, put_back,
  with_strategies, without, dict_disable_strategy,
}
use dictd.Strategies.Disable.{
  Fault, or_abort, cut_commas, c_string, disable_at, disable_name, disable_loop,
  dict_disable_strategies,
}

-- The tables the program can have.
pub data Reached : Table → Type 0 where
  start : Reached dict_init_strategies
  add :
      (strat description : List ℕ) (t : Table)
      → Reached t
      → Reached (dict_add_strategy strat description t)
  disable :
      (strats : List ℕ) (t t' : Table)
      → Reached t
      → dict_disable_strategies strats t ≡ ok t'
      → Reached t'

abbrev pub Fresh : ℕ → List Strategy → Type 0
Fresh n l = All (λ (s : Strategy). s.number ≢ n) l

abbrev pub Distinct : List Strategy → Type 0
Distinct [] = Unit
Distinct (s ∷ l) = Fresh s.number l × Distinct l

abbrev pub Below : ℕ → List Strategy → Type 0
Below n l = All (λ (s : Strategy). s.number < n) l

-- The numbers are different, and less than the next one to be given.
pub record Valid (t : Table) : Type 0 where
  pub distinct : Distinct t.strategies
  pub below : Below t.strategy_id t.strategies

kept : (m : Result Fault Table) (t : Table) → m ≡ ok t → Keeps m Valid → Valid t
kept m t e h = rw e at h

different : (a b : ℕ) → (a == b) ≡ false → a ≢ b
different a b h e = ground (arith, h, e)

start-Valid : Valid dict_init_strategies
unfolding dict_init_strategies
start-Valid = record { distinct = omega arith; below = omega arith }

Below-Fresh : (n : ℕ) (l : List Strategy) → Below n l → Fresh n l
Below-Fresh n [] h = tt
Below-Fresh n (s ∷ l) (h, hs) = ((λ e. omega (arith, h, e)), Below-Fresh n l hs)

pub Below-append :
    (n : ℕ) (l : List Strategy) (s : Strategy)
    → Below n l
    → s.number ≡ n
    → Below (n + 1) (l ++ (s ∷ []))
Below-append n [] s h e = (omega (arith, e), tt)
Below-append n (r ∷ l) s (h, hs) e = (omega (arith, h), Below-append n l s hs e)

Fresh-append :
    (n : ℕ) (l : List Strategy) (s : Strategy) → Fresh n l → s.number ≢ n → Fresh n (l ++ (s ∷ []))
Fresh-append n [] s h e = (e, tt)
Fresh-append n (r ∷ l) s (h, hs) e = (h, Fresh-append n l s hs e)

Distinct-append :
    (n : ℕ) (l : List Strategy) (s : Strategy)
    → Distinct l
    → Below n l
    → s.number ≡ n
    → Distinct (l ++ (s ∷ []))
Distinct-append n [] s d h e = (tt, tt)
Distinct-append n (r ∷ l) s (f, d) (h, hs) e =
    (Fresh-append r.number l s f (λ x. omega (arith, x, h, e)), Distinct-append n l s d hs e)

add-Valid :
    (strat description : List ℕ) (t : Table)
    → Valid t
    → Valid (dict_add_strategy strat description t)
unfolding dict_add_strategy
add-Valid strat description t v = record {
  distinct =
      Distinct-append t.strategy_id t.strategies (entry strat description t.strategy_id) v.distinct
        v.below refl;
  below =
      Below-append t.strategy_id t.strategies (entry strat description t.strategy_id) v.below refl;
}

-- What is left, if something is.
abbrev pub Left : (List Strategy → Type 0) → Option (List Strategy) → Type 0
Left P none = Unit
Left P (some l) = P l

Left-put_back :
    (P Q : List Strategy → Type 0) (s : Strategy) (r : Option (List Strategy))
    → ((l : List Strategy) → P l → Q (s ∷ l))
    → Left P r
    → Left Q (put_back s r)
Left-put_back P Q s none k h = tt
Left-put_back P Q s (some l) k h = k l h

without-All :
    (P : Strategy → Type 0) (i : ℕ) (l : List Strategy) → All P l → Left (All P) (without i l)
unfolding without
without-All P i [] h = tt
without-All P zero (s ∷ l) (h, hs) = hs
without-All P (suc i) (s ∷ l) (h, hs) =
    Left-put_back (All P) (All P) s (without i l) (λ r g. (h, g)) (without-All P i l hs)

Left-both :
    (P Q : List Strategy → Type 0) (r : Option (List Strategy))
    → Left P r
    → Left Q r
    → Left (λ l. P l × Q l) r
Left-both P Q none h g = tt
Left-both P Q (some l) h g = (h, g)

without-Distinct : (i : ℕ) (l : List Strategy) → Distinct l → Left Distinct (without i l)
unfolding without
without-Distinct i [] h = tt
without-Distinct zero (s ∷ l) (f, d) = d
without-Distinct (suc i) (s ∷ l) (f, d) =
    Left-put_back (λ r. Fresh s.number r × Distinct r) Distinct s (without i l) (λ r g. g)
      (Left-both (Fresh s.number) Distinct (without i l)
        (without-All (λ (r : Strategy). r.number ≢ s.number) i l f) (without-Distinct i l d))

or_abort-Valid :
    (t : Table) (r : Option (List Strategy))
    → Left (λ l. Distinct l × Below t.strategy_id l) r
    → Keeps (or_abort (with_strategies t r)) Valid
or_abort-Valid t none h = tt
or_abort-Valid t (some l) (d, b) = record { distinct = d; below = b }

disable_at-Valid : (o : Option ℕ) (t : Table) → Valid t → Keeps (disable_at o t) Valid
unfolding disable_at dict_disable_strategy
disable_at-Valid none t v = tt
disable_at-Valid (some i) t v = or_abort-Valid t (without i t.strategies) (
    Left-both Distinct (Below t.strategy_id) (without i t.strategies)
      (without-Distinct i t.strategies v.distinct)
      (without-All (λ (r : Strategy). r.number < t.strategy_id) i t.strategies v.below))

disable_loop-Valid :
    (inside : Bool) (l : List ℕ) (t : Table) → Valid t → Keeps (disable_loop inside l t) Valid
unfolding disable_loop disable_name
disable_loop-Valid inside [] t v = v
disable_loop-Valid inside (c ∷ l) t v =
    let next = disable_loop (not (c == 0)) l in
    let name = c_string (c ∷ l) in
    elim (Bool-cases (c == 0 || inside)) [
      | inl e ↦ rw e (disable_loop-Valid (not (c == 0)) l t v)
      | inr e ↦ rw e (
          Keeps-bind (disable_at (lookup_strategy_index name t) t) next Valid Valid
            (disable_at-Valid (lookup_strategy_index name t) t v)
            (λ t' v'. disable_loop-Valid (not (c == 0)) l t' v'))
    ]

disable-Valid :
    (strats : List ℕ) (t : Table) → Valid t → Keeps (dict_disable_strategies strats t) Valid
unfolding dict_disable_strategies
disable-Valid strats t v = elim (Bool-cases (ltb 400 (length strats))) [
  | inl e ↦ rw e tt
  | inr e ↦ rw e (elim (Bool-cases (length strats == 400)) [
    | inl f ↦ rw f (disable_loop-Valid false (cut_commas (take 399 strats ++ (0 ∷ []))) t v)
    | inr f ↦ rw f (disable_loop-Valid false (cut_commas strats) t v)
  ])
]

-- In every table that the program can reach from the initial one, by adding strategies and by
-- disabling lists of them, the strategies have different numbers, all less than the next one.
pub Reached-Valid : (t : Table) → Reached t → Valid t
Reached-Valid t start = start-Valid
Reached-Valid t (add strat description t0 r) = add-Valid strat description t0 (Reached-Valid t0 r)
Reached-Valid t (disable strats t0 t' r e) =
    kept (dict_disable_strategies strats t0) t e (disable-Valid strats t0 (Reached-Valid t0 r))
