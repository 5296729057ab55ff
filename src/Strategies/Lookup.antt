-- ===== src/Strategies/Lookup.antt =====
-- libdictd/strategy.c: `lookup_strategy` and `get_strategy` agree.
use dictd.Prelude.{
  ℕ, ◌≡◌, ◌≢◌, refl, inl, inr, List, [], ◌∷◌, Option, none, some, true, false, arith, ◌==◌, All,
  Bool-cases, ==_refl,
}
use dictd.Session.Commands.{same_ignoring_case}
use dictd.Strategies.Table.{
  Strategy, Table, one_more, index_of, lookup_strategy_index, number_at, is_dot, lookup_strategy,
  first_with,
}
use dictd.Strategies.Numbers.{Reached, Fresh, Distinct, Reached-Valid}

-- What a name gives in a list: the number of a strategy that has the name and that this number
-- gives back, or nothing where none has it.
pub data Lookup (name : List ℕ) (l : List Strategy) : Option ℕ → Type 0 where
  named :
      (s : Strategy)
      → same_ignoring_case name s.name ≡ true
      → first_with s.number l ≡ some s
      → Lookup name l (some s.number)
  unnamed : All (λ (s : Strategy). same_ignoring_case name s.name ≡ false) l → Lookup name l none

number_at_more :
    (s : Strategy) (l : List Strategy) (o : Option ℕ)
    → number_at (s ∷ l) (one_more o) ≡ number_at l o
number_at_more s l none = refl
number_at_more s l (some i) = refl

first_with-Fresh :
    (n k : ℕ) (l : List Strategy) (r : Strategy)
    → Fresh k l
    → first_with n l ≡ some r
    → r.number ≢ k
unfolding first_with
first_with-Fresh n k [] r f e = ground (arith, e)
first_with-Fresh n k (s ∷ l) r (f, fs) e = elim (Bool-cases (n == s.number)) [
  | inl h ↦ λ x. f (ground (arith, h, e, x))
  | inr h ↦ first_with-Fresh n k l r fs (ground (arith, h, e))
]

below-Lookup :
    (name : List ℕ) (s : Strategy) (l : List Strategy) (o : Option ℕ)
    → same_ignoring_case name s.name ≡ false
    → Fresh s.number l
    → Lookup name l o
    → Lookup name (s ∷ l) o
unfolding first_with
below-Lookup name s l o h f (named r e g) =
    let d = first_with-Fresh r.number s.number l r f g in
    let b : (r.number == s.number) ≡ false = ground (arith, d) in named r e (rw b g)
below-Lookup name s l o h f (unnamed a) = unnamed (h, a)

index_of-Lookup :
    (name : List ℕ) (l : List Strategy) → Distinct l → Lookup name l (number_at l (index_of name l))
unfolding index_of first_with
index_of-Lookup name [] d = unnamed tt
index_of-Lookup name (s ∷ l) (f, d) = elim (Bool-cases (same_ignoring_case name s.name)) [
  | inl h ↦ rw h (named s h (rw (==_refl s.number) refl))
  | inr h ↦
      rw (h, number_at_more s l (index_of name l))
        (below-Lookup name s l (number_at l (index_of name l)) h f (index_of-Lookup name l d))
]

-- In every table that the program can reach, a name other than the dot gives the number of a
-- strategy that has the name, ignoring the case of letters, and get_strategy gives this strategy
-- back for the number; or it gives -1, and no strategy has the name.
pub lookup_strategy-Lookup :
    (t : Table) (name : List ℕ)
    → Reached t
    → is_dot name ≡ false
    → Lookup name t.strategies (lookup_strategy name t)
unfolding lookup_strategy lookup_strategy_index
lookup_strategy-Lookup t name r e =
    let v = Reached-Valid t r in rw e (index_of-Lookup name t.strategies v.distinct)
