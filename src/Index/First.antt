-- ===== src/Index/First.antt =====
-- libdictd/index.c: `dict_index_search` finds the first entry that the word equals or is a prefix of.
use dictd.Prelude.{
  ℕ, zero, suc, ◌-◌, ◌≤◌, ◌<◌, ◌≡◌, refl, ◌⊎◌, inl, inr, List, Option, none, some, true, arith, ltb,
  lt→ltb, le→ltb, ltb→lt, length, Bool-cases, sym, ◌∙◌,
}
use mathlib.Core.Bool.{false≢true}
use dictd.Prelude.Result.{Result, ok, Returns, Returns-map, Returns-bind}
use dictd.Index.Types.{Cmp, less, prefix, equal, greater, SearchFault, Tables, DictIndex}
use dictd.Index.Compare.{compare}
use dictd.Index.Order.{rank}
use dictd.Index.Lines.{is_start, find_next, find_next-Next}
use dictd.Index.Search.{
  linear_loop, binary_search, linear_search, search_start, search_stop, dict_index_search,
}
use dictd.Index.Found.{IsOrdered, Split, search_loop-Split}

-- The first line, from an offset on, that the word equals or is a prefix of; or there is none.
abbrev pub Finds : List ℕ → (ℕ → Cmp) → ℕ → Option ℕ → Type 0
Finds buf c from (some p) =
    (is_start buf p ≡ true)
    × (from ≤ p)
    × (p < length buf)
    × (0 < rank (c p))
    × (rank (c p) < 3)
    × ((q : ℕ) → is_start buf q ≡ true → from ≤ q → q < p → rank (c q) ≡ 0)
Finds buf c from none =
    (q : ℕ)
    → is_start buf q ≡ true
    → from ≤ q
    → q < length buf
    → (rank (c q) ≡ 0) ⊎ (rank (c q) ≡ 3)

module _ (cmp : ℕ → ℕ → Result SearchFault Cmp) (buf : List ℕ) (c : ℕ → Cmp)
    (o : IsOrdered cmp buf c) where
  rank-le : (k : Cmp) → rank k ≤ 3
  rank-le less = omega arith
  rank-le _ = omega arith

  -- Nothing is missed when the search starts later, behind lines that come before the word.
  pub Finds-earlier :
      (from start : ℕ) (r : Option ℕ)
      → ((q : ℕ) → is_start buf q ≡ true → from ≤ q → q < start → rank (c q) ≡ 0)
      → from ≤ start
      → Finds buf c start r
      → Finds buf c from r
  Finds-earlier from start none h le f = λ q s a b. elim (Bool-cases (ltb q start)) [
    | inl l ↦ inl (h q s a (ltb→lt q start l))
    | inr g ↦ f q s (ground arith) b
  ]
  Finds-earlier from start (some p) h le (s, a, b, k, l, before) = (
    s,
    omega arith,
    b,
    k,
    l,
    λ q t d e. elim (Bool-cases (ltb q start)) [
      | inl i ↦ h q t d (ltb→lt q start i)
      | inr g ↦ before q t (ground arith) e
    ],
  )

  linear_round : ℕ → ℕ → Cmp → Result SearchFault (Option ℕ)
  linear_round fuel pt c = elim c [
    | less ↦ ok none
    | prefix ↦ ok (some pt)
    | equal ↦ ok (some pt)
    | greater ↦ linear_loop cmp buf fuel (find_next buf pt (length buf)) (length buf)
  ]

  linear_loop_step :
      (fuel pt : ℕ)
      → pt < length buf
      → cmp pt (length buf) ≡ ok (c pt)
      → linear_loop cmp buf (suc fuel) pt (length buf) ≡ linear_round fuel pt (c pt)
  unfolding linear_loop linear_round
  linear_loop_step fuel pt h e = rw (lt→ltb pt (length buf) h, e) refl

  linear_loop_stop :
      (fuel pt : ℕ) → length buf ≤ pt → linear_loop cmp buf (suc fuel) pt (length buf) ≡ ok none
  unfolding linear_loop
  linear_loop_stop fuel pt h = rw (le→ltb pt (length buf) h) refl

  linear_round-Finds :
      (fuel pt : ℕ) (k : Cmp)
      → c pt ≡ k
      → is_start buf pt ≡ true
      → pt < length buf
      → Returns
          (linear_loop cmp buf fuel (find_next buf pt (length buf)) (length buf))
          (Finds buf c (find_next buf pt (length buf)))
      → Returns (linear_round fuel pt k) (Finds buf c pt)
  unfolding linear_round
  linear_round-Finds fuel pt less e s lt ih = λ q t a b.
      inr
        (let f : rank (c pt) ≡ 3 = rw e refl in omega (arith, o.sorted pt q s t a b, rank-le (c q)))
  linear_round-Finds fuel pt prefix e s lt ih =
      (s, omega arith, lt, rw e (omega arith), rw e (omega arith), λ q t a b. absurd (omega arith))
  linear_round-Finds fuel pt equal e s lt ih =
      (s, omega arith, lt, rw e (omega arith), rw e (omega arith), λ q t a b. absurd (omega arith))
  linear_round-Finds fuel pt greater e s lt ih =
      let n = find_next-Next buf pt (length buf) lt (omega arith) o.ends in
      Returns-map (linear_loop cmp buf fuel (find_next buf pt (length buf)) (length buf)) _ _ ih
        (λ r f.
          Finds-earlier pt (find_next buf pt (length buf)) r
            (λ q t a b. elim (Bool-cases (ltb pt q)) [
              | inl m ↦ absurd (false≢true (sym (n.inner q (ltb→lt pt q m) b) ∙ t))
              | inr m ↦ let same : q ≡ pt = ground arith in rw (same, e) refl
            ])
            (omega (arith, n.above)) f)

  pub linear_loop-Finds :
      (fuel pt : ℕ)
      → is_start buf pt ≡ true
      → length buf - pt < fuel
      → Returns (linear_loop cmp buf fuel pt (length buf)) (Finds buf c pt)
  linear_loop-Finds zero pt s f = absurd (omega arith)
  linear_loop-Finds (suc fuel) pt s f = elim (Bool-cases (ltb pt (length buf))) [
    | inr gone ↦
        let le : length buf ≤ pt = ground arith in
        rw (linear_loop_stop fuel pt le) (λ q t a b. absurd (omega arith))
    | inl room ↦
        let lt = ltb→lt pt (length buf) room in
        let n = find_next-Next buf pt (length buf) lt (omega arith) o.ends in
        rw (linear_loop_step fuel pt lt (o.decided pt (length buf) s o.ends lt (omega arith))) (
          linear_round-Finds fuel pt (c pt) refl s lt (
            linear_loop-Finds fuel (find_next buf pt (length buf)) n.starts
              (omega (arith, n.above))))
  ]

-- What the table of starting points must say for the word: its entries are lines, and the lines
-- before the one where the search begins come before the word.
pub record StartsRight (t : Tables) (x : DictIndex) (word : List ℕ) (c : ℕ → Cmp) : Type 0 where
  pub start_line : is_start x.bytes (search_start t x word) ≡ true
  pub stop_line : is_start x.bytes (search_stop t x word) ≡ true
  pub ordered : search_start t x word ≤ search_stop t x word
  pub inside : search_stop t x word ≤ length x.bytes
  pub skipped : (q : ℕ) → is_start x.bytes q ≡ true → q < search_start t x word → rank (c q) ≡ 0

module _ (t : Tables) (x : DictIndex) (word : List ℕ) (c : ℕ → Cmp)
    (o : IsOrdered (compare t x word) x.bytes c) where
  binary_search-Split :
      (start stop : ℕ)
      → is_start x.bytes start ≡ true
      → is_start x.bytes stop ≡ true
      → start ≤ stop
      → stop ≤ length x.bytes
      → Returns
          (binary_search t x word start stop)
          (Split (compare t x word) x.bytes c o start stop)
  unfolding binary_search
  binary_search-Split start stop s e le fits =
      search_loop-Split (compare t x word) x.bytes c o (suc (stop - start)) start stop s e le fits
        (omega arith)

  linear_search-Finds :
      (pt : ℕ)
      → is_start x.bytes pt ≡ true
      → Returns (linear_search t x word pt (length x.bytes)) (Finds x.bytes c pt)
  unfolding linear_search
  linear_search-Finds pt s =
      linear_loop-Finds (compare t x word) x.bytes c o (suc (length x.bytes - pt)) pt s
        (omega arith)

  -- In an index that is sorted for the word, with starting points that skip no line at or behind the
  -- word, the search ends, reads nothing past the file, and returns the first line that the word
  -- equals or is a prefix of; NULL says that every line of the index comes before the word or after
  -- it without starting with it.
  pub dict_index_search-Finds :
      StartsRight t x word c → Returns (dict_index_search t x word) (Finds x.bytes c 0)
  unfolding dict_index_search
  dict_index_search-Finds w =
      Returns-bind (binary_search t x word (search_start t x word) (search_stop t x word)) _ _ _
        (binary_search-Split _ _ w.start_line w.stop_line w.ordered w.inside)
        λ r split.
          Returns-map (linear_search t x word r (length x.bytes)) _ _
            (linear_search-Finds r split.starts)
            (λ f found.
              Finds-earlier (compare t x word) x.bytes c o 0 r f (skip r split) (omega arith) found)
    where
      skip :
          (r : ℕ)
          → Split (compare t x word) x.bytes c o (search_start t x word) (search_stop t x word) r
          → (q : ℕ) → is_start x.bytes q ≡ true
          → 0 ≤ q
          → q < r
          → rank (c q) ≡ 0
      skip r split q s a b = elim (Bool-cases (ltb q (search_start t x word))) [
        | inl l ↦ w.skipped q s (ltb→lt q (search_start t x word) l)
        | inr g ↦ split.before q s (ground arith) b
      ]
