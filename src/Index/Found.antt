-- ===== src/Index/Found.antt =====
-- libdictd/index.c: in a sorted index the searches end, never fail, and find the first entry.
use dictd.Prelude.{
  ℕ, zero, suc, ◌+◌, ◌-◌, ◌/◌, ◌≤◌, ◌<◌, ◌≡◌, refl, inl, inr, List, true, arith, ltb, lt→ltb,
  le→ltb, length, Bool-cases, sym, ◌∙◌, ltb→lt,
}
use dictd.Prelude.Result.{Result, ok, Returns, Returns-map}
use mathlib.Core.Bool.{false≢true}
use dictd.Index.Types.{Cmp, greater, SearchFault}
use dictd.Index.Order.{rank}
use dictd.Index.Lines.{is_start, find_next, Prev, find_prev-Prev, Next, find_next-Next}
use dictd.Index.Search.{middle, search_loop}

-- An index that is sorted for a word: every line compares, with the outcome `c`, wherever the range
-- ends, and down the file the outcomes move forward only.
pub record IsOrdered (cmp : ℕ → ℕ → Result SearchFault Cmp) (buf : List ℕ) (c : ℕ → Cmp)
    : Type 0 where
  pub ends : is_start buf (length buf) ≡ true
  pub decided :
      (p stop : ℕ)
      → is_start buf p ≡ true
      → is_start buf stop ≡ true
      → p < stop
      → stop ≤ length buf
      → cmp p stop ≡ ok (c p)
  pub sorted :
      (p q : ℕ)
      → is_start buf p ≡ true
      → is_start buf q ≡ true
      → p ≤ q
      → q < length buf
      → rank (c p) ≤ rank (c q)

module _ (cmp : ℕ → ℕ → Result SearchFault Cmp) (buf : List ℕ) (c : ℕ → Cmp)
    (o : IsOrdered cmp buf c) where
  -- The place that splits the lines of a range: the word comes after those before it alone.
  pub record Split (start stop r : ℕ) : Type 0 where
    pub starts : is_start buf r ≡ true
    pub above : start ≤ r
    pub below : r ≤ stop
    pub before : (p : ℕ) → is_start buf p ≡ true → start ≤ p → p < r → rank (c p) ≡ 0
    pub behind : (p : ℕ) → is_start buf p ≡ true → r ≤ p → p < stop → 0 < rank (c p)

  middle-Prev :
      (start stop : ℕ)
      → is_start buf start ≡ true
      → Prev buf start (start + (stop - start) / 2) (middle cmp buf start stop)
  unfolding middle
  middle-Prev start stop s = find_prev-Prev buf start (start + (stop - start) / 2) s (omega arith)

  -- Going on in the lower half.
  Split-low :
      (start pt stop r : ℕ)
      → is_start buf pt ≡ true
      → pt ≤ stop
      → stop ≤ length buf
      → 0 < rank (c pt)
      → Split start pt r
      → Split start stop r
  Split-low start pt stop r s low fits here w = record {
    starts = w.starts;
    above = w.above;
    below = omega (arith, w.below);
    before = w.before;
    behind = λ p sp a b. elim (Bool-cases (ltb p pt)) [
      | inl l ↦ w.behind p sp a (ground arith)
      | inr g ↦ let q : pt ≤ p = ground arith in omega (arith, o.sorted pt p s sp q (omega arith))
    ];
  }

  -- Going on behind the line at `pt`.
  Split-high :
      (start pt stop next r : ℕ)
      → is_start buf pt ≡ true
      → start ≤ pt
      → stop ≤ length buf
      → Next buf pt stop next
      → rank (c pt) ≡ 0
      → Split next stop r
      → Split start stop r
  Split-high start pt stop next r s low fits n here w = record {
    starts = w.starts;
    above = omega (arith, w.above, n.above);
    below = w.below;
    before = λ p sp a b. elim (Bool-cases (ltb p next)) [
      | inl l ↦ elim (Bool-cases (ltb pt p)) [
        | inl m ↦ absurd (false≢true (sym (n.inner p (ltb→lt pt p m) (ltb→lt p next l)) ∙ sp))
        | inr m ↦
            let q : p ≤ pt = ground arith in
            let below : pt < length buf = omega (arith, n.above, n.below) in
            omega (arith, o.sorted p pt sp s q below)
      ]
      | inr g ↦ w.before p sp (ground arith) b
    ];
    behind = w.behind;
  }

  -- One round of the loop at a comparison that is known.
  search_round : ℕ → ℕ → ℕ → ℕ → Cmp → Result SearchFault ℕ
  search_round fuel start pt stop c = elim c [
    | greater ↦ search_loop cmp buf fuel (find_next buf pt stop) stop
    | _ ↦ search_loop cmp buf fuel start pt
  ]

  search_loop_step :
      (fuel start stop : ℕ)
      → start < stop
      → cmp (middle cmp buf start stop) stop ≡ ok (c (middle cmp buf start stop))
      → search_loop cmp buf (suc fuel) start stop
        ≡ search_round fuel start (middle cmp buf start stop) stop (c (middle cmp buf start stop))
  unfolding search_loop search_round
  search_loop_step fuel start stop h e = rw (lt→ltb start stop h, e) refl

  search_loop_stop :
      (fuel start stop : ℕ) → stop ≤ start → search_loop cmp buf (suc fuel) start stop ≡ ok start
  unfolding search_loop
  search_loop_stop fuel start stop h = rw (le→ltb start stop h) refl

  search_round-Split :
      (fuel start pt stop : ℕ) (k : Cmp)
      → c pt ≡ k
      → Prev buf start (start + (stop - start) / 2) pt
      → pt < stop
      → is_start buf stop ≡ true
      → stop ≤ length buf
      → Returns (search_loop cmp buf fuel start pt) (Split start pt)
      → Returns
          (search_loop cmp buf fuel (find_next buf pt stop) stop)
          (Split (find_next buf pt stop) stop)
      → Returns (search_round fuel start pt stop k) (Split start stop)
  unfolding search_round
  search_round-Split fuel start pt stop greater e m lt t fits low high =
      Returns-map (search_loop cmp buf fuel (find_next buf pt stop) stop) _ _ high (λ r w.
        Split-high start pt stop (find_next buf pt stop) r m.starts m.above fits
          (find_next-Next buf pt stop lt fits t) (rw e refl) w)
  search_round-Split fuel start pt stop _ e m lt t fits low high =
      Returns-map (search_loop cmp buf fuel start pt) _ _ low
        (λ r w. Split-low start pt stop r m.starts (omega arith) fits (rw e (omega arith)) w)

  -- With a round for each byte the binary search ends at the place that splits the range.
  pub search_loop-Split :
      (fuel start stop : ℕ)
      → is_start buf start ≡ true
      → is_start buf stop ≡ true
      → start ≤ stop
      → stop ≤ length buf
      → stop - start < fuel
      → Returns (search_loop cmp buf fuel start stop) (Split start stop)
  search_loop-Split zero start stop s t le fits f = absurd (omega arith)
  search_loop-Split (suc fuel) start stop s t le fits f = elim (Bool-cases (ltb start stop)) [
    | inr empty ↦
        let e : start ≡ stop = ground arith in
        rw (search_loop_stop fuel start stop (omega arith)) (record {
          starts = s;
          above = omega arith;
          below = omega arith;
          before = λ p sp a b. absurd (omega arith);
          behind = λ p sp a b. absurd (omega arith);
        })
    | inl room ↦
        let lt = ltb→lt start stop room in
        let pt = middle cmp buf start stop in
        let m = middle-Prev start stop s in
        let inside : pt < stop = omega (arith, m.below) in
        rw (search_loop_step fuel start stop lt (o.decided pt stop m.starts t inside fits)) (
          search_round-Split fuel start pt stop (c pt) refl m inside t fits
            (search_loop-Split fuel start pt s m.starts m.above (omega arith) (omega arith))
            (let n = find_next-Next buf pt stop inside fits t in
              search_loop-Split fuel (find_next buf pt stop) stop n.starts t n.below fits
                (omega (arith, n.above, m.above))))
  ]
