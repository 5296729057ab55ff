-- ===== src/Index/Lines.antt =====
-- libdictd/index.c: the macros FIND_PREV and FIND_NEXT, and where lines start.
use dictd.Prelude.{
  ℕ, zero, suc, ◌+◌, ◌-◌, ◌≤◌, ◌<◌, ◌≡◌, refl, ◌⊎◌, inl, inr, List, [], ◌∷◌, Bool, true, false, not,
  ◌&&◌, ◌||◌, arith, ltb, ◌==◌, if◌then◌else◌, length, get_or, drop, length-drop, Bool-cases, ap,
  sym,
}
use dictd.Index.Types.{newline}

-- `while (pt > begin && pt[-1] != '\n') --pt`
unfoldable pub find_prev : List ℕ → ℕ → ℕ → ℕ
find_prev buf begin zero = zero
find_prev buf begin (suc p) =
    let back = find_prev buf begin p in
    if ltb begin (suc p) && not (get_or buf p 0 == newline) then back else suc p

-- The bytes that `while (pt < end && *pt++ != '\n')` passes.
unfoldable pub line_length : List ℕ → ℕ → ℕ
line_length bs zero = 0
line_length [] (suc n) = 0
line_length (b ∷ bs) (suc n) = if b == newline then 1 else suc (line_length bs n)

unfoldable pub find_next : List ℕ → ℕ → ℕ → ℕ
unfolding line_length
find_next buf pt stop = pt + line_length (drop pt buf) (stop - pt)

-- Does a line start at this offset?
abbrev pub is_start : List ℕ → ℕ → Bool
is_start buf p = p == 0 || get_or buf (p - 1) 0 == newline

pub record Prev (buf : List ℕ) (begin pt r : ℕ) : Type 0 where
  pub starts : is_start buf r ≡ true
  pub above : begin ≤ r
  pub below : r ≤ pt

pub find_prev-Prev :
    (buf : List ℕ) (begin pt : ℕ)
    → is_start buf begin ≡ true
    → begin ≤ pt
    → Prev buf begin pt (find_prev buf begin pt)
unfolding find_prev
find_prev-Prev buf begin zero s h = ground arith
find_prev-Prev buf begin (suc p) s h = ground (arith, find_prev-Prev buf begin p)

pub get_or-drop : (buf : List ℕ) (p k : ℕ) → get_or (drop p buf) k 0 ≡ get_or buf (p + k) 0
get_or-drop buf zero k = ground arith
get_or-drop [] (suc p) k = refl
get_or-drop (b ∷ bs) (suc p) k = ground (arith, get_or-drop bs p k)

line_length-pos : (bs : List ℕ) (n : ℕ) → 0 < n → n ≤ length bs → 0 < line_length bs n
unfolding line_length
line_length-pos bs zero p h = absurd (omega arith)
line_length-pos [] (suc n) p h = absurd (omega arith)
line_length-pos (b ∷ bs) (suc n) p h = ground arith

line_length-le : (bs : List ℕ) (n : ℕ) → line_length bs n ≤ n
unfolding line_length
line_length-le bs zero = omega arith
line_length-le [] (suc n) = omega arith
line_length-le (b ∷ bs) (suc n) = ground (arith, line_length-le bs n)

line_length-zero : (bs : List ℕ) (n : ℕ) → n ≤ length bs → line_length bs n ≡ 0 → n ≡ 0
line_length-zero bs zero h z = refl
line_length-zero bs (suc n) h z = absurd (omega (arith, line_length-pos bs (suc n)))

-- The byte before the place reached is a newline, unless the end was met.
abbrev EndsLine : List ℕ → ℕ → ℕ → Type 0
EndsLine bs n r = (r ≡ n) ⊎ ((get_or bs (r - 1) 0 == newline) ≡ true)

EndsLine-cons :
    (b : ℕ) (bs : List ℕ) (n r : ℕ)
    → (r ≡ 0 → n ≡ 0)
    → EndsLine bs n r
    → EndsLine (b ∷ bs) (suc n) (suc r)
EndsLine-cons b bs n zero z h = inl (ap suc (sym (z refl)))
EndsLine-cons b bs n (suc r) z (inl e) = inl (ap suc e)
EndsLine-cons b bs n (suc r) z (inr e) = inr (
    let s : suc (suc r) - 1 ≡ suc r = omega arith in
    let t : suc r - 1 ≡ r = omega arith in rw s (rw t at e))

line_length-ends : (bs : List ℕ) (n : ℕ) → n ≤ length bs → EndsLine bs n (line_length bs n)
unfolding line_length
line_length-ends bs zero h = inl refl
line_length-ends [] (suc n) h = absurd (omega arith)
line_length-ends (b ∷ bs) (suc n) h = elim (Bool-cases (b == newline)) [
  | inl e ↦ rw e (inr e)
  | inr e ↦ rw e (
      EndsLine-cons b bs n (line_length bs n) (line_length-zero bs n (omega arith))
        (line_length-ends bs n (omega arith)))
]

line_length-inner :
    (bs : List ℕ) (n k : ℕ) → k + 1 < line_length bs n → (get_or bs k 0 == newline) ≡ false
unfolding line_length
line_length-inner bs zero k h = absurd (omega arith)
line_length-inner [] (suc n) k h = absurd (omega arith)
line_length-inner (b ∷ bs) (suc n) zero h = ground arith
line_length-inner (b ∷ bs) (suc n) (suc k) h = ground (arith, line_length-inner bs n k)

-- FIND_NEXT goes on by at least one byte to the next line's start, or to `end`.
pub record Next (buf : List ℕ) (pt stop r : ℕ) : Type 0 where
  pub starts : is_start buf r ≡ true
  pub above : pt < r
  pub below : r ≤ stop
  pub inner : (q : ℕ) → pt < q → q < r → is_start buf q ≡ false

module _ (buf : List ℕ) (pt stop : ℕ) (room : pt < stop) (fits : stop ≤ length buf)
    (stop_starts : is_start buf stop ≡ true) where
  abbrev passed : ℕ
  passed = line_length (drop pt buf) (stop - pt)

  drop_fits : stop - pt ≤ length (drop pt buf)
  drop_fits = omega (arith, length-drop pt buf)

  find_next-starts : is_start buf (find_next buf pt stop) ≡ true
  unfolding find_next
  find_next-starts =
      let p = line_length-pos (drop pt buf) (stop - pt) (omega arith) drop_fits in
      elim (line_length-ends (drop pt buf) (stop - pt) drop_fits) [
        | inl e ↦ let r : pt + passed ≡ stop = omega arith in rw r stop_starts
        | inr e ↦
            let same : pt + (passed - 1) ≡ pt + passed - 1 = omega arith in
            ground (arith, e, get_or-drop buf pt (passed - 1), ap (λ (k : ℕ). get_or buf k 0) same)
      ]

  find_next-inner : (q : ℕ) → pt < q → q < find_next buf pt stop → is_start buf q ≡ false
  unfolding find_next
  find_next-inner q above below =
      let k = q - pt - 1 in
      let same : pt + k ≡ q - 1 = omega arith in
      ground (
        arith,
        line_length-inner (drop pt buf) (stop - pt) k (omega arith),
        get_or-drop buf pt k,
        ap (λ (j : ℕ). get_or buf j 0) same,
      )

  pub find_next-Next : Next buf pt stop (find_next buf pt stop)
  unfolding find_next
  find_next-Next = record {
    starts = find_next-starts;
    above = omega (arith, line_length-pos (drop pt buf) (stop - pt) (omega arith) drop_fits);
    below = omega (arith, line_length-le (drop pt buf) (stop - pt));
    inner = find_next-inner;
  }
