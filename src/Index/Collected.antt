-- ===== src/Index/Collected.antt =====
-- libdictd/index.c: `dict_search_exact` collects the entries of its word, all of them, in order.
use dictd.Prelude.{
  ℕ, zero, suc, ◌+◌, ◌-◌, ◌≤◌, ◌<◌, ◌≡◌, ◌≢◌, refl, ◌⊎◌, inl, inr, List, [], ◌∷◌, ◌++◌, Option,
  none, some, true, false, arith, ltb, lt→ltb, le→ltb, ltb→lt, length, drop, map, Bool-cases, sym,
  ap, ◌∙◌, append_assoc, append-nil,
}
use mathlib.Core.Bool.{false≢true}
use dictd.Prelude.Result.{ok, Returns, Returns-map, Returns-bind}
use dictd.Index.Types.{Tables, DictIndex, Cmp, less, prefix, equal, greater}
use dictd.Index.Compare.{compare}
use dictd.Index.Order.{rank}
use dictd.Index.Lines.{is_start, find_next, find_next-Next}
use dictd.Index.Search.{dict_index_search}
use dictd.Index.Found.{IsOrdered}
use dictd.Index.First.{Finds, StartsRight, dict_index_search-Finds}
use dictd.Index.Word.{DictWord, dict_word_create, dict_add_word_to_list}
use dictd.Index.Exact.{
  Matches, store, exact_match, exact_step, exact_loop, exact_from, dict_search_exact,
}

-- `ps` names the lines from `a` on that equal the word: each of them, once, in the file's order.
abbrev pub Lists : List ℕ → (ℕ → Cmp) → ℕ → List ℕ → Type 0
Lists buf c a [] = (q : ℕ) → is_start buf q ≡ true → a ≤ q → q < length buf → c q ≢ equal
Lists buf c a (p ∷ ps) =
    (is_start buf p ≡ true)
    × (a ≤ p)
    × (p < length buf)
    × (c p ≡ equal)
    × ((q : ℕ) → is_start buf q ≡ true → a ≤ q → q < p → c q ≢ equal)
    × Lists buf c (p + 1) ps

Lists-earlier :
    (buf : List ℕ) (c : ℕ → Cmp) (a b : ℕ) (ps : List ℕ)
    → ((q : ℕ) → is_start buf q ≡ true → a ≤ q → q < b → c q ≢ equal)
    → a ≤ b
    → Lists buf c b ps
    → Lists buf c a ps
Lists-earlier buf c a b [] h le l = λ q s x y. elim (Bool-cases (ltb q b)) [
  | inl i ↦ h q s x (ltb→lt q b i)
  | inr g ↦ l q s (ground arith) y
]
Lists-earlier buf c a b (p ∷ ps) h le (s, x, y, e, before, rest) = (
  s,
  omega arith,
  y,
  e,
  (λ q t i j. elim (Bool-cases (ltb q b)) [
    | inl k ↦ h q t i (ltb→lt q b k)
    | inr g ↦ before q t (ground arith) j
  ]),
  rest,
)

module _ (b64_decode_buf : List ℕ → ℕ) (t : Tables) (x : DictIndex) (word : List ℕ) (c : ℕ → Cmp)
    (o : IsOrdered (compare t x word) x.bytes c) (word_at : ℕ → DictWord)
    (created : (p : ℕ)
      → is_start x.bytes p ≡ true
      → p < length x.bytes
      → dict_word_create b64_decode_buf (drop p x.bytes) ≡ ok (word_at p)) where
  -- The list and the count grew by the lines that `ps` names.
  pub record Collected (l : List DictWord) (n a : ℕ) (m : Matches) : Type 0 where
    pub ps : List ℕ
    pub lists : Lists x.bytes c a ps
    pub list_of : m.list ≡ some (l ++ map word_at ps)
    pub count_of : m.count ≡ n + length ps

  abbrev matches : List DictWord → ℕ → Matches
  matches l n = record { list = some l; count = n }

  step_equal :
      (pt : ℕ) (l : List DictWord) (n : ℕ)
      → is_start x.bytes pt ≡ true
      → pt < length x.bytes
      → c pt ≡ equal
      → exact_step b64_decode_buf t x 0 word false pt none (matches l n)
        ≡ ok (true, none, matches (l ++ word_at pt ∷ []) (n + 1))
  unfolding exact_step exact_match store dict_add_word_to_list
  step_equal pt l n s lt e =
      rw (o.decided pt (length x.bytes) s o.ends lt (omega arith), e, created pt s lt) refl

  step_other :
      (pt : ℕ) (m : Matches)
      → is_start x.bytes pt ≡ true
      → pt < length x.bytes
      → c pt ≢ equal
      → exact_step b64_decode_buf t x 0 word false pt none m ≡ ok (false, none, m)
  unfolding exact_step
  step_other pt m s lt e =
      rw (o.decided pt (length x.bytes) s o.ends lt (omega arith)) (ground arith)

  loop_equal :
      (fuel pt : ℕ) (l : List DictWord) (n : ℕ)
      → is_start x.bytes pt ≡ true
      → pt < length x.bytes
      → c pt ≡ equal
      → exact_loop b64_decode_buf t x 0 word false (suc fuel) pt none (matches l n)
        ≡ exact_loop b64_decode_buf t x 0 word false fuel
            (find_next x.bytes pt (length x.bytes))
            none
            (matches (l ++ word_at pt ∷ []) (n + 1))
  unfolding exact_loop
  loop_equal fuel pt l n s lt e = rw (lt→ltb pt (length x.bytes) lt, step_equal pt l n s lt e) refl

  loop_other :
      (fuel pt : ℕ) (m : Matches)
      → is_start x.bytes pt ≡ true
      → pt < length x.bytes
      → c pt ≢ equal
      → exact_loop b64_decode_buf t x 0 word false (suc fuel) pt none m ≡ ok m
  unfolding exact_loop
  loop_other fuel pt m s lt e = rw (lt→ltb pt (length x.bytes) lt, step_other pt m s lt e) refl

  loop_stop :
      (fuel pt : ℕ) (m : Matches)
      → length x.bytes ≤ pt
      → exact_loop b64_decode_buf t x 0 word false (suc fuel) pt none m ≡ ok m
  unfolding exact_loop
  loop_stop fuel pt m h = rw (le→ltb pt (length x.bytes) h) refl

  nothing : (l : List DictWord) (n a : ℕ) → Lists x.bytes c a [] → Collected l n a (matches l n)
  nothing l n a h = record {
    ps = [];
    lists = h;
    list_of = ap some (sym (append-nil l));
    count_of = omega arith;
  }

  one_more :
      (l : List DictWord) (n pt next : ℕ) (m : Matches)
      → is_start x.bytes pt ≡ true
      → pt < length x.bytes
      → c pt ≡ equal
      → pt < next
      → ((q : ℕ) → pt < q → q < next → is_start x.bytes q ≡ false)
      → Collected (l ++ word_at pt ∷ []) (n + 1) next m
      → Collected l n pt m
  one_more l n pt next m s lt e above inner k = record {
    ps = pt ∷ k.ps;
    lists = (
      s,
      omega arith,
      lt,
      e,
      (λ q t i j. absurd (omega arith)),
      Lists-earlier x.bytes c (pt + 1) next k.ps
          (λ q t i j. absurd (false≢true (sym (inner q (omega arith) j) ∙ t))) (omega arith)
          k.lists,
    );
    list_of = k.list_of ∙ ap some (append_assoc l (word_at pt ∷ []) (map word_at k.ps));
    count_of = omega (arith, k.count_of);
  }

  is_equal : (k : Cmp) → (k ≡ equal) ⊎ (k ≢ equal)
  is_equal equal = inl refl
  is_equal less = inr (λ e. cc)
  is_equal prefix = inr (λ e. cc)
  is_equal greater = inr (λ e. cc)

  -- Behind a line that the word does not come after, nor equals, no line equals it.
  none_behind :
      (pt : ℕ) → is_start x.bytes pt ≡ true → 0 < rank (c pt) → c pt ≢ equal → Lists x.bytes c pt []
  none_behind pt s pos ne q t a b e =
      let r : rank (c q) ≡ 1 = rw e refl in
      let le = o.sorted pt q s t a b in ne (rank_one (c pt) (omega arith))
    where
      rank_one : (k : Cmp) → rank k ≡ 1 → k ≡ equal
      rank_one equal h = refl
      rank_one less h = absurd (omega arith)
      rank_one prefix h = absurd (omega arith)
      rank_one greater h = absurd (omega arith)

  exact_loop-Collected :
      (fuel pt : ℕ) (l : List DictWord) (n : ℕ)
      → is_start x.bytes pt ≡ true
      → ((q : ℕ) → is_start x.bytes q ≡ true → pt ≤ q → q < length x.bytes → 0 < rank (c q))
      → length x.bytes - pt < fuel
      → Returns
          (exact_loop b64_decode_buf t x 0 word false fuel pt none (matches l n))
          (Collected l n pt)
  exact_loop-Collected zero pt l n s h f = absurd (omega arith)
  exact_loop-Collected (suc fuel) pt l n s h f = elim (Bool-cases (ltb pt (length x.bytes))) [
    | inr gone ↦
        let le : length x.bytes ≤ pt = ground arith in
        rw (loop_stop fuel pt (matches l n) le) (nothing l n pt (λ q t a b. absurd (omega arith)))
    | inl room ↦
        let lt = ltb→lt pt (length x.bytes) room in
        elim (is_equal (c pt)) [
          | inr ne ↦
              rw (loop_other fuel pt (matches l n) s lt ne)
                (nothing l n pt (none_behind pt s (h pt s (omega arith) lt) ne))
          | inl e ↦
              let next = find_next x.bytes pt (length x.bytes) in
              let w = find_next-Next x.bytes pt (length x.bytes) lt (omega arith) o.ends in
              rw (loop_equal fuel pt l n s lt e) (
                Returns-map
                  (exact_loop b64_decode_buf t x 0 word false fuel next none
                    (matches (l ++ word_at pt ∷ []) (n + 1)))
                  _ _
                  (exact_loop-Collected fuel next (l ++ word_at pt ∷ []) (n + 1) w.starts
                    (λ q s' a b. h q s' (omega (arith, w.above)) b) (omega (arith, w.above)))
                  (λ m k. one_more l n pt next m s lt e w.above w.inner k))
        ]
  ]

  exact_from-Collected :
      (l : List DictWord) (found : Option ℕ)
      → Finds x.bytes c 0 found
      → Returns (exact_from b64_decode_buf t x 0 word (some l) false found) (Collected l 0 0)
  unfolding exact_from
  exact_from-Collected l none h = nothing l 0 0 (λ q s a b e. not_found q (h q s a b) e)
    where
      not_found : (q : ℕ) → (rank (c q) ≡ 0) ⊎ (rank (c q) ≡ 3) → c q ≢ equal
      not_found q (inl z) e = let r : rank (c q) ≡ 1 = rw e refl in absurd (omega arith)
      not_found q (inr z) e = let r : rank (c q) ≡ 1 = rw e refl in absurd (omega arith)
  exact_from-Collected l (some pt) (s, a, lt, pos, low, before) =
      Returns-map
        (exact_loop b64_decode_buf t x 0 word false (suc (length x.bytes - pt)) pt none
          (matches l 0))
        _ _
        (exact_loop-Collected (suc (length x.bytes - pt)) pt l 0 s
          (λ q t i j. omega (arith, o.sorted pt q s t i j)) (omega arith))
        (λ m k. record {
          ps = k.ps;
          lists =
              Lists-earlier x.bytes c 0 pt k.ps
                (λ q t i j e.
                  let r : rank (c q) ≡ 1 = rw e refl in absurd (omega (arith, before q t i j)))
                (omega arith) k.lists;
          list_of = k.list_of;
          count_of = k.count_of;
        })

  -- With no limit set, a search for the exact word in an index that is sorted for it, with right
  -- starting points, ends without fault; it appends the entries of all lines that equal the word,
  -- each once and in the file's order, and counts them.
  pub dict_search_exact-Collected :
      (l : List DictWord)
      → StartsRight t x word c
      → Returns (dict_search_exact b64_decode_buf t x 0 word (some l) false) (Collected l 0 0)
  unfolding dict_search_exact
  dict_search_exact-Collected l w =
      Returns-bind (dict_index_search t x word) _ _ _ (dict_index_search-Finds t x word c o w)
        (exact_from-Collected l)
