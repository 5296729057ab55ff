-- ===== src/Index/Opened.antt =====
-- libdictd/index.c: in a sorted index, the table of starting points that `dict_index_open` fills is
-- right for every word whose first character is not the capital of a letter of the alphabet.
use dictd.Prelude.{
  ℕ, suc, ◌+◌, ◌-◌, ◌≤◌, ◌<◌, ◌≡◌, refl, inl, inr, List, [], ◌∷◌, Bool, true, false, not, ◌||◌,
  ◌==◌, if◌then◌else◌, arith, ltb, length, All, Bool-cases, ==_iff, sym,
}
use mathlib.Core.Bool.{false≢true}
use dictd.Prelude.Result.{ok, Returns, Returns-bind, Returns-map}
use dictd.Index.Types.{Tables, DictIndex, is_stop}
use dictd.Index.Order.{lex, rank, compare_allchars-lex, rank-lex}
use dictd.Index.Lines.{is_start}
use dictd.Index.Search.{compare_8bit, search_loop, binary_search_8bit}
use dictd.Index.Found.{IsOrdered, search_loop-Split}
use dictd.Index.Sorted.{IsSortedFile, headword_short}
use dictd.Index.Open.{
  write, space, digits, uchar_max, start_of, enter, enter_all, write_upper, with_upper,
  enter_letter, enter_letters, write_ends, fill_table, opt_start_table,
}

-- Behind a character that is greater than a line, so is every word with that first character.
pub lex_first : (c : ℕ) (w h : List ℕ) → rank (lex (c ∷ []) h) ≡ 0 → rank (lex (c ∷ w) h) ≡ 0
unfolding lex
lex_first c w [] e = refl
lex_first c w (b ∷ []) e = ground (arith, e)
lex_first c w (b ∷ d ∷ h) e = ground (arith, e)

-- The index with the table.
abbrev pub opened : DictIndex → (ℕ → ℕ) → DictIndex
opened x s = record x { opt_start = s }

module _ (t : Tables) (x : DictIndex) (toupper : ℕ → ℕ) (f : IsSortedFile x.bytes)
    (bytewise : (x.flag_utf8 || x.flag_allchars) ≡ true) where
  pub flags : (x.flag_allchars || x.flag_utf8 || x.flag_8bit) ≡ true
  flags = ground (arith, bytewise)

  -- A table whose entries are lines, and which is right for the words that begin with `a`.
  pub record Good (a : ℕ) (s : ℕ → ℕ) : Type 0 where
    pub lines : (j : ℕ) → is_start x.bytes (s j) ≡ true
    pub inside : (j : ℕ) → s j ≤ length x.bytes
    pub skips :
        (q : ℕ) → is_start x.bytes q ≡ true → q < s a → rank (lex (a ∷ []) (f.headword q)) ≡ 0

  -- What the search for a word of one character gives.
  record StartOf (c p : ℕ) : Type 0 where
    line : is_start x.bytes p ≡ true
    inside : p ≤ length x.bytes
    skips : (q : ℕ) → is_start x.bytes q ≡ true → q < p → rank (lex (c ∷ []) (f.headword q)) ≡ 0

  compare_8bit-IsOrdered :
      (c : ℕ)
      → is_stop c ≡ false
      → IsOrdered (compare_8bit t x (c ∷ [])) x.bytes (λ p. lex (c ∷ []) (f.headword p))
  unfolding compare_8bit
  compare_8bit-IsOrdered c h = record {
    ends = f.ends;
    decided = λ p stop s e lt fits.
        let here : p < length x.bytes = omega arith in
        rw (bytewise, f.entry p s here)
          (compare_allchars-lex (c ∷ []) (f.headword p) (f.mark p) (f.tail p) (stop - p) (h, tt)
            (f.words p s here) (f.marks p s here) (headword_short x.bytes f p stop s e lt fits));
    sorted =
        λ p q s e le lt. rank-lex (c ∷ []) (f.headword p) (f.headword q) (f.sorted p q s e le lt);
  }

  start_of-StartOf : (c : ℕ) → is_stop c ≡ false → Returns (start_of t x toupper c) (StartOf c)
  unfolding start_of binary_search_8bit
  start_of-StartOf c h =
      let o = compare_8bit-IsOrdered c h in
      Returns-map
        (search_loop (compare_8bit t x (c ∷ [])) x.bytes (suc (length x.bytes - 0)) 0
          (length x.bytes))
        _ (StartOf c)
        (search_loop-Split (compare_8bit t x (c ∷ [])) x.bytes (λ p. lex (c ∷ []) (f.headword p)) o
          (suc (length x.bytes - 0)) 0 (length x.bytes) refl o.ends (omega arith) (omega arith)
          (omega arith))
        (λ r w. record {
          line = w.starts;
          inside = w.below;
          skips = λ q e lt. w.before q e (omega arith) lt;
        })

  module _ (a : ℕ) where
    write-Good :
        (c p : ℕ) (s : ℕ → ℕ)
        → Good a s
        → is_start x.bytes p ≡ true
        → p ≤ length x.bytes
        → (a ≡ c
            → (q : ℕ) → is_start x.bytes q ≡ true
            → q < p
            → rank (lex (a ∷ []) (f.headword q)) ≡ 0)
        → Good a (write c p s)
    unfolding write
    write-Good c p s g line inside skips = record {
      lines = λ j. elim (Bool-cases (j == c)) [ inl e ↦ rw e line | inr e ↦ rw e (g.lines j) ];
      inside = λ j. elim (Bool-cases (j == c)) [ inl e ↦ rw e inside | inr e ↦ rw e (g.inside j) ];
      skips = elim (Bool-cases (a == c)) [
        | inl e ↦ rw e (skips ((==_iff a c).0 e))
        | inr e ↦ rw e g.skips
      ];
    }

    write_start-Good : (c p : ℕ) (s : ℕ → ℕ) → Good a s → StartOf c p → Good a (write c p s)
    write_start-Good c p s g w =
        write-Good c p s g w.line w.inside (λ e q l lt. rw e (w.skips q l lt))

    enter-Good :
        (c : ℕ) (s : ℕ → ℕ)
        → is_stop c ≡ false
        → Good a s
        → Returns (enter t x toupper c s) (Good a)
    unfolding enter
    enter-Good c s h g =
        Returns-bind (start_of t x toupper c) (λ p. ok (write c p s)) (StartOf c) (Good a)
          (start_of-StartOf c h) (λ p w. write_start-Good c p s g w)

    enter_all-Good :
        (l : List ℕ) (s : ℕ → ℕ)
        → All (λ c. is_stop c ≡ false) l
        → Good a s
        → Returns (enter_all t x toupper l s) (Good a)
    unfolding enter_all
    enter_all-Good [] s h g = g
    enter_all-Good (c ∷ l) s (h, hs) g =
        Returns-bind (enter t x toupper c s) (enter_all t x toupper l) (Good a) (Good a)
          (enter-Good c s h g) (λ s' g'. enter_all-Good l s' hs g')

  -- A letter of the alphabet, whose capital is a byte; and is `a` only for the letter `a`.
  pub record IsLetter (a c : ℕ) : Type 0 where
    pub plain : is_stop c ≡ false
    pub byte : toupper c ≤ uchar_max
    pub not_capital : toupper c ≡ a → c ≡ a

  module _ (a : ℕ) where
    with_upper-Good :
        (c p : ℕ) (s : ℕ → ℕ)
        → IsLetter a c
        → StartOf c p
        → Good a s
        → Returns (with_upper t x toupper c p s) (Good a)
    unfolding with_upper write_upper
    with_upper-Good c p s h w g = elim (Bool-cases (not t.utf8_mode || ltb c 128)) [
      | inr e ↦ rw e g
      | inl e ↦
          let small : ltb uchar_max (toupper c) ≡ false = ground (arith, h.byte) in
          rw (e, small)
            (write-Good a (toupper c) p s g w.line w.inside
              (λ same q l lt. rw (sym (h.not_capital (sym same))) (w.skips q l lt)))
    ]

    enter_letter-Good :
        (c : ℕ) (s : ℕ → ℕ)
        → IsLetter a c
        → Good a s
        → Returns (enter_letter t x toupper c s) (Good a)
    unfolding enter_letter
    enter_letter-Good c s h g =
        Returns-bind (start_of t x toupper c) (λ p. with_upper t x toupper c p (write c p s))
          (StartOf c) (Good a) (start_of-StartOf c h.plain)
          (λ p w. with_upper-Good c p (write c p s) h w (write_start-Good a c p s g w))

    enter_letters-Good :
        (l : List ℕ) (s : ℕ → ℕ)
        → All (IsLetter a) l
        → Good a s
        → Returns (enter_letters t x toupper l s) (Good a)
    unfolding enter_letters
    enter_letters-Good [] s h g = g
    enter_letters-Good (c ∷ l) s (h, hs) g =
        Returns-bind (enter_letter t x toupper c s) (enter_letters t x toupper l) (Good a) (Good a)
          (enter_letter-Good c s h g) (λ s' g'. enter_letters-Good l s' hs g')

    write_ends-Good : (s : ℕ → ℕ) → a < uchar_max → Good a s → Good a (write_ends t x toupper s)
    unfolding write_ends
    write_ends-Good s small g =
        let g1 =
          write-Good a uchar_max (length x.bytes) s g f.ends (omega arith)
            (λ e. absurd (omega (arith, small, e))) in
        write-Good a (uchar_max + 1) (length x.bytes) (write uchar_max (length x.bytes) s) g1 f.ends
          (omega arith) (λ e. absurd (omega (arith, small, e)))

    fill_table-Good :
        (alphabet : List ℕ)
        → All (IsLetter a) alphabet
        → a < uchar_max
        → Returns (fill_table t x toupper alphabet) (Good a)
    unfolding fill_table
    fill_table-Good alphabet h small =
        Returns-bind (enter t x toupper space (λ j. 0)) _ (Good a) (Good a)
          (enter-Good a space (λ j. 0) refl
            (record {
              lines = λ j. refl;
              inside = λ j. omega arith;
              skips = λ q l lt. absurd (omega (arith, lt));
            }))
          (λ s1 g1.
            Returns-bind (enter_letters t x toupper alphabet s1) _ (Good a) (Good a)
              (enter_letters-Good alphabet s1 h g1)
              (λ s2 g2.
                Returns-bind (enter_all t x toupper digits s2)
                  (λ s3. ok (write_ends t x toupper s3)) (Good a) (Good a)
                  (enter_all-Good a digits s2
                    (
                      refl,
                      (refl, (refl, (refl, (refl, (refl, (refl, (refl, (refl, (refl, tt))))))))),
                    )
                    g2)
                  (λ s3 g3. write_ends-Good s3 small g3)))

    -- If the table is in use, it is good.
    abbrev pub InUse : (ℕ → ℕ) → Type 0
    InUse s = t.opt_start_mode ≡ true → Good a s

    in_mode-Good :
        (alphabet : List ℕ) (b : Bool)
        → All (IsLetter a) alphabet
        → a < uchar_max
        → Returns
            (if b then fill_table t x toupper alphabet else ok x.opt_start)
            (λ s. b ≡ true → Good a s)
    in_mode-Good alphabet true h small =
        Returns-map (fill_table t x toupper alphabet) (Good a) (λ s. true ≡ true → Good a s)
          (fill_table-Good alphabet h small) (λ s g d. g)
    in_mode-Good alphabet false h small = λ d. absurd (false≢true d)

    pub opt_start_table-InUse :
        (alphabet : List ℕ)
        → All (IsLetter a) alphabet
        → a < uchar_max
        → Returns (opt_start_table t x toupper alphabet) InUse
    unfolding opt_start_table
    opt_start_table-InUse alphabet h small = in_mode-Good alphabet t.opt_start_mode h small
