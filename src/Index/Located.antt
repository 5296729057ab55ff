-- ===== src/Index/Located.antt =====
-- libdictd/index.c: in a sorted index that is open, the searches find what they look for.
use dictd.Prelude.{
  ℕ, ◌+◌, ◌<◌, ◌≡◌, refl, inl, inr, List, ◌∷◌, some, true, false, ◌||◌, arith, ltb, length, drop,
  All, Bool-cases,
}
use dictd.Prelude.Result.{ok, Returns, Returns-map}
use dictd.Index.Types.{Tables, DictIndex}
use dictd.Index.Order.{lex, IsWord}
use dictd.Index.Lines.{is_start}
use dictd.Index.Search.{search_start, search_stop, dict_index_search}
use dictd.Index.First.{Finds, StartsRight}
use dictd.Index.Sorted.{IsSortedFile, compare-IsOrdered, dict_index_search-sorted}
use dictd.Index.Word.{DictWord, dict_word_create}
use dictd.Index.Exact.{dict_search_exact}
use dictd.Index.Collected.{Collected, dict_search_exact-Collected}
use dictd.Index.Open.{uchar_max, opt_start_table}
use dictd.Index.Opened.{lex_first, opened, flags, IsLetter, InUse, opt_start_table-InUse}

module _ (t : Tables) (x : DictIndex) (toupper : ℕ → ℕ) (f : IsSortedFile x.bytes)
    (bytewise : (x.flag_utf8 || x.flag_allchars) ≡ true) (a : ℕ) where
  InUse-StartsRight :
      (w : List ℕ) (s : ℕ → ℕ)
      → InUse t x toupper f bytewise a s
      → StartsRight t (opened x s) (a ∷ w) (λ p. lex (a ∷ w) (f.headword p))
  unfolding search_start search_stop
  InUse-StartsRight w s u = elim (Bool-cases t.opt_start_mode) [
    | inr e ↦
        let no_stop : ltb (length x.bytes) 0 ≡ false = ground arith in
        record {
          start_line = rw e refl;
          stop_line = rw (e, no_stop) f.ends;
          ordered = rw (e, no_stop) (omega arith);
          inside = rw (e, no_stop) (omega arith);
          skipped = rw e (λ q l lt. absurd (omega (arith, lt)));
        }
    | inl e ↦
        let g = u e in
        let k = t.i2c (t.c2i a + 1) in
        elim (Bool-cases (ltb (s k) (s a))) [
          | inl b ↦ record {
            start_line = rw e (g.lines a);
            stop_line = rw (e, b) f.ends;
            ordered = rw (e, b) (g.inside a);
            inside = rw (e, b) (omega arith);
            skipped = rw e (λ q l lt. lex_first a w (f.headword q) (g.skips q l lt));
          }
          | inr b ↦ record {
            start_line = rw e (g.lines a);
            stop_line = rw (e, b) (g.lines k);
            ordered = rw (e, b) (ground (arith, b));
            inside = rw (e, b) (g.inside k);
            skipped = rw e (λ q l lt. lex_first a w (f.headword q) (g.skips q l lt));
          }
        ]
  ]

  -- The starting points of a sorted index compared by bytes (UTF-8 or all characters) are found
  -- without fault, and with them, or without optStart_mode, so is the first line whose headword
  -- the word equals or is a prefix of, or that there is none. The word has a character or more,
  -- and no tab and newline in it; its first character is below 255, and it is not the capital of
  -- a letter of the alphabet other than itself. No letter is a tab or newline, and its capital is
  -- a byte.
  pub dict_index_search-opt_start_table :
      (alphabet : List ℕ) (w : List ℕ)
      → All (IsLetter t x toupper f bytewise a) alphabet
      → a < uchar_max
      → IsWord (a ∷ w)
      → Returns (opt_start_table t x toupper alphabet) (λ s.
        Returns
          (dict_index_search t (opened x s) (a ∷ w))
          (Finds x.bytes (λ p. lex (a ∷ w) (f.headword p)) 0))
  dict_index_search-opt_start_table alphabet w h small plain =
      Returns-map (opt_start_table t x toupper alphabet) (InUse t x toupper f bytewise a) _
        (opt_start_table-InUse t x toupper f bytewise a alphabet h small)
        (λ s u.
          dict_index_search-sorted t (opened x s) f (flags t x toupper f bytewise) (a ∷ w) plain
            (InUse-StartsRight w s u))

  -- A search for the exact word in a sorted index compared by bytes (UTF-8 or all characters),
  -- with no limit set, with the starting points that the opening of the index has found, or
  -- without optStart_mode: both end without fault, and the search appends the entries of all
  -- lines that equal the word, each once and in the order of the file, and counts them. Each line
  -- of the index has the columns of an entry. The word has a character or more, and no tab and
  -- newline in it; its first character is below 255, and it is not the capital of a letter of the
  -- alphabet other than itself. No letter is a tab or newline, and its capital is a byte.
  pub dict_search_exact-opt_start_table :
      (b64_decode_buf : List ℕ → ℕ) (word_at : ℕ → DictWord) (alphabet : List ℕ) (w : List ℕ)
      (l : List DictWord)
      (created : (p : ℕ)
        → is_start x.bytes p ≡ true
        → p < length x.bytes
        → dict_word_create b64_decode_buf (drop p x.bytes) ≡ ok (word_at p))
      → All (IsLetter t x toupper f bytewise a) alphabet
      → a < uchar_max
      → (plain : IsWord (a ∷ w))
      → Returns (opt_start_table t x toupper alphabet) (λ s.
        Returns (dict_search_exact b64_decode_buf t (opened x s) 0 (a ∷ w) (some l) false) (
          Collected b64_decode_buf t
            (opened x s)
            (a ∷ w)
            (λ p. lex (a ∷ w) (f.headword p))
            (compare-IsOrdered t (opened x s) f (flags t x toupper f bytewise) (a ∷ w) plain)
            word_at
            created
            l
            0
            0))
  dict_search_exact-opt_start_table b64_decode_buf word_at alphabet w l created h small plain =
      Returns-map (opt_start_table t x toupper alphabet) (InUse t x toupper f bytewise a) _
        (opt_start_table-InUse t x toupper f bytewise a alphabet h small)
        (λ s u.
          dict_search_exact-Collected b64_decode_buf t (opened x s) (a ∷ w)
            (λ p. lex (a ∷ w) (f.headword p))
            (compare-IsOrdered t (opened x s) f (flags t x toupper f bytewise) (a ∷ w) plain)
            word_at created l (InUse-StartsRight w s u))
