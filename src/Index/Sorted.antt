-- ===== src/Index/Sorted.antt =====
-- libdictd/index.c: an index that dictfmt wrote, compared by `compare_allchars`, is sorted for every
-- word, so that the search finds its words.
use dictd.Prelude.{
  ℕ, zero, suc, ◌+◌, ◌-◌, ◌≤◌, ◌<◌, ◌≡◌, inl, inr, List, [], ◌∷◌, ◌++◌, true, false, arith, ltb,
  ◌||◌, length, get_or, drop, Bool-cases, ltb→lt, ap,
}
use dictd.Prelude.Result.{ok, Returns}
use dictd.Index.Types.{Tables, DictIndex, is_stop}
use dictd.Index.Compare.{compare}
use dictd.Index.Order.{lex, IsWord, LexLe, compare_allchars-lex, rank-lex}
use dictd.Index.Lines.{is_start, get_or-drop}
use dictd.Index.Search.{dict_index_search}
use dictd.Index.Found.{IsOrdered}
use dictd.Index.First.{Finds, StartsRight, dict_index_search-Finds}

-- A file of lines, each a headword, a tab or newline, and more; the headwords stand in byte order.
pub record IsSortedFile (buf : List ℕ) : Type 0 where
  pub headword : ℕ → List ℕ
  pub mark : ℕ → ℕ
  pub tail : ℕ → List ℕ
  pub ends : is_start buf (length buf) ≡ true
  pub entry :
      (p : ℕ) → is_start buf p ≡ true → p < length buf → drop p buf ≡ headword p ++ mark p ∷ tail p
  pub words : (p : ℕ) → is_start buf p ≡ true → p < length buf → IsWord (headword p)
  pub marks : (p : ℕ) → is_start buf p ≡ true → p < length buf → is_stop (mark p) ≡ true
  pub sorted :
      (p q : ℕ)
      → is_start buf p ≡ true
      → is_start buf q ≡ true
      → p ≤ q
      → q < length buf
      → LexLe (headword p) (headword q)

IsWord-get_or :
    (w : List ℕ) (r : List ℕ) (k : ℕ)
    → IsWord w
    → k < length w
    → is_stop (get_or (w ++ r) k 0) ≡ false
IsWord-get_or [] r k h lt = absurd (omega arith)
IsWord-get_or (x ∷ w) r zero h lt = h.0
IsWord-get_or (x ∷ w) r (suc k) h lt = IsWord-get_or w r k h.1 (omega arith)

module _ (buf : List ℕ) (f : IsSortedFile buf) where
  -- A headword ends before the next line starts.
  pub headword_short :
      (p stop : ℕ)
      → is_start buf p ≡ true
      → is_start buf stop ≡ true
      → p < stop
      → stop ≤ length buf
      → length (f.headword p) < stop - p
  headword_short p stop s t lt fits = elim (Bool-cases (ltb (length (f.headword p)) (stop - p))) [
    | inl short ↦ ltb→lt (length (f.headword p)) (stop - p) short
    | inr long ↦
        let k = stop - p - 1 in
        let here : p < length buf = omega arith in
        let inner : k < length (f.headword p) = ground arith in
        let plain = IsWord-get_or (f.headword p) (f.mark p ∷ f.tail p) k (f.words p s here) inner in
        let same : p + k ≡ stop - 1 = omega arith in
        ground (
          arith,
          plain,
          get_or-drop buf p k,
          ap (λ (l : List ℕ). get_or l k 0) (f.entry p s here),
          ap (λ (j : ℕ). get_or buf j 0) same,
        )
  ]

module _ (t : Tables) (x : DictIndex) (f : IsSortedFile x.bytes)
    (bytewise : (x.flag_allchars || x.flag_utf8 || x.flag_8bit) ≡ true) (word : List ℕ)
    (word_plain : IsWord word) where
  compare-lex :
      (p stop : ℕ)
      → is_start x.bytes p ≡ true
      → is_start x.bytes stop ≡ true
      → p < stop
      → stop ≤ length x.bytes
      → compare t x word p stop ≡ ok (lex word (f.headword p))
  unfolding compare
  compare-lex p stop s e lt fits =
      let here : p < length x.bytes = omega arith in
      rw (bytewise, f.entry p s here)
        (compare_allchars-lex word (f.headword p) (f.mark p) (f.tail p) (stop - p) word_plain
          (f.words p s here) (f.marks p s here) (headword_short x.bytes f p stop s e lt fits))

  -- A sorted file is ordered for every word.
  pub compare-IsOrdered : IsOrdered (compare t x word) x.bytes (λ p. lex word (f.headword p))
  compare-IsOrdered = record {
    ends = f.ends;
    decided = compare-lex;
    sorted = λ p q s e le lt. rank-lex word (f.headword p) (f.headword q) (f.sorted p q s e le lt);
  }

  -- In a sorted index file whose flags ask for the comparison by bytes, with starting points that
  -- skip no line at or behind the word, `dict_index_search` ends without fault at the first line
  -- whose headword the word equals or is a prefix of, or tells that there is none.
  pub dict_index_search-sorted :
      StartsRight t x word (λ p. lex word (f.headword p))
      → Returns (dict_index_search t x word) (Finds x.bytes (λ p. lex word (f.headword p)) 0)
  dict_index_search-sorted = dict_index_search-Finds t x word _ compare-IsOrdered
