-- ===== src/Tests/Index.antt =====
-- Tests of libdictd/index.c on an index of two lines, with the headwords a and b.
use dictd.Prelude.{
  ℕ, zero, suc, ◌≤◌, ◌<◌, ◌≡◌, refl, ◌⊎◌, inl, inr, List, [], ◌∷◌, ◌++◌, none, some, All, true,
  false, arith, ◌==◌, if◌then◌else◌, length, drop,
}
use dictd.Prelude.Result.{ok, ◌>>=◌, Returns}
use dictd.Index.Types.{Tables, DictIndex}
use dictd.Index.Compare.{compare, compare_allchars}
use dictd.Index.Order.{lex, rank, LexLe, compare_allchars-lex, rank-lex}
use dictd.Index.Lines.{find_prev, find_next, is_start}
use dictd.Index.Search.{
  dict_index_search, binary_search, linear_search, search_loop, linear_loop, middle,
  binary_search_8bit, compare_8bit,
}
use dictd.Index.First.{Finds}
use dictd.Index.Sorted.{IsSortedFile, compare-IsOrdered}
use dictd.Index.Word.{
  DictWord, quote, read_quoted, scan_columns, dict_word_create, read_quoted-quote,
}
use dictd.Index.Entry.{dict_word_create-four}
use dictd.Index.Exact.{dict_search_exact}
use dictd.Index.Dedup.{dict_search_exact-uniq}
use dictd.Index.Collected.{Collected}
use dictd.Index.Open.{
  write, start_of, enter, enter_all, write_upper, with_upper, enter_letter, enter_letters,
  write_ends, fill_table, opt_start_table,
}
use dictd.Index.Opened.{opened, flags, IsLetter}
use dictd.Index.Located.{dict_index_search-opt_start_table, dict_search_exact-opt_start_table}

-- "a\t\t\nb\t\t\n"
abbrev two_lines : List ℕ
two_lines = b'a' ∷ 9 ∷ 9 ∷ 10 ∷ b'b' ∷ 9 ∷ 9 ∷ 10 ∷ []

abbrev pub letter_b : List ℕ
letter_b = b'b' ∷ []

abbrev pub tables : Tables
tables = record {
  utf8_mode = true;
  opt_start_mode = true;
  tolower = λ c. c;
  c2i = λ c. c;
  i2c = λ c. c;
}

abbrev starting_points : ℕ → ℕ
starting_points c = if c == b'a' then 0 else if c == b'b' then 4 else 8

abbrev pub index : DictIndex
index = record {
  bytes = two_lines;
  opt_start = starting_points;
  flag_utf8 = true;
  flag_8bit = false;
  flag_allchars = false;
  flag_casesensitive = false;
  isspacealnum = λ c. true;
}

line_starts : (p : ℕ) → is_start two_lines p ≡ true → p < 8 → (p ≡ 0) ⊎ (p ≡ 4)
line_starts zero s h = inl refl
line_starts (suc zero) s h = cc
line_starts (suc (suc zero)) s h = cc
line_starts (suc (suc (suc zero))) s h = cc
line_starts (suc (suc (suc (suc zero)))) s h = inr refl
line_starts (suc (suc (suc (suc (suc zero))))) s h = cc
line_starts (suc (suc (suc (suc (suc (suc zero)))))) s h = cc
line_starts (suc (suc (suc (suc (suc (suc (suc zero))))))) s h = cc
line_starts (suc (suc (suc (suc (suc (suc (suc (suc p)))))))) s h = absurd (omega arith)

-- What holds of the two lines holds of every line.
every_line : (P : ℕ → Type 0) → P 0 → P 4 → (p : ℕ) → is_start two_lines p ≡ true → p < 8 → P p
every_line P h0 h4 p s lt = elim (line_starts p s lt) [ inl e ↦ rw e h0 | inr e ↦ rw e h4 ]

abbrev headword : ℕ → List ℕ
headword p = if p == 0 then b'a' ∷ [] else letter_b

in_order :
    (p q : ℕ)
    → is_start two_lines p ≡ true
    → is_start two_lines q ≡ true
    → p ≤ q
    → q < 8
    → LexLe (headword p) (headword q)
unfolding lex
in_order p q s t le lt = elim (line_starts p s (omega arith)) [
  | inl e ↦ elim (line_starts q t lt) [ inl f ↦ rw (e, f) (λ d. cc) | inr f ↦ rw (e, f) (λ d. cc) ]
  | inr e ↦ elim (line_starts q t lt) [ inl f ↦ absurd (omega arith) | inr f ↦ rw (e, f) (λ d. cc) ]
]

abbrev sorted_file : IsSortedFile two_lines
sorted_file = record {
  headword = headword;
  mark = λ p. 9;
  tail = λ p. drop 2 (drop p two_lines);
  ends = refl;
  entry = every_line _ refl refl;
  words = every_line _ (refl, tt) (refl, tt);
  marks = every_line _ refl refl;
  sorted = in_order;
}

-- The words themselves.
found_second_line : dict_index_search tables index letter_b ≡ ok (some 4)
unfolding dict_index_search binary_search linear_search search_loop linear_loop middle find_prev
    find_next compare compare_allchars
found_second_line = refl

compare_allchars-lex_example :
    compare_allchars letter_b (b'a' ∷ 9 ∷ 10 ∷ []) 3 ≡ ok (lex letter_b (b'a' ∷ []))
compare_allchars-lex_example =
    compare_allchars-lex letter_b (b'a' ∷ []) 9 (10 ∷ []) 3 (refl, tt) (refl, tt) refl (omega arith)

rank-lex_example : rank (lex letter_b (b'a' ∷ [])) ≤ rank (lex letter_b letter_b)
rank-lex_example =
    rank-lex letter_b (b'a' ∷ []) letter_b (in_order 0 4 refl refl (omega arith) (omega arith))

-- The alphabet of the tests, and their capitals.
abbrev alphabet : List ℕ
alphabet = b'a' ∷ b'b' ∷ []

abbrev capital : ℕ → ℕ
capital c = if c == b'a' then b'A' else if c == b'b' then b'B' else c

letters : All (IsLetter tables index capital sorted_file refl b'b') alphabet
letters = (
  record { plain = refl; byte = omega arith; not_capital = λ e. absurd (omega (arith, e)) },
  (record { plain = refl; byte = omega arith; not_capital = λ e. refl }, tt),
)

dict_index_search-opt_start_table_example :
    Returns (opt_start_table tables index capital alphabet) (λ s.
      Returns
        (dict_index_search tables (opened index s) letter_b)
        (Finds two_lines (λ p. lex letter_b (headword p)) 0))
dict_index_search-opt_start_table_example =
    dict_index_search-opt_start_table tables index capital sorted_file refl b'b' alphabet [] letters
      (omega arith) (refl, tt)

-- With the table that the opening of the index has filled.
found_in_opened :
    (opt_start_table tables index capital alphabet >>= λ s.
    dict_index_search tables (opened index s) letter_b)
    ≡ ok (some 4)
unfolding opt_start_table fill_table enter enter_all enter_letter enter_letters start_of with_upper
    write_upper write_ends write binary_search_8bit compare_8bit dict_index_search binary_search
    linear_search search_loop linear_loop middle find_prev find_next compare compare_allchars
found_in_opened = refl

-- "A\t\t\na\t\t\n", a sorted index in which letters keep their case. The search for A begins where
-- the search for a does, behind its line.
abbrev capital_first : DictIndex
capital_first = record index {
  bytes = b'A' ∷ 9 ∷ 9 ∷ 10 ∷ b'a' ∷ 9 ∷ 9 ∷ 10 ∷ [];
  flag_casesensitive = true;
}

capital_missed :
    (opt_start_table tables capital_first capital alphabet >>= λ s.
    dict_index_search tables (opened capital_first s) (b'A' ∷ []))
    ≡ ok none
unfolding opt_start_table fill_table enter enter_all enter_letter enter_letters start_of with_upper
    write_upper write_ends write binary_search_8bit compare_8bit dict_index_search binary_search
    linear_search search_loop linear_loop middle find_prev find_next compare compare_allchars
capital_missed = refl

read_quoted-quote_example :
    read_quoted (quote (b'"' ∷ 92 ∷ []) ++ (b'"' ∷ 9 ∷ [])) ≡ some (b'"' ∷ 92 ∷ [], 9 ∷ [])
read_quoted-quote_example = read_quoted-quote (b'"' ∷ 92 ∷ []) (9 ∷ [])

dict_word_create-four_example :
    dict_word_create length (letter_b ++ 9 ∷ [] ++ 9 ∷ (b'C' ∷ []) ++ 9 ∷ (b'B' ∷ []) ++ 10 ∷ [])
    ≡ ok (record { word = quote (b'B' ∷ []); start = 0; stop = 1 })
dict_word_create-four_example =
    dict_word_create-four length letter_b [] (b'C' ∷ []) (refl, tt) tt (refl, tt) (b'B' ∷ []) []
      (refl, tt)

dict_search_exact-uniq_example :
    dict_search_exact length tables index 5 letter_b (some []) true
    ≡ dict_search_exact length tables index 5 letter_b (some []) false
dict_search_exact-uniq_example = dict_search_exact-uniq length tables index 5 letter_b (some [])

abbrev word_at : ℕ → DictWord
word_at p = record { word = headword p; start = 0; stop = 0 }

created :
    (p : ℕ)
    → is_start two_lines p ≡ true
    → p < 8
    → dict_word_create length (drop p two_lines) ≡ ok (word_at p)
unfolding dict_word_create scan_columns quote
created = every_line _ refl refl

dict_search_exact-opt_start_table_example :
    Returns (opt_start_table tables index capital alphabet) (λ s.
      Returns (dict_search_exact length tables (opened index s) 0 letter_b (some []) false) (
        Collected length tables
          (opened index s)
          letter_b
          (λ p. lex letter_b (headword p))
          (compare-IsOrdered tables
            (opened index s)
            sorted_file
            (flags tables index capital sorted_file refl)
            letter_b
            (refl, tt))
          word_at
          created
          []
          0
          0))
dict_search_exact-opt_start_table_example =
    dict_search_exact-opt_start_table tables index capital sorted_file refl b'b' length word_at
      alphabet [] [] created letters (omega arith) (refl, tt)
